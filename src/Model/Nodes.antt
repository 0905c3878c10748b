-- ===== src/Model/Nodes.antt =====
-- adapter/model/model.go and build.go: what a model holds, and the nodes of the builder. A pointer to
-- a part or a requirement is its index in the builder's list.
use sysml_federation.Base.{ℕ, List, Bool, Option, Bytes}
use sysml_federation.Syntax.Ast.{
  Direction, Comparison, Expr, PartFields, PartDef, PortDef, RequirementDef, RequirementUsage,
  VerificationDef, VerificationUsage,
}
use sysml_federation.Syntax.Token.{Span}

pub record Attribute (F : Type 0) : Type 0 where
  pub name : Bytes
  pub value : Option F
  pub unit : Bytes
  pub editable : Bool
  pub expression : Bytes
  pub span : Span

pub record Port : Type 0 where
  pub name : Bytes
  pub direction : Direction

pub record Connection : Type 0 where
  pub id : Bytes
  pub from : Bytes
  pub from_port : Bytes
  pub to : Bytes
  pub to_port : Bytes

-- Its child parts are those of its node.
pub record Part (F : Type 0) : Type 0 where
  pub id : Bytes
  pub short_name : Bytes
  pub name : Bytes
  pub definition : Bytes
  pub doc : Bytes
  pub attributes : List (Attribute F)
  pub ports : List Port
  pub connections : List Connection
  pub satisfies : List Bytes

pub record Requirement (F : Type 0) : Type 0 where
  pub id : Bytes
  pub short_name : Bytes
  pub name : Bytes
  pub text : Bytes
  pub subject : Bytes
  pub quantity : Bytes
  pub comparison : Comparison
  pub limit : F
  pub limit_unit : Bytes
  pub limit_editable : Bool
  pub derived_from : List Bytes
  pub derives : List Bytes
  pub satisfied_by : List Bytes
  pub verified_by : List Bytes
  pub limit_span : Span

pub record VerificationCase : Type 0 where
  pub id : Bytes
  pub short_name : Bytes
  pub name : Bytes
  pub verifies : List Bytes

-- The usage that binds a slot has the slot's name, so its value says which one it is.
pub record Slot (F : Type 0) : Type 0 where
  pub name : Bytes
  pub bind : Option (Expr F)

-- `enclosing` are the parts that the parent pointers lead through, the innermost first.
pub record PartNode (F : Type 0) : Type 0 where
  pub ast : PartFields F
  pub defs : List (PartDef F)
  pub enclosing : List ℕ
  pub children : List ℕ
  pub attrs : List (Slot F)
  pub out : Part F

pub record ReqNode (F : Type 0) : Type 0 where
  pub ast : RequirementUsage F
  pub def : Option (RequirementDef F)
  pub attrs : List (Slot F)
  pub subject : Option ℕ
  pub out : Requirement F

pub record VcNode : Type 0 where
  pub ast : VerificationUsage
  pub def : Option VerificationDef
  pub out : VerificationCase

-- The maps of the definitions, with the entry set last in front.
pub record Definitions (F : Type 0) : Type 0 where
  pub part_defs : List (Bytes × PartDef F)
  pub port_defs : List (Bytes × PortDef)
  pub req_defs : List (Bytes × RequirementDef F)
  pub vc_defs : List (Bytes × VerificationDef)

-- What a name in a value can be looked up in.
pub record Scope (F : Type 0) : Type 0 where
  pub parts : List (PartNode F)
  pub roots : List ℕ
  pub by_name : List (Bytes × ℕ)
  pub reqs : List (ReqNode F)
  pub req_by_name : List (Bytes × ℕ)
  pub vcs : List VcNode

-- An evaluated value with its unit.
pub record Quantity (F : Type 0) : Type 0 where
  pub num : F
  pub unit : Bytes

-- Whose attributes a name resolves against: eval has either a part or a requirement.
pub data Owner : Type 0 where
  of_part : ℕ → Owner
  of_req : ℕ → Owner

-- A binding: an owner has at most one slot of a name, and a usage binds the slot of its name.
pub record Key : Type 0 where
  pub owner : Owner
  pub name : Bytes

-- float64 as the package uses it.
pub record Arithmetic (F : Type 0) : Type 0 where
  pub zero : F
  pub plus : F → F → F
  pub minus : F → F → F
  pub times : F → F → F
  pub over : F → F → F
  pub is_zero : F → Bool
  pub is_inf : F → Bool
  pub is_nan : F → Bool
  pub is_negative : F → Bool
  pub add_zero : F → F
  pub format_float : F → Bytes

-- A limit: its value, and the span of the literal that an edit may patch.
pub record Limit (F : Type 0) : Type 0 where
  pub quantity : Quantity F
  pub literal_span : Option Span

-- b.m.literals: how many projected values each literal's span carries.
abbrev pub Counts : Type 0
Counts = List (Span × ℕ)

-- b.values and b.busy
pub record Memo (F : Type 0) : Type 0 where
  pub values : List (Key × Quantity F)
  pub busy : List Key

-- The builder behind the nodes: linking, constraints and the projection change it.
pub record Building (F : Type 0) : Type 0 where
  pub scope : Scope F
  pub literals : Counts
  pub memo : Memo F
