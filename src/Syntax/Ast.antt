-- ===== src/Syntax/Ast.antt =====
-- adapter/syntax/ast.go. `F` is the type of float64. A field whose type is a slice of the type
-- itself (Body, Parts) stands beside the other fields, which are a record.
use sysml_federation.Base.{List, [], Bool, Option, Bytes, bytes}
use sysml_federation.Syntax.Token.{Span}

pub record Import : Type 0 where
  pub path : Bytes
  pub all : Bool
  pub span : Span

pub record Doc : Type 0 where
  pub text : Bytes
  pub span : Span

pub record ItemDef : Type 0 where
  pub short_name : Bytes
  pub name : Bytes
  pub span : Span

-- The zero value is no direction.
pub data Direction : Type 0 where
  direction_zero direction_in direction_out direction_in_out : Direction

-- Direction.String
unfoldable pub direction_string : Direction → Bytes
direction_string direction_in = bytes "IN"
direction_string direction_out = bytes "OUT"
direction_string _ = bytes "INOUT"

pub record DirectedItem : Type 0 where
  pub direction : Direction
  pub name : Bytes
  pub type : Bytes
  pub span : Span

pub record PortDef : Type 0 where
  pub short_name : Bytes
  pub name : Bytes
  pub doc : Option Doc
  pub items : List DirectedItem
  pub span : Span

pub record PortUsage : Type 0 where
  pub short_name : Bytes
  pub name : Bytes
  pub type : Bytes
  pub span : Span

pub record FeatureChain : Type 0 where
  pub names : List Bytes
  pub span : Span

pub record Connect : Type 0 where
  pub from : FeatureChain
  pub to : FeatureChain
  pub span : Span

pub record Satisfy : Type 0 where
  pub requirement : FeatureChain
  pub by : FeatureChain
  pub span : Span

pub record Subject : Type 0 where
  pub name : Bytes
  pub type : Bytes
  pub value : Option FeatureChain
  pub span : Span

-- The zero value is no comparison.
pub data Comparison : Type 0 where
  comparison_zero ge gt le lt eq : Comparison

-- Comparison.String
unfoldable pub comparison_string : Comparison → Bytes
comparison_string comparison_zero = []
comparison_string ge = bytes "GE"
comparison_string gt = bytes "GT"
comparison_string le = bytes "LE"
comparison_string lt = bytes "LT"
comparison_string eq = bytes "EQ"

pub data Operator : Type 0 where
  add sub mul div : Operator

pub record Literal (F : Type 0) : Type 0 where
  pub number : F
  pub unit : Bytes
  pub span : Span

pub data Expr (F : Type 0) : Type 0 where
  literal : Literal F → Expr F
  feature_chain : FeatureChain → Expr F
  binary : Operator → Expr F → Expr F → Span → Expr F

pub record AttributeFields (F : Type 0) : Type 0 where
  pub short_name : Bytes
  pub name : Bytes
  pub type : Bytes
  pub redefines : Bool
  pub value : Option (Expr F)
  pub span : Span

mutual
  pub data AttributeUsage (F : Type 0) : Type 0 where
    attribute_usage : AttributeFields F → AttributeUsages F → AttributeUsage F

  pub data AttributeUsages (F : Type 0) : Type 0 where
    no_attributes : AttributeUsages F
    attributes_then : AttributeUsages F → AttributeUsage F → AttributeUsages F

pub record PartFields (F : Type 0) : Type 0 where
  pub short_name : Bytes
  pub name : Bytes
  pub type : Bytes
  pub doc : Option Doc
  pub attributes : List (AttributeUsage F)
  pub ports : List PortUsage
  pub connects : List Connect
  pub satisfies : List Satisfy
  pub span : Span

-- The lists in the block grow at their end, as append does.
mutual
  pub data PartUsage (F : Type 0) : Type 0 where
    part_usage : PartFields F → PartUsages F → PartUsage F

  pub data PartUsages (F : Type 0) : Type 0 where
    no_parts : PartUsages F
    parts_then : PartUsages F → PartUsage F → PartUsages F

pub record PartDef (F : Type 0) : Type 0 where
  pub abstract : Bool
  pub short_name : Bytes
  pub name : Bytes
  pub specializes : Bytes
  pub doc : Option Doc
  pub attributes : List (AttributeUsage F)
  pub ports : List PortUsage
  pub parts : List (PartUsage F)
  pub span : Span

pub record RequireConstraint (F : Type 0) : Type 0 where
  pub left : Expr F
  pub op : Comparison
  pub right : Expr F
  pub span : Span

pub record RequirementBody (F : Type 0) : Type 0 where
  pub doc : Option Doc
  pub subject : Option Subject
  pub attributes : List (AttributeUsage F)
  pub constraint : Option (RequireConstraint F)

pub record RequirementDef (F : Type 0) : Type 0 where
  pub short_name : Bytes
  pub name : Bytes
  pub specializes : Bytes
  pub body : RequirementBody F
  pub span : Span

pub record RequirementUsage (F : Type 0) : Type 0 where
  pub short_name : Bytes
  pub name : Bytes
  pub type : Bytes
  pub body : RequirementBody F
  pub span : Span

pub record Objective : Type 0 where
  pub verify : FeatureChain
  pub span : Span

pub record VerificationBody : Type 0 where
  pub doc : Option Doc
  pub subject : Option Subject
  pub objective : Option Objective

pub record VerificationDef : Type 0 where
  pub short_name : Bytes
  pub name : Bytes
  pub body : VerificationBody
  pub span : Span

pub record VerificationUsage : Type 0 where
  pub short_name : Bytes
  pub name : Bytes
  pub type : Bytes
  pub body : VerificationBody
  pub span : Span

pub record DerivationConnection : Type 0 where
  pub original : FeatureChain
  pub derives : List FeatureChain
  pub span : Span

pub record Package (F : Type 0) : Type 0 where
  pub short_name : Bytes
  pub name : Bytes
  pub doc : Option Doc
  pub imports : List Import
  pub attributes : List (AttributeUsage F)
  pub item_defs : List ItemDef
  pub port_defs : List PortDef
  pub part_defs : List (PartDef F)
  pub requirement_defs : List (RequirementDef F)
  pub verification_defs : List VerificationDef
  pub parts : List (PartUsage F)
  pub requirements : List (RequirementUsage F)
  pub verifications : List VerificationUsage
  pub derivations : List DerivationConnection
  pub span : Span

pub record File (F : Type 0) : Type 0 where
  pub name : Bytes
  pub src : Bytes
  pub package_ : Package F
