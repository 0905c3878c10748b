-- ===== src/Model/Constraint.antt =====
-- adapter/model/constraint.go: the quantity, comparison and limit of a requirement.
pub mod Ending
pub mod Judged
use sysml_federation.Base.{
  ℕ, zero, suc, ◌+◌, List, [], ◌∷◌, ◌++◌, Bool, true, false, not, ◌&&◌, Option, none, some,
  if◌then◌else◌, ◌==◌, Bytes, bytes, bytes_eq, update_nth, is_some,
}
use sysml_federation.Model.Declare.{find_slot}
use sysml_federation.Model.Eval.{eval, eval_fuel, req_at}
use sysml_federation.Model.Nodes.{
  Slot, Part, Requirement, PartNode, ReqNode, Scope, Quantity, Limit, Counts, Memo, Building, Owner,
  of_req, Arithmetic,
}
use sysml_federation.Model.Outcome.{
  Outcome, done, refused, crash, out_of_fuel, pure, ◌>>=◌, ◌>>◌, Source, fail, refuse_if,
}
use sysml_federation.Model.Resolve.{node_at, child, text_at}
use sysml_federation.Syntax.Ast.{
  Comparison, comparison_zero, ge, gt, le, lt, eq, FeatureChain, Subject, Literal, Expr, literal,
  feature_chain, binary, RequireConstraint, RequirementDef,
}
use sysml_federation.Syntax.Token.{Span}

unfoldable pub span_eq : Span → Span → Bool
span_eq a b = a.start == b.start && a.stop == b.stop

-- m.literals[at]
unfoldable pub count_of : Span → Counts → ℕ
count_of at [] = 0
count_of at ((b, n) ∷ m) = let rest = count_of at m in if span_eq b at then n else rest

-- m.literals[at]++
unfoldable pub count_literal : Span → Counts → Counts
count_literal at m = (at, count_of at m + 1) ∷ m

-- rooted, on the names of the chain
abbrev pub rooted_names : List Bytes → Bytes → Bool
rooted_names (first ∷ next ∷ names) name = bytes_eq first name
rooted_names (first ∷ []) name = false
rooted_names [] name = false

unfoldable pub rooted : {F : Type 0} → Expr F → Bytes → Bool
rooted (feature_chain c) name = rooted_names c.names name
rooted (literal l) name = false
rooted (binary op l r at) name = false

unfoldable pub flip : Comparison → Comparison
flip ge = le
flip le = ge
flip gt = lt
flip lt = gt
flip eq = eq
flip comparison_zero = comparison_zero

-- What a constraint compares: the subject's side, the other operand, and the comparison that reads
-- from the first to the second.
pub record Sides (F : Type 0) : Type 0 where
  pub chain : FeatureChain
  pub other : Expr F
  pub op : Comparison

abbrev pub last_of : Bytes → List Bytes → Bytes
last_of name [] = name
last_of name (next ∷ names) = last_of next names

abbrev pub chain_last : List Bytes → Bytes
chain_last [] = []
chain_last (name ∷ names) = last_of name names

-- names[:len(names)-1]
abbrev pub but_last : Bytes → List Bytes → List Bytes
but_last name [] = []
but_last name (next ∷ names) = name ∷ but_last next names

module _ {F : Type 0} where
  -- The constraint of the usage, else that of its definition.
  abbrev pub constraint_of : ReqNode F → Option (RequireConstraint F)
  constraint_of r = elim r.ast.body.constraint [
    | some c ↦ some c
    | none ↦ elim r.def [ none ↦ none | some d ↦ d.body.constraint ]
  ]

  abbrev pub def_subject : Option (RequirementDef F) → Bytes
  def_subject none = []
  def_subject (some d) = elim d.body.subject [ none ↦ [] | some subject ↦ subject.name ]

  unfoldable pub subject_name : ReqNode F → Bytes
  subject_name r = elim r.ast.body.subject [
    | some subject ↦ subject.name
    | none ↦ def_subject r.def
  ]

  -- side.(syntax.FeatureChain)
  abbrev pub chain_of : Expr F → Outcome FeatureChain
  chain_of (feature_chain c) = pure c
  chain_of (literal l) = crash
  chain_of (binary op l r at) = crash

  -- The slot of a limit that is an attribute of the requirement.
  unfoldable pub limit_slot : ReqNode F → FeatureChain → Option (Slot F)
  limit_slot r c = elim c.names [
    | [] ↦ none
    | name ∷ names ↦ elim names [ [] ↦ find_slot r.attrs name | next ∷ more ↦ none ]
  ]

  abbrev pub literal_limit : Literal F → Limit F
  literal_limit l = record {
    quantity = record { num = l.number; unit = l.unit };
    literal_span = some l.span;
  }

  -- The limit in the requirement, and its literal counted.
  abbrev pub set_limit_of : Option (Limit F) → Requirement F → Requirement F
  set_limit_of none q = q
  set_limit_of (some l) q = elim l.literal_span [
    | none ↦ record q { limit = l.quantity.num; limit_unit = l.quantity.unit }
    | some at ↦ record q {
      limit = l.quantity.num;
      limit_unit = l.quantity.unit;
      limit_editable = true;
      limit_span = at;
    }
  ]

  abbrev pub count_limit : Option (Limit F) → Counts → Counts
  count_limit none m = m
  count_limit (some l) m = elim l.literal_span [ none ↦ m | some at ↦ count_literal at m ]

module _ {F : Type 0} (s : Source) where
  -- The switch on which operand is rooted at the subject.
  unfoldable pub sides_of : RequireConstraint F → Bytes → Outcome (Sides F)
  sides_of c subject = elim (rooted c.left subject) [
    | true ↦ elim (rooted c.right subject) [
      | true ↦ fail s c.span (bytes "the constraint compares two operands rooted at the subject")
      | false ↦
          chain_of c.left >>= λ chain. pure (record { chain = chain; other = c.right; op = c.op })
    ]
    | false ↦ elim (rooted c.right subject) [
      | true ↦ chain_of c.right >>= λ chain.
          pure (record { chain = chain; other = c.left; op = flip c.op })
      | false ↦
          fail s c.span
            (bytes "no operand is a feature chain rooted at the subject " ++ s.quote subject)
    ]
  ]

  module _ (sc : Scope F) where
    -- The loop of checkQuantity over the middle names.
    unfoldable pub walk_parts : Bytes → ℕ → List Bytes → Span → Outcome ℕ
    walk_parts subject cur [] at = pure cur
    walk_parts subject cur (name ∷ names) at = child sc cur name >>= λ next. elim next [
      | none ↦
          fail s at (bytes "subject " ++ s.quote subject ++ bytes " has no part " ++ s.quote name)
      | some c ↦ walk_parts subject c names at
    ]

    -- checkQuantity on the names behind the first: the id of the part that owns the quantity.
    unfoldable pub quantity_owner : ℕ → Bytes → List Bytes → Span → Outcome Bytes
    quantity_owner subject name names at = node_at sc subject >>= λ n.
        walk_parts n.out.id subject (but_last name names) at >>= λ cur. node_at sc cur >>= λ m.
        refuse_if (not (is_some (find_slot m.attrs (last_of name names)))) s at (
          bytes "subject "
          ++ s.quote m.out.id
          ++ bytes " declares no attribute "
          ++ s.quote (last_of name names))
        >> pure m.out.id

    unfoldable pub check_quantity : ℕ → FeatureChain → Outcome Bytes
    check_quantity subject chain = elim chain.names [
      | [] ↦ crash
      | first ∷ rest ↦ elim rest [
        | [] ↦ crash
        | name ∷ names ↦ quantity_owner subject name names chain.span
      ]
    ]

    module _ (floats : Arithmetic F) where
      -- The value of the slot's binding: a literal, or what it evaluates to.
      abbrev pub bound_limit : ℕ → Bytes → Expr F → Memo F → Outcome (Limit F × Memo F)
      bound_limit i name (literal l) m = pure (literal_limit l, m)
      bound_limit i name (feature_chain c) m =
          eval s sc floats (eval_fuel s sc) (of_req i) name (feature_chain c) m >>= λ (q, m').
          pure (record { quantity = q; literal_span = none }, m')
      bound_limit i name (binary op l r at) m =
          eval s sc floats (eval_fuel s sc) (of_req i) name (binary op l r at) m >>= λ (q, m').
          pure (record { quantity = q; literal_span = none }, m')

      -- The switch on the other operand; it sets no limit from an operand of another kind.
      unfoldable pub limit_of :
          ℕ → ReqNode F → Expr F → Memo F → Outcome (Option (Limit F) × Memo F)
      limit_of i r (literal l) m = pure (some (literal_limit l), m)
      limit_of i r (binary op x y at) m = pure (none, m)
      limit_of i r (feature_chain c) m = elim (limit_slot r c) [
        | none ↦ text_at s c.span >>= λ text.
            fail s c.span
              (s.quote text ++ bytes " is neither an attribute of the requirement nor a literal")
        | some slot ↦ elim slot.bind [
          | none ↦ fail s r.ast.span (
              bytes "limit attribute "
              ++ s.quote slot.name
              ++ bytes " of requirement "
              ++ s.quote r.ast.name
              ++ bytes " has no value")
          | some e ↦ bound_limit i slot.name e m >>= λ (l, m'). pure (some l, m')
        ]
      ]

      -- constraint behind the choice of the subject's name.
      unfoldable pub read_sides :
          ℕ
          → ReqNode F
          → RequireConstraint F
          → Bytes
          → Memo F
          → Outcome (Option (Limit F) × Requirement F × Memo F)
      read_sides i r c subject m = sides_of c subject >>= λ sides. elim r.subject [
        | none ↦
            fail s r.ast.span
              (bytes "requirement " ++ s.quote r.ast.name ++ bytes " binds no subject")
        | some p ↦ check_quantity p sides.chain >>= λ owner.
            limit_of i r sides.other m >>= λ (l, m'). pure (
              l,
              record r.out {
                quantity = chain_last sides.chain.names;
                comparison = sides.op;
                subject = owner;
              },
              m',
            )
      ]

      -- constraint
      unfoldable pub read_constraint :
          ℕ → ReqNode F → Memo F → Outcome (Option (Limit F) × Requirement F × Memo F)
      read_constraint i r m = elim (constraint_of r) [
        | none ↦
            fail s r.ast.span
              (bytes "requirement " ++ s.quote r.ast.name ++ bytes " has no require constraint")
        | some c ↦
            refuse_if (bytes_eq (subject_name r) []) s r.ast.span
              (bytes "requirement " ++ s.quote r.ast.name ++ bytes " has no subject")
            >> read_sides i r c (subject_name r) m
      ]

abbrev pub put_req : {F : Type 0} → Requirement F → ReqNode F → ReqNode F
put_req q r = record r { out = q }

module _ {F : Type 0} (s : Source) (floats : Arithmetic F) where
  -- constraint with what it sets in the builder.
  unfoldable pub constraint : ℕ → Building F → Outcome (Building F)
  constraint i b = req_at b.scope i >>= λ r.
      read_constraint s b.scope floats i r b.memo >>= λ (l, q, m). pure (record b {
        scope = record b.scope { reqs = update_nth i (put_req (set_limit_of l q)) b.scope.reqs };
        literals = count_limit l b.literals;
        memo = m;
      })

  -- constraints, over the indices of the requirements
  unfoldable pub constraints : List ℕ → Building F → Outcome (Building F)
  constraints [] b = pure b
  constraints (i ∷ indices) b = constraint i b >>= λ b'. constraints indices b'
