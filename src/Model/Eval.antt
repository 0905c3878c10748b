-- ===== src/Model/Eval.antt =====
-- adapter/model/eval.go: the values of attributes, with a memo for each binding and a guard against
-- cycles.
pub mod Slots
pub mod Keys
pub mod Rule
pub mod Sound
pub mod Ending
pub mod Heights
pub mod Complete
use sysml_federation.Base.{
  ℕ, zero, suc, ◌+◌, List, [], ◌∷◌, ◌++◌, Bool, true, false, not, ◌&&◌, ◌||◌, Option, none, some,
  if◌then◌else◌, ◌==◌, length, map, get_elem?, Bytes, bytes, bytes_eq, lookup,
}
use sysml_federation.Model.Declare.{find_slot}
use sysml_federation.Model.Nodes.{
  Slot, PartNode, ReqNode, Scope, Quantity, Owner, of_part, of_req, Key, Memo, Arithmetic,
}
use sysml_federation.Model.Outcome.{
  Outcome, done, refused, crash, out_of_fuel, pure, ◌>>=◌, ◌>>◌, Source, fail, refuse_if,
}
use sysml_federation.Model.Resolve.{or_crash, node_at, child, find_part}
use sysml_federation.Syntax.Ast.{
  FeatureChain, Subject, Operator, Expr, literal, feature_chain, binary,
}
use sysml_federation.Syntax.Ast.Operator.{add, sub, mul, div}
use sysml_federation.Syntax.Token.{Span}

abbrev pub owner_eq : Owner → Owner → Bool
owner_eq (of_part i) (of_part j) = i == j
owner_eq (of_req i) (of_req j) = i == j
owner_eq (of_part i) (of_req j) = false
owner_eq (of_req i) (of_part j) = false

abbrev pub key_eq : Key → Key → Bool
key_eq j k = owner_eq j.owner k.owner && bytes_eq j.name k.name

unfoldable pub value_of : {F : Type 0} → Key → List (Key × Quantity F) → Option (Quantity F)
value_of k [] = none
value_of k ((j, q) ∷ m) = let rest = value_of k m in if key_eq j k then some q else rest

unfoldable pub is_busy : Key → List Key → Bool
is_busy k [] = false
is_busy k (j ∷ busy) = key_eq j k || is_busy k busy

-- delete(b.busy, k)
unfoldable pub remove_key : Key → List Key → List Key
remove_key k [] = []
remove_key k (j ∷ busy) = let rest = remove_key k busy in if key_eq j k then rest else j ∷ rest

-- exprSpan
unfoldable pub expr_span : {F : Type 0} → Expr F → Span
expr_span (literal l) = l.span
expr_span (feature_chain c) = c.span
expr_span (binary op l r at) = at

abbrev pub req_at : {F : Type 0} → Scope F → ℕ → Outcome (ReqNode F)
req_at sc r = or_crash (get_elem? sc.reqs r)

-- Where a chain that is not an attribute of its owner starts.
pub data Start : Type 0 where
  at_part : ℕ → Start
  at_req : ℕ → Start

module _ {F : Type 0} (s : Source) (sc : Scope F) where
  -- The slots of the owner, of which ownAttr finds one.
  unfoldable pub own_slots : Owner → Outcome (List (Slot F))
  own_slots (of_part p) = node_at sc p >>= λ n. pure n.attrs
  own_slots (of_req r) = req_at sc r >>= λ n. pure n.attrs

  -- The name of the requirement's subject, where it has a subject that is bound.
  abbrev pub is_subject_name : Option Subject → Bytes → Bool
  is_subject_name none name = false
  is_subject_name (some subject) name = bytes_eq name subject.name

  -- The cases of the switch behind the subject's.
  unfoldable pub start_elsewhere : Option ℕ → Bytes → Span → Outcome Start
  start_elsewhere scope first at = elim (lookup first sc.req_by_name) [
    | some r ↦ pure (at_req r)
    | none ↦
        find_part s sc (record { names = first ∷ []; span = at }) scope >>= λ p. pure (at_part p)
  ]

  unfoldable pub start_of : Owner → Bytes → Span → Outcome Start
  start_of (of_part p) first at = start_elsewhere (some p) first at
  start_of (of_req r) first at = req_at sc r >>= λ n. elim n.subject [
    | none ↦ start_elsewhere none first at
    | some p ↦
        if is_subject_name n.ast.body.subject first
        then pure (at_part p)
        else start_elsewhere none first at
  ]

  abbrev pub last_name : Bytes → List Bytes → Bytes
  last_name name [] = name
  last_name name (next ∷ names) = last_name next names

  -- The loop of chainValue over the names behind the first, up to the slot whose value it returns;
  -- `last` is the last name of the chain.
  unfoldable pub walk : Bytes → Bytes → Span → Start → List Bytes → Outcome (Owner × Slot F)
  walk first last at start [] = fail s at (s.quote last ++ bytes " is not an attribute")
  walk first last at (at_req r) (name ∷ []) = req_at sc r >>= λ n. elim (find_slot n.attrs name) [
    | none ↦ fail s at (s.quote first ++ bytes " has no attribute " ++ s.quote name)
    | some slot ↦ pure (of_req r, slot)
  ]
  walk first last at (at_req r) (name ∷ next ∷ names) =
      fail s at (s.quote first ++ bytes " has no attribute " ++ s.quote name)
  walk first last at (at_part p) (name ∷ []) = node_at sc p >>= λ n. elim (find_slot n.attrs name) [
    | some slot ↦ pure (of_part p, slot)
    | none ↦ child sc p name >>= λ c. elim c [
      | none ↦ fail s at (s.quote n.out.name ++ bytes " has no attribute " ++ s.quote name)
      | some i ↦ fail s at (s.quote last ++ bytes " is not an attribute")
    ]
  ]
  walk first last at (at_part p) (name ∷ next ∷ names) = child sc p name >>= λ c. elim c [
    | none ↦ node_at sc p >>= λ n.
        fail s at (s.quote n.out.name ++ bytes " has no attribute " ++ s.quote name)
    | some i ↦ walk first last at (at_part i) (next ∷ names)
  ]

  -- An attribute of the owner itself: nothing may follow its name.
  abbrev pub own_value : Owner → Bytes → List Bytes → Slot F → Span → Outcome (Owner × Slot F)
  own_value owner first [] slot at = pure (owner, slot)
  own_value owner first (name ∷ names) slot at = fail s at (s.quote first ++ bytes " is not a part")

  unfoldable pub chain_names : Owner → Bytes → List Bytes → Span → Outcome (Owner × Slot F)
  chain_names owner first rest at = own_slots owner >>= λ slots. elim (find_slot slots first) [
    | some slot ↦ own_value owner first rest slot at
    | none ↦ start_of owner first at >>= λ start. walk first (last_name first rest) at start rest
  ]

  -- chainValue up to its slotValue
  unfoldable pub chain_slot : Owner → FeatureChain → Outcome (Owner × Slot F)
  chain_slot owner c = elim c.names [
    | [] ↦ crash
    | first ∷ rest ↦ chain_names owner first rest c.span
  ]

  module _ (floats : Arithmetic F) where
    -- The unit of a result: the one that is given, and no two that differ.
    unfoldable pub join_units : Bytes → Bytes → Span → Outcome Bytes
    join_units l r at =
        if bytes_eq l []
        then pure r
        else if not (bytes_eq r []) && not (bytes_eq r l)
        then fail s at (bytes "units differ: " ++ s.quote l ++ bytes " and " ++ s.quote r)
        else pure l

    unfoldable pub apply_operator : Operator → F → F → Span → Outcome F
    apply_operator add l r at = pure (floats.plus l r)
    apply_operator sub l r at = pure (floats.minus l r)
    apply_operator mul l r at = pure (floats.times l r)
    apply_operator div l r at =
        refuse_if (floats.is_zero r) s at (bytes "division by zero") >> pure (floats.over l r)

    -- What expr does with the values of the two operands.
    unfoldable pub combine : Operator → Quantity F → Quantity F → Span → Outcome (Quantity F)
    combine op l r at = join_units l.unit r.unit at >>= λ unit.
        apply_operator op l.num r.num at >>= λ n.
        refuse_if (floats.is_inf n || floats.is_nan n) s at
          (bytes "the result is not a finite number")
        >> pure (record { num = n; unit = unit })

    -- slotValue, with the eval that it calls
    unfoldable pub slot_value :
        (Owner → Bytes → Expr F → Memo F → Outcome (Quantity F × Memo F))
        → Owner
        → Slot F
        → Span
        → Memo F
        → Outcome (Quantity F × Memo F)
    slot_value eval owner slot at m = elim slot.bind [
      | none ↦ fail s at (s.quote slot.name ++ bytes " has no value")
      | some e ↦ eval owner slot.name e m
    ]

    -- expr, with the eval that its chains call
    unfoldable pub expr :
        (Owner → Bytes → Expr F → Memo F → Outcome (Quantity F × Memo F))
        → Owner
        → Expr F
        → Memo F
        → Outcome (Quantity F × Memo F)
    expr eval owner (literal l) m = pure (record { num = l.number; unit = l.unit }, m)
    expr eval owner (feature_chain c) m =
        chain_slot owner c >>= λ (of, slot). slot_value eval of slot c.span m
    expr eval owner (binary op l r at) m = expr eval owner l m >>= λ (ql, ml).
        expr eval owner r ml >>= λ (qr, mr). combine op ql qr at >>= λ q. pure (q, mr)

    -- eval: the fuel is one more than the bindings that are not busy.
    unfoldable pub eval : ℕ → Owner → Bytes → Expr F → Memo F → Outcome (Quantity F × Memo F)
    eval zero owner name e m = out_of_fuel
    eval (suc fuel) owner name e m =
        let k : Key = record { owner = owner; name = name } in
        elim (value_of k m.values) [
          | some q ↦ pure (q, m)
          | none ↦
              refuse_if (is_busy k m.busy) s (expr_span e)
                (bytes "cyclic binding of " ++ s.quote name)
              >> (expr (eval fuel) owner e (record m { busy = k ∷ m.busy }) >>= λ (q, m').
                  pure (q, record { values = (k, q) ∷ m'.values; busy = remove_key k m'.busy }))
        ]

  -- The bindings of the parts, and of the requirements, from an index on.
  abbrev pub part_keys : ℕ → List (PartNode F) → List Key
  part_keys i [] = []
  part_keys i (n ∷ parts) =
      map (λ slot. record { owner = of_part i; name = slot.name }) n.attrs
      ++ part_keys (suc i) parts

  abbrev pub req_keys : ℕ → List (ReqNode F) → List Key
  req_keys i [] = []
  req_keys i (n ∷ reqs) =
      map (λ slot. record { owner = of_req i; name = slot.name }) n.attrs ++ req_keys (suc i) reqs

  abbrev pub scope_keys : List Key
  scope_keys = part_keys 0 sc.parts ++ req_keys 0 sc.reqs

  unfoldable pub eval_fuel : ℕ
  eval_fuel = suc (length scope_keys)
