-- ===== src/Model/Eval/Slots.antt =====
-- The slots that names lead to, and the bindings that they are.
use mathlib.Core.List.{Mem, mem-cons, mem-cons_of_mem}
use mathlib.Core.Logic.Or
use sysml_federation.Base.{
  ℕ, ◌≡◌, sym, ap, subst, inl, inr, List, [], ◌∷◌, Option, none, some, arith, get_elem?, Bytes,
  bytes_eq, bytes_eq_iff, Bool-cases, lookup,
}
use sysml_federation.Model.Declare.{find_slot}
use sysml_federation.Model.Eval.{
  Start, at_part, at_req, own_slots, start_elsewhere, start_of, is_subject_name, walk, own_value,
  chain_names, chain_slot, last_name,
}
use sysml_federation.Model.Nodes.{Slot, Scope, Owner, of_part, of_req}
use sysml_federation.Model.Outcome.Holds.{
  Holds, returns, crashes, Ends, Holds-bind, Holds-fail, Holds-if, Holds-list, Holds-option,
}
use sysml_federation.Model.Outcome.{done, Source, ◌>>=◌}
use sysml_federation.Model.Resolve.Ending.{or_crash-Ends, node_at-Ends, child-Ends, find_part-Ends}
use sysml_federation.Syntax.Ast.{FeatureChain}
use sysml_federation.Syntax.Token.{Span}

module _ {F : Type 0} where
  pub find_slot-name :
      (slots : List (Slot F)) (name : Bytes) {slot : Slot F}
      → find_slot slots name ≡ some slot
      → slot.name ≡ name
  unfolding find_slot
  find_slot-name [] name h = absurd (ground (arith, h))
  find_slot-name (s ∷ slots) name {slot} h = elim (Bool-cases (bytes_eq s.name name)) [
    | inl e ↦
        let same : s ≡ slot = ground (arith, h, e) in
        subst (λ x. x.name ≡ name) same ((bytes_eq_iff s.name name).0 e)
    | inr e ↦ find_slot-name slots name {slot = slot} (ground (arith, h, e))
  ]

  pub find_slot-Mem :
      (slots : List (Slot F)) (name : Bytes) {slot : Slot F}
      → find_slot slots name ≡ some slot
      → Mem slot slots
  unfolding find_slot
  find_slot-Mem [] name h = absurd (ground (arith, h))
  find_slot-Mem (s ∷ slots) name {slot} h = elim (Bool-cases (bytes_eq s.name name)) [
    | inl e ↦ let same : slot ≡ s = ground (arith, h, e) in mem-cons.1 (Or.inl same)
    | inr e ↦ mem-cons_of_mem s (find_slot-Mem slots name {slot = slot} (ground (arith, h, e)))
  ]

module _ {F : Type 0} (s : Source) (sc : Scope F) where
  -- The slot is the one of its name among its owner's.
  abbrev pub IsSlot : Owner → Slot F → Type 0
  IsSlot owner slot =
      (slots : List (Slot F)) × (own_slots s sc owner ≡ done slots)
      × (find_slot slots slot.name ≡ some slot)

  IsSlot-of :
      (owner : Owner) (slots : List (Slot F)) (name : Bytes) (slot : Slot F)
      → own_slots s sc owner ≡ done slots
      → find_slot slots name ≡ some slot
      → IsSlot owner slot
  IsSlot-of owner slots name slot o f =
      (slots, o, subst (λ n. find_slot slots n ≡ some slot) (sym (find_slot-name slots name f)) f)

  walk-IsSlot :
      (first last : Bytes) (at : Span) (start : Start) (names : List Bytes)
      → Holds (λ r. IsSlot r.0 r.1) (walk s sc first last at start names)
  unfolding walk own_slots
  walk-IsSlot first last at start [] = Holds-fail s at _
  walk-IsSlot first last at (at_req r) (name ∷ []) =
      Holds-bind (or_crash-Ends (get_elem? sc.reqs r)) (λ n e _.
        Holds-option (find_slot n.attrs name) (λ _. Holds-fail s at _)
          (λ slot f.
            returns
              (IsSlot-of (of_req r) n.attrs name slot (ap (λ o. o >>= λ x. done x.attrs) e) f)))
  walk-IsSlot first last at (at_req r) (name ∷ next ∷ names) = Holds-fail s at _
  walk-IsSlot first last at (at_part p) (name ∷ []) = Holds-bind (node_at-Ends sc p) (λ n e _.
      Holds-option (find_slot n.attrs name)
        (λ _.
          Holds-bind (child-Ends sc p name)
            (elim [ none ↦ λ q _. Holds-fail s at _ | some i ↦ λ q _. Holds-fail s at _ ]))
        (λ slot f.
          returns
            (IsSlot-of (of_part p) n.attrs name slot (ap (λ o. o >>= λ x. done x.attrs) e) f)))
  walk-IsSlot first last at (at_part p) (name ∷ next ∷ names) =
      Holds-bind (child-Ends sc p name) (elim [
        | none ↦ λ q _. Holds-bind (node_at-Ends sc p) (λ n e _. Holds-fail s at _)
        | some i ↦ λ q _. walk-IsSlot first last at (at_part i) (next ∷ names)
      ])

  own_slots-Ends : (owner : Owner) → Ends (own_slots s sc owner)
  unfolding own_slots
  own_slots-Ends (of_part p) = Holds-bind (node_at-Ends sc p) (λ n e _. returns tt)
  own_slots-Ends (of_req r) = Holds-bind (or_crash-Ends (get_elem? sc.reqs r)) (λ n e _. returns tt)

  start_elsewhere-Ends :
      (scope : Option ℕ) (first : Bytes) (at : Span) → Ends (start_elsewhere s sc scope first at)
  unfolding start_elsewhere
  start_elsewhere-Ends scope first at =
      Holds-option (lookup first sc.req_by_name)
        (λ _. Holds-bind (find_part-Ends sc s _ scope) (λ p e _. returns tt)) (λ r _. returns tt)

  start_of-Ends : (owner : Owner) (first : Bytes) (at : Span) → Ends (start_of s sc owner first at)
  unfolding start_of
  start_of-Ends (of_part p) first at = start_elsewhere-Ends (some p) first at
  start_of-Ends (of_req r) first at = Holds-bind (or_crash-Ends (get_elem? sc.reqs r)) (λ n e _.
      Holds-option n.subject (λ _. start_elsewhere-Ends none first at)
        (λ p _.
          Holds-if (is_subject_name s sc n.ast.body.subject first) (λ _. returns tt)
            (λ _. start_elsewhere-Ends none first at)))

  chain_names-IsSlot :
      (owner : Owner) (first : Bytes) (rest : List Bytes) (at : Span)
      → Holds (λ r. IsSlot r.0 r.1) (chain_names s sc owner first rest at)
  unfolding chain_names
  chain_names-IsSlot owner first rest at = Holds-bind (own_slots-Ends owner) (λ slots o _.
      Holds-option (find_slot slots first)
        (λ _.
          Holds-bind (start_of-Ends owner first at)
            (λ start e _. walk-IsSlot first (last_name s sc first rest) at start rest))
        (λ slot f. own owner first rest slot at (IsSlot-of owner slots first slot o f)))
    where
      own :
          (owner : Owner) (first : Bytes) (rest : List Bytes) (slot : Slot F) (at : Span)
          → IsSlot owner slot
          → Holds (λ r. IsSlot r.0 r.1) (own_value s sc owner first rest slot at)
      own owner first [] slot at i = returns i
      own owner first (name ∷ names) slot at i = Holds-fail s at _

  -- A chain leads to a slot, or it is refused.
  pub chain_slot-IsSlot :
      (owner : Owner) (c : FeatureChain) → Holds (λ r. IsSlot r.0 r.1) (chain_slot s sc owner c)
  unfolding chain_slot
  chain_slot-IsSlot owner c =
      Holds-list c.names (λ _. crashes) (λ first rest _. chain_names-IsSlot owner first rest c.span)
