-- ===== src/Model/Eval/Keys.antt =====
-- The keys of bindings: equality, the busy list, and the slots that have them.
use mathlib.Core.List.{Mem, Mem-prop, not-mem-nil, mem-cons, mem-cons_of_mem, mem-append}
use mathlib.Core.HLevel.{⊥_prop}
use mathlib.Core.Logic.Or
use sysml_federation.Base.{
  ℕ, zero, suc, ◌+◌, ◌≡◌, refl, sym, ap, subst, inl, inr, List, [], ◌∷◌, true, false, some, arith,
  get_elem?, map, Bytes, bytes_eq_iff, Bool-cases, Option-cases,
}
use sysml_federation.Model.Eval.Slots.{IsSlot, find_slot-Mem}
use sysml_federation.Model.Eval.{
  owner_eq, key_eq, is_busy, remove_key, own_slots, part_keys, req_keys, scope_keys,
}
use sysml_federation.Model.Nodes.{Slot, PartNode, ReqNode, Scope, Owner, of_part, of_req, Key}
use sysml_federation.Model.Outcome.{Source}
use sysml_federation.Model.Resolve.{node_at}

owner_eq_self : (o : Owner) → owner_eq o o ≡ true
owner_eq_self (of_part i) = ground arith
owner_eq_self (of_req i) = ground arith

owner_eq_sound : (o p : Owner) → owner_eq o p ≡ true → o ≡ p
owner_eq_sound (of_part i) (of_part j) h = ap of_part (ground arith)
owner_eq_sound (of_req i) (of_req j) h = ap of_req (ground arith)
owner_eq_sound (of_part i) (of_req j) h = absurd (ground arith)
owner_eq_sound (of_req i) (of_part j) h = absurd (ground arith)

pub key_eq_self : (k : Key) → key_eq k k ≡ true
key_eq_self k = rw (owner_eq_self k.owner) ((bytes_eq_iff k.name k.name).1 refl)

pub key_eq_sound : (j k : Key) → key_eq j k ≡ true → j ≡ k
key_eq_sound j k h = elim (Bool-cases (owner_eq j.owner k.owner)) [
  | inl o ↦
      let same : j.owner ≡ k.owner = owner_eq_sound j.owner k.owner o in
      let name : j.name ≡ k.name = (bytes_eq_iff j.name k.name).0 (ground (arith, o)) in
      ground (arith, same, name)
  | inr o ↦ absurd (ground (arith, o))
]

pub is_busy-Mem : (k : Key) (busy : List Key) → is_busy k busy ≡ false → ¬ Mem k busy
unfolding is_busy
is_busy-Mem k [] h m = not-mem-nil m
is_busy-Mem k (j ∷ busy) h m = elim (Bool-cases (key_eq j k)) [
  | inl e ↦ ground (arith, e)
  | inr e ↦
      Or.elim ⊥_prop (mem-cons.0 m)
        (λ same. ground (arith, e, subst (λ x. key_eq x k ≡ true) same (key_eq_self k)))
        (is_busy-Mem k busy (ground (arith, e)))
]

remove_key-free : (k : Key) (busy : List Key) → is_busy k busy ≡ false → remove_key k busy ≡ busy
unfolding is_busy remove_key
remove_key-free k [] h = refl
remove_key-free k (j ∷ busy) h = elim (Bool-cases (key_eq j k)) [
  | inl e ↦ absurd (ground (arith, e))
  | inr e ↦ rw e (ap (◌∷◌ j) (remove_key-free k busy (ground (arith, e))))
]

pub remove_key-cons :
    (k : Key) (busy : List Key) → is_busy k busy ≡ false → remove_key k (k ∷ busy) ≡ busy
unfolding remove_key
remove_key-cons k busy h = rw (key_eq_self k) (remove_key-free k busy h)

abbrev pub key_at : Owner → Bytes → Key
key_at owner name = record { owner = owner; name = name }

module _ {F : Type 0} where
  -- The keys of a list of owners, which an index finds.
  slots-Mem :
      (owner : Owner) (slots : List (Slot F)) (slot : Slot F)
      → Mem slot slots
      → Mem (key_at owner slot.name) (map (λ (x : Slot F). key_at owner x.name) slots)
  slots-Mem owner [] slot m = absurd (not-mem-nil m)
  slots-Mem owner (x ∷ slots) slot m =
      Or.elim Mem-prop (mem-cons.0 m)
        (λ same. mem-cons.1 (Or.inl (ap (λ (y : Slot F). key_at owner y.name) same)))
        (λ later. mem-cons_of_mem _ (slots-Mem owner slots slot later))

module _ {F : Type 0} (s : Source) (sc : Scope F) where
  part_keys-Mem :
      (i p : ℕ) (parts : List (PartNode F)) (n : PartNode F) (slot : Slot F)
      → get_elem? parts p ≡ some n
      → Mem slot n.attrs
      → Mem (key_at (of_part (i + p)) slot.name) (part_keys s sc i parts)
  part_keys-Mem i p [] n slot g m = absurd (ground (arith, g))
  part_keys-Mem i zero (x ∷ parts) n slot g m =
      let same : x ≡ n = ground (arith, g) in
      let at : i ≡ i + 0 = omega arith in
      subst (λ j. Mem (key_at (of_part j) slot.name) (part_keys s sc i (x ∷ parts))) at
        (mem-append.1 (
          Or.inl (slots-Mem (of_part i) x.attrs slot (subst (λ y. Mem slot y.attrs) (sym same) m))))
  part_keys-Mem i (suc p) (x ∷ parts) n slot g m =
      let at : suc i + p ≡ i + suc p = omega arith in
      subst (λ j. Mem (key_at (of_part j) slot.name) (part_keys s sc i (x ∷ parts))) at
        (mem-append.1 (Or.inr (part_keys-Mem (suc i) p parts n slot g m)))

  req_keys-Mem :
      (i r : ℕ) (reqs : List (ReqNode F)) (n : ReqNode F) (slot : Slot F)
      → get_elem? reqs r ≡ some n
      → Mem slot n.attrs
      → Mem (key_at (of_req (i + r)) slot.name) (req_keys s sc i reqs)
  req_keys-Mem i r [] n slot g m = absurd (ground (arith, g))
  req_keys-Mem i zero (x ∷ reqs) n slot g m =
      let same : x ≡ n = ground (arith, g) in
      let at : i ≡ i + 0 = omega arith in
      subst (λ j. Mem (key_at (of_req j) slot.name) (req_keys s sc i (x ∷ reqs))) at
        (mem-append.1
          (Or.inl (slots-Mem (of_req i) x.attrs slot (subst (λ y. Mem slot y.attrs) (sym same) m))))
  req_keys-Mem i (suc r) (x ∷ reqs) n slot g m =
      let at : suc i + r ≡ i + suc r = omega arith in
      subst (λ j. Mem (key_at (of_req j) slot.name) (req_keys s sc i (x ∷ reqs))) at
        (mem-append.1 (Or.inr (req_keys-Mem (suc i) r reqs n slot g m)))

  pub part_slot-Mem :
      (p : ℕ) (n : PartNode F) (slot : Slot F)
      → get_elem? sc.parts p ≡ some n
      → Mem slot n.attrs
      → Mem (key_at (of_part p) slot.name) (scope_keys s sc)
  part_slot-Mem p n slot e m = (mem-append {t = req_keys s sc 0 sc.reqs}).1 (
      Or.inl (
        subst (λ j. Mem (key_at (of_part j) slot.name) (part_keys s sc 0 sc.parts)) (omega arith)
          (part_keys-Mem 0 p sc.parts n slot e m)))

  pub req_slot-Mem :
      (r : ℕ) (n : ReqNode F) (slot : Slot F)
      → get_elem? sc.reqs r ≡ some n
      → Mem slot n.attrs
      → Mem (key_at (of_req r) slot.name) (scope_keys s sc)
  req_slot-Mem r n slot e m = (mem-append {s = part_keys s sc 0 sc.parts}).1 (
      Or.inr (
        subst (λ j. Mem (key_at (of_req j) slot.name) (req_keys s sc 0 sc.reqs)) (omega arith)
          (req_keys-Mem 0 r sc.reqs n slot e m)))

  pub IsSlot-Mem :
      (owner : Owner) (slot : Slot F)
      → IsSlot s sc owner slot
      → Mem (key_at owner slot.name) (scope_keys s sc)
  unfolding own_slots node_at
  IsSlot-Mem (of_part p) slot (slots, o, f) = elim (Option-cases (get_elem? sc.parts p)) [
    | inl e ↦ absurd (ground (arith, e, o))
    | inr (n, e) ↦
        let same : slots ≡ n.attrs = ground (arith, e, o) in
        part_slot-Mem p n slot e (subst (Mem slot) same (find_slot-Mem slots slot.name f))
  ]
  IsSlot-Mem (of_req r) slot (slots, o, f) = elim (Option-cases (get_elem? sc.reqs r)) [
    | inl e ↦ absurd (ground (arith, e, o))
    | inr (n, e) ↦
        let same : slots ≡ n.attrs = ground (arith, e, o) in
        req_slot-Mem r n slot e (subst (Mem slot) same (find_slot-Mem slots slot.name f))
  ]
