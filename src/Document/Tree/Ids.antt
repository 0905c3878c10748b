-- ===== src/Document/Tree/Ids.antt =====
-- newID: it never runs out of numbers, and no node has the id that it makes.
use mathlib.Core.List.{Mem, Mem-prop, not-mem-nil, Nodup-nil, mem-cons, Nodup, Nodup-cons}
use mathlib.Core.Logic.Or
use mathlib.Core.HLevel.{⊥_prop}
use sysml_federation.Base.{
  ℕ, zero, suc, ◌≤◌, ◌<◌, ◌≡◌, refl, sym, ap, ◌∙◌, subst, inl, inr, List, [], ◌∷◌, none, arith, map,
  length, length-subset, Bytes, Option-cases,
}
use sysml_federation.Document.Decimal.{itoa-injective}
use sysml_federation.Document.Forest.Contents.{ids, find-none, find-Mem}
use sysml_federation.Document.Forest.{Item, Forest, find, items}
use sysml_federation.Document.Tree.{Refusal, Result-cases, ok, err, generated, new_id, id_fuel}

length-ids : (list : List Item) → length (map (λ a. a.id) list) ≡ length list
length-ids [] = refl
length-ids (a ∷ list) = ap suc (length-ids list)

-- The ids that newID tries from a number on.
tried : ℕ → ℕ → List Bytes
tried zero k = []
tried (suc n) k = generated k ∷ tried n (suc k)

length-tried : (n k : ℕ) → length (tried n k) ≡ n
unfolding tried
length-tried zero k = refl
length-tried (suc n) k = ap suc (length-tried n (suc k))

generated-injective : (j k : ℕ) → generated j ≡ generated k → j ≡ k
unfolding generated
generated-injective j k e = itoa-injective j k (ground arith)

tried-later : (n j k : ℕ) → j < k → ¬ Mem (generated j) (tried n k)
unfolding tried
tried-later zero j k h m = not-mem-nil m
tried-later (suc n) j k h m =
    Or.elim ⊥_prop (mem-cons.0 m) (λ e. omega (arith, generated-injective j k e))
      (tried-later n j (suc k) (omega arith))

tried-Nodup : (n k : ℕ) → Nodup (tried n k)
unfolding tried
tried-Nodup zero k = Nodup-nil
tried-Nodup (suc n) k = Nodup-cons.1 (tried-later n k (suc k) (omega arith), tried-Nodup n (suc k))

-- Where the loop runs out, every id that it tried is taken.
new_id-err :
    (fuel : ℕ) (root : Forest) (k : ℕ) {r : Refusal}
    → new_id fuel root k ≡ err r
    → (x : Bytes) → Mem x (tried fuel k)
    → Mem x (ids root)
unfolding new_id tried
new_id-err zero root k {r} h x m = absurd (not-mem-nil m)
new_id-err (suc fuel) root k {r} h x m = elim (Option-cases (find (generated k) root)) [
  | inl e ↦ absurd (ground arith)
  | inr (n, e) ↦
      Or.elim Mem-prop (mem-cons.0 m)
        (λ same.
          subst (λ y. Mem y (ids root)) (sym same)
            (find-Mem (generated k) root (λ none_there. cc (none_there, e))))
        (new_id-err fuel root (suc k) {r = r} (ground arith) x)
]

new_id-ok :
    (fuel : ℕ) (root : Forest) (next : ℕ) {id : Bytes} {after : ℕ}
    → new_id fuel root next ≡ ok (id, after)
    → (k : ℕ) × (id ≡ generated k) × (after ≡ suc k) × (next ≤ k) × (find (generated k) root ≡ none)
unfolding new_id
new_id-ok zero root next h = absurd (ground arith)
new_id-ok (suc fuel) root next {id} {after} h = elim (Option-cases (find (generated next) root)) [
  | inl e ↦ (next, ground arith, ground arith, omega arith, e)
  | inr (n, e) ↦
      let later : new_id fuel root (suc next) ≡ ok (id, after) = ground arith in
      let (k, i, a, l, f) = new_id-ok fuel root (suc next) later in (k, i, a, omega arith, f)
]

-- The loop of newID ends: one round more than there are nodes is enough, since each round that goes
-- on has met another node's id. The id is "n" and a number that the counter has passed since, and no
-- node has it.
pub new_id-fresh :
    (root : Forest) (next : ℕ)
    → (k : ℕ) × (new_id (id_fuel root) root next ≡ ok (generated k, suc k))
      × (next ≤ k)
      × (¬ Mem (generated k) (ids root))
new_id-fresh root next = elim (Result-cases (new_id (id_fuel root) root next)) [
  | inl ((id, after), e) ↦
      let k = new_id-ok (id_fuel root) root next e in
      (
        k.0,
        e ∙ ap ok (ap (λ i. (i, after)) k.1 ∙ ap (λ a. (generated k.0, a)) k.2),
        k.3,
        find-none _ root k.4,
      )
  | inr (r, e) ↦
      let taken =
        length-subset (tried (id_fuel root) next) (ids root) (tried-Nodup (id_fuel root) next)
          (new_id-err (id_fuel root) root next e) in
      absurd (omega (arith, taken, length-tried (id_fuel root) next, length-ids (items root)))
]
