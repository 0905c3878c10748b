-- ===== src/Document/Tree/Within.antt =====
-- The test of Move whether the parent stands within the node's subtree, by pointers and by ids.
use mathlib.Core.List.{Mem, mem-append, map-append, Nodup, Nodup-append}
use mathlib.Core.Logic.Or
use sysml_federation.Base.{
  suc, ◌+◌, ◌≤◌, ◌<◌, ◌∙◌, true, ltb, length, bytes_eq_refl, ◌≡◌, ◌↔◌, sym, ap, subst, inl, inr,
  ◌∷◌, ◌++◌, false, arith, map, Bytes, Bool-cases,
}
use sysml_federation.Document.Forest.Contents.{Found, ids, mem_around}
use sysml_federation.Document.Forest.{Item, Forest, items, index_of, pointer}
use sysml_federation.Document.Forest.Positions.{
  ids_of, index_of-there, index_of-past, index_of-Mem, contains-range,
}
use sysml_federation.Document.Tree.{under, is_within}

-- Where the node that is found stands in document order.
pointer-Found :
    {id : Bytes} {t : Forest} {n : Item} {cs : Forest} (h : Found id t n cs)
    → pointer n.id t ≡ length h.before
unfolding index_of
pointer-Found {id} {t} {n} {cs} h =
    ap (index_of n.id) h.splits
    ∙ index_of-past n.id h.before (n ∷ (items cs ++ h.after))
        (subst (λ i. ¬ Mem i (ids_of h.before)) (sym h.named) h.first)
    ∙ rw (bytes_eq_refl n.id, index_of) (omega arith)

-- The test of Move, on the pointers of the subtree.
is_within_lem :
    (t : Forest) (a n : Item) (bs cs : Forest)
    → (is_within t (under a bs) n cs ≡ true) ↔ (
        (pointer n.id t ≤ pointer a.id t)
        × (pointer a.id t < pointer n.id t + suc (length (items cs))))
unfolding is_within
is_within_lem t a n bs cs =
    ground (arith, contains-range (suc (pointer n.id t)) cs (pointer a.id t))

module _ {id : Bytes} {t : Forest} {n : Item} {cs : Forest} (h : Found id t n cs) (a : Item)
    (bs : Forest) where
  -- Where the pointer to the parent is among those of the subtree.
  within_bounds : (is_within t (under a bs) n cs ≡ true) ↔ (
      (length h.before ≤ index_of a.id (h.before ++ ((n ∷ items cs) ++ h.after)))
      × (index_of a.id (h.before ++ ((n ∷ items cs) ++ h.after))
          < length h.before + suc (length (items cs))))
  within_bounds =
      subst
        (λ i.
          (is_within t (under a bs) n cs ≡ true)
          ↔ ((length h.before ≤ i) × (i < length h.before + suc (length (items cs)))))
        (ap (index_of a.id) h.splits)
        (subst
          (λ k.
            (is_within t (under a bs) n cs ≡ true)
            ↔ ((k ≤ pointer a.id t) × (pointer a.id t < k + suc (length (items cs)))))
          (pointer-Found h) (is_within_lem t a n bs cs))

  -- A parent that is neither before the subtree nor within it has its id nowhere in it.
  pub outside_subtree :
      is_within t (under a bs) n cs ≡ false
      → ¬ Mem a.id (ids_of h.before)
      → ¬ Mem a.id (ids_of (n ∷ items cs))
  outside_subtree w early m =
      let here = index_of-past a.id h.before ((n ∷ items cs) ++ h.after) early in
      let low = index_of-there a.id (n ∷ items cs) h.after m in
      let low_suc : index_of a.id ((n ∷ items cs) ++ h.after) < suc (length (items cs)) = low in
      let inside : is_within t (under a bs) n cs ≡ true =
        within_bounds.1 (omega (arith, here), omega (arith, here, low_suc)) in
      absurd (ground (arith, w, inside))

  -- A parent whose id is not in the subtree is not within it.
  pub not_within : ¬ Mem a.id (ids_of (n ∷ items cs)) → is_within t (under a bs) n cs ≡ false
  not_within out = elim (Bool-cases (is_within t (under a bs) n cs)) [
    | inr w ↦ w
    | inl w ↦
        let (low, high) = within_bounds.0 w in
        let early : ¬ Mem a.id (ids_of h.before) = λ m.
          let there = index_of-there a.id h.before ((n ∷ items cs) ++ h.after) m in
          absurd (omega (arith, low, there)) in
        let here = index_of-past a.id h.before ((n ∷ items cs) ++ h.after) early in
        let near : index_of a.id ((n ∷ items cs) ++ h.after) < suc (length (items cs)) =
          omega (arith, here, high) in
        absurd (out (index_of-Mem a.id (n ∷ items cs) h.after near))
  ]

  -- A parent outside the subtree is among the nodes around it.
  pub stays_around :
      Mem a.id (ids t)
      → is_within t (under a bs) n cs ≡ false
      → Mem a.id (ids_of (h.before ++ h.after))
  stays_around m w =
      let all : Mem a.id (ids_of (h.before ++ ((n ∷ items cs) ++ h.after))) =
        subst (Mem a.id) (ap (map (λ a. a.id)) h.splits) m in
      elim (Bool-cases
        (ltb (index_of a.id (h.before ++ ((n ∷ items cs) ++ h.after))) (length h.before))) [
          | inl e ↦
              let early =
                index_of-Mem a.id h.before ((n ∷ items cs) ++ h.after) (ground (arith, e)) in
              subst (Mem a.id) (sym (map-append _ h.before h.after)) (mem-append.1 (Or.inl early))
          | inr e ↦
              let early : ¬ Mem a.id (ids_of h.before) = λ m.
                let there = index_of-there a.id h.before ((n ∷ items cs) ++ h.after) m in
                absurd (ground (arith, there, e)) in
              mem_around a.id h.before (n ∷ items cs) h.after all (outside_subtree w early)
        ]

-- Where ids are unique, the test of Move on the ids of the subtree.
pub is_within_unique :
    {id : Bytes} {t : Forest} {n : Item} {cs : Forest}
    → Found id t n cs
    → Nodup (ids t)
    → (b : Item) (bs : Forest)
    → (is_within t (under b bs) n cs ≡ false) ↔ (¬ Mem b.id (n.id ∷ ids cs))
is_within_unique {id} {t} {n} {cs} h d b bs = (to, not_within h b bs)
  where
    to : is_within t (under b bs) n cs ≡ false → ¬ Mem b.id (n.id ∷ ids cs)
    to w m =
        let split : Nodup (ids_of h.before ++ ids_of ((n ∷ items cs) ++ h.after)) =
          subst Nodup
            (ap (map (λ a. a.id)) h.splits
              ∙ map-append (λ (a : Item). a.id) h.before ((n ∷ items cs) ++ h.after))
            d in
        let apart = (Nodup-append.0 split).2 in
        let later : Mem b.id (ids_of ((n ∷ items cs) ++ h.after)) =
          subst (Mem b.id) (sym (map-append (λ (a : Item). a.id) (n ∷ items cs) h.after))
            (mem-append.1 (Or.inl m)) in
        outside_subtree h b bs w (λ e. apart b.id e later) m
