-- ===== src/Document/Tree/Parents.antt =====
-- The parent that parentFor answers, and what an insertion under it adds.
use mathlib.Core.List.{append_assoc, append-nil, Perm}
use mathlib.Core.List.Perm
use sysml_federation.Base.Int.{ℤ, pos, negsuc, clamp}
use sysml_federation.Base.{
  ℕ, suc, min, List, some, ◌∙◌, bytes_eq_iff, ◌≡◌, ◌≢◌, sym, ap, subst, inl, inr, [], ◌∷◌, ◌++◌,
  none, arith, Bytes, bytes_eq, Bool-cases, Option-cases,
}
use sysml_federation.Document.Forest.Contents.{
  find-Found, append_swap, items-insert_nth, splice-adds,
}
use sysml_federation.Document.Forest.{
  Item, Forest, nil, node, find, items, is_prose, append, size, splice,
}
use sysml_federation.Document.Forest.Depths.{Placed, at_place, placed, find-Spot, insert_nth-splits}
use sysml_federation.Document.Tree.{
  Tree, ok, Parent, at_root, under, parent_for, insert, insert_under,
}

-- The parent is the hidden root or a node of the forest.
abbrev pub Stands : Parent → Forest → Type 0
Stands at_root root = Unit {0}
Stands (under a cs) root = find a.id root ≢ none

pub insert_under-adds :
    (p : Parent) (i : ℤ) (n : Item) (cs root : Forest)
    → Stands p root
    → Perm (items (insert_under p i n cs root)) (n ∷ (items cs ++ items root))
unfolding insert_under insert
insert_under-adds at_root i n cs root s = items-insert_nth _ root n cs
insert_under-adds (under a bs) i n cs root s =
    subst (Perm _) (append_assoc (n ∷ []) (items cs) (items root))
      (splice-adds a.id root (λ b bs. node b (insert bs i n cs) nil) (n ∷ items cs) s added)
  where
    added :
        (b : Item) (bs : Forest)
        → Perm (items (node b (insert bs i n cs) nil)) ((n ∷ items cs) ++ (b ∷ items bs))
    added b bs =
        subst (λ s. Perm s ((n ∷ items cs) ++ (b ∷ items bs)))
          (ap (λ s. b ∷ s) (sym (append-nil _)))
          (Perm.trans (Perm.cons b (items-insert_nth _ bs n cs))
            (append_swap (b ∷ []) (n ∷ items cs) (items bs)))

-- Every answer of parentFor.
pub parent_for-Stands :
    (t : Tree) (id : Bytes) {p : Parent} → parent_for t id ≡ ok p → Stands p t.root
unfolding parent_for
parent_for-Stands t id {p = at_root} h = tt
parent_for-Stands t id {p = under a cs} h = elim (Bool-cases (bytes_eq id [])) [
  | inl e ↦ absurd (ground arith)
  | inr e ↦ elim (Option-cases (find id t.root)) [
    | inl f ↦ absurd (ground arith)
    | inr ((b, bs), f) ↦ elim (Bool-cases (is_prose b.kind)) [
      | inl k ↦ absurd (ground arith)
      | inr k ↦
          let same : b ≡ a = ground arith in
          let found = find-Found id t.root f in λ none_there. cc (none_there, same, found.named, f)
    ]
  ]
]

-- So many of the children stand before the new one.
abbrev IsFront : ℤ → Forest → Forest → Type 0
IsFront (pos i) front children = size front ≡ min i (size children)
IsFront (negsuc i) front children = size front ≡ 0

-- The roots, or the children of the node with the id, and the new one at its index among them.
pub data Among (t : Tree) (parent_id : Bytes) (index : ℤ) (n : Item) (t' : Tree) : Type 0 where
  roots :
      (front back : Forest)
      → parent_id ≡ []
      → IsFront index front t.root
      → t.root ≡ append front back
      → t'.root ≡ append front (node n nil back)
      → Among t parent_id index n t'
  children :
      (parent : Item) (front back : Forest) (depth : ℕ) (above : Bytes) (before after : List Placed)
      → parent.id ≡ parent_id
      → IsFront index front (append front back)
      → placed 0 [] t.root
        ≡ before
          ++ (at_place depth above parent
              ∷ (placed (suc depth) parent.id (append front back) ++ after))
      → placed 0 [] t'.root
        ≡ before
          ++ (at_place depth above parent
              ∷ (placed (suc depth) parent.id (append front (node n nil back)) ++ after))
      → Among t parent_id index n t'

insert-splits :
    (list : Forest) (index : ℤ) (n : Item)
    → (front : Forest) × (back : Forest) × (list ≡ append front back)
      × (insert list index n nil ≡ append front (node n nil back))
      × IsFront index front list
unfolding insert clamp
insert-splits list (pos i) n =
    let (front, back, e, f, k) = insert_nth-splits (min i (size list)) list n nil in
    (front, back, e, f, omega (arith, k))
insert-splits list (negsuc i) n =
    let (front, back, e, f, k) = insert_nth-splits 0 list n nil in
    (front, back, e, f, omega (arith, k))

pub insert_under-Among :
    (t : Tree) (parent_id : Bytes) (index : ℤ) (n : Item) (next : ℕ) {p : Parent}
    → parent_for t parent_id ≡ ok p
    → Among t parent_id index n (record t { root = insert_under p index n nil t.root; next = next })
unfolding insert_under parent_for
insert_under-Among t parent_id index n next {p} h = elim (Bool-cases (bytes_eq parent_id [])) [
  | inl e ↦
      let same : at_root ≡ p = ground (arith, rw (e, parent_for) at h) in
      let (front, back, q, f, k) = insert-splits t.root index n in
      subst
        (λ p.
          Among t parent_id index n
            (record t { root = insert_under p index n nil t.root; next = next }))
        same (roots front back ((bytes_eq_iff parent_id []).0 e) k q f)
  | inr e ↦ elim (Option-cases (find parent_id t.root)) [
    | inl gone ↦ absurd (ground (arith, rw (e, gone, parent_for) at h))
    | inr ((a, cs), found) ↦ elim (Bool-cases (is_prose a.kind)) [
      | inl prosaic ↦ absurd (ground (arith, rw (e, found, prosaic, parent_for) at h))
      | inr solid ↦
          let same : under a cs ≡ p = ground (arith, rw (e, found, solid, parent_for) at h) in
          subst
            (λ p.
              Among t parent_id index n
                (record t { root = insert_under p index n nil t.root; next = next }))
            same (inserted a cs found)
    ]
  ]
]
  where
    inserted :
        (a : Item) (cs : Forest)
        → find parent_id t.root ≡ some (a, cs)
        → Among t parent_id index n
            (record t { root = insert_under (under a cs) index n nil t.root; next = next })
    inserted a cs found =
        let f = find-Spot parent_id 0 [] t.root found in
        let (front, back, q, made, k) = insert-splits cs index n in
        let change : Item → Forest → Forest = λ b bs. node b (insert bs index n nil) nil in
        children a front back f.depth f.parent f.before f.after f.named
          (subst (IsFront index front) q k)
          (f.splits
            ∙ ap
                (λ s.
                  f.before
                  ++ (at_place f.depth f.parent a ∷ (placed (suc f.depth) a.id s ++ f.after)))
                q)
          (ap (λ s. placed 0 [] (splice s change t.root)) f.named
            ∙ f.spliced change
            ∙ ap (λ s. f.before ++ (at_place f.depth f.parent a ∷ (s ++ f.after))) (append-nil _)
            ∙ ap
                (λ s.
                  f.before
                  ++ (at_place f.depth f.parent a ∷ (placed (suc f.depth) a.id s ++ f.after)))
                made)
