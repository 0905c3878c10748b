-- ===== src/Document/Tree/Moves.antt =====
-- Move: what it keeps, and what it refuses.
use mathlib.Core.List.{Perm, Mem, Nodup}
use mathlib.Core.List.Perm
use sysml_federation.Base.Int.{ℤ}
use sysml_federation.Base.{
  ◌≡◌, ◌↔◌, ◌⊎◌, refl, sym, ap, subst, inl, inr, [], ◌∷◌, ◌++◌, false, some, arith, map, Bytes,
  bytes_eq, bytes_eq_iff, Bool-cases, Option-cases,
}
use sysml_federation.Document.Forest.Contents.{
  Found, find-Found, ids, find-none, find-Mem, append_swap,
}
use sysml_federation.Document.Forest.{Item, Forest, nil, find, items, is_prose}
use sysml_federation.Document.Tree.Within.{stays_around, is_within_unique}
use sysml_federation.Document.Tree.Parents.{Stands, insert_under-adds, parent_for-Stands}
use sysml_federation.Document.Tree.{
  Result-cases, Tree, ok, Parent, at_root, under, parent_for, insert_under, is_within, detach, move,
}

-- The forest without the node: what was around it stays where it was.
items-detach :
    (id : Bytes) (t : Forest) {n : Item} {cs : Forest} (h : Found id t n cs)
    → items (detach id t) ≡ h.before ++ h.after
unfolding detach
items-detach id t h = h.spliced (λ a cs. nil)

-- A parent outside the subtree stands in what is left of the forest.
detach-Stands :
    (p : Parent) (id : Bytes) (t : Forest) {n : Item} {cs : Forest}
    → Found id t n cs
    → Stands p t
    → is_within t p n cs ≡ false
    → Stands p (detach id t)
detach-Stands at_root id t {n} {cs} h s w = tt
detach-Stands (under a bs) id t {n} {cs} h s w = λ gone. find-none a.id (detach id t) gone (
    subst (Mem a.id) (ap (map (λ a. a.id)) (sym (items-detach id t h)))
      (stays_around h a bs (find-Mem a.id t s) w))

moved :
    (p : Parent) (id : Bytes) (index : ℤ) (t : Forest) {n : Item} {cs : Forest}
    → Found id t n cs
    → Stands p t
    → is_within t p n cs ≡ false
    → Perm (items (insert_under p index n cs (detach id t))) (items t)
moved p id index t {n} {cs} h s w =
    Perm.trans (insert_under-adds p index n cs (detach id t) (detach-Stands p id t h s w)) (
      subst (λ s. Perm ((n ∷ items cs) ++ s) (items t)) (sym (items-detach id t h))
        (subst (Perm ((n ∷ items cs) ++ (h.before ++ h.after))) (sym h.splits)
          (append_swap (n ∷ items cs) h.before h.after)))

-- Where Move succeeds it keeps every node with its kind, text and requirement: the nodes after it are those before
-- it in some order. What is excluded and the counter of ids stay.
pub move-Perm :
    (t t' : Tree) (id parent_id : Bytes) (index : ℤ)
    → move t id parent_id index ≡ ok t'
    → Perm (items t'.root) (items t.root) × (t'.excluded ≡ t.excluded) × (t'.next ≡ t.next)
unfolding move
move-Perm t t' id parent_id index h = elim (Option-cases (find id t.root)) [
  | inl e ↦ absurd (ground arith)
  | inr ((n, cs), e) ↦ elim (Result-cases (parent_for t parent_id)) [
    | inr (r, q) ↦ absurd (ground arith)
    | inl (p, q) ↦ elim (Bool-cases (is_within t.root p n cs)) [
      | inl w ↦ absurd (ground arith)
      | inr w ↦
          let same : record t { root = insert_under p index n cs (detach id t.root) } ≡ t' =
            ground arith in
          let stays =
            moved p id index t.root (find-Found id t.root e) (parent_for-Stands t parent_id q) w in
          (
            subst (λ s. Perm (items s.root) (items t.root)) same stays,
            ap (λ s. s.excluded) (sym same),
            ap (λ s. s.next) (sym same),
          )
    ]
  ]
]

-- The node is there, and the parent is the root or a node that is not prose and stands outside the
-- node's subtree.
abbrev pub MayMove : Tree → Bytes → Bytes → Type 0
MayMove t id parent_id =
    (n : Item) × (cs : Forest) × (find id t.root ≡ some (n, cs)) × ((parent_id ≡ []) ⊎ Outside n cs)
  where
    Outside : Item → Forest → Type 0
    Outside n cs =
        (b : Item) × (bs : Forest) × (find parent_id t.root ≡ some (b, bs))
        × (is_prose b.kind ≡ false)
        × (¬ Mem parent_id (n.id ∷ ids cs))

is_within-root : (t : Forest) (n : Item) (cs : Forest) → is_within t at_root n cs ≡ false
unfolding is_within
is_within-root t n cs = refl

parent_for-root : (t : Tree) (id : Bytes) → id ≡ [] → parent_for t id ≡ ok at_root
unfolding parent_for
parent_for-root t id z = rw ((bytes_eq_iff id []).1 z) refl

parent_for-under :
    (t : Tree) (id : Bytes) {b : Item} {bs : Forest}
    → bytes_eq id [] ≡ false
    → find id t.root ≡ some (b, bs)
    → is_prose b.kind ≡ false
    → parent_for t id ≡ ok (under b bs)
unfolding parent_for
parent_for-under t id z f solid = rw (z, f, solid, parent_for) refl

move-does :
    (t : Tree) (id parent_id : Bytes) (index : ℤ) {n : Item} {cs : Forest} {p : Parent}
    → find id t.root ≡ some (n, cs)
    → parent_for t parent_id ≡ ok p
    → is_within t.root p n cs ≡ false
    → (t' : Tree) × (move t id parent_id index ≡ ok t')
unfolding move
move-does t id parent_id index {n} {cs} {p} e f w =
    (record t { root = insert_under p index n cs (detach id t.root) }, rw (e, f, w, move) refl)

-- Where ids are unique, Move succeeds exactly where the node is there and the parent is the root or a node that is not prose
-- and stands outside the node's subtree.
pub move-ok_iff :
    (t : Tree) (id parent_id : Bytes) (index : ℤ)
    → Nodup (ids t.root)
    → ((t' : Tree) × (move t id parent_id index ≡ ok t')) ↔ MayMove t id parent_id
unfolding move parent_for
move-ok_iff t id parent_id index d = (to, from)
  where
    to : (t' : Tree) × (move t id parent_id index ≡ ok t') → MayMove t id parent_id
    to (t', h) = elim (Option-cases (find id t.root)) [
      | inl e ↦ absurd (ground arith)
      | inr ((n, cs), e) ↦ (
        n,
        cs,
        e,
        elim (Bool-cases (bytes_eq parent_id [])) [
          | inl z ↦ inl ((bytes_eq_iff parent_id []).0 z)
          | inr z ↦ elim (Option-cases (find parent_id t.root)) [
            | inl f ↦ absurd (ground arith)
            | inr ((b, bs), f) ↦
                let solid : is_prose b.kind ≡ false = ground arith in
                let out : is_within t.root (under b bs) n cs ≡ false = ground arith in
                inr (
                  b,
                  bs,
                  f,
                  solid,
                  subst (λ i. ¬ Mem i (n.id ∷ ids cs)) (find-Found parent_id t.root f).named
                      ((is_within_unique (find-Found id t.root e) d b bs).0 out),
                )
          ]
        ],
      )
    ]

    from : MayMove t id parent_id → (t' : Tree) × (move t id parent_id index ≡ ok t')
    from (n, cs, e, inl z) =
        move-does t id parent_id index {p = at_root} e (parent_for-root t parent_id z)
          (is_within-root t.root n cs)
    from (n, cs, e, inr (b, bs, f, solid, out)) = elim (Bool-cases (bytes_eq parent_id [])) [
      | inl z ↦
          move-does t id parent_id index {p = at_root} e
            (parent_for-root t parent_id ((bytes_eq_iff parent_id []).0 z))
            (is_within-root t.root n cs)
      | inr z ↦
          let w : is_within t.root (under b bs) n cs ≡ false =
            (is_within_unique (find-Found id t.root e) d b bs).1 (
              subst (λ i. ¬ Mem i (n.id ∷ ids cs)) (sym (find-Found parent_id t.root f).named)
                out) in
          move-does t id parent_id index e (parent_for-under t parent_id z f solid) w
    ]
