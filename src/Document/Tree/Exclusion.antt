-- ===== src/Document/Tree/Exclusion.antt =====
-- Exclude and Include: what they remove, keep and put back.
use mathlib.Core.List.{
  append-nil, Perm, perm_append_comm, perm_middle, Mem, mem-append, Nodup, Nodup-cons, Nodup-append,
}
use mathlib.Core.Logic.Or
use mathlib.Core.List.Perm
use sysml_federation.Base.{
  ℕ, suc, ◌≡◌, refl, sym, ap, ◌∙◌, subst, inl, inr, List, [], ◌∷◌, ◌++◌, true, false, ◌&&◌, none,
  some, arith, Bytes, bytes_eq, bytes_eq_iff, bytes_eq_refl, Bool-cases, Option-cases,
}
use sysml_federation.Document.Forest.Contents.{
  find-Found, ids, ids-node, find-Mem, items-append, splice-adds,
}
use sysml_federation.Document.Forest.Depths.{Placed, at_place, placed, find-Spot}
use sysml_federation.Document.Forest.{
  Item, Forest, nil, node, append, find, parent_of, splice, by_requirement, items, is_requirement,
}
use sysml_federation.Document.Tree.{
  Excluded, Tree, ok, get, remove, put, exclude, append_under, include, parent_id_of,
}

differs : (x y : Bytes) (list : List Bytes) → Mem y list → ¬ Mem x list → bytes_eq x y ≡ false
differs x y list m out = elim (Bool-cases (bytes_eq x y)) [
  | inl e ↦ absurd (out (subst (λ z. Mem z list) (sym ((bytes_eq_iff x y).0 e)) m))
  | inr e ↦ e
]

absent : (id : Bytes) (t : Forest) → ¬ Mem id (ids t) → find id t ≡ none
absent id t out = elim (Option-cases (find id t)) [
  | inl e ↦ e
  | inr (a, e) ↦ absurd (out (find-Mem id t (λ none_there. cc (none_there, e))))
]

found-Mem : (id : Bytes) (t : Forest) {a : Item × Forest} → find id t ≡ some a → Mem id (ids t)
found-Mem id t e = find-Mem id t (λ none_there. cc (none_there, e))

-- The node that byRequirement finds is a requirement node of that requirement, and, where ids are
-- unique, the one that locate finds under its id.
pub by_requirement-find :
    (r : Bytes) (t : Forest) {n : Item} {cs : Forest}
    → Nodup (ids t)
    → by_requirement r t ≡ some (n, cs)
    → (find n.id t ≡ some (n, cs)) × (is_requirement n.kind ≡ true) × (n.requirement_id ≡ r)
unfolding by_requirement find
by_requirement-find r nil d h = absurd (ground arith)
by_requirement-find r (node b bs rest) {n} {cs} d h =
    let k : (¬ Mem b.id (ids bs ++ ids rest)) × Nodup (ids bs ++ ids rest) =
      Nodup-cons.0 (subst Nodup (ids-node b bs rest) d) in
    let parts : Nodup (ids bs)
        × Nodup (ids rest)
        × ((x : Bytes) → Mem x (ids bs) → Mem x (ids rest) → ⊥) =
      Nodup-append.0 k.1 in
    elim (Bool-cases (is_requirement b.kind && bytes_eq b.requirement_id r)) [
      | inl e ↦
          let same : (b ≡ n) × (bs ≡ cs) = ground arith in
          let kind : is_requirement b.kind ≡ true = ground arith in
          let named : bytes_eq b.requirement_id r ≡ true = ground arith in
          (
            rw (← same.0, bytes_eq_refl b.id, ← same.1, find) refl,
            subst (λ i. is_requirement i.kind ≡ true) same.0 kind,
            subst (λ i. i.requirement_id ≡ r) same.0 ((bytes_eq_iff b.requirement_id r).0 named),
          )
      | inr e ↦ elim (Option-cases (by_requirement r bs)) [
        | inr ((a, cs'), p) ↦
            let q : by_requirement r bs ≡ some (n, cs) = ground arith in
            let (f, kind, named) = by_requirement-find r bs parts.0 q in
            let other : bytes_eq b.id n.id ≡ false =
              differs b.id n.id _ (mem-append.1 (Or.inl (found-Mem n.id bs f))) k.0 in
            (rw (other, f, find) refl, kind, named)
        | inl p ↦
            let q : by_requirement r rest ≡ some (n, cs) = ground arith in
            let (f, kind, named) = by_requirement-find r rest parts.1 q in
            let other : bytes_eq b.id n.id ≡ false =
              differs b.id n.id _ (mem-append.1 (Or.inr (found-Mem n.id rest f))) k.0 in
            let behind : find n.id bs ≡ none =
              absent n.id bs (λ m. parts.2 n.id m (found-Mem n.id rest f)) in
            (rw (other, behind, f, find) refl, kind, named)
      ]
    ]

-- The node of the requirement, what Exclude leaves of the document and what it remembers.
pub record Excludes (t : Tree) (r : Bytes) (t' : Tree) : Type 0 where
  pub item : Item
  pub below : List Item
  pub before : List Item
  pub after : List Item
  pub is_node : (is_requirement item.kind ≡ true) × (item.requirement_id ≡ r)
  pub was : items t.root ≡ before ++ (item ∷ (below ++ after))
  pub is : items t'.root ≡ before ++ (below ++ after)
  pub children : Forest
  pub depth : ℕ
  pub parent : Bytes
  pub ahead : List Placed
  pub behind : List Placed
  pub stood :
      placed 0 [] t.root
      ≡ ahead ++ (at_place depth parent item ∷ (placed (suc depth) item.id children ++ behind))
  pub stands : placed 0 [] t'.root ≡ ahead ++ (placed depth parent children ++ behind)
  pub remembered : get r t'.excluded ≡ some (record { item = item; parent = parent })

get-put : (k : Bytes) (v : Excluded) (m : List (Bytes × Excluded)) → get k (put k v m) ≡ some v
unfolding get
get-put k v m = rw (bytes_eq_refl k, get) refl

abbrev at_parent : Item → Bytes → Excluded
at_parent n p = record { item = n; parent = p }

held_parent :
    (id : Bytes) (root : Forest) {p : Bytes}
    → parent_of id [] root ≡ some p
    → parent_id_of id root ≡ p
held_parent id root e = rw (e, parent_id_of) refl

-- Where ids are unique and Exclude succeeds, it removes the node of the requirement alone. Its children stand
-- in its place, one less deep and under its parent, and every other node stands where it stood. The node
-- and the id of the parent under which it stood, empty for a root, are remembered for Include.
pub exclude-Excludes :
    (t t' : Tree) (r : Bytes) → Nodup (ids t.root) → exclude t r ≡ ok t' → Excludes t r t'
unfolding exclude
exclude-Excludes t t' r d h = elim (Option-cases (by_requirement r t.root)) [
  | inl e ↦ absurd (ground arith)
  | inr ((n, cs), e) ↦
      let (f, kind, named) = by_requirement-find r t.root d e in
      let at = find-Found n.id t.root f in
      let spot = find-Spot n.id 0 [] t.root f in
      let ex : Excluded = record { item = n; parent = parent_id_of n.id t.root } in
      let same : record t { root = splice n.id (λ a bs. cs) t.root; excluded = put r ex t.excluded }
          ≡ t' =
        ground arith in
      record {
        item = n;
        below = items cs;
        before = at.before;
        after = at.after;
        is_node = (kind, named);
        was = at.splits;
        is = subst (λ s. items s.root ≡ at.before ++ (items cs ++ at.after)) same (at.spliced _);
        children = cs;
        depth = spot.depth;
        parent = spot.parent;
        ahead = spot.before;
        behind = spot.after;
        stood = spot.splits;
        stands =
            subst
              (λ s.
                placed 0 [] s.root
                ≡ spot.before ++ (placed spot.depth spot.parent cs ++ spot.after))
              same (spot.spliced _);
        remembered =
            subst (λ s. get r s.excluded ≡ some ex) same (get-put r ex t.excluded)
            ∙ ap (λ (p : Bytes). some (at_parent n p)) (held_parent n.id t.root spot.held);
      }
]

-- The last child of a node, or the last root, is one more node.
append_under-adds :
    (parent : Bytes) (n : Item) (root : Forest)
    → Perm (items (append_under parent n root)) (n ∷ items root)
unfolding append_under
append_under-adds parent n root = elim (Option-cases (find parent root)) [
  | inl e ↦
      rw (e, append_under)
        (subst (λ s. Perm s (n ∷ items root)) (sym (items-append root (node n nil nil)))
          (perm_append_comm (items root) (n ∷ [])))
  | inr (a, e) ↦
      rw (e, append_under)
        (splice-adds parent root (λ b bs. node b (append bs (node n nil nil)) nil) (n ∷ [])
          (λ none_there. cc (none_there, e)) added)
]
  where
    added :
        (b : Item) (bs : Forest)
        → Perm (items (node b (append bs (node n nil nil)) nil)) ((n ∷ []) ++ (b ∷ items bs))
    added b bs =
        subst (λ s. Perm s (n ∷ b ∷ items bs))
          (ap (λ s. b ∷ s) (sym (append-nil _ ∙ items-append bs (node n nil nil))))
          (perm_append_comm (b ∷ items bs) (n ∷ []))

-- Include puts back the node that Exclude remembers: the nodes are those before, and that one.
pub include-adds :
    (t : Tree) (r : Bytes) (ex : Excluded)
    → get r t.excluded ≡ some ex
    → (t' : Tree) × (include t r ≡ ok t') × Perm (items t'.root) (ex.item ∷ items t.root)
unfolding include
include-adds t r ex e = (
  record t { root = append_under ex.parent ex.item t.root; excluded = remove r t.excluded },
  rw (e, include) refl,
  append_under-adds ex.parent ex.item t.root,
)

-- Where ids are unique, Include after Exclude of the same requirement succeeds, and the document has
-- the nodes that it had before the two, in some order.
pub exclude-include :
    (t t' : Tree) (r : Bytes)
    → Nodup (ids t.root)
    → exclude t r ≡ ok t'
    → (t'' : Tree) × (include t' r ≡ ok t'') × Perm (items t''.root) (items t.root)
exclude-include t t' r d h =
    let x = exclude-Excludes t t' r d h in
    let (t'', done, back) = include-adds t' r _ x.remembered in
    (
      t'',
      done,
      Perm.trans back (
          subst (λ s. Perm (x.item ∷ s) (items t.root)) (sym x.is)
            (subst (Perm (x.item ∷ (x.before ++ (x.below ++ x.after)))) (sym x.was)
              (Perm.symm (perm_middle x.before (x.below ++ x.after))))),
    )
