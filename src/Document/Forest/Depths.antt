-- ===== src/Document/Forest/Depths.antt =====
-- The nodes in document order, each with its depth and the id of its parent, and what an assignment does there.
use mathlib.Core.List.{append_assoc, map-append}
use sysml_federation.Base.{
  ℕ, zero, suc, min, ◌≡◌, refl, sym, ap, ◌∙◌, inl, inr, List, [], ◌∷◌, ◌++◌, true, false, none,
  some, arith, map, Bool-cases, Option-cases, Bytes, bytes_eq, bytes_eq_iff,
}
use sysml_federation.Document.Forest.Contents.{ids, ids-node}
use sysml_federation.Document.Forest.{
  Item, Forest, nil, node, append, size, find, parent_of, splice, insert_nth,
}

-- A node, how many nodes are above it and the id of the one that it is a child of, "" for none.
pub record Placed : Type 0 where
  pub depth : ℕ
  pub parent : Bytes
  pub item : Item

abbrev pub at_place : ℕ → Bytes → Item → Placed
at_place depth parent item = record { depth = depth; parent = parent; item = item }

-- The nodes of a list of children. Such a list of a whole document tells its tree.
abbrev pub placed : ℕ → Bytes → Forest → List Placed
placed depth parent nil = []
placed depth parent (node a cs rest) =
    at_place depth parent a ∷ (placed (suc depth) a.id cs ++ placed depth parent rest)

pub placed-append :
    (d : ℕ) (p : Bytes) (f g : Forest) → placed d p (append f g) ≡ placed d p f ++ placed d p g
unfolding append
placed-append d p nil g = refl
placed-append d p (node a cs rest) g =
    ap (λ s. at_place d p a ∷ (placed (suc d) a.id cs ++ s)) (placed-append d p rest g)
    ∙ ap (λ s. at_place d p a ∷ s)
        (sym (append_assoc (placed (suc d) a.id cs) (placed d p rest) (placed d p g)))

pub ids-placed : (d : ℕ) (p : Bytes) (t : Forest) → ids t ≡ map (λ x. x.item.id) (placed d p t)
ids-placed d p nil = refl
ids-placed d p (node a cs rest) =
    ids-node a cs rest
    ∙ ap (λ s. a.id ∷ (s ++ ids rest)) (ids-placed (suc d) a.id cs)
    ∙ ap (λ s. a.id ∷ (map (λ x. x.item.id) (placed (suc d) a.id cs) ++ s)) (ids-placed d p rest)
    ∙ ap (λ s. a.id ∷ s) (sym (map-append _ (placed (suc d) a.id cs) (placed d p rest)))

-- Where a node stands, and what an assignment there does to the whole.
pub record Spot (id : Bytes) (d : ℕ) (p : Bytes) (t : Forest) (a : Item) (cs : Forest)
    : Type 0 where
  pub named : a.id ≡ id
  pub depth : ℕ
  pub parent : Bytes
  pub before : List Placed
  pub after : List Placed
  pub held : parent_of id p t ≡ some parent
  pub splits :
      placed d p t ≡ before ++ (at_place depth parent a ∷ (placed (suc depth) a.id cs ++ after))
  pub spliced :
      (f : Item → Forest → Forest)
      → placed d p (splice id f t) ≡ before ++ (placed depth parent (f a cs) ++ after)

parent_of-none : (id p : Bytes) (t : Forest) → find id t ≡ none → parent_of id p t ≡ none
unfolding find parent_of
parent_of-none id p nil h = refl
parent_of-none id p (node a cs rest) h =
    let other : bytes_eq a.id id ≡ false = ground arith in
    let below : find id cs ≡ none = ground arith in
    let behind : find id rest ≡ none = ground arith in
    rw (other, parent_of-none id a.id cs below, parent_of-none id p rest behind, parent_of) refl

Spot-here :
    (id : Bytes) (d : ℕ) (p : Bytes) (a : Item) (cs rest : Forest)
    → bytes_eq a.id id ≡ true
    → Spot id d p (node a cs rest) a cs
unfolding splice parent_of
Spot-here id d p a cs rest e = record {
  named = (bytes_eq_iff a.id id).0 e;
  depth = d;
  parent = p;
  before = [];
  after = placed d p rest;
  held = rw (e, parent_of) refl;
  splits = refl;
  spliced = λ f. rw (e, splice) (placed-append d p (f a cs) rest);
}

Spot-below :
    (id : Bytes) (d : ℕ) (p : Bytes) (b a : Item) (bs cs rest : Forest)
    → bytes_eq b.id id ≡ false
    → find id bs ≡ some (a, cs)
    → Spot id (suc d) b.id bs a cs
    → Spot id d p (node b bs rest) a cs
unfolding splice parent_of
Spot-below id d p b a bs cs rest e q h = record {
  named = h.named;
  depth = h.depth;
  parent = h.parent;
  before = at_place d p b ∷ h.before;
  after = h.after ++ placed d p rest;
  held = rw (e, h.held, parent_of) refl;
  splits = simp (h.splits, append_assoc);
  spliced = λ f. rw (e, q, splice) (simp (h.spliced f, append_assoc));
}

Spot-behind :
    (id : Bytes) (d : ℕ) (p : Bytes) (b a : Item) (bs cs rest : Forest)
    → bytes_eq b.id id ≡ false
    → find id bs ≡ none
    → Spot id d p rest a cs
    → Spot id d p (node b bs rest) a cs
unfolding splice parent_of
Spot-behind id d p b a bs cs rest e q h = record {
  named = h.named;
  depth = h.depth;
  parent = h.parent;
  before = at_place d p b ∷ (placed (suc d) b.id bs ++ h.before);
  after = h.after;
  held = rw (e, parent_of-none id b.id bs q, h.held, parent_of) refl;
  splits = simp (h.splits, append_assoc);
  spliced = λ f. rw (e, q, splice) (simp (h.spliced f, append_assoc));
}

-- What locate finds stands in the tree, and the assignment changes it alone.
pub find-Spot :
    (id : Bytes) (d : ℕ) (p : Bytes) (t : Forest) {a : Item} {cs : Forest}
    → find id t ≡ some (a, cs)
    → Spot id d p t a cs
unfolding find
find-Spot id d p nil h = absurd (ground arith)
find-Spot id d p (node b bs rest) {a} {cs} h = elim (Bool-cases (bytes_eq b.id id)) [
  | inl e ↦
      let same : (b ≡ a) × (bs ≡ cs) = ground arith in
      rw (← same.0, ← same.1) (Spot-here id d p b bs rest e)
  | inr e ↦ elim (Option-cases (find id bs)) [
    | inl q ↦ Spot-behind id d p b a bs cs rest e q (find-Spot id d p rest (ground arith))
    | inr (x, q) ↦
        let f : find id bs ≡ some (a, cs) = ground arith in
        Spot-below id d p b a bs cs rest e f (find-Spot id (suc d) b.id bs f)
  ]
]

-- An insertion splits the list: so many children stand before the new one.
pub insert_nth-splits :
    (i : ℕ) (list : Forest) (n : Item) (cs : Forest)
    → (front : Forest) × (back : Forest) × (list ≡ append front back)
      × (insert_nth i list n cs ≡ append front (node n cs back))
      × (size front ≡ min i (size list))
unfolding insert_nth append size
insert_nth-splits zero list n cs = (nil, list, refl, refl, omega arith)
insert_nth-splits (suc i) nil n cs = (nil, nil, refl, refl, omega arith)
insert_nth-splits (suc i) (node b bs rest) n cs =
    let (front, back, e, f, k) = insert_nth-splits i rest n cs in
    (node b bs front, back, ap (node b bs) e, ap (node b bs) f, ground (arith, k))
