-- ===== src/Document/Forest/Contents.antt =====
-- What the walks find and what an assignment does, on the items in document order.
use mathlib.Core.List.{
  append_assoc, Perm, perm_append_comm, map-append, Mem, Mem-prop, mem-cons, mem-cons_self,
  mem-append, not-mem-nil,
}
use mathlib.Core.Logic.Or
use mathlib.Core.HLevel.{⊥_prop}
use mathlib.Core.List.Perm
use sysml_federation.Base.{
  ℕ, zero, suc, ◌≡◌, ◌≢◌, refl, sym, ap, ◌∙◌, inl, inr, List, [], ◌∷◌, ◌++◌, true, false, none,
  some, arith, map, subst, Bool-cases, Option-cases, Bytes, bytes_eq, bytes_eq_iff,
}
use sysml_federation.Document.Forest.{
  Item, Forest, nil, node, append, find, splice, insert_nth, items,
}

pub items-append : (f g : Forest) → items (append f g) ≡ items f ++ items g
unfolding append
items-append nil g = refl
items-append (node a cs rest) g =
    ap (λ s. a ∷ (items cs ++ s)) (items-append rest g)
    ∙ ap (λ s. a ∷ s) (sym (append_assoc (items cs) (items rest) (items g)))

abbrev pub ids : Forest → List Bytes
ids t = map (λ a. a.id) (items t)

pub ids-node : (b : Item) (bs rest : Forest) → ids (node b bs rest) ≡ b.id ∷ (ids bs ++ ids rest)
ids-node b bs rest = ap (λ s. b.id ∷ s) (map-append _ (items bs) (items rest))

-- Where the walk finds nothing, no node has the id.
pub find-none : (id : Bytes) (t : Forest) → find id t ≡ none → ¬ Mem id (ids t)
unfolding find
find-none id nil h m = not-mem-nil m
find-none id (node b bs rest) h m =
    let other : bytes_eq b.id id ≡ false = ground arith in
    let below : find id bs ≡ none = ground arith in
    let behind : find id rest ≡ none = ground arith in
    Or.elim ⊥_prop (mem-cons.0 (subst (Mem id) (ids-node b bs rest) m))
      (λ e. cc (other, (bytes_eq_iff b.id id).1 (sym e)))
      (λ n. Or.elim ⊥_prop (mem-append.0 n) (find-none id bs below) (find-none id rest behind))

-- A node that is found: the items around it and its children, which any assignment there leaves.
pub record Found (id : Bytes) (t : Forest) (a : Item) (cs : Forest) : Type 0 where
  pub named : a.id ≡ id
  pub before : List Item
  pub after : List Item
  pub first : ¬ Mem id (map (λ a. a.id) before)
  pub splits : items t ≡ before ++ (a ∷ (items cs ++ after))
  pub spliced :
      (f : Item → Forest → Forest) → items (splice id f t) ≡ before ++ (items (f a cs) ++ after)

other_id : (id : Bytes) (b : Item) → bytes_eq b.id id ≡ false → id ≢ b.id
other_id id b e same = cc (e, (bytes_eq_iff b.id id).1 (sym same))

Found-here :
    (id : Bytes) (a : Item) (cs rest : Forest)
    → bytes_eq a.id id ≡ true
    → Found id (node a cs rest) a cs
unfolding splice
Found-here id a cs rest e = record {
  named = (bytes_eq_iff a.id id).0 e;
  before = [];
  after = items rest;
  first = not-mem-nil;
  splits = refl;
  spliced = λ f. rw (e, splice) (items-append (f a cs) rest);
}

Found-below :
    (id : Bytes) (b a : Item) (bs cs rest : Forest)
    → bytes_eq b.id id ≡ false
    → find id bs ≡ some (a, cs)
    → Found id bs a cs
    → Found id (node b bs rest) a cs
unfolding splice
Found-below id b a bs cs rest e p h = record {
  named = h.named;
  before = b ∷ h.before;
  after = h.after ++ items rest;
  first = λ m. Or.elim ⊥_prop (mem-cons.0 m) (other_id id b e) h.first;
  splits = simp (h.splits, append_assoc);
  spliced = λ f. rw (e, p, splice) (simp (h.spliced f, append_assoc));
}

Found-behind :
    (id : Bytes) (b a : Item) (bs cs rest : Forest)
    → bytes_eq b.id id ≡ false
    → find id bs ≡ none
    → Found id rest a cs
    → Found id (node b bs rest) a cs
unfolding splice
Found-behind id b a bs cs rest e p h = record {
  named = h.named;
  before = b ∷ (items bs ++ h.before);
  after = h.after;
  first = λ m. Or.elim ⊥_prop (mem-cons.0 m) (other_id id b e) (λ n.
      Or.elim ⊥_prop (mem-append.0 (subst (Mem id) (map-append _ (items bs) h.before) n))
        (find-none id bs p) h.first);
  splits = simp (h.splits, append_assoc);
  spliced = λ f. rw (e, p, splice) (simp (h.spliced f, append_assoc));
}

-- What locate finds is a node of the tree with that id, and the assignment changes it alone.
pub find-Found :
    (id : Bytes) (t : Forest) {a : Item} {cs : Forest} → find id t ≡ some (a, cs) → Found id t a cs
unfolding find
find-Found id nil h = absurd (ground arith)
find-Found id (node b bs rest) {a} {cs} h = elim (Bool-cases (bytes_eq b.id id)) [
  | inl e ↦
      let same : (b ≡ a) × (bs ≡ cs) = ground arith in
      rw (← same.0, ← same.1) (Found-here id b bs rest e)
  | inr e ↦ elim (Option-cases (find id bs)) [
    | inl p ↦ Found-behind id b a bs cs rest e p (find-Found id rest (ground arith))
    | inr (x, p) ↦
        let q : find id bs ≡ some (a, cs) = ground arith in
        Found-below id b a bs cs rest e q (find-Found id bs q)
  ]
]

pub append_swap {ℓ} : {A : Type ℓ} (xs ys zs : List A) → Perm (xs ++ (ys ++ zs)) (ys ++ (xs ++ zs))
append_swap xs ys zs =
    subst (λ s. Perm s (ys ++ (xs ++ zs))) (append_assoc xs ys zs)
      (subst (Perm ((xs ++ ys) ++ zs)) (append_assoc ys xs zs)
        (Perm.append_right zs (perm_append_comm xs ys)))

pub items-insert_nth :
    (i : ℕ) (list : Forest) (n : Item) (cs : Forest)
    → Perm (items (insert_nth i list n cs)) (n ∷ (items cs ++ items list))
unfolding insert_nth
items-insert_nth zero list n cs = Perm.refl _
items-insert_nth (suc i) nil n cs = Perm.refl _
items-insert_nth (suc i) (node b bs rest) n cs =
    Perm.trans (Perm.cons b (Perm.append_left (items bs) (items-insert_nth i rest n cs)))
      (append_swap (b ∷ items bs) (n ∷ items cs) (items rest))

-- An assignment that adds the items xs at a node that is there adds them to the tree.
pub splice-adds :
    (id : Bytes) (t : Forest) (f : Item → Forest → Forest) (xs : List Item)
    → find id t ≢ none
    → ((a : Item) (cs : Forest) → Perm (items (f a cs)) (xs ++ (a ∷ items cs)))
    → Perm (items (splice id f t)) (xs ++ items t)
splice-adds id t f xs some_node adds = elim (Option-cases (find id t)) [
  | inl e ↦ absurd (some_node e)
  | inr ((a, cs), e) ↦
      let h = find-Found id t e in
      subst (λ s. Perm s (xs ++ items t)) (sym (h.spliced f))
        (subst (λ s. Perm (h.before ++ (items (f a cs) ++ h.after)) (xs ++ s)) (sym h.splits)
          (Perm.trans
            (Perm.append_left h.before (
              subst (Perm (items (f a cs) ++ h.after)) (append_assoc xs (a ∷ items cs) h.after)
                (Perm.append_right h.after (adds a cs))))
            (append_swap h.before xs (a ∷ (items cs ++ h.after)))))
]

-- A node that is found has its id among the ids.
pub find-Mem : (id : Bytes) (t : Forest) → find id t ≢ none → Mem id (ids t)
find-Mem id t some_node = elim (Option-cases (find id t)) [
  | inl e ↦ absurd (some_node e)
  | inr ((a, cs), e) ↦
      let h = find-Found id t e in
      subst (Mem id) (ap (map (λ a. a.id)) (sym h.splits)) (
        subst (Mem id) (sym (map-append (λ (a : Item). a.id) h.before (a ∷ (items cs ++ h.after))))
          (mem-append.1 (
            Or.inr (
              subst (λ s. Mem s (a.id ∷ map (λ a. a.id) (items cs ++ h.after))) h.named
                mem-cons_self))))
]

-- A node of the list is outside a piece of it or in the piece.
pub mem_around :
    (x : Bytes) (before mid after : List Item)
    → Mem x (map (λ a. a.id) (before ++ (mid ++ after)))
    → ¬ Mem x (map (λ a. a.id) mid)
    → Mem x (map (λ a. a.id) (before ++ after))
mem_around x before mid after m outside =
    let f : Item → Bytes = λ a. a.id in
    subst (Mem x) (sym (map-append f before after)) (
      Or.elim Mem-prop (mem-append.0 (subst (Mem x) (map-append f before (mid ++ after)) m))
        (λ b. mem-append.1 (Or.inl b))
        (λ r.
          Or.elim Mem-prop (mem-append.0 (subst (Mem x) (map-append f mid after) r))
            (λ in_mid. absurd (outside in_mid)) (λ a. mem-append.1 (Or.inr a))))
