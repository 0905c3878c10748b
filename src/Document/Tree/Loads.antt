-- ===== src/Document/Tree/Loads.antt =====
-- Load: which documents it accepts.
use mathlib.Core.List.{
  append-nil, perm_append_comm, append_assoc, Perm, perm_middle, Mem, Nodup, Nodup-nil, Nodup-cons,
  Nodup-append,
}
use mathlib.Core.List.Perm
use sysml_federation.Base.{
  ◌≡◌, ◌↔◌, refl, sym, ap, subst, inl, inr, List, [], ◌∷◌, ◌++◌, false, ◌&&◌, arith, ltb, Bytes,
  bytes_eq, one_of, one_of-Mem, one_of-not, Bool-cases,
}
use sysml_federation.Document.Forest.Contents.{ids, ids-node, append_swap}
use sysml_federation.Document.Forest.{Item, Forest, nil, node, size, is_requirement, is_prose}
use sysml_federation.Document.Tree.{Result-cases, Tree, ok, check, load}

-- Every requirement node names a requirement, and no prose node has children.
abbrev pub IsShaped : Forest → Type 0
IsShaped nil = Unit {0}
IsShaped (node a cs rest) =
    ((is_requirement a.kind && bytes_eq a.requirement_id []) ≡ false)
    × ((is_prose a.kind && ltb 0 (size cs)) ≡ false)
    × IsShaped cs
    × IsShaped rest

record Checked (seen : List Bytes) (t : Forest) (seen' : List Bytes) : Type 0 where
  shaped : IsShaped t
  collected : Perm seen' (ids t ++ seen)
  apart : Nodup seen → Nodup seen'

gathered :
    (a : Item) (cs rest : Forest) (seen mid seen' : List Bytes)
    → Perm mid (ids cs ++ (a.id ∷ seen))
    → Perm seen' (ids rest ++ mid)
    → Perm seen' (ids (node a cs rest) ++ seen)
gathered a cs rest seen mid seen' first later =
    subst (λ s. Perm seen' (s ++ seen)) (sym (ids-node a cs rest))
      (Perm.trans later (
        Perm.trans (Perm.append_left (ids rest) first) (
          Perm.trans (append_swap (ids rest) (ids cs) (a.id ∷ seen)) (
            subst (λ s. Perm s (a.id ∷ ((ids cs ++ ids rest) ++ seen)))
              (append_assoc (ids cs) (ids rest) (a.id ∷ seen))
              (perm_middle (ids cs ++ ids rest) seen)))))

check-Checked :
    (seen : List Bytes) (t : Forest) {seen' : List Bytes}
    → check seen t ≡ ok seen'
    → Checked seen t seen'
unfolding check
check-Checked seen nil {seen'} h =
    let same : seen ≡ seen' = ground arith in
    record {
      shaped = tt;
      collected = subst (λ s. Perm s seen) same (Perm.refl seen);
      apart = λ d. subst Nodup same d;
    }
check-Checked seen (node a cs rest) {seen'} h =
    let named : (is_requirement a.kind && bytes_eq a.requirement_id []) ≡ false = ground arith in
    let leaf : (is_prose a.kind && ltb 0 (size cs)) ≡ false = ground arith in
    let new : one_of seen a.id ≡ false = ground arith in
    elim (Result-cases (check (a.id ∷ seen) cs)) [
      | inr (r, e) ↦ absurd (ground arith)
      | inl (mid, e) ↦
          let first = check-Checked (a.id ∷ seen) cs e in
          let later = check-Checked mid rest {seen' = seen'} (ground arith) in
          record {
            shaped = (named, leaf, first.shaped, later.shaped);
            collected = gathered a cs rest seen mid seen' first.collected later.collected;
            apart = λ d. later.apart (first.apart (Nodup-cons.1 (one_of-not seen a.id new, d)));
          }
    ]

around :
    (a : Item) (cs rest : Forest) (seen : List Bytes)
    → Perm (ids (node a cs rest) ++ seen) ((ids rest ++ ids cs) ++ (a.id ∷ seen))
around a cs rest seen =
    subst (λ s. Perm (s ++ seen) ((ids rest ++ ids cs) ++ (a.id ∷ seen))) (sym (ids-node a cs rest))
      (Perm.trans (Perm.symm (perm_middle (ids cs ++ ids rest) seen))
        (Perm.append_right (a.id ∷ seen) (perm_append_comm (ids cs) (ids rest))))

check-ok :
    (seen : List Bytes) (t : Forest)
    → IsShaped t
    → Nodup (ids t ++ seen)
    → (seen' : List Bytes) × (check seen t ≡ ok seen')
unfolding check
check-ok seen nil s d = (seen, refl)
check-ok seen (node a cs rest) (named, leaf, below, behind) d =
    let all : Nodup ((ids rest ++ ids cs) ++ (a.id ∷ seen)) =
      Perm.nodup (around a cs rest seen) d in
    let parts : Nodup (ids rest)
        × Nodup (ids cs ++ (a.id ∷ seen))
        × ((x : Bytes) → Mem x (ids rest) → Mem x (ids cs ++ (a.id ∷ seen)) → ⊥) =
      Nodup-append.0 (subst Nodup (append_assoc (ids rest) (ids cs) (a.id ∷ seen)) all) in
    let (mid, e) = check-ok (a.id ∷ seen) cs below parts.1 in
    let own : Nodup (a.id ∷ seen) = (Nodup-append.0 parts.1).1 in
    let new : one_of seen a.id ≡ false = elim (Bool-cases (one_of seen a.id)) [
      | inl o ↦ absurd ((Nodup-cons.0 own).0 (one_of-Mem seen a.id o))
      | inr o ↦ o
    ] in
    let first = check-Checked (a.id ∷ seen) cs e in
    let (seen', f) = check-ok mid rest behind (
      Perm.nodup (Perm.append_left (ids rest) (Perm.symm first.collected))
        (subst Nodup (append_assoc (ids rest) (ids cs) (a.id ∷ seen)) all)) in
    (seen', rw (new, named, leaf, e, check) f)

-- Load accepts a document exactly where no id stands twice, every requirement node names a
-- requirement and no prose node has children.
pub load-ok_iff :
    (nodes : Forest)
    → ((t : Tree) × (load nodes ≡ ok t) × (t.root ≡ nodes)) ↔ (Nodup (ids nodes) × IsShaped nodes)
unfolding load
load-ok_iff nodes = (to, from)
  where
    to : (t : Tree) × (load nodes ≡ ok t) × (t.root ≡ nodes) → Nodup (ids nodes) × IsShaped nodes
    to (t, h, same) = elim (Result-cases (check [] nodes)) [
      | inr (r, e) ↦ absurd (ground arith)
      | inl (seen, e) ↦
          let c = check-Checked [] nodes e in
          (
            subst Nodup (append-nil (ids nodes)) (Perm.nodup c.collected (c.apart Nodup-nil)),
            c.shaped,
          )
    ]

    from : Nodup (ids nodes) × IsShaped nodes → (t : Tree) × (load nodes ≡ ok t) × (t.root ≡ nodes)
    from (d, s) =
        let (seen, e) = check-ok [] nodes s (subst Nodup (sym (append-nil (ids nodes))) d) in
        (record { root = nodes; excluded = []; next = 1 }, rw (e, load) refl, refl)

pub load-root : (nodes : Forest) (t : Tree) → load nodes ≡ ok t → t.root ≡ nodes
unfolding load
load-root nodes t h = elim (Result-cases (check [] nodes)) [
  | inr (r, e) ↦ absurd (ground arith)
  | inl (seen, e) ↦
      let same : record { root = nodes; excluded = []; next = 1 } ≡ t = ground arith in
      ap (λ s. s.root) (sym same)
]
