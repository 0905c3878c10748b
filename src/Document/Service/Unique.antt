-- ===== src/Document/Service/Unique.antt =====
-- Ids stay unique under the mutations.
use mathlib.Core.List.{[], map-append, Perm, Mem, Nodup, Nodup-cons, perm_middle}
use mathlib.Core.List.Perm
use sysml_federation.Base.{
  ◌≡◌, sym, ap, ◌∙◌, subst, inl, inr, ◌∷◌, ◌++◌, Option, some, arith, map, Bytes, Option-cases,
}
use sysml_federation.Document.Forest.Contents.{ids}
use sysml_federation.Document.Forest.Depths.{ids-placed}
use sysml_federation.Document.Forest.{Item, Forest, find, items}
use sysml_federation.Document.Service.{
  Change, move_node, put_heading, put_prose, change_text, exclude_requirement, include_requirement,
  reset_document, deref, load_data, run_change,
}
use sysml_federation.Document.Tree.Edits.{
  Adds, insert_heading-Adds, add_prose-Adds, Edited, edit_text-Edited,
}
use sysml_federation.Document.Tree.Exclusion.{Excludes, exclude-Excludes, include-adds}
use sysml_federation.Document.Tree.Loads.{load-ok_iff, load-root}
use sysml_federation.Document.Tree.Moves.{move-Perm}
use sysml_federation.Document.Tree.{
  Result-cases, Excluded, Tree, ok, get, load, parent_for, insert_heading, add_prose, include,
}

-- An included node comes back under an id that no node has taken since.
abbrev pub IsFree : Change → Tree → Type 0
IsFree (include_requirement r) t =
    (ex : Excluded) → get r t.excluded ≡ some ex → ¬ Mem ex.item.id (ids t.root)
IsFree _ t = Unit {0}

Perm-Nodup :
    (t t' : Tree) → Perm (items t'.root) (items t.root) → Nodup (ids t.root) → Nodup (ids t'.root)
Perm-Nodup t t' p d = Perm.nodup (Perm.map _ (Perm.symm p)) d

one_more-Nodup :
    (t t' : Tree) (a : Item)
    → Perm (items t'.root) (a ∷ items t.root)
    → ¬ Mem a.id (ids t.root)
    → Nodup (ids t.root)
    → Nodup (ids t'.root)
one_more-Nodup t t' a p fresh d =
    Perm.nodup (Perm.map (λ a. a.id) (Perm.symm p)) (Nodup-cons.1 (fresh, d))

Adds-Nodup :
    {t t' : Tree} {kind : _} {text id : Bytes}
    → Adds t kind text id t'
    → Nodup (ids t.root)
    → Nodup (ids t'.root)
Adds-Nodup {t} {t'} a d = one_more-Nodup t t' _ a.one_more a.fresh d

heading-Nodup :
    (t t' : Tree) (above text id : Bytes)
    → insert_heading t above text ≡ ok (t', id)
    → Nodup (ids t.root)
    → Nodup (ids t'.root)
unfolding insert_heading
heading-Nodup t t' above text id h d = elim (Option-cases (find above t.root)) [
  | inl e ↦ absurd (ground arith)
  | inr (n, e) ↦
      let (u, i, done, adds, placed_so) = insert_heading-Adds t above text (λ gone. cc (gone, e)) in
      let same : u ≡ t' = ground (arith, sym done ∙ h) in
      subst (λ u. Nodup (ids u.root)) same (Adds-Nodup adds d)
]

prose-Nodup :
    (t t' : Tree) (parent : Bytes) (index : _) (text id : Bytes)
    → add_prose t parent index text ≡ ok (t', id)
    → Nodup (ids t.root)
    → Nodup (ids t'.root)
unfolding add_prose
prose-Nodup t t' parent index text id h d = elim (Result-cases (parent_for t parent)) [
  | inr (r, e) ↦ absurd (ground arith)
  | inl (p, e) ↦
      let (u, i, done, adds, placed_so) = add_prose-Adds t parent index text p e in
      let same : u ≡ t' = ground (arith, sym done ∙ h) in
      subst (λ u. Nodup (ids u.root)) same (Adds-Nodup adds d)
]

edit-Nodup :
    {t t' : Tree} {id text : Bytes} → Edited t id text t' → Nodup (ids t.root) → Nodup (ids t'.root)
edit-Nodup {t} {t'} e d =
    let same : ids t.root ≡ ids t'.root =
      ids-placed 0 [] t.root
      ∙ ap (map (λ x. x.item.id)) e.was
      ∙ map-append _ e.before _
      ∙ sym (map-append _ e.before _)
      ∙ sym (ap (map (λ x. x.item.id)) e.is)
      ∙ sym (ids-placed 0 [] t'.root) in
    subst Nodup same d

exclude-Nodup :
    {t t' : Tree} {r : Bytes} → Excludes t r t' → Nodup (ids t.root) → Nodup (ids t'.root)
exclude-Nodup {t} {t'} x d =
    let back : Perm (items t.root) (x.item ∷ items t'.root) =
      subst (λ s. Perm (items t.root) (x.item ∷ s)) (sym x.is)
        (subst (λ s. Perm s (x.item ∷ (x.before ++ (x.below ++ x.after)))) (sym x.was)
          (perm_middle x.before (x.below ++ x.after))) in
    (Nodup-cons.0 (Perm.nodup (Perm.map (λ a. a.id) back) d)).1

-- A mutation that succeeds keeps the ids of the document unique, also the one that loads the shipped
-- document again; for an included requirement, where no node has taken the id of its node since.
pub run_change-Nodup :
    (decode : Bytes → Option Forest) (shipped : Bytes) (change : Change) (t t' : Tree)
    → Nodup (ids t.root)
    → IsFree change t
    → run_change decode shipped change t ≡ ok t'
    → Nodup (ids t'.root)
unfolding run_change load_data include
run_change-Nodup decode shipped (move_node id parent index) t t' d f h =
    Perm-Nodup t t' (move-Perm t t' id (deref parent) index h).0 d
run_change-Nodup decode shipped (put_heading above text) t t' d f h =
    elim (Result-cases (insert_heading t above text)) [
      | inr (r, e) ↦ absurd (ground arith)
      | inl ((u, id), e) ↦
          let same : u ≡ t' = ground arith in
          subst (λ u. Nodup (ids u.root)) same (heading-Nodup t u above text id e d)
    ]
run_change-Nodup decode shipped (put_prose parent index text) t t' d f h =
    elim (Result-cases (add_prose t (deref parent) index text)) [
      | inr (r, e) ↦ absurd (ground arith)
      | inl ((u, id), e) ↦
          let same : u ≡ t' = ground arith in
          subst (λ u. Nodup (ids u.root)) same (prose-Nodup t u (deref parent) index text id e d)
    ]
run_change-Nodup decode shipped (change_text id text) t t' d f h =
    edit-Nodup (edit_text-Edited t t' id text h) d
run_change-Nodup decode shipped (exclude_requirement r) t t' d f h =
    exclude-Nodup (exclude-Excludes t t' r d h) d
run_change-Nodup decode shipped (include_requirement r) t t' d f h =
    elim (Option-cases (get r t.excluded)) [
      | inl e ↦ absurd (ground arith)
      | inr (ex, e) ↦
          let (u, done, back) = include-adds t r ex e in
          let same : u ≡ t' = ground (arith, sym done ∙ h) in
          subst (λ u. Nodup (ids u.root)) same (one_more-Nodup t u ex.item back (f ex e) d)
    ]
run_change-Nodup decode shipped reset_document t t' d f h = elim (Option-cases (decode shipped)) [
  | inl e ↦ absurd (ground arith)
  | inr (nodes, e) ↦
      let loaded : load nodes ≡ ok t' = ground arith in
      let root = load-root nodes t' loaded in
      subst (λ n. Nodup (ids n)) (sym root) ((load-ok_iff nodes).0 (t', loaded, root)).0
]
