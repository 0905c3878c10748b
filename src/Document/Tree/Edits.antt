-- ===== src/Document/Tree/Edits.antt =====
-- InsertHeading, AddProse and EditText: what each adds or changes.
use mathlib.Core.List.{append-nil, Perm, Mem}
use mathlib.Core.List.Perm
use sysml_federation.Base.Int.{ℤ}
use sysml_federation.Base.{
  ℕ, suc, some, ◌≡◌, ◌≢◌, refl, sym, ap, ◌∙◌, subst, inl, inr, List, [], ◌∷◌, ◌++◌, false, none,
  arith, Bytes, Bool-cases, Option-cases,
}
use sysml_federation.Document.Forest.Contents.{ids, splice-adds}
use sysml_federation.Document.Forest.Depths.{Placed, at_place, placed, find-Spot}
use sysml_federation.Document.Forest.{
  NodeKind, heading, prose, Item, Forest, nil, node, find, splice, items, is_requirement,
}
use sysml_federation.Document.Tree.Ids.{new_id-fresh}
use sysml_federation.Document.Tree.Parents.{
  Among, insert_under-Among, insert_under-adds, parent_for-Stands,
}
use sysml_federation.Document.Tree.{
  Tree, ok, Parent, parent_for, insert_under, generated, insert_heading, add_prose, edit_text,
}

-- The tree has one more node, the new one, and no node had its id.
pub record Adds (t : Tree) (kind : NodeKind) (text id : Bytes) (t' : Tree) : Type 0 where
  pub one_more :
      Perm
        (items t'.root)
        (record { id = id; kind = kind; text = text; requirement_id = [] } ∷ items t.root)
  pub fresh : ¬ Mem id (ids t.root)
  pub kept : t'.excluded ≡ t.excluded

-- The node above which the heading is put, where it stood and where it stands now.
pub record Headed (t : Tree) (above text id : Bytes) (t' : Tree) : Type 0 where
  pub item : Item
  pub children : Forest
  pub depth : ℕ
  pub parent : Bytes
  pub before : List Placed
  pub after : List Placed
  pub named : item.id ≡ above
  pub was :
      placed 0 [] t.root
      ≡ before ++ (at_place depth parent item ∷ (placed (suc depth) item.id children ++ after))
  pub is :
      placed 0 [] t'.root
      ≡ before
        ++ (at_place depth parent
              (record { id = id; kind = heading; text = text; requirement_id = [] })
            ∷ (at_place (suc depth) id item ∷ (placed (suc (suc depth)) item.id children ++ after)))

Headed-at :
    (t : Tree) (above text id : Bytes) (next : ℕ) {a : Item} {cs : Forest}
    → find above t.root ≡ some (a, cs)
    → Headed t above text id (record t {
      root =
          splice above
            (λ a cs.
              node
                (record { id = id; kind = heading; text = text; requirement_id = [] })
                (node a cs nil)
                nil)
            t.root;
      next = next;
    })
Headed-at t above text id next {a} {cs} e =
    let f = find-Spot above 0 [] t.root e in
    let h : Item = record { id = id; kind = heading; text = text; requirement_id = [] } in
    record {
      item = a;
      children = cs;
      depth = f.depth;
      parent = f.parent;
      before = f.before;
      after = f.after;
      named = f.named;
      was = f.splits;
      is =
          f.spliced (λ a cs. node h (node a cs nil) nil)
          ∙ ap (λ s. f.before ++ (at_place f.depth f.parent h ∷ (s ++ f.after)))
              (append-nil
                (at_place (suc f.depth) id a ∷ (placed (suc (suc f.depth)) a.id cs ++ [])))
          ∙ ap
              (λ s.
                f.before
                ++ (at_place f.depth f.parent h ∷ (at_place (suc f.depth) id a ∷ (s ++ f.after))))
              (append-nil (placed (suc (suc f.depth)) a.id cs));
    }

headed :
    (above : Bytes) (h : Item) (t : Forest)
    → find above t ≢ none
    → Perm (items (splice above (λ a cs. node h (node a cs nil) nil) t)) (h ∷ items t)
headed above h t s =
    splice-adds above t (λ a cs. node h (node a cs nil) nil) (h ∷ []) s
      (λ a cs.
        subst (λ s. Perm s (h ∷ a ∷ items cs))
          (sym (ap (λ s. h ∷ s) (append-nil _) ∙ ap (λ s. h ∷ a ∷ s) (append-nil _))) (Perm.refl _))

-- InsertHeading above a node that is there succeeds and adds the heading, under an id that no node had.
-- In the tree the heading stands where the node stood, at its depth and under its parent, the node is the
-- only child of the heading and its children are those that it had, one deeper; every other node stands
-- where it stood, and what is excluded stays.
pub insert_heading-Adds :
    (t : Tree) (above text : Bytes)
    → find above t.root ≢ none
    → (t' : Tree) × (id : Bytes) × (insert_heading t above text ≡ ok (t', id))
      × Adds t heading text id t'
      × Headed t above text id t'
unfolding insert_heading
insert_heading-Adds t above text s = elim (Option-cases (find above t.root)) [
  | inl e ↦ absurd (s e)
  | inr ((a, cs), e) ↦
      let (k, made, later, fresh) = new_id-fresh t.root t.next in
      let h : Item = record {
        id = generated k;
        kind = heading;
        text = text;
        requirement_id = [];
      } in
      (
        record t { root = splice above (λ a cs. node h (node a cs nil) nil) t.root; next = suc k },
        generated k,
        rw (e, made, insert_heading) refl,
        record { one_more = headed above h t.root s; fresh = fresh; kept = refl },
        Headed-at t above text (generated k) (suc k) e,
      )
]

-- Under a parent that parentFor answers AddProse succeeds and adds the prose node, under an id that no
-- node had: among the roots where the parent's id is empty, and else among the children of a node with
-- that id, behind as many of them as the index says, none for a negative one and all for one beyond their
-- number. Every other node stands where it stood, and what is excluded stays.
pub add_prose-Adds :
    (t : Tree) (parent_id : Bytes) (index : ℤ) (text : Bytes) (p : Parent)
    → parent_for t parent_id ≡ ok p
    → (t' : Tree) × (id : Bytes) × (add_prose t parent_id index text ≡ ok (t', id))
      × Adds t prose text id t'
      × Among t parent_id index
          (record { id = id; kind = prose; text = text; requirement_id = [] })
          t'
unfolding add_prose
add_prose-Adds t parent_id index text p e =
    let (k, made, later, fresh) = new_id-fresh t.root t.next in
    let n : Item = record { id = generated k; kind = prose; text = text; requirement_id = [] } in
    (
      record t { root = insert_under p index n nil t.root; next = suc k },
      generated k,
      rw (e, made, add_prose) refl,
      record {
        one_more = insert_under-adds p index n nil t.root (parent_for-Stands t parent_id e);
        fresh = fresh;
        kept = refl;
      },
      insert_under-Among t parent_id index n (suc k) e,
    )

-- The nodes stay where they stand, and one that is not a requirement has another text.
pub record Edited (t : Tree) (id text : Bytes) (t' : Tree) : Type 0 where
  pub item : Item
  pub depth : ℕ
  pub parent : Bytes
  pub before : List Placed
  pub after : List Placed
  pub named : item.id ≡ id
  pub free : is_requirement item.kind ≡ false
  pub was : placed 0 [] t.root ≡ before ++ (at_place depth parent item ∷ after)
  pub is :
      placed 0 [] t'.root ≡ before ++ (at_place depth parent (record item { text = text }) ∷ after)
  pub kept : (t'.excluded ≡ t.excluded) × (t'.next ≡ t.next)

-- Where EditText succeeds, a node with the id, which is no requirement, has the new text. Every node stands
-- at the place in document order, at the depth and under the parent where it stood, no other node differs,
-- and what is excluded and the counter of ids stay.
pub edit_text-Edited :
    (t t' : Tree) (id text : Bytes) → edit_text t id text ≡ ok t' → Edited t id text t'
unfolding edit_text
edit_text-Edited t t' id text h = elim (Option-cases (find id t.root)) [
  | inl e ↦ absurd (ground arith)
  | inr ((n, cs), e) ↦ elim (Bool-cases (is_requirement n.kind)) [
    | inl k ↦ absurd (ground arith)
    | inr k ↦
        let f = find-Spot id 0 [] t.root e in
        let change : Item → Forest → Forest = λ a bs. node (record a { text = text }) bs nil in
        let same : record t { root = splice id change t.root } ≡ t' = ground arith in
        record {
          item = n;
          before = f.before;
          depth = f.depth;
          parent = f.parent;
          after = placed (suc f.depth) n.id cs ++ f.after;
          named = f.named;
          free = k;
          was = f.splits;
          is =
              subst
                (λ s.
                  placed 0 [] s.root
                  ≡ f.before
                    ++ (at_place f.depth f.parent (record n { text = text })
                        ∷ (placed (suc f.depth) n.id cs ++ f.after)))
                same
                (f.spliced change
                  ∙ ap
                      (λ s.
                        f.before
                        ++ (at_place f.depth f.parent (record n { text = text }) ∷ (s ++ f.after)))
                      (append-nil _));
          kept = (ap (λ s. s.excluded) (sym same), ap (λ s. s.next) (sym same));
        }
  ]
]
