-- ===== src/Document/Service/Snapshots.antt =====
-- What a client sees of the document.
use mathlib.Core.List.{Mem}
use sysml_federation.Base.{◌≡◌, refl, List, true, false, none, some, map, Bytes}
use sysml_federation.Document.Forest.{Item, Forest, nil, node, is_requirement}
use sysml_federation.Document.Service.{
  Served, no_more, served, ServedItem, Service, convert_item, convert, snapshot,
}
use sysml_federation.Document.Tree.Numbers.{number_of-Mem, number_of-none}
use sysml_federation.Document.Tree.{numbers}

-- What is served of a node. A number that is served is one that the list gives the node's id.
pub record ShowsItem (numbered : List (Bytes × Bytes)) (a : Item) (x : ServedItem) : Type 0 where
  pub id : x.id ≡ a.id
  pub kind : x.kind ≡ a.kind
  pub number : (n : Bytes) → x.number ≡ some n → Mem (a.id, n) numbered
  pub no_number : x.number ≡ none → ¬ Mem a.id (map (λ e. e.0) numbered)
  pub text : is_requirement a.kind ≡ false → x.text ≡ some a.text
  pub no_text : is_requirement a.kind ≡ true → x.text ≡ none
  pub stands_for :
      is_requirement a.kind ≡ true
      → x.requirement
        ≡ some (record { id = a.requirement_id; document_number = x.number; included = true })
  pub stands_for_none : is_requirement a.kind ≡ false → x.requirement ≡ none

-- The served tree has the shape of the forest, and at each node what is served of it.
abbrev pub Shows : List (Bytes × Bytes) → Forest → Served → Type 0
Shows numbered nil no_more = Unit {0}
Shows numbered nil (served x below behind) = ⊥
Shows numbered (node a cs rest) no_more = ⊥
Shows numbered (node a cs rest) (served x below behind) =
    ShowsItem numbered a x × Shows numbered cs below × Shows numbered rest behind

convert_item-ShowsItem :
    (numbered : List (Bytes × Bytes)) (a : Item) → ShowsItem numbered a (convert_item numbered a)
unfolding convert_item
convert_item-ShowsItem numbered a = record {
  id = refl;
  kind = refl;
  number = λ n. number_of-Mem a.id n numbered;
  no_number = number_of-none a.id numbered;
  text = λ e. rw (e) refl;
  no_text = λ e. rw (e) refl;
  stands_for = λ e. rw (e) refl;
  stands_for_none = λ e. rw (e) refl;
}

convert-Shows :
    (numbered : List (Bytes × Bytes)) (t : Forest) → Shows numbered t (convert numbered t)
unfolding convert
convert-Shows numbered nil = tt
convert-Shows numbered (node a cs rest) =
    (convert_item-ShowsItem numbered a, convert-Shows numbered cs, convert-Shows numbered rest)

-- The document that is served has the service's version and the shape of the tree. Each node is served
-- with its id and kind; with a number that Numbers has for its id, and with none only where Numbers has
-- none; a requirement node with its requirement, included and with that number, and without a text; any
-- other node with its text and without a requirement.
pub snapshot-Shows :
    (s : Service)
    → ((snapshot s).version ≡ s.version) × Shows (numbers s.tree) s.tree.root (snapshot s).nodes
unfolding snapshot
snapshot-Shows s = (refl, convert-Shows (numbers s.tree) s.tree.root)
