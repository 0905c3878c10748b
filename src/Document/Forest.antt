-- ===== src/Document/Forest.antt =====
-- examples/pipeline/document/tree/tree.go: nodes and the walks over them. A slice of nodes is a
-- forest: its first node, that node's children, and the nodes behind it. A pointer to a node is its
-- place in document order. The pointers that an operation follows are to the first node with an id, which
-- is what an assignment by that id changes.
pub mod Contents
pub mod Depths
pub mod Positions
use sysml_federation.Base.{
  ℕ, zero, suc, ◌+◌, ◌==◌, length, List, [], ◌∷◌, ◌++◌, Bool, true, false, ◌&&◌, ◌||◌, Option, none,
  some, if◌then◌else◌, Bytes, bytes_eq,
}

-- The document's three kinds, and any other text that the JSON holds.
pub data NodeKind : Type 0 where
  heading prose requirement : NodeKind
  other : Bytes → NodeKind

abbrev pub is_prose : NodeKind → Bool
is_prose prose = true
is_prose _ = false

abbrev pub is_requirement : NodeKind → Bool
is_requirement requirement = true
is_requirement _ = false

-- A node without its children.
pub record Item : Type 0 where
  pub id : Bytes
  pub kind : NodeKind
  pub text : Bytes
  pub requirement_id : Bytes

pub data Forest : Type 0 where
  nil : Forest
  node : Item → Forest → Forest → Forest

-- append(list, more...)
unfoldable pub append : Forest → Forest → Forest
append nil g = g
append (node a cs rest) g = node a cs (append rest g)

-- len(list)
unfoldable pub size : Forest → ℕ
size nil = 0
size (node a cs rest) = suc (size rest)

abbrev pub or_else {ℓ} : {A : Type ℓ} → Option A → Option A → Option A
or_else none o = o
or_else (some a) o = some a

-- The node that locate finds, with its children.
unfoldable pub find : Bytes → Forest → Option (Item × Forest)
find id nil = none
find id (node a cs rest) =
    let below = or_else (find id cs) (find id rest) in
    if bytes_eq a.id id then some (a, cs) else below

-- The id of the parent that locate returns; `parent` is the id of the node whose children these are.
unfoldable pub parent_of : Bytes → Bytes → Forest → Option Bytes
parent_of id parent nil = none
parent_of id parent (node a cs rest) =
    let below = or_else (parent_of id a.id cs) (parent_of id parent rest) in
    if bytes_eq a.id id then some parent else below

-- An assignment to the slice that locate points into: the node at its index becomes `f` of it.
unfoldable pub splice : Bytes → (Item → Forest → Forest) → Forest → Forest
unfolding find append
splice id f nil = nil
splice id f (node a cs rest) = elim (bytes_eq a.id id) [
  | true ↦ append (f a cs) rest
  | false ↦ elim (find id cs) [
    | none ↦ node a cs (splice id f rest)
    | some _ ↦ node a (splice id f cs) rest
  ]
]

-- byRequirement
unfoldable pub by_requirement : Bytes → Forest → Option (Item × Forest)
by_requirement r nil = none
by_requirement r (node a cs rest) =
    let below = or_else (by_requirement r cs) (by_requirement r rest) in
    if is_requirement a.kind && bytes_eq a.requirement_id r then some (a, cs) else below

-- Every item, depth first in document order.
abbrev pub items : Forest → List Item
items nil = []
items (node a cs rest) = a ∷ (items cs ++ items rest)

-- How many items are before the first with the id.
unfoldable pub index_of : Bytes → List Item → ℕ
index_of id [] = 0
index_of id (a ∷ list) = let later = suc (index_of id list) in if bytes_eq a.id id then 0 else later

-- The pointer to the node that locate finds: its place in the document order of the forest.
abbrev pub pointer : Bytes → Forest → ℕ
pointer id t = index_of id (items t)

-- contains, on the children of a node; the pointer to the first of them is `own`.
unfoldable pub contains : ℕ → Forest → ℕ → Bool
contains own nil target = false
contains own (node a cs rest) target =
    own == target
    || (contains (suc own) cs target || contains (suc own + length (items cs)) rest target)

unfoldable pub insert_nth : ℕ → Forest → Item → Forest → Forest
insert_nth zero list n cs = node n cs list
insert_nth (suc i) nil n cs = node n cs nil
insert_nth (suc i) (node a bs rest) n cs = node a bs (insert_nth i rest n cs)
