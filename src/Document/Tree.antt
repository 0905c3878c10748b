-- ===== src/Document/Tree.antt =====
-- examples/pipeline/document/tree/tree.go: the tree and its operations. An operation returns the
-- new tree; one that refuses leaves the tree that it was given.
pub mod Parents
pub mod Within
pub mod Moves
pub mod Ids
pub mod Edits
pub mod Exclusion
pub mod Loads
pub mod Numbers
pub mod Numbering
use sysml_federation.Base.Int.{ℤ, clamp}
use sysml_federation.Base.{
  ℕ, zero, suc, ◌==◌, ◌≡◌, refl, ◌⊎◌, inl, inr, ◌+◌, List, [], ◌∷◌, ◌++◌, Bool, true, false, ◌&&◌,
  ◌||◌, Option, none, some, ltb, if◌then◌else◌, length, Bytes, bytes, bytes_eq, one_of,
}
use sysml_federation.Document.Decimal.{itoa}
use sysml_federation.Document.Forest.{
  NodeKind, heading, prose, requirement, is_prose, is_requirement, Item, Forest, nil, node, append,
  size, find, parent_of, splice, by_requirement, pointer, contains, insert_nth, items,
}

-- The refusals, those of Load last. The loop of newID cannot run out of fuel.
pub data Refusal : Type 0 where
  unknown not_excluded cycle prose_parent not_text : Refusal
  not_json duplicate_id names_no_requirement prose_has_children : Refusal
  out_of_fuel : Refusal

pub data Result {ℓ} (A : Type ℓ) : Type ℓ where
  ok : A → Result A
  err : Refusal → Result A

pub Result-cases {ℓ} :
    {A : Type ℓ} (r : Result A) → ((a : A) × (r ≡ ok a)) ⊎ ((e : Refusal) × (r ≡ err e))
Result-cases (ok a) = inl (a, refl)
Result-cases (err e) = inr (e, refl)

infixl 5 ◌>>=◌
abbrev pub ◌>>=◌ {ℓ κ} : {A : Type ℓ} {B : Type κ} → Result A → (A → Result B) → Result B
ok a >>= f = f a
err e >>= f = err e

-- if b { return err }
abbrev pub refuse {ℓ} : {A : Type ℓ} → Bool → Refusal → Result A → Result A
refuse true e r = err e
refuse false e r = r

-- What Exclude remembers: the node, whose children are gone, and its former parent.
pub record Excluded : Type 0 where
  pub item : Item
  pub parent : Bytes

-- A map is an association list, the entry set last in front.
pub record Tree : Type 0 where
  pub root : Forest
  pub excluded : List (Bytes × Excluded)
  pub next : ℕ

unfoldable pub get : Bytes → List (Bytes × Excluded) → Option Excluded
get k [] = none
get k ((j, v) ∷ m) = let rest = get k m in if bytes_eq j k then some v else rest

-- delete(m, k)
unfoldable pub remove : Bytes → List (Bytes × Excluded) → List (Bytes × Excluded)
remove k [] = []
remove k ((j, v) ∷ m) = let rest = remove k m in if bytes_eq j k then rest else (j, v) ∷ rest

-- m[k] = v
abbrev pub put : Bytes → Excluded → List (Bytes × Excluded) → List (Bytes × Excluded)
put k v m = (k, v) ∷ remove k m

-- The recursive check of Load: `seen` are the ids met so far.
unfoldable pub check : List Bytes → Forest → Result (List Bytes)
check seen nil = ok seen
check seen (node a cs rest) = refuse (one_of seen a.id) duplicate_id (
    refuse (is_requirement a.kind && bytes_eq a.requirement_id []) names_no_requirement (
      refuse (is_prose a.kind && ltb 0 (size cs)) prose_has_children
        (check (a.id ∷ seen) cs >>= λ seen'. check seen' rest)))

-- Load, behind the decoding of the JSON.
unfoldable pub load : Forest → Result Tree
load nodes = check [] nodes >>= λ seen. ok (record { root = nodes; excluded = []; next = 1 })

-- The loop of number over one node's children, of which k were numbered.
unfoldable pub number : Bytes → ℕ → Forest → List (Bytes × Bytes)
number prefix k nil = []
number prefix k (node a cs rest) =
    let own = prefix ++ itoa (suc k) in
    let below = number (own ++ bytes ".") 0 cs in
    let behind = number prefix (if is_prose a.kind then k else suc k) rest in
    if is_prose a.kind then behind else (a.id, own) ∷ (below ++ behind)

unfoldable pub numbers : Tree → List (Bytes × Bytes)
numbers t = number [] 0 t.root

-- out[id]: of the entries of a key the one set last.
unfoldable pub number_of : Bytes → List (Bytes × Bytes) → Option Bytes
number_of id [] = none
number_of id ((j, n) ∷ m) = elim (number_of id m) [
  | some later ↦ some later
  | none ↦ if bytes_eq j id then some n else none
]

-- Requirement, none where it returns false.
unfoldable pub requirement_number : Tree → Bytes → Option (Option Bytes)
requirement_number t r = elim (by_requirement r t.root) [
  | none ↦ none
  | some (a, cs) ↦ some (number_of a.id (numbers t))
]

-- parentFor: the hidden root, or a node with its children.
pub data Parent : Type 0 where
  at_root : Parent
  under : Item → Forest → Parent

unfoldable pub parent_for : Tree → Bytes → Result Parent
parent_for t id = if bytes_eq id [] then ok at_root else elim (find id t.root) [
  | none ↦ err unknown
  | some (a, cs) ↦ refuse (is_prose a.kind) prose_parent (ok (under a cs))
]

-- insert(list, index, n)
unfoldable pub insert : Forest → ℤ → Item → Forest → Forest
unfolding clamp
insert list index n cs = insert_nth (clamp index (size list)) list n cs

-- parent.Children = insert(parent.Children, index, n)
unfoldable pub insert_under : Parent → ℤ → Item → Forest → Forest → Forest
insert_under at_root index n cs root = insert root index n cs
insert_under (under a _) index n cs root =
    splice a.id (λ b bs. node b (insert bs index n cs) nil) root

-- parent == n || contains(n, parent), by the pointers into the root.
unfoldable pub is_within : Forest → Parent → Item → Forest → Bool
is_within root at_root n cs = false
is_within root (under a _) n cs =
    let own = pointer n.id root in
    let target = pointer a.id root in target == own || contains (suc own) cs target

unfoldable pub detach : Bytes → Forest → Forest
detach id root = splice id (λ a cs. nil) root

unfoldable pub move : Tree → Bytes → Bytes → ℤ → Result Tree
move t id parent_id index = elim (find id t.root) [
  | none ↦ err unknown
  | some (n, cs) ↦ parent_for t parent_id >>= λ parent.
      refuse (is_within t.root parent n cs) cycle
        (ok (record t { root = insert_under parent index n cs (detach id t.root) }))
]

unfoldable pub generated : ℕ → Bytes
generated k = b'n' ∷ itoa k

-- The loop of newID: the first id from `next` on that no node has, and the number behind it.
unfoldable pub new_id : ℕ → Forest → ℕ → Result (Bytes × ℕ)
new_id zero root next = err out_of_fuel
new_id (suc fuel) root next =
    let later = new_id fuel root (suc next) in
    elim (find (generated next) root) [ none ↦ ok (generated next, suc next) | some _ ↦ later ]

-- One more round than there are nodes.
abbrev pub id_fuel : Forest → ℕ
id_fuel root = suc (length (items root))

unfoldable pub insert_heading : Tree → Bytes → Bytes → Result (Tree × Bytes)
insert_heading t above text = elim (find above t.root) [
  | none ↦ err unknown
  | some _ ↦ new_id (id_fuel t.root) t.root t.next >>= λ (id, next).
      let h : Item = record { id = id; kind = heading; text = text; requirement_id = [] } in
      ok (
        record t { root = splice above (λ a cs. node h (node a cs nil) nil) t.root; next = next },
        id,
      )
]

unfoldable pub add_prose : Tree → Bytes → ℤ → Bytes → Result (Tree × Bytes)
add_prose t parent_id index text = parent_for t parent_id >>= λ parent.
    new_id (id_fuel t.root) t.root t.next >>= λ (id, next).
    let p : Item = record { id = id; kind = prose; text = text; requirement_id = [] } in
    ok (record t { root = insert_under parent index p nil t.root; next = next }, id)

unfoldable pub edit_text : Tree → Bytes → Bytes → Result Tree
edit_text t id text = elim (find id t.root) [
  | none ↦ err unknown
  | some (n, cs) ↦
      refuse (is_requirement n.kind) not_text
        (ok (record t { root = splice id (λ a bs. node (record a { text = text }) bs nil) t.root }))
]

-- The id of the parent that locate returns, "" for the hidden root.
abbrev pub parent_id_of : Bytes → Forest → Bytes
parent_id_of id root = elim (parent_of id [] root) [ none ↦ [] | some p ↦ p ]

unfoldable pub exclude : Tree → Bytes → Result Tree
exclude t r = elim (by_requirement r t.root) [
  | none ↦ err unknown
  | some (n, cs) ↦ ok (record t {
    root = splice n.id (λ a bs. cs) t.root;
    excluded = put r (record { item = n; parent = parent_id_of n.id t.root }) t.excluded;
  })
]

-- The last child of the former parent, or of the root where that is gone.
unfoldable pub append_under : Bytes → Item → Forest → Forest
append_under parent n root = elim (find parent root) [
  | none ↦ append root (node n nil nil)
  | some _ ↦ splice parent (λ b bs. node b (append bs (node n nil nil)) nil) root
]

unfoldable pub include : Tree → Bytes → Result Tree
include t r = elim (get r t.excluded) [
  | none ↦ err not_excluded
  | some ex ↦
      ok (record t { root = append_under ex.parent ex.item t.root; excluded = remove r t.excluded })
]
