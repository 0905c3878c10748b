-- ===== src/Document/Service.antt =====
-- examples/pipeline/document/service.go, and the mutations of schema.resolvers.go that it runs. Each
-- method holds the service's lock, so a run is a sequence of them. The decoding of the JSON text is a
-- parameter: the nodes, or none where the text is no such document.
pub mod Unique
pub mod Snapshots
use sysml_federation.Base.Int.{ℤ}
use sysml_federation.Base.{
  ℕ, zero, suc, List, [], ◌∷◌, Bool, true, false, not, Option, none, some, Bytes, if◌then◌else◌,
}
use sysml_federation.Broadcast.{Channel, Subscribers, no_subscribers, notify}
use sysml_federation.Document.Forest.{
  NodeKind, Item, Forest, nil, node, is_requirement, by_requirement,
}
use sysml_federation.Document.Tree.{
  Refusal, not_json, Result, ok, err, ◌>>=◌, Tree, load, numbers, number_of, requirement_number,
  move, insert_heading, add_prose, edit_text, exclude, include,
}

-- A mutation of the document.
pub data Change : Type 0 where
  move_node : Bytes → Option Bytes → ℤ → Change
  put_heading : Bytes → Bytes → Change
  put_prose : Option Bytes → ℤ → Bytes → Change
  change_text : Bytes → Bytes → Change
  exclude_requirement include_requirement : Bytes → Change
  reset_document : Change

unfoldable pub deref : Option Bytes → Bytes
deref none = []
deref (some s) = s

pub record Service : Type 0 where
  pub tree : Tree
  pub version : ℕ
  pub shipped : Bytes
  pub subs : Subscribers

-- The served shape of a requirement and of the nodes.
pub record ServedRequirement : Type 0 where
  pub id : Bytes
  pub document_number : Option Bytes
  pub included : Bool

pub record ServedItem : Type 0 where
  pub id : Bytes
  pub kind : NodeKind
  pub number : Option Bytes
  pub text : Option Bytes
  pub requirement : Option ServedRequirement

pub data Served : Type 0 where
  no_more : Served
  served : ServedItem → Served → Served → Served

pub record Document : Type 0 where
  pub version : ℕ
  pub nodes : Served

unfoldable pub convert_item : List (Bytes × Bytes) → Item → ServedItem
convert_item numbers a =
    let number = number_of a.id numbers in
    record {
      id = a.id;
      kind = a.kind;
      number = number;
      text = if is_requirement a.kind then none else some a.text;
      requirement =
          if is_requirement a.kind
          then some (record { id = a.requirement_id; document_number = number; included = true })
          else none;
    }

unfoldable pub convert : List (Bytes × Bytes) → Forest → Served
convert numbers nil = no_more
convert numbers (node a cs rest) =
    served (convert_item numbers a) (convert numbers cs) (convert numbers rest)

unfoldable pub snapshot : Service → Document
snapshot s = record { version = s.version; nodes = convert (numbers s.tree) s.tree.root }

unfoldable pub requirement_of : Service → Bytes → ServedRequirement
requirement_of s id = elim (requirement_number s.tree id) [
  | none ↦ record { id = id; document_number = none; included = false }
  | some number ↦ record { id = id; document_number = some (text_of number); included = true }
]
  where
    -- A missing key of the map of numbers is the empty text.
    text_of : Option Bytes → Bytes
    text_of none = []
    text_of (some n) = n

module _ (decode : Bytes → Option Forest) where
  unfoldable pub load_data : Bytes → Result Tree
  load_data data' = elim (decode data') [ none ↦ err not_json | some nodes ↦ load nodes ]

  unfoldable pub new_from : Bytes → Result Service
  new_from data' = load_data data' >>= λ t.
      ok (record { tree = t; version = 1; shipped = data'; subs = no_subscribers })

  -- The operation that a mutation hands to apply.
  unfoldable pub run_change : Bytes → Change → Tree → Result Tree
  run_change shipped (move_node id parent index) t = move t id (deref parent) index
  run_change shipped (put_heading above text) t = insert_heading t above text >>= λ (t', id). ok t'
  run_change shipped (put_prose parent index text) t =
      add_prose t (deref parent) index text >>= λ (t', id). ok t'
  run_change shipped (change_text id text) t = edit_text t id text
  run_change shipped (exclude_requirement r) t = exclude t r
  run_change shipped (include_requirement r) t = include t r
  run_change shipped reset_document t = load_data shipped

  -- apply: the service afterwards and its answer.
  unfoldable pub apply : Service → Change → Service × Result Document
  apply s change = elim (run_change s.shipped change s.tree) [
    | err e ↦ (s, err e)
    | ok t ↦
        let version = suc s.version in
        let s' = record s {
          tree = t;
          version = version;
          subs = record s.subs { channels = notify version s.subs.channels };
        } in
        (s', ok (snapshot s'))
  ]
