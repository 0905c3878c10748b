-- ===== src/Document/Examples.antt =====
-- A document on which the theorems are applied, and runs of its operations.
use mathlib.Core.List.{Perm, Mem, Nodup}
use sysml_federation.Base.Int.{pos, clamp}
use sysml_federation.Base.{
  ℕ, suc, ◌≤◌, ◌≡◌, ◌≢◌, ◌↔◌, ◌⊎◌, refl, arith, List, [], ◌∷◌, map, none, some, Bytes, bytes,
  bytes_eq, one_of,
}
use sysml_federation.Document.Decimal.{itoa}
use sysml_federation.Document.Forest.Contents.{ids}
use sysml_federation.Document.Forest.{
  heading, prose, requirement, Item, nil, node, append, size, find, parent_of, splice,
  by_requirement, contains, index_of, insert_nth, items,
}
use sysml_federation.Document.Tree.Moves.{move-Perm, move-ok_iff, MayMove}
use sysml_federation.Document.Tree.Parents.{Among}
use sysml_federation.Document.Tree.Ids.{new_id-fresh}
use sysml_federation.Document.Tree.Edits.{
  Adds, Headed, Edited, insert_heading-Adds, add_prose-Adds, edit_text-Edited,
}
use sysml_federation.Document.Tree.Exclusion.{Excludes, exclude-Excludes, exclude-include}
use sysml_federation.Document.Tree.Loads.{IsShaped, load-ok_iff}
use sysml_federation.Document.Tree.Numbers.{
  IsNodeOf, solid_ids, numbers-keys, requirement_number-IsSome,
}
use sysml_federation.Document.Tree.Numbering.{numbers-Nodup}
use sysml_federation.Document.Service.Snapshots.{Shows, snapshot-Shows}
use sysml_federation.Broadcast.{no_subscribers}
use sysml_federation.Document.Service.Unique.{run_change-Nodup}
use sysml_federation.Document.Service.{
  Service, snapshot, exclude_requirement, put_prose, include_requirement, deref, run_change,
}
use sysml_federation.Document.Tree.{
  requirement_number, ◌>>=◌, Result, ok, err, cycle, Tree, get, remove, check, load, number,
  numbers, under, parent_for, insert, insert_under, is_within, detach, move, generated, new_id,
  id_fuel, insert_heading, add_prose, edit_text, exclude, append_under, include,
}

abbrev intro : Item
intro = record { id = bytes "h"; kind = heading; text = bytes "Intro"; requirement_id = [] }

abbrev rate : Item
rate = record { id = bytes "a"; kind = requirement; text = []; requirement_id = bytes "R1" }

abbrev remark : Item
remark = record { id = bytes "p"; kind = prose; text = bytes "see"; requirement_id = [] }

abbrev load_limit : Item
load_limit = record { id = bytes "b"; kind = requirement; text = []; requirement_id = bytes "R2" }

abbrev sample : Tree
sample = record {
  root = node intro (node rate nil (node remark nil nil)) (node load_limit nil nil);
  excluded = [];
  next = 1;
}

abbrev sample_moved : Tree
sample_moved = record {
  root = node intro (node rate nil (node load_limit nil (node remark nil nil))) nil;
  excluded = [];
  next = 1;
}

-- The second requirement moves under the heading, before the prose.
move_run : move sample (bytes "b") (bytes "h") (pos 1) ≡ ok sample_moved
unfolding move find parent_for insert_under insert splice is_within contains index_of detach append
    size insert_nth clamp bytes_eq
move_run = refl

move-Perm_example :
    Perm (items sample_moved.root) (items sample.root)
    × (sample_moved.excluded ≡ sample.excluded)
    × (sample_moved.next ≡ sample.next)
move-Perm_example = move-Perm sample sample_moved (bytes "b") (bytes "h") (pos 1) move_run

-- The heading cannot go under its own child.
cycle_run : move sample (bytes "h") (bytes "a") (pos 0) ≡ err cycle
unfolding move find parent_for is_within contains index_of bytes_eq
cycle_run = refl

new_id-fresh_example :
    (k : ℕ) × (new_id (id_fuel sample.root) sample.root 1 ≡ ok (generated k, suc k))
    × (1 ≤ k)
    × (¬ Mem (generated k) (ids sample.root))
new_id-fresh_example = new_id-fresh sample.root 1

found_a : find (bytes "a") sample.root ≢ none
unfolding find bytes_eq
found_a e = absurd (ground arith)

insert_heading-Adds_example :
    (t' : Tree) × (id : Bytes) × (insert_heading sample (bytes "a") (bytes "New") ≡ ok (t', id))
    × Adds sample heading (bytes "New") id t'
    × Headed sample (bytes "a") (bytes "New") id t'
insert_heading-Adds_example = insert_heading-Adds sample (bytes "a") (bytes "New") found_a

parent_run : parent_for sample (bytes "h") ≡ ok (under intro (node rate nil (node remark nil nil)))
unfolding parent_for find bytes_eq
parent_run = refl

add_prose-Adds_example :
    (t' : Tree) × (id : Bytes) × (add_prose sample (bytes "h") (pos 9) (bytes "more") ≡ ok (t', id))
    × Adds sample prose (bytes "more") id t'
    × Among sample
        (bytes "h")
        (pos 9)
        (record { id = id; kind = prose; text = bytes "more"; requirement_id = [] })
        t'
add_prose-Adds_example = add_prose-Adds sample (bytes "h") (pos 9) (bytes "more") _ parent_run

abbrev sample_edited : Tree
sample_edited = record {
  root =
      node intro (node rate nil (node (record remark { text = bytes "look" }) nil nil))
        (node load_limit nil nil);
  excluded = [];
  next = 1;
}

edit_run : edit_text sample (bytes "p") (bytes "look") ≡ ok sample_edited
unfolding edit_text find splice append bytes_eq
edit_run = refl

edit_text-Edited_example : Edited sample (bytes "p") (bytes "look") sample_edited
edit_text-Edited_example = edit_text-Edited sample sample_edited (bytes "p") (bytes "look") edit_run

-- The first requirement is left out.
abbrev sample_less : Tree
sample_less = record {
  root = node intro (node remark nil nil) (node load_limit nil nil);
  excluded = (bytes "R1", record { item = rate; parent = bytes "h" }) ∷ [];
  next = 1;
}

exclude_run : exclude sample (bytes "R1") ≡ ok sample_less
unfolding exclude by_requirement parent_of find splice append remove bytes_eq
exclude_run = refl

load_run : load sample.root ≡ ok sample
unfolding load check one_of bytes_eq size
load_run = refl

sample-Nodup : Nodup (ids sample.root)
sample-Nodup = ((load-ok_iff sample.root).0 (sample, load_run, refl)).0

sample-IsShaped : IsShaped sample.root
sample-IsShaped = ((load-ok_iff sample.root).0 (sample, load_run, refl)).1

move-ok_iff_example :
    ((t' : Tree) × (move sample (bytes "h") (bytes "a") (pos 0) ≡ ok t'))
    ↔ MayMove sample (bytes "h") (bytes "a")
move-ok_iff_example = move-ok_iff sample (bytes "h") (bytes "a") (pos 0) sample-Nodup

exclude-Excludes_example : Excludes sample (bytes "R1") sample_less
exclude-Excludes_example = exclude-Excludes sample sample_less (bytes "R1") sample-Nodup exclude_run

exclude-include_example :
    (t'' : Tree) × (include sample_less (bytes "R1") ≡ ok t'')
    × Perm (items t''.root) (items sample.root)
exclude-include_example = exclude-include sample sample_less (bytes "R1") sample-Nodup exclude_run

load-ok_iff_example :
    ((t : Tree) × (load sample.root ≡ ok t) × (t.root ≡ sample.root))
    ↔ (Nodup (ids sample.root) × IsShaped sample.root)
load-ok_iff_example = load-ok_iff sample.root

numbers-keys_example : map (λ e. e.0) (numbers sample) ≡ solid_ids (items sample.root)
numbers-keys_example = numbers-keys sample sample-IsShaped

numbers-Nodup_example : Nodup (map (λ e. e.1) (numbers sample))
numbers-Nodup_example = numbers-Nodup sample

requirement_number-IsSome_example :
    ((a : Item) × (n : Bytes) × Mem a (items sample.root)
      × IsNodeOf (bytes "R2") a
      × Mem (a.id, n) (numbers sample)
      × (requirement_number sample (bytes "R2") ≡ some (some n)))
    ⊎ (((a : Item) → Mem a (items sample.root) → ¬ IsNodeOf (bytes "R2") a)
        × (requirement_number sample (bytes "R2") ≡ none))
requirement_number-IsSome_example =
    requirement_number-IsSome sample (bytes "R2") sample-Nodup sample-IsShaped

abbrev serving : Service
serving = record { tree = sample; version = 1; shipped = []; subs = no_subscribers }

snapshot-Shows_example :
    ((snapshot serving).version ≡ serving.version)
    × Shows (numbers sample) sample.root (snapshot serving).nodes
snapshot-Shows_example = snapshot-Shows serving

numbers_run :
    numbers sample ≡ (bytes "h", bytes "1") ∷ (bytes "a", bytes "1.1") ∷ (bytes "b", bytes "2") ∷ []
unfolding numbers number itoa
numbers_run = refl

change_run : run_change (λ text. none) [] (exclude_requirement (bytes "R1")) sample ≡ ok sample_less
unfolding run_change
change_run = exclude_run

run_change-Nodup_example : Nodup (ids sample_less.root)
run_change-Nodup_example =
    run_change-Nodup (λ text. none) [] (exclude_requirement (bytes "R1")) sample sample_less
      sample-Nodup tt change_run

-- A requirement whose node has an id that newID makes: left out, a new prose node takes the id, and
-- Include then puts a second node with it into the document.
abbrev clashing : Tree
clashing = record { root = node (record rate { id = bytes "n1" }) nil nil; excluded = []; next = 1 }

abbrev clash : Result Tree
clash = run_change (λ text. none) [] (exclude_requirement (bytes "R1")) clashing >>= λ t.
    run_change (λ text. none) [] (put_prose none (pos 0) (bytes "x")) t >>= λ u.
    run_change (λ text. none) [] (include_requirement (bytes "R1")) u

abbrev ids_of : Result Tree → List Bytes
ids_of (ok t) = ids t.root
ids_of (err e) = []

clash_run : ids_of clash ≡ bytes "n1" ∷ bytes "n1" ∷ []
unfolding run_change exclude by_requirement parent_of find splice append remove bytes_eq add_prose
    parent_for new_id generated itoa insert_under insert insert_nth size clamp include get
    append_under deref
clash_run = refl
