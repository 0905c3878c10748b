-- ===== src/Base/Maps.antt =====
-- Maps as association lists: the entry set last stands in front. Lists written at an index.
use Prim.Native.Nat.{ℕ, zero, suc, ◌<◌}
use mathlib.Core.Path.{◌≡◌, refl, ap, subst}
use native.Mathlib.Omega.{arith}
use sysml_federation.Base.Lists.{get_elem?}
use mathlib.Core.List.{List, [], ◌∷◌, map}
use mathlib.Core.Bool.{Bool, true, false}
use mathlib.Core.Option.{Option, none, some}
use sysml_federation.Base.Tests.{if◌then◌else◌}
use sysml_federation.Base.Text.{Bytes, bytes_eq}

-- m[k]
unfoldable pub lookup {ℓ} : {A : Type ℓ} → Bytes → List (Bytes × A) → Option A
lookup k [] = none
lookup k ((j, v) ∷ m) = let rest = lookup k m in if bytes_eq j k then some v else rest

-- _, ok := m[k]
abbrev pub is_some {ℓ} : {A : Type ℓ} → Option A → Bool
is_some none = false
is_some (some a) = true

-- for i := range list { m[name(&list[i])] = &list[i] }
unfoldable pub index_by {ℓ} :
    {A : Type ℓ} → (A → Bytes) → List A → List (Bytes × A) → List (Bytes × A)
index_by name [] m = m
index_by name (a ∷ list) m = index_by name list ((name a, a) ∷ m)

-- *p = f(*p), for the pointer with index i
unfoldable pub update_nth {ℓ} : {A : Type ℓ} → ℕ → (A → A) → List A → List A
update_nth i f [] = []
update_nth zero f (a ∷ list) = f a ∷ list
update_nth (suc i) f (a ∷ list) = a ∷ update_nth i f list

-- The indices of a list of this length, from i on.
unfoldable pub indices_from : ℕ → ℕ → List ℕ
indices_from i zero = []
indices_from i (suc n) = i ∷ indices_from (suc i) n

pub map-update_nth {ℓ κ} :
    {A : Type ℓ} {B : Type κ} (h : A → B) (i : ℕ) (f : A → A) (list : List A)
    → ((a : A) → h (f a) ≡ h a)
    → map h (update_nth i f list) ≡ map h list
unfolding update_nth
map-update_nth h i f [] same = refl
map-update_nth h zero f (a ∷ list) same = ap (λ b. b ∷ map h list) (same a)
map-update_nth h (suc i) f (a ∷ list) same = ap (λ m. h a ∷ m) (map-update_nth h i f list same)

-- It is enough that the entry that is written has the same image.
pub map-update_nth_at {ℓ κ} :
    {A : Type ℓ} {B : Type κ} (h : A → B) (i : ℕ) (f : A → A) (list : List A) {a : A}
    → get_elem? list i ≡ some a
    → h (f a) ≡ h a
    → map h (update_nth i f list) ≡ map h list
unfolding update_nth
map-update_nth_at h i f [] e same = refl
map-update_nth_at h zero f (b ∷ list) {a} e same =
    let here : a ≡ b = ground (arith, e) in
    ap (λ y. y ∷ map h list) (subst (λ x. h (f x) ≡ h x) here same)
map-update_nth_at h (suc i) f (b ∷ list) {a} e same =
    ap (λ m. h b ∷ m) (map-update_nth_at h i f list {a = a} e same)

pub get_elem?-update_nth_later {ℓ} :
    {A : Type ℓ} (i j : ℕ) (f : A → A) (list : List A)
    → i < j
    → get_elem? (update_nth i f list) j ≡ get_elem? list j
unfolding update_nth
get_elem?-update_nth_later i j f [] h = refl
get_elem?-update_nth_later zero zero f (a ∷ list) h = absurd (omega arith)
get_elem?-update_nth_later zero (suc j) f (a ∷ list) h = refl
get_elem?-update_nth_later (suc i) zero f (a ∷ list) h = absurd (omega arith)
get_elem?-update_nth_later (suc i) (suc j) f (a ∷ list) h =
    get_elem?-update_nth_later i j f list (omega arith)
