-- ===== src/Base/Arrays.antt =====
-- Slices that are made at a length, read and written at an index.
use Prim.Native.Nat.{ℕ, zero, suc, ◌≤◌, ◌<◌}
use mathlib.Core.Path.{◌≡◌, refl, ap}
use native.Mathlib.Omega.{arith}
use mathlib.Core.List.{List, [], ◌∷◌, map}
use mathlib.Core.Logic.{◌≢◌}
use mathlib.Core.Bool.{Bool, true, false}
use mathlib.Core.Option.{Option, none, some}
use mathlib.Core.Option
use sysml_federation.Base.Lists.{length, get_elem?}
use sysml_federation.Base.Tests.{if◌then◌else◌, ◌==◌}
use sysml_federation.Base.Maps.{update_nth}

-- xs[i], where a read out of range gives the value named
abbrev pub get_or {ℓ} : {A : Type ℓ} → List A → ℕ → A → A
get_or [] i d = d
get_or (x ∷ xs) zero d = x
get_or (x ∷ xs) (suc i) d = get_or xs i d

-- make([]A, n), with every entry the value
unfoldable pub replicate {ℓ} : {A : Type ℓ} → ℕ → A → List A
replicate zero a = []
replicate (suc n) a = a ∷ replicate n a

pub length-replicate {ℓ} : {A : Type ℓ} (n : ℕ) (a : A) → length (replicate n a) ≡ n
unfolding replicate
length-replicate zero a = refl
length-replicate (suc n) a = ap suc (length-replicate n a)

pub get_or-replicate {ℓ} : {A : Type ℓ} (n i : ℕ) (a : A) → get_or (replicate n a) i a ≡ a
unfolding replicate
get_or-replicate zero i a = refl
get_or-replicate (suc n) zero a = refl
get_or-replicate (suc n) (suc i) a = get_or-replicate n i a

pub length-update_nth {ℓ} :
    {A : Type ℓ} (i : ℕ) (f : A → A) (xs : List A) → length (update_nth i f xs) ≡ length xs
unfolding update_nth
length-update_nth i f [] = refl
length-update_nth zero f (x ∷ xs) = refl
length-update_nth (suc i) f (x ∷ xs) = ap suc (length-update_nth i f xs)

-- A write in range is read back, and no other entry changes.
pub get_or-update_nth {ℓ} :
    {A : Type ℓ} (i j : ℕ) (f : A → A) (xs : List A) (d : A)
    → i < length xs
    → get_or (update_nth i f xs) j d ≡ (if i == j then f (get_or xs j d) else get_or xs j d)
unfolding update_nth
get_or-update_nth i j f [] d h = absurd (omega arith)
get_or-update_nth zero zero f (x ∷ xs) d h = refl
get_or-update_nth zero (suc j) f (x ∷ xs) d h = ground arith
get_or-update_nth (suc i) zero f (x ∷ xs) d h = ground arith
get_or-update_nth (suc i) (suc j) f (x ∷ xs) d h = ground (arith, get_or-update_nth i j f xs d)

pub get_elem?-update_nth {ℓ} :
    {A : Type ℓ} (i j : ℕ) (f : A → A) (xs : List A)
    → get_elem? (update_nth i f xs) j
      ≡ (if i == j then Option.map f (get_elem? xs j) else get_elem? xs j)
unfolding update_nth
get_elem?-update_nth i j f [] = ground arith
get_elem?-update_nth zero zero f (x ∷ xs) = refl
get_elem?-update_nth zero (suc j) f (x ∷ xs) = ground arith
get_elem?-update_nth (suc i) zero f (x ∷ xs) = ground arith
get_elem?-update_nth (suc i) (suc j) f (x ∷ xs) = ground (arith, get_elem?-update_nth i j f xs)

-- The entries that are not set yet.
unfoldable pub unset : List Bool → ℕ
unset [] = 0
unset (false ∷ bs) = suc (unset bs)
unset (true ∷ bs) = unset bs

pub unset_le : (bs : List Bool) → unset bs ≤ length bs
unfolding unset
unset_le [] = omega arith
unset_le (false ∷ bs) = omega (arith, unset_le bs)
unset_le (true ∷ bs) = omega (arith, unset_le bs)

-- Setting an entry that is not set leaves one fewer; out of range nothing is set, and then the entry
-- counts as set.
pub unset-update_nth :
    (bs : List Bool) (i : ℕ) (f : Bool → Bool)
    → get_or bs i true ≡ false
    → f false ≡ true
    → suc (unset (update_nth i f bs)) ≡ unset bs
unfolding unset update_nth
unset-update_nth [] i f e t = absurd (ground arith)
unset-update_nth (true ∷ bs) zero f e t = absurd (ground arith)
unset-update_nth (false ∷ bs) zero f e t = rw t refl
unset-update_nth (true ∷ bs) (suc i) f e t = unset-update_nth bs i f e t
unset-update_nth (false ∷ bs) (suc i) f e t = ap suc (unset-update_nth bs i f e t)

pub get_or-update_nth_other {ℓ} :
    {A : Type ℓ} (i j : ℕ) (f : A → A) (xs : List A) (d : A)
    → i ≢ j
    → get_or (update_nth i f xs) j d ≡ get_or xs j d
unfolding update_nth
get_or-update_nth_other i j f [] d h = refl
get_or-update_nth_other zero zero f (x ∷ xs) d h = absurd (h refl)
get_or-update_nth_other zero (suc j) f (x ∷ xs) d h = refl
get_or-update_nth_other (suc i) zero f (x ∷ xs) d h = refl
get_or-update_nth_other (suc i) (suc j) f (x ∷ xs) d h =
    get_or-update_nth_other i j f xs d (λ e. h (ap suc e))

pub length-map {ℓ κ} :
    {A : Type ℓ} {B : Type κ} (f : A → B) (xs : List A) → length (map f xs) ≡ length xs
length-map f [] = refl
length-map f (x ∷ xs) = ap suc (length-map f xs)
