-- ===== src/Base/Text.antt =====
-- Go strings are byte sequences: the operations of package strings that the program calls.
use Prim.Native.Nat.{ℕ, zero, suc}
use Prim.Native.Char.{code}
use Prim.Native.String.{String}
use mathlib.Core.Path.{◌≡◌, refl, sym, ap}
use mathlib.Core.Logic.{◌↔◌, inl, inr}
use mathlib.Core.List.{List, [], ◌∷◌, ◌++◌, Mem, not-mem-nil, mem-cons}
use mathlib.Core.Logic.Or
use mathlib.Core.HLevel.{⊥_prop}
use mathlib.Core.Option.{Option, none, some}
use mathlib.Core.Bool.{Bool, true, false, ◌&&◌, ◌||◌}
use native.Mathlib.Omega.{arith}
use sysml_federation.Base.Tests.{◌==◌, if◌then◌else◌, Bool-cases}
use sysml_federation.Base.Lists.{drop, take, length}

abbrev pub Bytes : Type 0
Bytes = List ℕ

-- The bytes of a literal: every literal here is ASCII.
abbrev pub bytes : String → Bytes
bytes String.[] = []
bytes (String.◌∷◌ c s) = code c ∷ bytes s

-- a == b on strings
unfoldable pub bytes_eq : Bytes → Bytes → Bool
bytes_eq [] [] = true
bytes_eq (x ∷ xs) (y ∷ ys) = x == y && bytes_eq xs ys
bytes_eq _ _ = false

pub bytes_eq_iff : (a b : Bytes) → (bytes_eq a b ≡ true) ↔ (a ≡ b)
unfolding bytes_eq
bytes_eq_iff [] [] = (λ _. refl, λ _. refl)
bytes_eq_iff (x ∷ a) (y ∷ b) = ground (arith, bytes_eq_iff a b)
bytes_eq_iff _ _ = ground arith

pub bytes_eq_refl : (a : Bytes) → bytes_eq a a ≡ true
bytes_eq_refl a = (bytes_eq_iff a a).1 refl

-- membership of a string in a set written as a list
unfoldable pub one_of : List Bytes → Bytes → Bool
unfolding bytes_eq
one_of [] w = false
one_of (x ∷ xs) w = bytes_eq x w || one_of xs w

-- strings.HasPrefix(s, p)
unfoldable pub has_prefix : Bytes → Bytes → Bool
has_prefix s [] = true
has_prefix [] (x ∷ p) = false
has_prefix (y ∷ s) (x ∷ p) = x == y && has_prefix s p

pub has_prefix-drop : (s p : Bytes) → has_prefix s p ≡ true → s ≡ p ++ drop (length p) s
unfolding has_prefix
has_prefix-drop s [] h = refl
has_prefix-drop [] (x ∷ p) h = cc
has_prefix-drop (y ∷ s) (x ∷ p) h = ground (arith, has_prefix-drop s p)

-- strings.Index(s, sub): the first place where sub stands, none for -1
unfoldable pub index : Bytes → Bytes → Option ℕ
unfolding has_prefix
index [] sub = if has_prefix [] sub then some 0 else none
index (c ∷ s) sub =
    if has_prefix (c ∷ s) sub
    then some 0
    else elim (index s sub) [ none ↦ none | some n ↦ some (suc n) ]

-- Where Index finds `sub` at n, the text splits there.
pub index-split :
    (s sub : Bytes) (n : ℕ)
    → index s sub ≡ some n
    → (tail : Bytes) × (s ≡ take n s ++ (sub ++ tail)) × (length (take n s) ≡ n)
unfolding index
index-split [] sub zero h = (drop (length sub) [], has_prefix-drop [] sub (ground arith), refl)
index-split [] sub (suc n) h = absurd (ground arith)
index-split (c ∷ s) sub zero h = elim (Bool-cases (has_prefix (c ∷ s) sub)) [
  | inl e ↦ (drop (length sub) (c ∷ s), has_prefix-drop (c ∷ s) sub e, refl)
  | inr e ↦ absurd (ground arith)
]
index-split (c ∷ s) sub (suc n) h =
    let (tail, split, len) = index-split s sub n (ground arith) in
    (tail, ap (◌∷◌ c) split, ap suc len)

-- strings.Join(parts, sep)
unfoldable pub join : List Bytes → Bytes → Bytes
join [] sep = []
join (x ∷ []) sep = x
join (x ∷ y ∷ xs) sep = x ++ sep ++ join (y ∷ xs) sep

pub has_prefix-first : (c x : ℕ) (s p : Bytes) → has_prefix (c ∷ s) (x ∷ p) ≡ true → c ≡ x
unfolding has_prefix
has_prefix-first c x s p h = ground arith

pub one_of-Mem : (list : List Bytes) (x : Bytes) → one_of list x ≡ true → Mem x list
unfolding one_of
one_of-Mem [] x h = absurd (ground arith)
one_of-Mem (y ∷ list) x h = elim (Bool-cases (bytes_eq y x)) [
  | inl e ↦ mem-cons.1 (Or.inl (sym ((bytes_eq_iff y x).0 e)))
  | inr e ↦ mem-cons.1 (Or.inr (one_of-Mem list x (ground arith)))
]

pub one_of-not : (list : List Bytes) (x : Bytes) → one_of list x ≡ false → ¬ Mem x list
unfolding one_of
one_of-not [] x h m = not-mem-nil m
one_of-not (y ∷ list) x h m =
    let other : bytes_eq y x ≡ false = ground arith in
    Or.elim ⊥_prop (mem-cons.0 m) (λ e. cc (other, (bytes_eq_iff y x).1 (sym e)))
      (one_of-not list x (ground arith))
