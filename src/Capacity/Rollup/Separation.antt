-- ===== src/Capacity/Rollup/Separation.antt =====
-- flow.go: the sets of vertices that no connection leaves, as ways to cut the entries from the exits.
use native.Mathlib.Decide.{dec_lt}
use sysml_federation.Base.{
  ℕ, zero, suc, ◌+◌, ◌*◌, ◌/◌, ◌%◌, ◌≤◌, ◌<◌, ◌≡◌, refl, sym, ap, ◌∙◌, subst, arith, List, [], ◌∷◌,
  Bool, true, false, not, ◌&&◌, some, if◌then◌else◌, length, get_elem?, get_or, ◌==◌,
}
use sysml_federation.Capacity.Flow.Cuts.{endless, part}
use sysml_federation.Capacity.Rollup.{Wired, in_of, out_of}
use sysml_federation.Capacity.Rollup.Sums.{
  is_wired, child_part, children_part, wires_part, Ranged, ranged_none, ranged_some,
}
use sysml_federation.Capacity.Rollup.Network.{cut_sum}
use sysml_federation.Capacity.Exact.{finite, infinite}

-- Which children are fed and which pass on: an entry child is fed, an exit child does not pass on, and
-- what a child that passes on is connected to is fed.
pub record Separates (w : Wired) (n : ℕ) (fed passes : ℕ → Bool) : Type 0 where
  pub entries :
      (i : ℕ) → i < n → is_wired w i ≡ true → get_or w.has_in i false ≡ false → fed i ≡ true
  pub exits :
      (i : ℕ) → i < n → is_wired w i ≡ true → get_or w.has_out i false ≡ false → passes i ≡ false
  pub along :
      (k from to : ℕ) → get_elem? w.wires k ≡ some (from, to) → passes from ≡ true → fed to ≡ true

-- The set of vertices that stands for it.
abbrev pub label : ℕ → (ℕ → Bool) → (ℕ → Bool) → ℕ → Bool
label n fed passes v =
    if v == 2 * n
    then true
    else if v == 2 * n + 1
    then false
    else if v % 2 == 0
    then fed (v / 2)
    else passes (v / 2)

pub label-in :
    (n : ℕ) (fed passes : ℕ → Bool) (i : ℕ) → i < n → label n fed passes (in_of i) ≡ fed i
label-in n fed passes i h = let half : in_of i / 2 ≡ i = omega arith in ground (arith, ap fed half)

pub label-out :
    (n : ℕ) (fed passes : ℕ → Bool) (i : ℕ) → i < n → label n fed passes (out_of i) ≡ passes i
label-out n fed passes i h =
    let half : out_of i / 2 ≡ i = omega arith in ground (arith, ap passes half)

pub label-splits :
    (n : ℕ) (fed passes : ℕ → Bool)
    → (label n fed passes (2 * n) ≡ true) × (label n fed passes (2 * n + 1) ≡ false)
label-splits n fed passes = (ground arith, ground arith)

pub cut_sum-label :
    (w : Wired) (n i : ℕ) (fed passes : ℕ → Bool) (xs : List ℕ)
    → i + length xs ≤ n
    → cut_sum w (λ j. label n fed passes (in_of j)) (λ j. label n fed passes (out_of j)) i xs
      ≡ cut_sum w fed passes i xs
unfolding cut_sum
cut_sum-label w n i fed passes [] h = refl
cut_sum-label w n i fed passes (x ∷ xs) h =
    rw (label-in n fed passes i (omega arith), label-out n fed passes i (omega arith))
      (ap (λ (k : ℕ). (if is_wired w i && (fed i && not (passes i)) then x else 0) + k)
        (cut_sum-label w n (suc i) fed passes xs (omega arith)))

child_endless :
    (n i x : ℕ) (w : Wired) (within : ℕ → Bool)
    → (is_wired w i ≡ true → get_or w.has_in i false ≡ false → within (in_of i) ≡ true)
    → (is_wired w i ≡ true → get_or w.has_out i false ≡ false → within (out_of i) ≡ false)
    → child_part n w i (finite x) endless within ≡ 0
child_endless n i x w within a b = ground arith

children_endless :
    (n i : ℕ) (w : Wired) (fed passes : ℕ → Bool) (xs : List ℕ)
    → i + length xs ≤ n
    → Separates w n fed passes
    → children_part n w i xs endless (label n fed passes) ≡ 0
children_endless n i w fed passes [] h s = refl
children_endless n i w fed passes (x ∷ xs) h s =
    let at_in = label-in n fed passes i (omega arith) in
    let at_out = label-out n fed passes i (omega arith) in
    omega (
      arith,
      child_endless n i x w (label n fed passes)
          (λ wired no_in. at_in ∙ s.entries i (omega arith) wired no_in)
          (λ wired no_out. at_out ∙ s.exits i (omega arith) wired no_out),
      children_endless n (suc i) w fed passes xs (omega arith) s,
    )

wire_endless :
    (within : ℕ → Bool) (u v : ℕ)
    → (within u ≡ true → within v ≡ true)
    → part endless within u v infinite ≡ 0
wire_endless within u v h = ground arith

wires_endless :
    (n : ℕ) (wires : List (ℕ × ℕ)) (fed passes : ℕ → Bool)
    → Ranged n wires
    → ((k from to : ℕ) → get_elem? wires k ≡ some (from, to) → passes from ≡ true → fed to ≡ true)
    → wires_part wires endless (label n fed passes) ≡ 0
wires_endless n wires fed passes (ranged_none e) h = rw (e) refl
wires_endless n wires fed passes (ranged_some from to rest e hf ht r) h =
    let at_out = label-out n fed passes from hf in
    let at_in = label-in n fed passes to ht in
    let here =
      wire_endless (label n fed passes) (out_of from) (in_of to)
        (λ p. at_in ∙ h 0 from to (ap (λ (l : List (ℕ × ℕ)). get_elem? l 0) e) (sym at_out ∙ p)) in
    let more =
      wires_endless n rest fed passes r
        (λ k f t q p. h (suc k) f t (ap (λ (l : List (ℕ × ℕ)). get_elem? l (suc k)) e ∙ q) p) in
    rw (e) (omega (arith, here, more))

-- No connection without limit leaves the set of a separation.
pub Separates-endless :
    (w : Wired) (n : ℕ) (fed passes : ℕ → Bool) (xs : List ℕ)
    → length xs ≡ n
    → Ranged n w.wires
    → Separates w n fed passes
    → children_part n w 0 xs endless (label n fed passes)
        + wires_part w.wires endless (label n fed passes)
      ≡ 0
Separates-endless w n fed passes xs h r s = omega (
  arith,
  children_endless n 0 w fed passes xs (omega arith) s,
  wires_endless n w.wires fed passes r s.along,
)

-- A set of vertices with the source and without the sink that none leaves is a separation.
child_sealed :
    (n i x : ℕ) (w : Wired) (within : ℕ → Bool)
    → within (2 * n) ≡ true
    → within (2 * n + 1) ≡ false
    → child_part n w i (finite x) endless within ≡ 0
    → is_wired w i ≡ true
    → (get_or w.has_in i false ≡ false → within (in_of i) ≡ true)
      × (get_or w.has_out i false ≡ false → within (out_of i) ≡ false)
child_sealed n i x w within s t z wired = (λ h. ground arith, λ h. ground arith)

children_sealed :
    (n i : ℕ) (w : Wired) (within : ℕ → Bool) (xs : List ℕ)
    → within (2 * n) ≡ true
    → within (2 * n + 1) ≡ false
    → children_part n w i xs endless within ≡ 0
    → (j : ℕ) → i ≤ j
    → j < i + length xs
    → is_wired w j ≡ true
    → (get_or w.has_in j false ≡ false → within (in_of j) ≡ true)
      × (get_or w.has_out j false ≡ false → within (out_of j) ≡ false)
children_sealed n i w within [] s t z j a b wired = absurd (omega arith)
children_sealed n i w within (x ∷ xs) s t z j a b wired = elim (dec_lt i j) [
  | yes later ↦
      children_sealed n (suc i) w within xs s t (omega (arith, z)) j later (omega arith) wired
  | no here ↦
      let same : i ≡ j = omega arith in
      child_sealed n j x w within s t
        (subst (λ k. child_part n w k (finite x) endless within ≡ 0) same (omega (arith, z))) wired
]

wires_sealed :
    (wires : List (ℕ × ℕ)) (within : ℕ → Bool)
    → wires_part wires endless within ≡ 0
    → (k : ℕ) {from to : ℕ} → get_elem? wires k ≡ some (from, to)
    → within (out_of from) ≡ true
    → within (in_of to) ≡ true
wires_sealed [] within z k q p = absurd (ground arith)
wires_sealed ((f, t) ∷ wires) within z zero {from} {to} q p =
    let same : ◌≡◌ {A = ℕ × ℕ} (f, t) (from, to) = ground (arith, q) in
    let all =
      subst (λ (y : ℕ × ℕ). part endless within (out_of y.0) (in_of y.1) infinite ≡ 0) same
        (omega (arith, z)) in
    ground arith
wires_sealed ((f, t) ∷ wires) within z (suc k) {from} {to} q p =
    wires_sealed wires within (omega (arith, z)) k {from = from} {to = to} q p

pub sealed-Separates :
    (w : Wired) (n : ℕ) (within : ℕ → Bool) (xs : List ℕ)
    → length xs ≡ n
    → within (2 * n) ≡ true
    → within (2 * n + 1) ≡ false
    → children_part n w 0 xs endless within + wires_part w.wires endless within ≡ 0
    → Separates w n (λ j. within (in_of j)) (λ j. within (out_of j))
sealed-Separates w n within xs h s t z =
    let children = λ (j : ℕ) (b : j < n) (wired : is_wired w j ≡ true).
      children_sealed n 0 w within xs s t (omega (arith, z)) j (omega arith) (omega arith) wired in
    record {
      entries = λ i b wired. (children i b wired).0;
      exits = λ i b wired. (children i b wired).1;
      along = λ k from to q p.
          wires_sealed w.wires within (omega (arith, z)) k {from = from} {to = to} q p;
    }
