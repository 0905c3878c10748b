-- ===== src/Document/Decimal.antt =====
-- strconv.Itoa on the numbers that the document counts with.
use mathlib.Core.List.{append-nil}
use sysml_federation.Base.{
  leb, Bool, true, ◌&&◌, ℕ, zero, suc, ◌+◌, ◌-◌, ◌*◌, ◌/◌, ◌%◌, ◌<◌, ◌≡◌, refl, sym, ap, ◌∙◌, [],
  ◌∷◌, ◌++◌, arith, ltb, if◌then◌else◌, Bool-cases, inl, inr, Bytes,
}

-- The digits of n; the fuel is one more than n.
itoa_loop : ℕ → ℕ → Bytes
itoa_loop zero n = []
itoa_loop (suc fuel) n =
    let front = itoa_loop fuel (n / 10) in
    if ltb n 10 then (b'0' + n) ∷ [] else front ++ (b'0' + n % 10) ∷ []

unfoldable pub itoa : ℕ → Bytes
unfolding itoa_loop
itoa n = itoa_loop (suc n) n

-- The number that a run of digits is read as.
value_from : ℕ → Bytes → ℕ
value_from acc [] = acc
value_from acc (c ∷ cs) = value_from (acc * 10 + (c - b'0')) cs

value_from-append :
    (acc : ℕ) (xs ys : Bytes) → value_from acc (xs ++ ys) ≡ value_from (value_from acc xs) ys
unfolding value_from
value_from-append acc [] ys = refl
value_from-append acc (x ∷ xs) ys = value_from-append (acc * 10 + (x - b'0')) xs ys

itoa_loop-value : (fuel n : ℕ) → n < fuel → value_from 0 (itoa_loop fuel n) ≡ n
unfolding itoa_loop value_from
itoa_loop-value zero n h = absurd (omega arith)
itoa_loop-value (suc fuel) n h = elim (Bool-cases (ltb n 10)) [
  | inl e ↦ rw e (omega arith)
  | inr e ↦ rw e (
      value_from-append 0 (itoa_loop fuel (n / 10)) ((b'0' + n % 10) ∷ [])
      ∙ last (itoa_loop-value fuel (n / 10) (ground arith)))
]
  where
    last :
        value_from 0 (itoa_loop fuel (n / 10)) ≡ n / 10
        → value_from (value_from 0 (itoa_loop fuel (n / 10))) ((b'0' + n % 10) ∷ []) ≡ n
    last ih = omega arith

-- Different numbers have different digits.
pub itoa-injective : (m n : ℕ) → itoa m ≡ itoa n → m ≡ n
unfolding itoa
itoa-injective m n e =
    sym (itoa_loop-value (suc m) m (omega arith))
    ∙ ap (value_from 0) e
    ∙ itoa_loop-value (suc n) n (omega arith)

abbrev digit : ℕ → Bool
digit c = leb b'0' c && leb c b'9'

-- Nothing but digits.
digits : Bytes → Bool
digits [] = true
digits (c ∷ cs) = digit c && digits cs

digits-append : (xs ys : Bytes) → digits xs ≡ true → digits ys ≡ true → digits (xs ++ ys) ≡ true
unfolding digits
digits-append [] ys h g = g
digits-append (x ∷ xs) ys h g =
    let one : digit x ≡ true = ground arith in
    let more : digits xs ≡ true = ground arith in rw (one) (digits-append xs ys more g)

itoa_loop-digits : (fuel n : ℕ) → digits (itoa_loop fuel n) ≡ true
unfolding itoa_loop digits
itoa_loop-digits zero n = refl
itoa_loop-digits (suc fuel) n = elim (Bool-cases (ltb n 10)) [
  | inl e ↦ let d : digit (b'0' + n) ≡ true = ground arith in rw (e, d) refl
  | inr e ↦
      let d : digit (b'0' + n % 10) ≡ true = ground arith in
      rw (e)
        (digits-append (itoa_loop fuel (n / 10)) _ (itoa_loop-digits fuel (n / 10)) (rw (d) refl))
]

lead_from : ℕ → Bytes → ℕ
lead_from acc [] = acc
lead_from acc (c ∷ cs) =
    let more = lead_from (acc * 10 + (c - b'0')) cs in if digit c then more else acc

-- The number that the digits at the front of a text are read as.
pub lead : Bytes → ℕ
unfolding lead_from
lead s = lead_from 0 s

lead_from-digits :
    (acc : ℕ) (xs ys : Bytes)
    → digits xs ≡ true
    → lead_from acc (xs ++ ys) ≡ lead_from (value_from acc xs) ys
unfolding lead_from value_from digits
lead_from-digits acc [] ys h = refl
lead_from-digits acc (x ∷ xs) ys h =
    let one : digit x ≡ true = ground arith in
    let more : digits xs ≡ true = ground arith in
    rw (one) (lead_from-digits (acc * 10 + (x - b'0')) xs ys more)

-- A number is read back from its digits, at the end of a text or before a dot.
pub lead-itoa : (n : ℕ) → lead (itoa n) ≡ n
unfolding lead itoa lead_from
lead-itoa n =
    ap (lead_from 0) (sym (append-nil (itoa n)))
    ∙ lead_from-digits 0 (itoa n) [] (itoa_loop-digits (suc n) n)
    ∙ itoa_loop-value (suc n) n (omega arith)

pub lead-itoa_dot : (n : ℕ) (rest : Bytes) → lead (itoa n ++ (b'.' ∷ rest)) ≡ n
unfolding lead itoa lead_from
lead-itoa_dot n rest =
    lead_from-digits 0 (itoa n) (b'.' ∷ rest) (itoa_loop-digits (suc n) n)
    ∙ itoa_loop-value (suc n) n (omega arith)
