-- ===== src/Document/Tree/Numbering.antt =====
-- The numbers that Numbers gives are all different.
use mathlib.Core.List.{
  append_assoc, append-nil, append_cancel_left, map-append, Mem, not-mem-nil, mem-cons, mem-append,
  Nodup, Nodup-nil, Nodup-cons, Nodup-append,
}
use mathlib.Core.Logic.Or
use mathlib.Core.HLevel.{⊥_prop}
use sysml_federation.Base.{
  ℕ, suc, ◌<◌, ◌≡◌, refl, sym, ap, ◌∙◌, subst, inl, inr, List, [], ◌∷◌, ◌++◌, arith, map, Bytes,
  bytes, Bool-cases,
}
use sysml_federation.Document.Decimal.{itoa, lead, lead-itoa, lead-itoa_dot}
use sysml_federation.Document.Forest.{Forest, nil, node, is_prose}
use sysml_federation.Document.Tree.{Tree, number, numbers}

abbrev All : (Bytes → Type 0) → List Bytes → Type 0
All P [] = Unit {0}
All P (s ∷ list) = P s × All P list

All-map :
    {P Q : Bytes → Type 0} (list : List Bytes) → ((s : Bytes) → P s → Q s) → All P list → All Q list
All-map [] f a = tt
All-map (s ∷ list) f (p, a) = (f s p, All-map list f a)

All-append : (P : Bytes → Type 0) (xs ys : List Bytes) → All P xs → All P ys → All P (xs ++ ys)
All-append P [] ys a b = b
All-append P (x ∷ xs) ys (p, a) b = (p, All-append P xs ys a b)

All-Mem : (P : Bytes → Type 0) (list : List Bytes) (x : Bytes) → All P list → Mem x list → ¬ ¬ P x
All-Mem P [] x a m n = not-mem-nil m
All-Mem P (s ∷ list) x (p, a) m n =
    Or.elim ⊥_prop (mem-cons.0 m) (λ e. n (subst P (sym e) p)) (λ later. All-Mem P list x a later n)

-- Behind the prefix stands a number above k.
Above : Bytes → ℕ → Bytes → Type 0
Above prefix k s = (rest : Bytes) × (s ≡ prefix ++ rest) × (k < lead rest)

-- Behind the prefix stand the number k and a dot.
Inside : Bytes → ℕ → Bytes → Type 0
Inside prefix k s = (rest : Bytes) × (s ≡ prefix ++ (itoa k ++ (b'.' ∷ rest)))

abbrev values : List (Bytes × Bytes) → List Bytes
values list = map (λ e. e.1) list

Above-Inside :
    (prefix : Bytes) (k : ℕ) (s : Bytes)
    → Above ((prefix ++ itoa k) ++ bytes ".") 0 s
    → Inside prefix k s
unfolding Above Inside
Above-Inside prefix k s (rest, e, l) = (
  rest,
  e ∙ append_assoc (prefix ++ itoa k) (bytes ".") rest ∙ append_assoc prefix (itoa k) (b'.' ∷ rest),
)

Inside-Above : (prefix : Bytes) (k : ℕ) (s : Bytes) → Inside prefix (suc k) s → Above prefix k s
unfolding Above Inside
Inside-Above prefix k s (rest, e) =
    (itoa (suc k) ++ (b'.' ∷ rest), e, omega (arith, lead-itoa_dot (suc k) rest))

number-Above :
    (prefix : Bytes) (k : ℕ) (t : Forest) → All (Above prefix k) (values (number prefix k t))
unfolding number Above
number-Above prefix k nil = tt
number-Above prefix k (node a cs rest) = elim (Bool-cases (is_prose a.kind)) [
  | inl e ↦ rw (e) (number-Above prefix k rest)
  | inr e ↦
      let own = prefix ++ itoa (suc k) in
      let below = number (own ++ bytes ".") 0 cs in
      rw (e) (
        (itoa (suc k), refl, omega (arith, lead-itoa (suc k))),
        subst (All (Above prefix k))
            (sym (map-append (λ e. e.1) below (number prefix (suc k) rest)))
            (All-append (Above prefix k) (values below) (values (number prefix (suc k) rest))
              (All-map (values below)
                (λ s h. Inside-Above prefix k s (Above-Inside prefix (suc k) s h))
                (number-Above (own ++ bytes ".") 0 cs))
              (All-map (values (number prefix (suc k) rest))
                (λ s (r, q, l). (r, q, omega (arith, l))) (number-Above prefix (suc k) rest))),
      )
]

-- A node's own number is none of those inside it, and none of those above it.
own-Inside : (prefix : Bytes) (k : ℕ) → ¬ Inside prefix k (prefix ++ itoa k)
unfolding Inside
own-Inside prefix k (rest, e) = absurd (
    ground (
      arith,
      append_cancel_left (itoa k) [] (b'.' ∷ rest)
          (append-nil (itoa k) ∙ append_cancel_left prefix (itoa k) (itoa k ++ (b'.' ∷ rest)) e),
    ))

own-Above : (prefix : Bytes) (k : ℕ) → ¬ Above prefix k (prefix ++ itoa k)
unfolding Above
own-Above prefix k (rest, e, l) =
    omega (arith, l, lead-itoa k, ap lead (append_cancel_left prefix (itoa k) rest e))

Inside-not_Above : (prefix : Bytes) (k : ℕ) (s : Bytes) → Inside prefix k s → ¬ Above prefix k s
unfolding Inside Above
Inside-not_Above prefix k s (inner, f) (rest, e, l) = omega (
  arith,
  l,
  lead-itoa_dot k inner,
  ap lead (append_cancel_left prefix (itoa k ++ (b'.' ∷ inner)) rest (sym f ∙ e)),
)

number-Nodup : (prefix : Bytes) (k : ℕ) (t : Forest) → Nodup (values (number prefix k t))
unfolding number
number-Nodup prefix k nil = Nodup-nil
number-Nodup prefix k (node a cs rest) = elim (Bool-cases (is_prose a.kind)) [
  | inl e ↦ rw (e) (number-Nodup prefix k rest)
  | inr e ↦
      let own = prefix ++ itoa (suc k) in
      let below = number (own ++ bytes ".") 0 cs in
      let behind = number prefix (suc k) rest in
      let inside : All (Inside prefix (suc k)) (values below) =
        All-map (values below) (Above-Inside prefix (suc k))
          (number-Above (own ++ bytes ".") 0 cs) in
      let above = number-Above prefix (suc k) rest in
      rw (e) (
        Nodup-cons.1 (
          subst (λ l. ¬ Mem own l) (sym (map-append (λ e. e.1) below behind))
              (λ m.
                Or.elim ⊥_prop (mem-append.0 m)
                  (λ b.
                    All-Mem (Inside prefix (suc k)) (values below) own inside b
                      (own-Inside prefix (suc k)))
                  (λ b.
                    All-Mem (Above prefix (suc k)) (values behind) own above b
                      (own-Above prefix (suc k)))),
          subst Nodup (sym (map-append (λ e. e.1) below behind)) (
              Nodup-append.1 (
                number-Nodup (own ++ bytes ".") 0 cs,
                number-Nodup prefix (suc k) rest,
                λ x m n. All-Mem (Inside prefix (suc k)) (values below) x inside m (λ i.
                    All-Mem (Above prefix (suc k)) (values behind) x above n
                      (Inside-not_Above prefix (suc k) x i)),
              )),
        ))
]

-- No two entries of Numbers have the same dotted-decimal number.
pub numbers-Nodup : (t : Tree) → Nodup (map (λ e. e.1) (numbers t))
unfolding numbers
numbers-Nodup t = number-Nodup [] 0 t.root
