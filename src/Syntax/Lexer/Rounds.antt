-- ===== src/Syntax/Lexer/Rounds.antt =====
-- One round of the loop of Lex: it reads at least one byte, none behind the end, and what it reads
-- is its token as the source spells it.
use mathlib.Core.List.{append_assoc}
use sysml_federation.Base.{
  ℕ, zero, suc, ◌+◌, ◌≤◌, ◌<◌, ◌≡◌, ◌≢◌, refl, sym, ap, ◌∙◌, inl, inr, List, [], ◌∷◌, ◌++◌, Bool,
  true, ◌||◌, some, arith, ◌==◌, if◌then◌else◌, Bytes, bytes, has_prefix, index, length, take, drop,
  Bool-cases, if_rule, Option-cases, has_prefix-drop, has_prefix-first, index-split, length-append,
  take-append-drop, length-drop, length-take_le, List-cases, ==→eq,
}
use sysml_federation.Syntax.Token.{Kind, eof, name, string, comment, is_keyword}
use sysml_federation.Syntax.Lexer.{
  Round, skip, emit, refuse, note, line_comment, block_comment, word, number_token, quoted_name,
  quoted_string, operator, Reader, round,
}
use sysml_federation.Syntax.Lexer.Scan.{
  is_space, is_letter, is_digit, count_while, fraction, sign, exponent, scan_number, scan_name,
  scan_string, operators, first_prefix, match_operator,
}

-- A token's text with the delimiters that its kind has in the source.
abbrev pub spelled : Kind → Bytes → Bytes
spelled comment text = bytes "/*" ++ (text ++ bytes "*/")
spelled name text = b'\'' ∷ (text ++ b'\'' ∷ [])
spelled string text = b'"' ∷ (text ++ b'"' ∷ [])
spelled _ text = text

-- The bytes `rest` begin with the n bytes of `w`.
abbrev pub Begins : Bytes → Bytes → ℕ → Type 0
Begins rest w n = (tail : Bytes) × (rest ≡ w ++ tail) × (n ≡ length w)

abbrev pub Fits : Bytes → Round → Type 0
Fits rest (skip n) = (0 < n) × (n ≤ length rest)
Fits rest (emit kind text n) = (kind ≢ eof) × (0 < n) × Begins rest (spelled kind text) n
Fits rest (refuse message) = Unit

count_while-le : (test : ℕ → Bool) (cs : Bytes) → count_while test cs ≤ length cs
unfolding count_while
count_while-le test [] = omega arith
count_while-le test (c ∷ cs) = ground (arith, count_while-le test cs)

fraction-le : (cs : Bytes) → fraction cs ≤ length cs
unfolding fraction
fraction-le [] = omega arith
fraction-le (c ∷ []) = omega arith
fraction-le (c ∷ d ∷ cs) = ground (arith, count_while-le is_digit (d ∷ cs))

sign-le : (cs : Bytes) → sign cs ≤ length cs
unfolding sign
sign-le [] = omega arith
sign-le (c ∷ cs) = ground arith

exponent-le : (cs : Bytes) → exponent cs ≤ length cs
unfolding exponent
exponent-le [] = omega arith
exponent-le (c ∷ cs) =
    ground
      (arith, sign-le cs, count_while-le is_digit (drop (sign cs) cs), length-drop (sign cs) cs)

scan_number-le : (cs : Bytes) → scan_number cs ≤ length cs
unfolding scan_number
scan_number-le cs = omega (
  arith,
  count_while-le is_digit cs,
  fraction-le (drop (count_while is_digit cs) cs),
  length-drop (count_while is_digit cs) cs,
  exponent-le (drop (count_while is_digit cs + fraction (drop (count_while is_digit cs) cs)) cs),
  length-drop (count_while is_digit cs + fraction (drop (count_while is_digit cs) cs)) cs,
)

scan_number-pos : (c : ℕ) (cs : Bytes) → is_digit c ≡ true → 0 < scan_number (c ∷ cs)
unfolding scan_number count_while
scan_number-pos c cs h = ground arith

-- What a scanner counts splits off.
take-Begins : (n : ℕ) (cs : Bytes) → n ≤ length cs → Begins cs (take n cs) n
take-Begins n cs h = (drop n cs, sym (take-append-drop n cs), sym (length-take_le n cs h))

scan_name-split :
    (cs : Bytes) (n : ℕ)
    → scan_name cs ≡ some n
    → (tail : Bytes) × (cs ≡ take n cs ++ b'\'' ∷ tail) × (length (take n cs) ≡ n)
unfolding scan_name
scan_name-split [] n h = cc
scan_name-split (c ∷ cs) zero h = (cs, ground arith, refl)
scan_name-split (c ∷ cs) (suc n) h =
    let (tail, split, len) = scan_name-split cs n (ground arith) in
    (tail, ap (◌∷◌ c) split, ap suc len)

first_prefix-Begins :
    (ops : List Bytes) (rest : Bytes) → (tail : Bytes) × (rest ≡ first_prefix ops rest ++ tail)
unfolding first_prefix
first_prefix-Begins [] rest = (rest, refl)
first_prefix-Begins (op ∷ ops) rest = elim (Bool-cases (has_prefix rest op)) [
  | inl e ↦ (drop (length op) rest, rw e (has_prefix-drop rest op e))
  | inr e ↦ rw e (first_prefix-Begins ops rest)
]

-- A text between delimiters of one or two bytes.
enclosed : (a text b tail : Bytes) → a ++ (text ++ (b ++ tail)) ≡ (a ++ (text ++ b)) ++ tail
enclosed a text b tail = simp append_assoc

length-enclosed : (a text b : Bytes) → length (a ++ (text ++ b)) ≡ length a + length text + length b
length-enclosed a text b = omega (arith, length-append a (text ++ b), length-append text b)

has_prefix-length : (s p : Bytes) → has_prefix s p ≡ true → length p ≤ length s
has_prefix-length s p h =
    omega (arith, ap length (has_prefix-drop s p h), length-append p (drop (length p) s))

index-length : (s sub : Bytes) (n : ℕ) → index s sub ≡ some n → n + length sub ≤ length s
index-length s sub n e =
    let (tail, split, len) = index-split s sub n e in
    omega (arith, ap length split, length-append (take n s) (sub ++ tail), length-append sub tail)

note-Fits : (rest : Bytes) → has_prefix rest (bytes "//*") ≡ true → Fits rest (note rest)
unfolding note
note-Fits rest h = elim (Option-cases (index (drop 3 rest) (bytes "*/"))) [
  | inl e ↦ rw (e, note) tt
  | inr (end, e) ↦
      rw (e, note)
        (omega (
          arith,
          has_prefix-length rest (bytes "//*") h,
          index-length (drop 3 rest) (bytes "*/") end e,
          length-drop 3 rest,
        ))
]

line_comment-Fits : (cs : Bytes) → Fits (b'/' ∷ cs) (line_comment (b'/' ∷ cs))
unfolding line_comment index
line_comment-Fits cs = elim (Option-cases (index cs (b'\n' ∷ []))) [
  | inl e ↦ rw (e, line_comment, index) (omega arith)
  | inr (end, e) ↦ rw (e, line_comment, index) (omega (arith, index-length cs (b'\n' ∷ []) end e))
]

block_comment-Fits :
    (rest : Bytes) → has_prefix rest (bytes "/*") ≡ true → Fits rest (block_comment rest)
unfolding block_comment
block_comment-Fits rest h = elim (Option-cases (index (drop 2 rest) (bytes "*/"))) [
  | inl e ↦ rw (e, block_comment) tt
  | inr (end, e) ↦
      let (tail, split, len) = index-split (drop 2 rest) (bytes "*/") end e in
      rw (e, block_comment)
        (
          (λ p. cc),
          omega arith,
          (
            tail,
            has_prefix-drop rest (bytes "/*") h
                ∙ ap (λ s. bytes "/*" ++ s) split
                ∙ enclosed (bytes "/*") (take end (drop 2 rest)) (bytes "*/") tail,
            omega (arith, len, length-enclosed (bytes "/*") (take end (drop 2 rest)) (bytes "*/")),
          ),
        )
]

word-Fits : (c : ℕ) (cs : Bytes) → is_letter c ≡ true → Fits (c ∷ cs) (word (c ∷ cs))
unfolding word
word-Fits c cs h =
    let test = λ (d : ℕ). is_letter d || is_digit d in
    let n = count_while test (c ∷ cs) in
    let positive : 0 < n = unfold count_while in ground arith in
    let begins = take-Begins n (c ∷ cs) (count_while-le test (c ∷ cs)) in
    elim (Bool-cases (is_keyword (take n (c ∷ cs)))) [
      | inl e ↦ rw (e, word) ((λ p. cc), positive, begins)
      | inr e ↦ rw (e, word) ((λ p. cc), positive, begins)
    ]

number_token-Fits :
    (r : Reader) (c : ℕ) (cs : Bytes)
    → is_digit c ≡ true
    → Fits (c ∷ cs) (number_token r.is_float r.quote (c ∷ cs))
unfolding number_token
number_token-Fits r c cs h = elim (Bool-cases (r.is_float (take (scan_number (c ∷ cs)) (c ∷ cs)))) [
  | inl e ↦
      rw (e, number_token)
        (
          (λ p. cc),
          scan_number-pos c cs h,
          take-Begins (scan_number (c ∷ cs)) (c ∷ cs) (scan_number-le (c ∷ cs)),
        )
  | inr e ↦ rw (e, number_token) tt
]

quoted_name-Fits : (cs : Bytes) → Fits (b'\'' ∷ cs) (quoted_name cs)
unfolding quoted_name
quoted_name-Fits cs = elim (Option-cases (scan_name cs)) [
  | inl e ↦ rw (e, quoted_name) tt
  | inr (n, e) ↦
      let (tail, split, len) = scan_name-split cs n e in
      rw (e, quoted_name)
        (
          (λ p. cc),
          omega arith,
          (
            tail,
            ap (◌∷◌ b'\'') (split ∙ sym (append_assoc (take n cs) (b'\'' ∷ []) tail)),
            omega (arith, len, length-append (take n cs) (b'\'' ∷ [])),
          ),
        )
]

quoted_string-Fits : (cs : Bytes) → Fits (b'"' ∷ cs) (quoted_string cs)
unfolding quoted_string
quoted_string-Fits cs = elim (List-cases (drop (scan_string cs) cs)) [
  | inl e ↦ rw (e, quoted_string) tt
  | inr (c, tail, e) ↦ rw (e, quoted_string) (closing c tail e)
]
  where
    n : ℕ
    n = scan_string cs

    closing :
        (c : ℕ) (tail : Bytes)
        → drop n cs ≡ c ∷ tail
        → Fits (b'"' ∷ cs) (
            if c == b'"'
            then emit string (take n cs) (1 + n + 1)
            else refuse (bytes "unterminated string"))
    closing c tail e = elim (Bool-cases (c == b'"')) [
      | inl q ↦
          let len : length (take n cs) ≡ n =
            length-take_le n cs (omega (arith, ap length e, length-drop n cs)) in
          rw q (
            (λ p. cc),
            omega arith,
            (
              tail,
              ap (◌∷◌ b'"') (
                  sym (take-append-drop n cs)
                  ∙ ap (λ s. take n cs ++ s) (e ∙ ap (λ x. x ∷ tail) (==→eq c b'"' q))
                  ∙ sym (append_assoc (take n cs) (b'"' ∷ []) tail)),
              omega (arith, len, length-append (take n cs) (b'"' ∷ [])),
            ),
          )
      | inr q ↦ rw q tt
    ]

operator-Fits : (q : ℕ → Bytes) (c : ℕ) (rest : Bytes) → Fits rest (operator q c rest)
unfolding operator match_operator
operator-Fits q c rest = elim (List-cases (first_prefix operators rest)) [
  | inl e ↦ rw (e, operator) tt
  | inr (x, op, e) ↦
      let (tail, split) = first_prefix-Begins operators rest in
      rw (e, operator) ((λ p. cc), omega arith, (tail, split ∙ ap (λ s. s ++ tail) e, refl))
]

-- Every round fits what is left of the source.
pub round-Fits : (r : Reader) (c : ℕ) (cs : Bytes) → Fits (c ∷ cs) (round r c cs)
unfolding round
round-Fits r c cs =
    let rest = c ∷ cs in
    let fits = Fits rest in
    if_rule fits (is_space c) _ _ (λ _. (omega arith, omega arith))
      λ _. if_rule fits (has_prefix rest (bytes "//*")) _ _ (note-Fits rest) λ _.
        if_rule fits (has_prefix rest (bytes "//")) _ _
          (λ e. rw (has_prefix-first c b'/' cs (bytes "/") e) (line_comment-Fits cs))
          λ _. if_rule fits (has_prefix rest (bytes "/*")) _ _ (block_comment-Fits rest) λ _.
            if_rule fits (is_letter c) _ _ (word-Fits c cs) λ _.
              if_rule fits (is_digit c) _ _ (number_token-Fits r c cs) λ _.
                if_rule fits (c == b'\'') _ _ (λ e. rw (==→eq c b'\'' e) (quoted_name-Fits cs))
                  λ _.
                    if_rule fits (c == b'"') _ _ (λ e. rw (==→eq c b'"' e) (quoted_string-Fits cs))
                      λ _. operator-Fits r.quote_byte c rest
