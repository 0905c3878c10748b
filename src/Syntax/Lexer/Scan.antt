-- ===== src/Syntax/Lexer/Scan.antt =====
-- adapter/syntax/lexer.go: the tests on bytes, the scanners and the operators. A scanner returns
-- how many bytes belong to what it reads.
use sysml_federation.Base.{
  ℕ, suc, ◌+◌, List, [], ◌∷◌, Bool, not, ◌&&◌, ◌||◌, Option, none, some, leb, ◌==◌, if◌then◌else◌,
  Bytes, bytes, has_prefix, drop,
}

unfoldable pub is_letter : ℕ → Bool
is_letter c = c == b'_' || leb b'a' c && leb c b'z' || leb b'A' c && leb c b'Z'

unfoldable pub is_digit : ℕ → Bool
is_digit c = leb b'0' c && leb c b'9'

unfoldable pub is_space : ℕ → Bool
is_space c = c == b' ' || c == b'\t' || c == b'\r' || c == b'\n'

-- for i < len(src) && test(src[i]) { i++ }
unfoldable pub count_while : (ℕ → Bool) → Bytes → ℕ
count_while test [] = 0
count_while test (c ∷ cs) = let rest = count_while test cs in if test c then suc rest else 0

-- The fraction, where a point and a digit stand.
unfoldable pub fraction : Bytes → ℕ
unfolding is_digit count_while
fraction (c ∷ d ∷ cs) = if c == b'.' && is_digit d then suc (count_while is_digit (d ∷ cs)) else 0
fraction _ = 0

unfoldable pub sign : Bytes → ℕ
sign [] = 0
sign (c ∷ cs) = if c == b'+' || c == b'-' then 1 else 0

-- The exponent, unless no digit follows.
unfoldable pub exponent : Bytes → ℕ
unfolding is_digit count_while sign
exponent [] = 0
exponent (c ∷ cs) =
    let digits = count_while is_digit (drop (sign cs) cs) in
    if (c == b'e' || c == b'E') && not (digits == 0) then suc (sign cs + digits) else 0

unfoldable pub scan_number : Bytes → ℕ
unfolding is_digit count_while fraction exponent
scan_number rest =
    let whole = count_while is_digit rest in
    let n = whole + fraction (drop whole rest) in n + exponent (drop n rest)

-- strings.IndexAny(rest, "'\n"), none also where it finds a newline
unfoldable pub scan_name : Bytes → Option ℕ
scan_name [] = none
scan_name (c ∷ cs) =
    if c == b'\''
    then some 0
    else if c == b'\n'
    then none
    else elim (scan_name cs) [ none ↦ none | some n ↦ some (suc n) ]

-- The loop over the body of a string: a backslash takes the next byte along, if there is one or not.
unfoldable pub scan_string : Bytes → ℕ
scan_string [] = 0
scan_string (c ∷ []) = if c == b'"' || c == b'\n' then 0 else if c == b'\\' then 2 else 1
scan_string (c ∷ d ∷ cs) =
    let escaped = suc (suc (scan_string cs)) in
    let plain = suc (scan_string (d ∷ cs)) in
    if c == b'"' || c == b'\n' then 0 else if c == b'\\' then escaped else plain

-- Every operator, a longer one before its prefixes.
unfoldable pub operators : List Bytes
operators =
    bytes "::>"
    ∷ bytes ":>>"
    ∷ bytes ":>"
    ∷ bytes "::"
    ∷ bytes ">="
    ∷ bytes "<="
    ∷ bytes "=="
    ∷ bytes "{"
    ∷ bytes "}"
    ∷ bytes "("
    ∷ bytes ")"
    ∷ bytes "["
    ∷ bytes "]"
    ∷ bytes ";"
    ∷ bytes ":"
    ∷ bytes "="
    ∷ bytes "."
    ∷ bytes ","
    ∷ bytes "<"
    ∷ bytes ">"
    ∷ bytes "+"
    ∷ bytes "-"
    ∷ bytes "*"
    ∷ bytes "/"
    ∷ bytes "#"
    ∷ []

unfoldable pub first_prefix : List Bytes → Bytes → Bytes
unfolding has_prefix
first_prefix [] rest = []
first_prefix (op ∷ ops) rest = if has_prefix rest op then op else first_prefix ops rest

unfoldable pub match_operator : Bytes → Bytes
unfolding first_prefix operators
match_operator rest = first_prefix operators rest
