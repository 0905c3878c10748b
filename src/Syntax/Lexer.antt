-- ===== src/Syntax/Lexer.antt =====
-- adapter/syntax/lexer.go. A place of the source is its index with the bytes from there on, so
-- src[i:] is `rest`; an index into it is an offset from `i`.
pub mod Scan
pub mod Rounds
pub mod Layout
use sysml_federation.Base.{
  ℕ, zero, suc, ◌+◌, List, [], ◌∷◌, ◌++◌, Bool, true, false, ◌||◌, Option, none, some, ◌==◌,
  if◌then◌else◌, Bytes, bytes, has_prefix, index, length, take, drop,
}
use sysml_federation.Syntax.Position.{error_at}
use sysml_federation.Syntax.Token.{
  Span, Kind, eof, ident, name, keyword, number, string, comment, punct, Token, Error, is_keyword,
}
use Scan.{
  is_letter, is_digit, is_space, count_while, scan_number, scan_name, scan_string, match_operator,
}

-- What one round of the loop of Lex does: it passes over n bytes, it adds a token of n bytes, or
-- it refuses the source at i.
pub data Round : Type 0 where
  skip : ℕ → Round
  emit : Kind → Bytes → ℕ → Round
  refuse : Bytes → Round

unfoldable pub note : Bytes → Round
note rest = elim (index (drop 3 rest) (bytes "*/")) [
  | none ↦ refuse (bytes "unterminated note")
  | some end ↦ skip (3 + end + 2)
]

unfoldable pub line_comment : Bytes → Round
line_comment rest = elim (index rest (b'\n' ∷ [])) [
  | none ↦ skip (length rest)
  | some end ↦ skip end
]

unfoldable pub block_comment : Bytes → Round
block_comment rest = elim (index (drop 2 rest) (bytes "*/")) [
  | none ↦ refuse (bytes "unterminated comment")
  | some end ↦ emit comment (take end (drop 2 rest)) (2 + end + 2)
]

unfoldable pub word : Bytes → Round
word rest =
    let n = count_while (λ c. is_letter c || is_digit c) rest in
    let text = take n rest in emit (if is_keyword text then keyword else ident) text n

-- The text of fmt.Sprintf("%q") is the parameter `quote` of Lex.
unfoldable pub number_token : (Bytes → Bool) → (Bytes → Bytes) → Bytes → Round
number_token is_float quote rest =
    let n = scan_number rest in
    let text = take n rest in
    if is_float text
    then emit number text n
    else refuse (bytes "cannot read " ++ (quote text ++ bytes " as a number"))

-- The case of a quoted name, behind the opening quote.
unfoldable pub quoted_name : Bytes → Round
quoted_name rest = elim (scan_name rest) [
  | none ↦ refuse (bytes "unterminated quoted name")
  | some end ↦ emit name (take end rest) (1 + end + 1)
]

-- The case of a string, behind the opening quote.
unfoldable pub quoted_string : Bytes → Round
quoted_string rest =
    let n = scan_string rest in
    elim (drop n rest) [
      | [] ↦ refuse (bytes "unterminated string")
      | c ∷ _ ↦
          if c == b'"'
          then emit string (take n rest) (1 + n + 1)
          else refuse (bytes "unterminated string")
    ]

unfoldable pub operator : (ℕ → Bytes) → ℕ → Bytes → Round
operator quote_byte c rest = elim (match_operator rest) [
  | [] ↦ refuse (bytes "unexpected character " ++ quote_byte c)
  | (x ∷ op) ↦ emit punct (x ∷ op) (length (x ∷ op))
]

-- What Lex calls that is not under src/: whether strconv.ParseFloat reads a text, and the two
-- texts of the verb %q, for a string and for a byte.
pub record Reader : Type 0 where
  pub is_float : Bytes → Bool
  pub quote : Bytes → Bytes
  pub quote_byte : ℕ → Bytes

-- The switch, on the byte at i.
unfoldable pub round : Reader → ℕ → Bytes → Round
round r c cs =
    if is_space c
    then skip 1
    else if has_prefix (c ∷ cs) (bytes "//*")
    then note (c ∷ cs)
    else if has_prefix (c ∷ cs) (bytes "//")
    then line_comment (c ∷ cs)
    else if has_prefix (c ∷ cs) (bytes "/*")
    then block_comment (c ∷ cs)
    else if is_letter c
    then word (c ∷ cs)
    else if is_digit c
    then number_token r.is_float r.quote (c ∷ cs)
    else if c == b'\''
    then quoted_name cs
    else if c == b'"'
    then quoted_string cs
    else operator r.quote_byte c (c ∷ cs)

pub data Lexed : Type 0 where
  tokens : List Token → Lexed
  refused : Error → Lexed
  out_of_fuel : Lexed

abbrev pub prepend : Token → Lexed → Lexed
prepend t (tokens ts) = tokens (t ∷ ts)
prepend t other = other

-- The loop of Lex from index i on. A round reads at least one byte, so the length of the source is
-- fuel enough.
unfoldable pub lex_loop : Reader → Bytes → Bytes → ℕ → ℕ → Bytes → Lexed
lex_loop r file src fuel i [] =
    tokens (record { kind = eof; text = []; span = record { start = i; stop = i } } ∷ [])
lex_loop r file src zero i (c ∷ cs) = out_of_fuel
lex_loop r file src (suc fuel) i (c ∷ cs) = elim (round r c cs) [
  | skip n ↦ lex_loop r file src fuel (i + n) (drop n (c ∷ cs))
  | emit kind text n ↦
      prepend (record { kind = kind; text = text; span = record { start = i; stop = i + n } })
        (lex_loop r file src fuel (i + n) (drop n (c ∷ cs)))
  | refuse message ↦ refused (error_at file src (record { start = i; stop = i }) message)
]

unfoldable pub lex : Reader → Bytes → Bytes → Lexed
unfolding lex_loop
lex r file src = lex_loop r file src (length src) 0 src
