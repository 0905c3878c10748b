-- ===== src/Syntax/Examples.antt =====
-- Runs of the lexer and the parser, and the theorems at concrete inputs.
use sysml_federation.Base.{
  ◌+◌, ◌≡◌, refl, List, [], ◌∷◌, ◌++◌, true, arith, Bytes, bytes, has_prefix, index, take,
}
use sysml_federation.Syntax.Expr.{Numbers}
use sysml_federation.Syntax.Lexer.Layout.{IsLexed, lex-IsLexed}
use sysml_federation.Syntax.Lexer.Scan
use sysml_federation.Syntax.Lexer.{Reader, Lexed, tokens, lex, round}
use sysml_federation.Syntax.Lexer
use sysml_federation.Syntax.Parser.Total.{Returns, parse_total}
use sysml_federation.Syntax.Parser.{parse}
use sysml_federation.Syntax.Position.{position, newlines, last_line, position_lem}
use sysml_federation.Syntax.Token.{Token, is_keyword}

-- Every number reads, and %q adds quotes: the literals below need no escape.
abbrev reader : Reader
reader = record {
  is_float = λ text. true;
  quote = λ text. b'"' ∷ (text ++ b'"' ∷ []);
  quote_byte = λ c. b'\'' ∷ c ∷ b'\'' ∷ [];
}

-- A number is its text.
abbrev read_numbers : Numbers Bytes
read_numbers = record { parse_float = λ text. text; negate = λ text. b'-' ∷ text }

abbrev demo : Bytes
demo = bytes "package Demo {\n  part def Queue { attribute load; }\n  part q : Queue;\n}\n"

abbrev texts : Lexed → List Bytes
texts (tokens ts) = go ts
  where
    go : List Token → List Bytes
    go [] = []
    go (t ∷ ts) = t.text ∷ go ts
texts _ = []

lex_expression :
    texts (lex reader (bytes "m") (bytes "a.b1 :>> -2.5e3 /* c */"))
    ≡ bytes "a"
      ∷ bytes "."
      ∷ bytes "b1"
      ∷ bytes ":>>"
      ∷ bytes "-"
      ∷ bytes "2.5e3"
      ∷ bytes " c "
      ∷ []
      ∷ []
unfolding lex round is_keyword has_prefix index Scan.is_space Scan.is_letter Scan.is_digit
    Scan.count_while Scan.scan_number Scan.scan_name Scan.scan_string Scan.match_operator Lexer.note
    Lexer.line_comment Lexer.block_comment Lexer.word Lexer.number_token Lexer.quoted_name
    Lexer.quoted_string Lexer.operator
lex_expression = refl

position_lem_example :
    position demo 18 ≡ (newlines (take 18 demo) + 1, last_line (take 18 demo) + 1)
position_lem_example = position_lem demo 18 (omega arith)

lex-IsLexed_example : IsLexed (bytes "m") demo 0 (lex reader (bytes "m") demo)
lex-IsLexed_example = lex-IsLexed reader (bytes "m") demo

parse_total_example : Returns (parse read_numbers reader (bytes "m") demo)
parse_total_example = parse_total read_numbers reader (bytes "m") demo
