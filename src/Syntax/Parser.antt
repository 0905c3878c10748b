-- ===== src/Syntax/Parser.antt =====
-- adapter/syntax/parser.go: one module for each section of the file, and Parse.
pub mod Ports
pub mod Attributes
pub mod Requirements
pub mod Verifications
pub mod Parts
pub mod Packages
pub mod Members
pub mod Bodies
pub mod Total
use sysml_federation.Base.{ℕ, suc, not, Bytes, bytes, length}
use sysml_federation.Syntax.Ast.{Package, File}
use sysml_federation.Syntax.Cursor.{
  Input, Outcome, ok, P, pure, ◌>>=◌, test◌run◌otherwise◌, peek, fail_expected,
}
use sysml_federation.Syntax.Expr.{Numbers}
use sysml_federation.Syntax.Lexer.{Reader, Lexed, tokens, lex}
use sysml_federation.Syntax.Token.{Kind, kind_eq, Token, Error}
use Packages.{parse_package}

pub data Parsed (F : Type 0) : Type 0 where
  parsed : File F → Parsed F
  refused : Error → Parsed F
  crash : Parsed F
  out_of_fuel : Parsed F

module _ {F : Type 0} (numbers : Numbers F) where
  -- The parser proper: a package, and nothing behind it.
  unfoldable pub parse_file : ℕ → P (Package F)
  parse_file depth = do
    p ← parse_package numbers depth
    t ← peek
    test not (kind_eq t.kind Kind.eof) run fail_expected (bytes "end of file") otherwise pure p

  unfoldable pub close : Bytes → Bytes → Outcome (Package F) → Parsed F
  close name src (ok p pos) = parsed (record { name = name; src = src; package_ = p })
  close name src (Outcome.refused e) = refused e
  close name src Outcome.crash = crash
  close name src Outcome.out_of_fuel = out_of_fuel

  unfoldable pub parse_tokens : Bytes → Bytes → Lexed → Parsed F
  unfolding parse_file close
  parse_tokens name src (tokens ts) =
      let inp : Input = record { file = name; src = src; toks = ts } in
      close name src (parse_file (suc (length ts)) inp 0)
  parse_tokens name src (Lexed.refused e) = refused e
  parse_tokens name src Lexed.out_of_fuel = out_of_fuel

  -- Parse: nesting is no deeper than there are tokens, so their number is the depth.
  unfoldable pub parse : Reader → Bytes → Bytes → Parsed F
  unfolding parse_tokens
  parse reader name src = parse_tokens name src (lex reader name src)
