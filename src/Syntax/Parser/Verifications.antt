-- ===== src/Syntax/Parser/Verifications.antt =====
-- adapter/syntax/parser.go: verifications, objectives and derivations.
use sysml_federation.Base.{
  ℕ, ◌+◌, List, [], ◌∷◌, ◌++◌, false, not, none, some, ◌==◌, Bytes, bytes, bytes_eq, length,
}
use sysml_federation.Syntax.Ast.{
  FeatureChain, Objective, VerificationBody, VerificationDef, VerificationUsage,
  DerivationConnection,
}
use sysml_federation.Syntax.Cursor.{
  P, pure, ◌>>=◌, ◌>>◌, when◌run◌otherwise◌, test◌run◌otherwise◌, peek, next, fail, fail_expected,
  is, expect, name, short_name, end, unsupported, once, doc, body,
}
use sysml_federation.Syntax.Expr.{parse_chain}
use sysml_federation.Syntax.Parser.Ports.{optional_name}
use sysml_federation.Syntax.Parser.Requirements.{parse_subject}
use sysml_federation.Syntax.Token.{Span, Kind, kind_eq, Token}

unfoldable pub parse_objective : P Objective
parse_objective = do
  t ← expect (bytes "objective")
  expect (bytes "{")
  expect (bytes "verify")
  c ← parse_chain
  expect (bytes ";")
  expect (bytes "}")
  span ← end t.span.start
  pure (record { verify = c; span = span })

unfoldable pub verification_member : VerificationBody → P VerificationBody
verification_member b =
    when is (bytes "doc")
    run (do
      once b.doc (bytes "doc") (bytes "verification")
      x ← doc
      pure (record b { doc = some x }))
    otherwise (when is (bytes "subject")
        run (do
          once b.subject (bytes "subject") (bytes "verification")
          x ← parse_subject
          pure (record b { subject = some x }))
        otherwise (when is (bytes "objective")
            run (do
              once b.objective (bytes "objective") (bytes "verification")
              x ← parse_objective
              pure (record b { objective = some x }))
            otherwise unsupported (bytes "verification")))

unfoldable pub verification_body : P VerificationBody
verification_body = do
  expect (bytes "{")
  b ← body false verification_member (record { doc = none; subject = none; objective = none })
  expect (bytes "}")
  pure b

unfoldable pub parse_verification_def : P VerificationDef
parse_verification_def = do
  t ← expect (bytes "verification")
  expect (bytes "def")
  s ← short_name
  n ← name
  b ← verification_body
  span ← end t.span.start
  pure (record { short_name = s; name = n; body = b; span = span })

unfoldable pub parse_verification_usage : P VerificationUsage
parse_verification_usage = do
  t ← expect (bytes "verification")
  s ← short_name
  n ← name
  type ← optional_name (bytes ":")
  b ← verification_body
  span ← end t.span.start
  pure (record { short_name = s; name = n; type = type; body = b; span = span })

-- metadata: the token of the hash, and the name behind it
unfoldable pub metadata : P (Token × Bytes)
metadata = do
  hash ← expect (bytes "#")
  t ← peek
  test not (kind_eq t.kind Kind.ident)
      run fail_expected (bytes "a metadata name after '#'")
      otherwise (do next; pure (hash, t.text))

-- The ends read so far: how many originals, the last of them, and the derived ones.
pub record DerivationEnds : Type 0 where
  pub originals : ℕ
  pub original : FeatureChain
  pub derives : List FeatureChain

-- The zero FeatureChain, which stands for an original that is missing.
abbrev pub no_chain : FeatureChain
no_chain = record { names = []; span = record { start = 0; stop = 0 } }

-- The switch on the kind of an end.
unfoldable pub add_end : Token → Bytes → FeatureChain → DerivationEnds → P DerivationEnds
add_end hash kind c d =
    test bytes_eq kind (bytes "original")
    run pure (record d { originals = d.originals + 1; original = c })
    otherwise (test bytes_eq kind (bytes "derive")
        run pure (record d { derives = d.derives ++ c ∷ [] })
        otherwise fail (record { start = hash.span.start; stop = c.span.stop })
            (bytes "unknown metadata #" ++ kind))

unfoldable pub derivation_end : DerivationEnds → P DerivationEnds
derivation_end d = do
  expect (bytes "end")
  m ← metadata
  expect (bytes "::>")
  c ← parse_chain
  expect (bytes ";")
  add_end m.0 m.1 c d

-- The two checks behind the closing brace.
unfoldable pub check_ends : Span → DerivationEnds → P DerivationConnection
check_ends span d =
    test not (d.originals == 1)
    run fail span (bytes "a derivation connection needs exactly one #original end")
    otherwise (test length d.derives == 0
        run fail span (bytes "a derivation connection needs at least one #derive end")
        otherwise pure (record { original = d.original; derives = d.derives; span = span }))

unfoldable pub parse_derivation : P DerivationConnection
parse_derivation = do
  m ← metadata
  test not (bytes_eq m.1 (bytes "derivation"))
      run (do span ← end (m.0).span.start; fail span (bytes "unknown metadata #" ++ m.1))
      otherwise (do
        expect (bytes "connection")
        expect (bytes "{")
        d ← body false derivation_end (record { originals = 0; original = no_chain; derives = [] })
        expect (bytes "}")
        span ← end (m.0).span.start
        check_ends span d)
