-- ===== src/Syntax/Parser/Total.antt =====
-- Parse always returns, a file or a refusal: the parts, the package, and Parse itself.
use sysml_federation.Base.{
  ℕ, zero, suc, ◌+◌, ◌<◌, ◌≡◌, refl, ◌⊎◌, inl, inr, List, true, Bytes, arith, length,
}
use sysml_federation.Syntax.Ast.{PartUsage, PartDef, Package, File}
use sysml_federation.Syntax.Cursor.Keeps.{
  IsClosed, Ends, Keeps, Keeps-pure, Keeps-exhausted, peek-Keeps, At-any, end-Keeps, test-Keeps,
  when-Keeps,
}
use sysml_federation.Syntax.Cursor.Reads.{
  here-Keeps, fail_expected-Keeps, unsupported-Keeps, is_only-Keeps, is_then-Keeps, accept-Keeps,
  accept_only-Keeps, expect-Keeps, name-Keeps, short_name-Keeps, doc-Keeps, body-Keeps,
}
use sysml_federation.Syntax.Cursor.{Input, Outcome, P}
use sysml_federation.Syntax.Expr.Total.{or_else-Keeps}
use sysml_federation.Syntax.Expr.{Numbers}
use sysml_federation.Syntax.Lexer.Layout.{Laid, end, token, IsLexed, lex-IsLexed}
use sysml_federation.Syntax.Lexer.{Reader, Lexed, tokens, lex}
use sysml_federation.Syntax.Parser.Bodies.{
  parse_attribute-Keeps, parse_requirement_def-Keeps, parse_requirement_usage-Keeps,
  parse_verification_def-Keeps, parse_verification_usage-Keeps, parse_derivation-Keeps,
}
use sysml_federation.Syntax.Parser.Members.{
  ◌⟫◌, read-Keeps, single-Keeps, optional_name-Keeps, parse_import-Keeps, parse_item_def-Keeps,
  parse_port_def-Keeps, parse_port_usage-Keeps, parse_connect-Keeps, parse_satisfy-Keeps,
}
use sysml_federation.Syntax.Parser.Packages.{
  late_member, middle_member, package_member, parse_package,
}
use sysml_federation.Syntax.Parser.Parts.{
  PartDraft, part_member, part_body, parse_part_usage, part_def_member, part_def_body,
  parse_part_def,
}
use sysml_federation.Syntax.Parser.{Parsed, parsed, refused, parse_file, close, parse_tokens, parse}
use sysml_federation.Syntax.Token.{Token, Error}

module _ {F : Type 0} (numbers : Numbers F) {inp : Input} where
  part_member-Keeps :
      {lo : ℕ} (rec : P (PartUsage F)) (u : PartDraft numbers)
      → Keeps inp lo (suc lo) rec
      → Keeps inp lo (suc lo) (part_member numbers rec u)
  unfolding part_member
  part_member-Keeps rec (u, parts) kr =
      when-Keeps _ _ _ (is_only-Keeps _) (single-Keeps _ _ _ _ doc-Keeps) (
        when-Keeps _ _ _ (is_only-Keeps _) (read-Keeps _ (parse_attribute-Keeps numbers)) (
          when-Keeps _ _ _ (is_only-Keeps _) (read-Keeps _ parse_port_usage-Keeps) (
            when-Keeps _ _ _ (is_only-Keeps _) (read-Keeps _ kr) (
              when-Keeps _ _ _ (is_only-Keeps _) (read-Keeps _ parse_connect-Keeps) (
                when-Keeps _ _ _ (is_only-Keeps _) (read-Keeps _ parse_satisfy-Keeps)
                  (unsupported-Keeps _))))))

  part_body-Keeps :
      {lo : ℕ} (rec : P (PartUsage F)) (u : PartDraft numbers)
      → ((k : ℕ) → lo < k → Keeps inp k (suc k) rec)
      → Keeps inp lo lo (part_body numbers rec u)
  unfolding part_body
  part_body-Keeps rec u kr =
      accept-Keeps _ _ _
        (body-Keeps true (part_member numbers rec) u
            (λ k s g. part_member-Keeps rec s (kr k (omega arith)))
          ⟫ λ x. expect-Keeps _ ⟫ λ _. Keeps-pure _ (omega arith))
        (expect-Keeps _ ⟫ λ _. Keeps-pure _ (omega arith))

  -- Parts are nested no deeper than there are tokens left.
  parse_part_usage-Keeps :
      {lo : ℕ} (depth : ℕ)
      → length inp.toks < lo + depth
      → Keeps inp lo (suc lo) (parse_part_usage numbers depth)
  unfolding parse_part_usage
  parse_part_usage-Keeps zero h = Keeps-exhausted (omega arith)
  parse_part_usage-Keeps {lo} (suc depth) h = expect-Keeps _ ⟫ λ t. short_name-Keeps ⟫ λ s.
      name-Keeps ⟫ λ n. optional_name-Keeps _ ⟫ λ type.
      part_body-Keeps (parse_part_usage numbers depth) _
        (λ k g. parse_part_usage-Keeps depth (omega arith))
      ⟫ λ u. end-Keeps _ (omega arith) ⟫ λ span. Keeps-pure _ (omega arith)

  part_def_member-Keeps :
      {lo : ℕ} (rec : P (PartUsage F)) (d : PartDef F)
      → Keeps inp lo (suc lo) rec
      → Keeps inp lo (suc lo) (part_def_member numbers rec d)
  unfolding part_def_member
  part_def_member-Keeps rec d kr =
      when-Keeps _ _ _ (is_only-Keeps _) (single-Keeps _ _ _ _ doc-Keeps) (
        when-Keeps _ _ _ (is_only-Keeps _) (read-Keeps _ (parse_attribute-Keeps numbers)) (
          when-Keeps _ _ _ (is_only-Keeps _) (read-Keeps _ parse_port_usage-Keeps)
            (when-Keeps _ _ _ (is_only-Keeps _) (read-Keeps _ kr) (unsupported-Keeps _))))

  part_def_body-Keeps :
      {lo : ℕ} (rec : P (PartUsage F)) (d : PartDef F)
      → ((k : ℕ) → lo < k → Keeps inp k (suc k) rec)
      → Keeps inp lo lo (part_def_body numbers rec d)
  unfolding part_def_body
  part_def_body-Keeps rec d kr =
      accept-Keeps _ _ _
        (body-Keeps true (part_def_member numbers rec) d
            (λ k s g. part_def_member-Keeps rec s (kr k (omega arith)))
          ⟫ λ x. expect-Keeps _ ⟫ λ _. Keeps-pure _ (omega arith))
        (expect-Keeps _ ⟫ λ _. Keeps-pure _ (omega arith))

  parse_part_def-Keeps :
      {lo : ℕ} (depth : ℕ)
      → length inp.toks < lo + depth
      → Keeps inp lo (suc lo) (parse_part_def numbers depth)
  unfolding parse_part_def
  parse_part_def-Keeps depth h = here-Keeps ⟫ λ start. accept_only-Keeps _ ⟫ λ is_abstract.
      expect-Keeps _ ⟫ λ t. expect-Keeps _ ⟫ λ _. short_name-Keeps ⟫ λ s. name-Keeps ⟫ λ n.
      optional_name-Keeps _ ⟫ λ base.
      part_def_body-Keeps (parse_part_usage numbers depth) _
        (λ k g. parse_part_usage-Keeps depth (omega arith))
      ⟫ λ d. end-Keeps _ (omega arith) ⟫ λ span. Keeps-pure _ (omega arith)

  module _ (depth : ℕ) where
    late_member-Keeps :
        {lo : ℕ} (p : Package F) → Keeps inp lo (suc lo) (late_member numbers depth p)
    unfolding late_member
    late_member-Keeps p =
        when-Keeps _ _ _ (is_then-Keeps _ _) (read-Keeps _ parse_verification_def-Keeps) (
          when-Keeps _ _ _ (is_only-Keeps _) (read-Keeps _ parse_verification_usage-Keeps) (
            when-Keeps _ _ _ (is_only-Keeps _) (read-Keeps _ parse_derivation-Keeps)
              (unsupported-Keeps _)))

    middle_member-Keeps :
        {lo : ℕ} (p : Package F)
        → length inp.toks < lo + depth
        → Keeps inp lo (suc lo) (middle_member numbers depth p)
    unfolding middle_member
    middle_member-Keeps p h =
        when-Keeps _ _ _ (or_else-Keeps (is_only-Keeps _) (is_then-Keeps _ _))
          (read-Keeps _ (parse_part_def-Keeps depth h))
          (when-Keeps _ _ _ (is_only-Keeps _) (read-Keeps _ (parse_part_usage-Keeps depth h)) (
            when-Keeps _ _ _ (is_then-Keeps _ _)
              (read-Keeps _ (parse_requirement_def-Keeps numbers))
              (when-Keeps _ _ _ (is_only-Keeps _)
                (read-Keeps _ (parse_requirement_usage-Keeps numbers)) (late_member-Keeps p))))

    package_member-Keeps :
        {lo : ℕ} (p : Package F)
        → length inp.toks < lo + depth
        → Keeps inp lo (suc lo) (package_member numbers depth p)
    unfolding package_member
    package_member-Keeps p h = when-Keeps _ _ _ (is_only-Keeps _) (single-Keeps _ _ _ _ doc-Keeps) (
        when-Keeps _ _ _
          (or_else-Keeps (is_only-Keeps _) (or_else-Keeps (is_only-Keeps _) (is_only-Keeps _)))
          (read-Keeps _ parse_import-Keeps)
          (when-Keeps _ _ _ (is_only-Keeps _) (read-Keeps _ (parse_attribute-Keeps numbers)) (
            when-Keeps _ _ _ (is_only-Keeps _) (read-Keeps _ parse_item_def-Keeps) (
              when-Keeps _ _ _ (is_only-Keeps _) (read-Keeps _ parse_port_def-Keeps)
                (middle_member-Keeps p h)))))

    parse_package-Keeps :
        {lo : ℕ}
        → length inp.toks < lo + depth
        → Keeps inp lo (suc lo) (parse_package numbers depth)
    unfolding parse_package
    parse_package-Keeps h = expect-Keeps _ ⟫ λ t. short_name-Keeps ⟫ λ s. name-Keeps ⟫ λ n.
        expect-Keeps _ ⟫ λ _.
        body-Keeps true (package_member numbers depth) _
          (λ k p g. package_member-Keeps p (omega arith))
        ⟫ λ p. expect-Keeps _ ⟫ λ _. end-Keeps _ (omega arith) ⟫ λ span. Keeps-pure _ (omega arith)

    parse_file-Keeps :
        {lo : ℕ} → length inp.toks < lo + depth → Keeps inp lo (suc lo) (parse_file numbers depth)
    unfolding parse_file
    parse_file-Keeps h = parse_package-Keeps h ⟫ λ p.
        peek-Keeps
          λ t. At-any (test-Keeps _ _ _ (fail_expected-Keeps _) (Keeps-pure _ (omega arith)))

-- The tokens that Lex returns are closed by their only end token.
Laid-IsClosed : {src : Bytes} {i : ℕ} {ts : List Token} → Laid src i ts → IsClosed ts
Laid-IsClosed (end a b c d e) = a
Laid-IsClosed (token k h s (end a b c d e)) = (k, a)
Laid-IsClosed (token k h s (token l g r p)) = (k, Laid-IsClosed (token l g r p))

Laid-length : {src : Bytes} {i : ℕ} {ts : List Token} → Laid src i ts → 0 < length ts
Laid-length (end a b c d e) = omega arith
Laid-length (token k h s p) = omega arith

abbrev pub Returns : {F : Type 0} → Parsed F → Type 0
Returns {F} r = ((f : File F) × (r ≡ parsed f)) ⊎ ((e : Error) × (r ≡ refused e))

module _ {F : Type 0} (numbers : Numbers F) where
  close-Returns :
      (inp : Input) (hi : ℕ) (name src : Bytes) (o : Outcome (Package F))
      → Ends inp hi o
      → Returns (close numbers name src o)
  unfolding close
  close-Returns inp hi name src (Outcome.ok p pos) e = inl (_, refl)
  close-Returns inp hi name src (Outcome.refused x) e = inr (_, refl)
  close-Returns inp hi name src Outcome.crash e = absurd e
  close-Returns inp hi name src Outcome.out_of_fuel e = absurd e

  tokens-Returns :
      (name src : Bytes) (l : Lexed)
      → IsLexed name src 0 l
      → Returns (parse_tokens numbers name src l)
  unfolding parse_tokens
  tokens-Returns name src (tokens ts) h =
      let inp : Input = record { file = name; src = src; toks = ts } in
      let keeps = parse_file-Keeps numbers {inp = inp} (suc (length ts)) {lo = 0} (omega arith) in
      close-Returns inp 1 name src _ (keeps.runs (Laid-IsClosed h) 0 (omega arith) (Laid-length h))
  tokens-Returns name src (Lexed.refused e) h = inr (e, refl)
  tokens-Returns name src Lexed.out_of_fuel h = absurd h

  -- For every source Parse returns a file or a refusal: it reads no token out of range, and every
  -- loop and every recursion of it ends.
  pub parse_total : (reader : Reader) (name src : Bytes) → Returns (parse numbers reader name src)
  unfolding parse
  parse_total reader name src =
      tokens-Returns name src (lex reader name src) (lex-IsLexed reader name src)

module _ {F : Type 0} (numbers : Numbers F) where
  -- The file that Parse gives has the text and the name that it was given.
  pub parse-file :
      (reader : Reader) (name src : Bytes) (f : File F)
      → parse numbers reader name src ≡ parsed f
      → (f.src ≡ src) × (f.name ≡ name)
  unfolding parse parse_tokens close
  parse-file reader name src f = of_lexed (lex reader name src)
    where
      of_outcome :
          (o : Outcome (Package F))
          → close numbers name src o ≡ parsed f
          → (f.src ≡ src) × (f.name ≡ name)
      of_outcome (Outcome.ok p pos) h = (ground arith, ground arith)
      of_outcome (Outcome.refused x) h = absurd (ground arith)
      of_outcome Outcome.crash h = absurd (ground arith)
      of_outcome Outcome.out_of_fuel h = absurd (ground arith)

      of_lexed :
          (l : Lexed) → parse_tokens numbers name src l ≡ parsed f → (f.src ≡ src) × (f.name ≡ name)
      of_lexed (tokens ts) h = of_outcome _ h
      of_lexed (Lexed.refused e) h = absurd (ground arith)
      of_lexed Lexed.out_of_fuel h = absurd (ground arith)
