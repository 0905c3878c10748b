-- ===== src/Syntax/Parser/Bodies.antt =====
-- The parsers of attributes, requirements, verifications and derivations consume a token each and
-- end inside the tokens, or refuse.
use sysml_federation.Base.{ℕ, zero, suc, ◌+◌, ◌≡◌, ◌<◌, true, false, Bytes, arith, length}
use sysml_federation.Syntax.Ast.{
  FeatureChain, AttributeUsage, AttributeUsages, RequirementBody, VerificationBody,
}
use sysml_federation.Syntax.Cursor.Keeps.{
  Keeps, Keeps-pure, Keeps-weaken, Keeps-fail, Keeps-exhausted, rounds-Keeps, peek-Keeps, At-any,
  next-Keeps, end-Keeps, test-Keeps, test-At, when-Keeps,
}
use sysml_federation.Syntax.Cursor.Reads.{
  here-Keeps, fail_expected-Keeps, unsupported-Keeps, is_only-Keeps, accept-Keeps,
  accept_only-Keeps, expect-Keeps, name-Keeps, qualified_name-Keeps, short_name-Keeps, doc-Keeps,
  body-Keeps,
}
use sysml_federation.Syntax.Cursor.{Input, P}
use sysml_federation.Syntax.Expr.Total.{
  or_else-Keeps, parse_chain-Keeps, parse_comparison-Keeps, parse_operand-Keeps, parse_expr-Keeps,
}
use sysml_federation.Syntax.Expr.{Numbers}
use sysml_federation.Syntax.Parser.Attributes.{
  redefinition, bound_value, inner_attribute, attribute_body, attribute_rest, parse_attribute,
}
use sysml_federation.Syntax.Parser.Members.{◌⟫◌, read-Keeps, single-Keeps, optional_name-Keeps}
use sysml_federation.Syntax.Parser.Requirements.{
  subject_form, parse_subject, parse_constraint, requirement_member, requirement_body,
  parse_requirement_def, parse_requirement_usage,
}
use sysml_federation.Syntax.Parser.Verifications.{
  parse_objective, verification_member, verification_body, parse_verification_def,
  parse_verification_usage, metadata, DerivationEnds, add_end, derivation_end, check_ends,
  parse_derivation,
}
use sysml_federation.Syntax.Token.{Span, Kind, Token}
use native.Mathlib.Nat.{le_refl}

module _ {F : Type 0} (numbers : Numbers F) {inp : Input} where
  redefinition-Keeps : {lo : ℕ} → Keeps inp lo lo redefinition
  unfolding redefinition
  redefinition-Keeps =
      when-Keeps _ _ _ (or_else-Keeps (accept_only-Keeps _) (accept_only-Keeps _))
        (Keeps-pure _ (omega arith)) (short_name-Keeps ⟫ λ s. Keeps-pure _ (omega arith))

  bound_value-Keeps : {lo : ℕ} → Keeps inp lo lo (bound_value numbers)
  unfolding bound_value
  bound_value-Keeps {lo} =
      accept-Keeps _ _ _
        (rounds-Keeps
          λ depth h. parse_expr-Keeps numbers depth (omega arith) ⟫ λ e. Keeps-pure _ (omega arith))
        (Keeps-pure _ (omega arith))

  inner_attribute-Keeps :
      {lo : ℕ} (rest : ℕ → P (AttributeUsage F)) (inner : AttributeUsages F)
      → ((start : ℕ) → Keeps inp lo (suc lo) (rest start))
      → Keeps inp lo (suc lo) (inner_attribute numbers rest inner)
  unfolding inner_attribute
  inner_attribute-Keeps rest inner kr = here-Keeps ⟫ λ start.
      when-Keeps _ _ _
        (or_else-Keeps (is_only-Keeps _) (or_else-Keeps (is_only-Keeps _) (is_only-Keeps _)))
        (Keeps-pure {lo = _} {hi = _} tt (le_refl _)) (unsupported-Keeps _)
      ⟫ λ _. accept_only-Keeps _ ⟫ λ _. read-Keeps _ (kr start)

  attribute_body-Keeps :
      {lo : ℕ} (rest : ℕ → P (AttributeUsage F))
      → ((k start : ℕ) → lo < k → Keeps inp k (suc k) (rest start))
      → Keeps inp lo lo (attribute_body numbers rest)
  unfolding attribute_body
  attribute_body-Keeps {lo} rest kr =
      accept-Keeps _ _ _
        (body-Keeps true (inner_attribute numbers rest) _
            (λ k s g. inner_attribute-Keeps rest s (λ start. kr k start (omega arith)))
          ⟫ λ x. expect-Keeps _ ⟫ λ _. Keeps-pure _ (omega arith))
        (expect-Keeps _ ⟫ λ _. Keeps-pure _ (omega arith))

  -- The bodies are nested no deeper than there are tokens left.
  attribute_rest-Keeps :
      {lo : ℕ} (depth start : ℕ)
      → length inp.toks < lo + depth
      → Keeps inp lo (suc lo) (attribute_rest numbers depth start)
  unfolding attribute_rest
  attribute_rest-Keeps zero start h = Keeps-exhausted (omega arith)
  attribute_rest-Keeps {lo} (suc depth) start h = redefinition-Keeps ⟫ λ r. name-Keeps ⟫ λ n.
      optional_name-Keeps _ ⟫ λ type. bound_value-Keeps ⟫ λ value.
      attribute_body-Keeps (attribute_rest numbers depth)
        (λ k at g. attribute_rest-Keeps depth at (omega arith))
      ⟫ λ inner. end-Keeps _ (omega arith) ⟫ λ span. Keeps-pure _ (omega arith)

  pub parse_attribute-Keeps : {lo : ℕ} → Keeps inp lo (suc lo) (parse_attribute numbers)
  unfolding parse_attribute
  parse_attribute-Keeps {lo} = expect-Keeps _ ⟫ λ t. rounds-Keeps λ depth h.
      Keeps-weaken (attribute_rest-Keeps {lo = suc lo} depth t.span.start (omega arith))
        (omega arith) (omega arith)

module _ {inp : Input} where
  subject_form-Keeps : {lo : ℕ} (span : Span) → Keeps inp lo (suc lo) (subject_form span)
  unfolding subject_form
  subject_form-Keeps span =
      accept-Keeps _ _ _
        (name-Keeps ⟫ λ n.
          expect-Keeps _ ⟫ λ _. parse_chain-Keeps ⟫ λ c. Keeps-pure _ (omega arith))
        (name-Keeps ⟫ λ n.
          accept-Keeps _ _ _ (parse_chain-Keeps ⟫ λ c. Keeps-pure _ (omega arith))
            (expect-Keeps _ ⟫ λ _. qualified_name-Keeps ⟫ λ type. Keeps-pure _ (omega arith)))

  pub parse_subject-Keeps : {lo : ℕ} → Keeps inp lo (suc lo) parse_subject
  unfolding parse_subject
  parse_subject-Keeps = expect-Keeps _ ⟫ λ t. subject_form-Keeps _ ⟫ λ s.
      expect-Keeps _ ⟫ λ _. end-Keeps _ (omega arith) ⟫ λ span. Keeps-pure _ (omega arith)

module _ {F : Type 0} (numbers : Numbers F) {inp : Input} where
  parse_constraint-Keeps : {lo : ℕ} → Keeps inp lo (suc lo) (parse_constraint numbers)
  unfolding parse_constraint
  parse_constraint-Keeps = expect-Keeps _ ⟫ λ t. expect-Keeps _ ⟫ λ _. expect-Keeps _ ⟫ λ _.
      parse_operand-Keeps numbers ⟫ λ left. parse_comparison-Keeps ⟫ λ op.
      parse_operand-Keeps numbers ⟫ λ right.
      expect-Keeps _ ⟫ λ _. end-Keeps _ (omega arith) ⟫ λ span. Keeps-pure _ (omega arith)

  requirement_member-Keeps :
      {lo : ℕ} (b : RequirementBody F) → Keeps inp lo (suc lo) (requirement_member numbers b)
  unfolding requirement_member
  requirement_member-Keeps b = when-Keeps _ _ _ (is_only-Keeps _) (single-Keeps _ _ _ _ doc-Keeps) (
      when-Keeps _ _ _ (is_only-Keeps _) (single-Keeps _ _ _ _ parse_subject-Keeps) (
        when-Keeps _ _ _ (is_only-Keeps _) (read-Keeps _ (parse_attribute-Keeps numbers)) (
          when-Keeps _ _ _ (is_only-Keeps _) (single-Keeps _ _ _ _ parse_constraint-Keeps)
            (unsupported-Keeps _))))

  requirement_body-Keeps : {lo : ℕ} → Keeps inp lo (suc lo) (requirement_body numbers)
  unfolding requirement_body
  requirement_body-Keeps = expect-Keeps _ ⟫ λ _.
      body-Keeps false (requirement_member numbers) _ (λ k s g. requirement_member-Keeps s) ⟫ λ b.
      expect-Keeps _ ⟫ λ _. Keeps-pure _ (omega arith)

  pub parse_requirement_def-Keeps : {lo : ℕ} → Keeps inp lo (suc lo) (parse_requirement_def numbers)
  unfolding parse_requirement_def
  parse_requirement_def-Keeps = expect-Keeps _ ⟫ λ t. expect-Keeps _ ⟫ λ _. short_name-Keeps ⟫ λ s.
      name-Keeps ⟫ λ n. optional_name-Keeps _ ⟫ λ base.
      requirement_body-Keeps ⟫ λ b. end-Keeps _ (omega arith) ⟫ λ span. Keeps-pure _ (omega arith)

  pub parse_requirement_usage-Keeps :
      {lo : ℕ} → Keeps inp lo (suc lo) (parse_requirement_usage numbers)
  unfolding parse_requirement_usage
  parse_requirement_usage-Keeps = expect-Keeps _ ⟫ λ t. short_name-Keeps ⟫ λ s. name-Keeps ⟫ λ n.
      optional_name-Keeps _ ⟫ λ type.
      requirement_body-Keeps ⟫ λ b. end-Keeps _ (omega arith) ⟫ λ span. Keeps-pure _ (omega arith)

module _ {inp : Input} where
  parse_objective-Keeps : {lo : ℕ} → Keeps inp lo (suc lo) parse_objective
  unfolding parse_objective
  parse_objective-Keeps = expect-Keeps _ ⟫ λ t. expect-Keeps _ ⟫ λ _. expect-Keeps _ ⟫ λ _.
      parse_chain-Keeps ⟫ λ c. expect-Keeps _ ⟫ λ _.
      expect-Keeps _ ⟫ λ _. end-Keeps _ (omega arith) ⟫ λ span. Keeps-pure _ (omega arith)

  verification_member-Keeps :
      {lo : ℕ} (b : VerificationBody) → Keeps inp lo (suc lo) (verification_member b)
  unfolding verification_member
  verification_member-Keeps b =
      when-Keeps _ _ _ (is_only-Keeps _) (single-Keeps _ _ _ _ doc-Keeps) (
        when-Keeps _ _ _ (is_only-Keeps _) (single-Keeps _ _ _ _ parse_subject-Keeps) (
          when-Keeps _ _ _ (is_only-Keeps _) (single-Keeps _ _ _ _ parse_objective-Keeps)
            (unsupported-Keeps _)))

  verification_body-Keeps : {lo : ℕ} → Keeps inp lo (suc lo) verification_body
  unfolding verification_body
  verification_body-Keeps = expect-Keeps _ ⟫ λ _.
      body-Keeps false verification_member _ (λ k s g. verification_member-Keeps s) ⟫ λ b.
      expect-Keeps _ ⟫ λ _. Keeps-pure _ (omega arith)

  pub parse_verification_def-Keeps : {lo : ℕ} → Keeps inp lo (suc lo) parse_verification_def
  unfolding parse_verification_def
  parse_verification_def-Keeps = expect-Keeps _ ⟫ λ t. expect-Keeps _ ⟫ λ _. short_name-Keeps ⟫ λ s.
      name-Keeps ⟫ λ n.
      verification_body-Keeps ⟫ λ b. end-Keeps _ (omega arith) ⟫ λ span. Keeps-pure _ (omega arith)

  pub parse_verification_usage-Keeps : {lo : ℕ} → Keeps inp lo (suc lo) parse_verification_usage
  unfolding parse_verification_usage
  parse_verification_usage-Keeps = expect-Keeps _ ⟫ λ t. short_name-Keeps ⟫ λ s. name-Keeps ⟫ λ n.
      optional_name-Keeps _ ⟫ λ type.
      verification_body-Keeps ⟫ λ b. end-Keeps _ (omega arith) ⟫ λ span. Keeps-pure _ (omega arith)

  metadata-Keeps : {lo : ℕ} → Keeps inp lo (suc lo) metadata
  unfolding metadata
  metadata-Keeps = expect-Keeps _ ⟫ λ hash. peek-Keeps λ t.
      test-At _ _ _ (λ _. At-any (fail_expected-Keeps _))
        λ h.
          next-Keeps (let g : ¬ (t.kind ≡ Kind.eof) = ground arith in g)
            λ _. Keeps-pure _ (omega arith)

  add_end-Keeps :
      {lo : ℕ} (hash : Token) (kind : Bytes) (c : FeatureChain) (d : DerivationEnds)
      → Keeps inp lo lo (add_end hash kind c d)
  unfolding add_end
  add_end-Keeps hash kind c d =
      test-Keeps _ _ _ (Keeps-pure _ (omega arith))
        (test-Keeps _ _ _ (Keeps-pure _ (omega arith)) (Keeps-fail _ _))

  derivation_end-Keeps : {lo : ℕ} (d : DerivationEnds) → Keeps inp lo (suc lo) (derivation_end d)
  unfolding derivation_end
  derivation_end-Keeps {lo} d = expect-Keeps _ ⟫ λ _. metadata-Keeps ⟫ λ m. expect-Keeps _ ⟫ λ _.
      parse_chain-Keeps ⟫ λ c. expect-Keeps _ ⟫ λ _.
      Keeps-weaken (add_end-Keeps {lo = suc lo} m.0 m.1 c d) (omega arith) (omega arith)

  check_ends-Keeps :
      {lo : ℕ} (span : Span) (d : DerivationEnds) → Keeps inp lo lo (check_ends span d)
  unfolding check_ends
  check_ends-Keeps span d =
      test-Keeps _ _ _ (Keeps-fail _ _)
        (test-Keeps _ _ _ (Keeps-fail _ _) (Keeps-pure _ (omega arith)))

  pub parse_derivation-Keeps : {lo : ℕ} → Keeps inp lo (suc lo) parse_derivation
  unfolding parse_derivation
  parse_derivation-Keeps {lo} = metadata-Keeps ⟫ λ m.
      test-Keeps _ _ _ (end-Keeps _ (omega arith) ⟫ λ span. Keeps-fail _ _) (
        expect-Keeps _ ⟫ λ _. expect-Keeps _ ⟫ λ _.
        body-Keeps false derivation_end _ (λ k s g. derivation_end-Keeps s) ⟫ λ d.
        expect-Keeps _ ⟫ λ _. end-Keeps _ (omega arith) ⟫ λ span.
        Keeps-weaken (check_ends-Keeps {lo = suc lo} span d) (omega arith) (omega arith))
