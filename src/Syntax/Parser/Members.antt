-- ===== src/Syntax/Parser/Members.antt =====
-- Each declaration parser consumes a token and ends inside the tokens, or refuses.
use sysml_federation.Base.{ℕ, suc, false, Option, Bytes, arith}
use sysml_federation.Syntax.Ast.{FeatureChain, PortDef}
use sysml_federation.Syntax.Cursor.Keeps.{
  Keeps, Keeps-pure, Keeps-bind, Keeps-weaken, Keeps-fail, end-Keeps, test-Keeps, when-Keeps,
  next_any-Keeps,
}
use sysml_federation.Syntax.Cursor.Reads.{
  here-Keeps, unsupported-Keeps, once-Keeps, is_only-Keeps, accept-Keeps, accept_only-Keeps,
  expect-Keeps, name-Keeps, qualified_name-Keeps, short_name-Keeps, doc-Keeps, body-Keeps,
}
use sysml_federation.Syntax.Cursor.{Input, P, pure, ◌>>=◌, ◌>>◌, once}
use sysml_federation.Syntax.Expr.Total.{or_else-Keeps, parse_chain-Keeps}
use sysml_federation.Syntax.Parser.Ports.{
  visibility, import_all, parse_import, port_body, parse_item_def, optional_name,
  parse_directed_item, port_member, parse_port_def, parse_port_usage, check_end, parse_connect,
  parse_satisfy,
}

-- The name of a rule for the rest of a block.
module _ {inp : Input} where
  infixl 5 ◌⟫◌
  abbrev pub ◌⟫◌ :
      {lo mid hi : ℕ} {A B : Type 0} {m : P A} {f : A → P B}
      → Keeps inp lo mid m
      → ((a : A) → Keeps inp mid hi (f a))
      → Keeps inp lo hi (m >>= f)
  k ⟫ l = Keeps-bind k l

  -- A node that is read, and put where it belongs.
  pub read-Keeps :
      {lo : ℕ} {A S : Type 0} {m : P A} (f : A → S)
      → Keeps inp lo (suc lo) m
      → Keeps inp lo (suc lo) (m >>= λ x. pure (f x))
  read-Keeps f k = k ⟫ λ x. Keeps-pure _ (omega arith)

  -- A singular member, refused where it is there already.
  pub single-Keeps :
      {lo : ℕ} {A B S : Type 0} {m : P A} (o : Option B) (what b : Bytes) (f : A → S)
      → Keeps inp lo (suc lo) m
      → Keeps inp lo (suc lo) (once o what b >> (m >>= λ x. pure (f x)))
  single-Keeps o what b f k = once-Keeps o what b ⟫ λ _. read-Keeps f k

  visibility-Keeps : {lo : ℕ} → Keeps inp lo lo visibility
  unfolding visibility
  visibility-Keeps =
      when-Keeps _ _ _ (accept_only-Keeps _) (Keeps-pure _ (omega arith)) (accept_only-Keeps _)

  import_all-Keeps : {lo : ℕ} → Keeps inp lo lo import_all
  unfolding import_all
  import_all-Keeps =
      accept-Keeps _ _ _ (expect-Keeps _ ⟫ λ _. Keeps-pure _ (omega arith))
        (Keeps-pure _ (omega arith))

  pub parse_import-Keeps : {lo : ℕ} → Keeps inp lo (suc lo) parse_import
  unfolding parse_import
  parse_import-Keeps = here-Keeps ⟫ λ start. visibility-Keeps ⟫ λ _. expect-Keeps _ ⟫ λ _.
      qualified_name-Keeps ⟫ λ path. import_all-Keeps ⟫ λ all.
      expect-Keeps _ ⟫ λ _. end-Keeps _ (omega arith) ⟫ λ span. Keeps-pure _ (omega arith)

  pub parse_item_def-Keeps : {lo : ℕ} → Keeps inp lo (suc lo) parse_item_def
  unfolding parse_item_def
  parse_item_def-Keeps = expect-Keeps _ ⟫ λ t. expect-Keeps _ ⟫ λ _. short_name-Keeps ⟫ λ s.
      name-Keeps ⟫ λ n.
      expect-Keeps _ ⟫ λ _. end-Keeps _ (omega arith) ⟫ λ span. Keeps-pure _ (omega arith)

  pub optional_name-Keeps : {lo : ℕ} (mark : Bytes) → Keeps inp lo lo (optional_name mark)
  unfolding optional_name
  optional_name-Keeps {lo} mark =
      accept-Keeps _ _ _
        (Keeps-weaken (qualified_name-Keeps {lo = suc lo}) (omega arith) (omega arith))
        (Keeps-pure _ (omega arith))

  parse_directed_item-Keeps : {lo : ℕ} → Keeps inp lo (suc lo) parse_directed_item
  unfolding parse_directed_item
  parse_directed_item-Keeps = next_any-Keeps ⟫ λ t. expect-Keeps _ ⟫ λ _. name-Keeps ⟫ λ n.
      optional_name-Keeps _ ⟫ λ type.
      expect-Keeps _ ⟫ λ _. end-Keeps _ (omega arith) ⟫ λ span. Keeps-pure _ (omega arith)

  port_member-Keeps : {lo : ℕ} (d : PortDef) → Keeps inp lo (suc lo) (port_member d)
  unfolding port_member
  port_member-Keeps d = when-Keeps _ _ _ (is_only-Keeps _) (single-Keeps _ _ _ _ doc-Keeps) (
      when-Keeps _ _ _
        (or_else-Keeps (is_only-Keeps _) (or_else-Keeps (is_only-Keeps _) (is_only-Keeps _)))
        (read-Keeps _ parse_directed_item-Keeps) (unsupported-Keeps _))

  port_body-Keeps : {lo : ℕ} (d : PortDef) → Keeps inp lo lo (port_body d)
  unfolding port_body
  port_body-Keeps d = accept-Keeps _ _ _ (Keeps-pure _ (omega arith)) (
      expect-Keeps _ ⟫ λ _. body-Keeps false port_member d (λ k s g. port_member-Keeps s) ⟫ λ x.
      expect-Keeps _ ⟫ λ _. Keeps-pure _ (omega arith))

  pub parse_port_def-Keeps : {lo : ℕ} → Keeps inp lo (suc lo) parse_port_def
  unfolding parse_port_def
  parse_port_def-Keeps = expect-Keeps _ ⟫ λ t. expect-Keeps _ ⟫ λ _. short_name-Keeps ⟫ λ s.
      name-Keeps ⟫ λ n.
      port_body-Keeps _ ⟫ λ d. end-Keeps _ (omega arith) ⟫ λ span. Keeps-pure _ (omega arith)

  pub parse_port_usage-Keeps : {lo : ℕ} → Keeps inp lo (suc lo) parse_port_usage
  unfolding parse_port_usage
  parse_port_usage-Keeps = expect-Keeps _ ⟫ λ t. short_name-Keeps ⟫ λ s. name-Keeps ⟫ λ n.
      expect-Keeps _ ⟫ λ _. qualified_name-Keeps ⟫ λ type.
      expect-Keeps _ ⟫ λ _. end-Keeps _ (omega arith) ⟫ λ span. Keeps-pure _ (omega arith)

  check_end-Keeps : {lo : ℕ} (c : FeatureChain) → Keeps inp lo lo (check_end c)
  unfolding check_end
  check_end-Keeps c = test-Keeps _ _ _ (Keeps-fail _ _) (Keeps-pure _ (omega arith))

  pub parse_connect-Keeps : {lo : ℕ} → Keeps inp lo (suc lo) parse_connect
  unfolding parse_connect
  parse_connect-Keeps = expect-Keeps _ ⟫ λ t. parse_chain-Keeps ⟫ λ from. expect-Keeps _ ⟫ λ _.
      parse_chain-Keeps ⟫ λ to. check_end-Keeps from ⟫ λ _. check_end-Keeps to ⟫ λ _.
      expect-Keeps _ ⟫ λ _. end-Keeps _ (omega arith) ⟫ λ span. Keeps-pure _ (omega arith)

  pub parse_satisfy-Keeps : {lo : ℕ} → Keeps inp lo (suc lo) parse_satisfy
  unfolding parse_satisfy
  parse_satisfy-Keeps = expect-Keeps _ ⟫ λ t. parse_chain-Keeps ⟫ λ req. expect-Keeps _ ⟫ λ _.
      parse_chain-Keeps ⟫ λ by.
      expect-Keeps _ ⟫ λ _. end-Keeps _ (omega arith) ⟫ λ span. Keeps-pure _ (omega arith)
