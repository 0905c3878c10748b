-- ===== src/Model/Patch.antt =====
-- adapter/model/patch.go, with the lookups of model.go: writes as edits of the text that is parsed
-- again.
pub mod Writes
pub mod Examples
use sysml_federation.Base.{
  ℕ, zero, suc, ◌+◌, List, [], ◌∷◌, ◌++◌, Bool, true, false, not, ◌&&◌, ◌||◌, Option, none, some,
  ltb, leb, ◌==◌, if◌then◌else◌, length, take, drop, Bytes, bytes, bytes_eq,
}
use sysml_federation.Model.Build.{Model, parse_model}
use sysml_federation.Model.Constraint.{count_of}
use sysml_federation.Model.Nodes.{Attribute, Part, Requirement, VerificationCase, Arithmetic}
use sysml_federation.Model.Outcome.{Outcome, done, refused, crash, out_of_fuel}
use sysml_federation.Syntax.Expr.{Numbers}
use sysml_federation.Syntax.Lexer.{Reader}
use sysml_federation.Syntax.Token.{Span, Error}

pub data WriteRefusal : Type 0 where
  not_found not_editable invalid_value : WriteRefusal
  syntax_error : Error → WriteRefusal

-- A new model, an error, a panic, or no fuel for the parser.
pub data Written (F : Type 0) : Type 0 where
  written : Model F → Written F
  refused_write : WriteRefusal → Written F
  write_panic : Written F
  no_fuel : Written F

-- m.parts[id], m.reqs[id] and m.vcs[id]: ids are unique.
unfoldable pub part_by_id : {F : Type 0} → Bytes → List (Part F) → Option (Part F)
part_by_id id [] = none
part_by_id id (p ∷ parts) =
    let rest = part_by_id id parts in if bytes_eq p.id id then some p else rest

unfoldable pub requirement_by_id :
    {F : Type 0} → Bytes → List (Requirement F) → Option (Requirement F)
requirement_by_id id [] = none
requirement_by_id id (r ∷ reqs) =
    let rest = requirement_by_id id reqs in if bytes_eq r.id id then some r else rest

unfoldable pub verification_case_by_id : Bytes → List VerificationCase → Option VerificationCase
verification_case_by_id id [] = none
verification_case_by_id id (v ∷ vcs) =
    let rest = verification_case_by_id id vcs in if bytes_eq v.id id then some v else rest

abbrev pub is_plain_byte : ℕ → Bool
is_plain_byte c = c == b'-' || (leb b'0' c && leb c b'9') || c == b'.'

-- strings.Trim(literal, "-0123456789.") == "": every byte is in the set.
unfoldable pub is_plain : Bytes → Bool
is_plain [] = true
is_plain (c ∷ cs) = is_plain_byte c && is_plain cs

-- strings.Count(literal, "-")
unfoldable pub minus_signs : Bytes → ℕ
minus_signs [] = 0
minus_signs (c ∷ cs) = (if c == b'-' then 1 else 0) + minus_signs cs

module _ {F : Type 0} where
  abbrev pub reparsed : ℕ → Outcome (Model F) → Written F
  reparsed version (done next) = written (record next { version = version })
  reparsed version (refused e) = refused_write (syntax_error e)
  reparsed version crash = write_panic
  reparsed version out_of_fuel = no_fuel

module _ {F : Type 0} (numbers : Numbers F) (reader : Reader) (floats : Arithmetic F) where
  unfoldable pub patch : Model F → Span → Bytes → Written F
  patch m at literal =
      if not (count_of at m.literals == 1)
      then refused_write not_editable
      else if not (reader.is_float literal)
          || (not (is_plain literal) || ltb 1 (minus_signs literal))
      then refused_write invalid_value
      else if not (leb at.start (length m.text) && leb at.stop (length m.text))
      then write_panic
      else reparsed (suc m.version) (
          parse_model numbers reader floats m.file.name
            (take at.start m.text ++ literal ++ drop at.stop m.text))

  unfoldable pub set_literal : Model F → Span → F → Written F
  set_literal m at value =
      if floats.is_nan value || (floats.is_inf value || floats.is_negative value)
      then refused_write invalid_value
      else patch m at (floats.format_float (floats.add_zero value))

  -- The loop of SetAttribute over the attributes: the first of the name decides.
  unfoldable pub attribute_loop : Model F → Bytes → F → List (Attribute F) → Written F
  attribute_loop m name value [] = refused_write not_found
  attribute_loop m name value (a ∷ attributes) =
      let rest = attribute_loop m name value attributes in
      if not (bytes_eq a.name name)
      then rest
      else if not a.editable
      then refused_write not_editable
      else set_literal m a.span value

  unfoldable pub write_attribute : Model F → Bytes → Bytes → F → Written F
  write_attribute m part_id name value = elim (part_by_id part_id m.parts) [
    | none ↦ refused_write not_found
    | some p ↦ attribute_loop m name value p.attributes
  ]

  unfoldable pub write_limit : Model F → Bytes → F → Written F
  write_limit m requirement_id value = elim (requirement_by_id requirement_id m.requirements) [
    | none ↦ refused_write not_found
    | some r ↦
        if not r.limit_editable
        then refused_write not_editable
        else set_literal m r.limit_span value
  ]
