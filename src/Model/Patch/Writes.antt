-- ===== src/Model/Patch/Writes.antt =====
-- What a write that succeeds has changed.
use mathlib.Core.List.{Mem, mem-cons_self, mem-cons_of_mem}
use sysml_federation.Base.{
  ℕ, suc, ◌≤◌, ◌≡◌, refl, ap, ◌∙◌, List, [], ◌∷◌, ◌++◌, true, false, some, inl, inr, arith, leb,
  ◌==◌, length, take, drop, Bytes, bytes_eq, bytes_eq_iff, Bool-cases, Option-cases,
}
use sysml_federation.Model.Build.Built.{parse_model-IsBuilt}
use sysml_federation.Model.Build.{Model, parse_model}
use sysml_federation.Model.Constraint.{count_of}
use sysml_federation.Model.Nodes.{Attribute, Part, Requirement, Arithmetic}
use sysml_federation.Model.Outcome.Holds.{Holds-done}
use sysml_federation.Model.Outcome.{Outcome, done, refused, crash, out_of_fuel}
use sysml_federation.Model.Patch.{
  written, patch, set_literal, part_by_id, requirement_by_id, attribute_loop, write_attribute,
  write_limit, reparsed,
}
use sysml_federation.Syntax.Expr.{Numbers}
use sysml_federation.Syntax.Lexer.{Reader}
use sysml_federation.Syntax.Token.{Span}

module _ {F : Type 0} (numbers : Numbers F) (reader : Reader) (floats : Arithmetic F) where
  -- The value is a number that is not below zero; its literal stands in the place of the one at the
  -- span, which one value alone carries, the rest of the text is as it was, and the new model is what
  -- Parse gives for it, with the next version.
  pub record Replaces (m : Model F) (at : Span) (value : F) (m' : Model F) : Type 0 where
    pub finite : (floats.is_nan value ≡ false) × (floats.is_inf value ≡ false)
    pub not_negative : floats.is_negative value ≡ false
    pub alone : count_of at m.literals ≡ 1
    pub inside : (at.start ≤ length m.text) × (at.stop ≤ length m.text)
    pub replaced :
        m'.text
        ≡ take at.start m.text ++ floats.format_float (floats.add_zero value) ++ drop at.stop m.text
    pub parsed_again :
        (next : Model F) × (parse_model numbers reader floats m.file.name m'.text ≡ done next)
        × (m' ≡ record next { version = suc m.version })
    pub next_version : m'.version ≡ suc m.version

  -- The model is what the text gives.
  record IsAgain (number : ℕ) (name input : Bytes) (m' : Model F) : Type 0 where
    pub text : m'.text ≡ input
    pub version : m'.version ≡ number
    pub parsed :
        (next : Model F) × (parse_model numbers reader floats name m'.text ≡ done next)
        × (m' ≡ record next { version = number })

  reparsed-done :
      (version : ℕ) (name text : Bytes) (m' : Model F)
      → reparsed version (parse_model numbers reader floats name text) ≡ written m'
      → IsAgain version name text m'
  reparsed-done version name text m' = outcome (parse_model numbers reader floats name text) refl
    where
      outcome :
          (o : Outcome (Model F))
          → parse_model numbers reader floats name text ≡ o
          → reparsed version o ≡ written m'
          → IsAgain version name text m'
      outcome (done next) q h =
          let same : m' ≡ record next { version = version } = ground (arith, h) in
          let built = Holds-done (parse_model-IsBuilt numbers reader floats name text) q in
          let kept = ap (λ (x : Model F). x.text) same ∙ built.1 in
          record {
            text = kept;
            version = ap (λ (x : Model F). x.version) same;
            parsed = (next, ap (parse_model numbers reader floats name) kept ∙ q, same);
          }
      outcome (refused e) q h = absurd (ground (arith, h))
      outcome crash q h = absurd (ground (arith, h))
      outcome out_of_fuel q h = absurd (ground (arith, h))

  abbrev edited : Model F → Span → Bytes → Bytes
  edited m at literal = take at.start m.text ++ literal ++ drop at.stop m.text

  patch-written :
      (m m' : Model F) (at : Span) (literal : Bytes)
      → patch numbers reader floats m at literal ≡ written m'
      → (count_of at m.literals ≡ 1)
        × (at.start ≤ length m.text)
        × (at.stop ≤ length m.text)
        × (reparsed
              (suc m.version)
              (parse_model numbers reader floats m.file.name (edited m at literal))
            ≡ written m')
  unfolding patch
  patch-written m m' at literal h =
      let alone : (count_of at m.literals == 1) ≡ true = ground arith in
      let start : leb at.start (length m.text) ≡ true = ground arith in
      let stop : leb at.stop (length m.text) ≡ true = ground arith in
      (ground (arith, alone), ground (arith, start), ground (arith, stop), ground arith)

  set_literal-patch :
      (m m' : Model F) (at : Span) (value : F)
      → set_literal numbers reader floats m at value ≡ written m'
      → (floats.is_nan value ≡ false)
        × (floats.is_inf value ≡ false)
        × (floats.is_negative value ≡ false)
        × (patch numbers reader floats m at (floats.format_float (floats.add_zero value))
            ≡ written m')
  unfolding set_literal
  set_literal-patch m m' at value h = (ground arith, ground arith, ground arith, ground arith)

  set_literal-Replaces :
      (m m' : Model F) (at : Span) (value : F)
      → set_literal numbers reader floats m at value ≡ written m'
      → Replaces m at value m'
  set_literal-Replaces m m' at value h =
      let literal = floats.format_float (floats.add_zero value) in
      let (nan, inf, negative, patched) = set_literal-patch m m' at value h in
      let (alone, start, stop, again) = patch-written m m' at literal patched in
      let new = reparsed-done (suc m.version) m.file.name (edited m at literal) m' again in
      record {
        finite = (nan, inf);
        not_negative = negative;
        alone = alone;
        inside = (start, stop);
        replaced = new.text;
        parsed_again = new.parsed;
        next_version = new.version;
      }

  attribute_loop-Replaces :
      (m m' : Model F) (name : Bytes) (value : F) (list : List (Attribute F))
      → attribute_loop numbers reader floats m name value list ≡ written m'
      → (a : Attribute F) × Mem a list
        × (a.name ≡ name)
        × (a.editable ≡ true)
        × Replaces m a.span value m'
  unfolding attribute_loop
  attribute_loop-Replaces m m' name value [] h = absurd (ground arith)
  attribute_loop-Replaces m m' name value (a ∷ list) h = elim (Bool-cases (bytes_eq a.name name)) [
    | inr e ↦
        let later : attribute_loop numbers reader floats m name value list ≡ written m' =
          ground arith in
        let (b, there, same, free, replaced) = attribute_loop-Replaces m m' name value list later in
        (b, mem-cons_of_mem a there, same, free, replaced)
    | inl e ↦ elim (Bool-cases a.editable) [
      | inr d ↦ absurd (ground arith)
      | inl d ↦
          let set : set_literal numbers reader floats m a.span value ≡ written m' = ground arith in
          (
            a,
            mem-cons_self,
            (bytes_eq_iff a.name name).0 e,
            d,
            set_literal-Replaces m m' a.span value set,
          )
    ]
  ]

  -- Where SetAttribute succeeds, the part has an attribute of the name that is editable; the value is a
  -- number that is not below zero, its literal stands in the place of the one at the attribute's span,
  -- which that one value alone carries, the rest of the text is as it was, and the new model is what
  -- Parse gives for the new text, with the next version.
  pub write_attribute-Replaces :
      (m m' : Model F) (part_id name : Bytes) (value : F)
      → write_attribute numbers reader floats m part_id name value ≡ written m'
      → (p : Part F) × (a : Attribute F) × (part_by_id part_id m.parts ≡ some p)
        × Mem a p.attributes
        × (a.name ≡ name)
        × (a.editable ≡ true)
        × Replaces m a.span value m'
  unfolding write_attribute
  write_attribute-Replaces m m' part_id name value h =
      elim (Option-cases (part_by_id part_id m.parts)) [
        | inl e ↦ absurd (ground arith)
        | inr (p, e) ↦
            let loop : attribute_loop numbers reader floats m name value p.attributes ≡ written m' =
              ground arith in
            let (a, there, same, free, replaced) =
              attribute_loop-Replaces m m' name value p.attributes loop in
            (p, a, e, there, same, free, replaced)
      ]

  -- Where SetLimit succeeds, the requirement's limit is editable, and the limit's literal is replaced as SetAttribute replaces an attribute's.
  pub write_limit-Replaces :
      (m m' : Model F) (requirement_id : Bytes) (value : F)
      → write_limit numbers reader floats m requirement_id value ≡ written m'
      → (r : Requirement F) × (requirement_by_id requirement_id m.requirements ≡ some r)
        × (r.limit_editable ≡ true)
        × Replaces m r.limit_span value m'
  unfolding write_limit
  write_limit-Replaces m m' requirement_id value h =
      elim (Option-cases (requirement_by_id requirement_id m.requirements)) [
        | inl e ↦ absurd (ground arith)
        | inr (r, e) ↦ elim (Bool-cases r.limit_editable) [
          | inr d ↦ absurd (ground arith)
          | inl d ↦
              let set : set_literal numbers reader floats m r.limit_span value ≡ written m' =
                ground arith in
              (r, e, d, set_literal-Replaces m m' r.limit_span value set)
        ]
      ]
