-- ===== src/Model/Patch/Examples.antt =====
-- Writes on small models that are parsed again, on which the theorems are applied.
use mathlib.Core.List.{Mem}
use sysml_federation.Base.{
  ℕ, ◌≡◌, refl, [], ◌++◌, true, some, none, Bytes, bytes, bytes_eq, one_of, has_prefix, index, join,
  lookup, index_by, update_nth, indices_from,
}
use sysml_federation.Document.Decimal.{itoa}
use sysml_federation.Model
use sysml_federation.Model.Build.{Model, parse_model}
use sysml_federation.Model.Outcome.{Outcome, done, refused, crash, out_of_fuel}
use sysml_federation.Model.Examples.{reader, whole_numbers, whole}
use sysml_federation.Model.Nodes.{Attribute, Part, Requirement, Arithmetic}
use sysml_federation.Model.Patch.Writes.{Replaces, write_attribute-Replaces, write_limit-Replaces}
use sysml_federation.Model.Patch.{
  written, refused_write, not_found, part_by_id, requirement_by_id, write_attribute, write_limit,
}
use sysml_federation.Syntax

abbrev printing : Arithmetic ℕ
printing = record whole { format_float = itoa }

-- The text of a part and of a limit on its attribute.
abbrev source_text : Bytes → Bytes → Bytes
source_text value limit =
    bytes "package P { part p { attribute a = "
    ++ value
    ++ bytes "; } requirement r { subject s :> p; require constraint { s.a <= "
    ++ limit
    ++ bytes " } } }"

abbrev parsed_model : Bytes → Bytes → Outcome (Model ℕ)
parsed_model value limit =
    parse_model whole_numbers reader printing (bytes "m") (source_text value limit)

-- A model for a text that is refused, which the texts below are not.
abbrev no_model : Model ℕ
no_model = record {
  version = 0;
  text = [];
  roots = [];
  parts = [];
  children = [];
  requirements = [];
  verification_cases = [];
  file = record {
    name = [];
    src = [];
    package_ = record {
      short_name = [];
      name = [];
      doc = none;
      imports = [];
      attributes = [];
      item_defs = [];
      port_defs = [];
      part_defs = [];
      requirement_defs = [];
      verification_defs = [];
      parts = [];
      requirements = [];
      verifications = [];
      derivations = [];
      span = record { start = 0; stop = 0 };
    };
  };
  literals = [];
}

abbrev model_of : Outcome (Model ℕ) → Model ℕ
model_of (done m) = m
model_of (refused e) = no_model
model_of crash = no_model
model_of out_of_fuel = no_model

abbrev before : Model ℕ
before = model_of (parsed_model (bytes "12") (bytes "15"))

abbrev faster : Model ℕ
faster = record (model_of (parsed_model (bytes "305") (bytes "15"))) { version = 2 }

abbrev looser : Model ℕ
looser = record (model_of (parsed_model (bytes "12") (bytes "400"))) { version = 2 }

-- Parse, two writes and a refused write, run.
writes_run :
    (parsed_model (bytes "12") (bytes "15") ≡ done before)
    × (write_attribute whole_numbers reader printing before (bytes "P::p") (bytes "a") 305
        ≡ written faster)
    × (write_limit whole_numbers reader printing before (bytes "P::r") 400 ≡ written looser)
    × (write_limit whole_numbers reader printing before (bytes "P::p") 400
        ≡ refused_write not_found)
unfolding Syntax.Lexer.Scan.is_letter Syntax.Lexer.Scan.is_digit Syntax.Lexer.Scan.is_space
    Syntax.Lexer.Scan.count_while Syntax.Lexer.Scan.fraction Syntax.Lexer.Scan.sign
    Syntax.Lexer.Scan.exponent Syntax.Lexer.Scan.scan_number Syntax.Lexer.Scan.scan_name
    Syntax.Lexer.Scan.scan_string Syntax.Lexer.Scan.operators Syntax.Lexer.Scan.first_prefix
    Syntax.Lexer.Scan.match_operator Syntax.Lexer.note Syntax.Lexer.line_comment
    Syntax.Lexer.block_comment Syntax.Lexer.word Syntax.Lexer.number_token Syntax.Lexer.quoted_name
    Syntax.Lexer.quoted_string Syntax.Lexer.operator Syntax.Lexer.round Syntax.Lexer.lex_loop
    Syntax.Lexer.lex Syntax.Position.position Syntax.Position.error_at Syntax.Token.keywords
    Syntax.Token.is_keyword Syntax.Docs.trim_space Syntax.Docs.trim_star Syntax.Docs.split_lines
    Syntax.Docs.doc_lines Syntax.Docs.doc_text Syntax.Cursor.pure Syntax.Cursor.continue
    Syntax.Cursor.◌>>=◌ Syntax.Cursor.test◌run◌otherwise◌ Syntax.Cursor.when◌run◌otherwise◌
    Syntax.Cursor.◌or_else◌ Syntax.Cursor.rounds Syntax.Cursor.exhausted Syntax.Cursor.peek
    Syntax.Cursor.ahead Syntax.Cursor.next Syntax.Cursor.fail Syntax.Cursor.describe
    Syntax.Cursor.fail_expected Syntax.Cursor.is_token Syntax.Cursor.is Syntax.Cursor.is_then
    Syntax.Cursor.accept Syntax.Cursor.expect Syntax.Cursor.name Syntax.Cursor.is_segment
    Syntax.Cursor.segments Syntax.Cursor.qualified_name Syntax.Cursor.short_name Syntax.Cursor.end
    Syntax.Cursor.here Syntax.Cursor.article Syntax.Cursor.unsupported Syntax.Cursor.once
    Syntax.Cursor.doc Syntax.Cursor.skip_comment Syntax.Cursor.body_loop Syntax.Cursor.body
    Syntax.Expr.is_arrow Syntax.Expr.is_additive Syntax.Expr.chain_loop Syntax.Expr.parse_chain
    Syntax.Expr.comparison_of Syntax.Expr.take_comparison Syntax.Expr.parse_comparison
    Syntax.Expr.literal_rest Syntax.Expr.parse_literal Syntax.Expr.parse_operand
    Syntax.Expr.parse_primary Syntax.Expr.term_loop Syntax.Expr.parse_term Syntax.Expr.expr_loop
    Syntax.Expr.parse_expr Syntax.Parser.parse_file Syntax.Parser.close Syntax.Parser.parse_tokens
    Syntax.Parser.parse Model.Patch.part_by_id Model.Patch.requirement_by_id
    Model.Patch.verification_case_by_id Model.Patch.is_plain Model.Patch.minus_signs
    Model.Patch.patch Model.Patch.set_literal Model.Patch.attribute_loop Model.Patch.write_attribute
    Model.Patch.write_limit Model.Build.projected Model.Build.attribute Model.Build.attributes
    Model.Build.project Model.Build.exclusive_attribute Model.Build.exclusive_part
    Model.Build.exclusive_limit Model.Build.definitions Model.Build.finish Model.Build.declare
    Model.Build.fill Model.Build.build Model.Build.parse_model Model.Constraint.span_eq
    Model.Constraint.count_of Model.Constraint.count_literal Model.Constraint.rooted
    Model.Constraint.flip Model.Constraint.subject_name Model.Constraint.limit_slot
    Model.Constraint.sides_of Model.Constraint.walk_parts Model.Constraint.quantity_owner
    Model.Constraint.check_quantity Model.Constraint.limit_of Model.Constraint.read_sides
    Model.Constraint.read_constraint Model.Constraint.constraint Model.Constraint.constraints
    Model.Link.link_subjects Model.Link.link_connects Model.Link.link_satisfies
    Model.Link.link_parts Model.Link.link_derives Model.Link.link_derivations
    Model.Link.link_objectives Model.Link.link_verifications Model.Link.link Model.Eval.value_of
    Model.Eval.is_busy Model.Eval.remove_key Model.Eval.expr_span Model.Eval.own_slots
    Model.Eval.start_elsewhere Model.Eval.start_of Model.Eval.walk Model.Eval.chain_names
    Model.Eval.chain_slot Model.Eval.join_units Model.Eval.apply_operator Model.Eval.combine
    Model.Eval.slot_value Model.Eval.expr Model.Eval.eval Model.Eval.eval_fuel Model.Resolve.text_at
    Model.Resolve.has_connection Model.Resolve.connection_id Model.Resolve.check_direction
    Model.Resolve.node_at Model.Resolve.find_child Model.Resolve.child Model.Resolve.find_outward
    Model.Resolve.descend Model.Resolve.not_a_part Model.Resolve.find_first Model.Resolve.find_part
    Model.Resolve.find_req Model.Resolve.port_of Model.Resolve.port_end Model.Resolve.connect
    Model.Parts.usage_defs Model.Parts.part_node Model.Parts.root_parts Model.Parts.usage_req_def
    Model.Parts.requirements Model.Parts.usage_vc_def Model.Parts.verifications Model.Parts.part
    Model.Parts.child_parts Model.Declare.choose_id Model.Declare.first_name Model.Declare.def_loop
    Model.Declare.def_chain Model.Declare.same_direction Model.Declare.port_direction
    Model.Declare.has_port Model.Declare.add_port Model.Declare.add_ports Model.Declare.def_ports
    Model.Declare.find_slot Model.Declare.rebind Model.Declare.add_slot Model.Declare.add_slots
    Model.Declare.def_slots Model.Declare.declared_by Model.Declare.doc_text_of Model.Outcome.fail
    Model.Outcome.refuse_if Syntax.Parser.Ports.visibility Syntax.Parser.Ports.import_all
    Syntax.Parser.Ports.parse_import Syntax.Parser.Ports.parse_item_def
    Syntax.Parser.Ports.optional_name Syntax.Parser.Ports.direction_of
    Syntax.Parser.Ports.parse_directed_item Syntax.Parser.Ports.port_member
    Syntax.Parser.Ports.port_body Syntax.Parser.Ports.parse_port_def
    Syntax.Parser.Ports.parse_port_usage Syntax.Parser.Ports.check_end
    Syntax.Parser.Ports.parse_connect Syntax.Parser.Ports.parse_satisfy
    Syntax.Parser.Attributes.redefinition Syntax.Parser.Attributes.bound_value
    Syntax.Parser.Attributes.inner_attribute Syntax.Parser.Attributes.attribute_body
    Syntax.Parser.Attributes.attribute_rest Syntax.Parser.Attributes.parse_attribute
    Syntax.Parser.Parts.part_member Syntax.Parser.Parts.part_body
    Syntax.Parser.Parts.parse_part_usage Syntax.Parser.Parts.part_def_member
    Syntax.Parser.Parts.part_def_body Syntax.Parser.Parts.parse_part_def
    Syntax.Parser.Requirements.subject_form Syntax.Parser.Requirements.parse_subject
    Syntax.Parser.Requirements.parse_constraint Syntax.Parser.Requirements.requirement_member
    Syntax.Parser.Requirements.requirement_body Syntax.Parser.Requirements.parse_requirement_def
    Syntax.Parser.Requirements.parse_requirement_usage Syntax.Parser.Verifications.parse_objective
    Syntax.Parser.Verifications.verification_member Syntax.Parser.Verifications.verification_body
    Syntax.Parser.Verifications.parse_verification_def
    Syntax.Parser.Verifications.parse_verification_usage Syntax.Parser.Verifications.metadata
    Syntax.Parser.Verifications.add_end Syntax.Parser.Verifications.derivation_end
    Syntax.Parser.Verifications.check_ends Syntax.Parser.Verifications.parse_derivation
    Syntax.Parser.Packages.late_member Syntax.Parser.Packages.middle_member
    Syntax.Parser.Packages.package_member Syntax.Parser.Packages.parse_package bytes_eq one_of
    has_prefix index join lookup index_by update_nth indices_from itoa
writes_run = (refl, refl, refl, refl)

write_attribute-Replaces_example :
    (p : Part ℕ) × (a : Attribute ℕ) × (part_by_id (bytes "P::p") before.parts ≡ some p)
    × Mem a p.attributes
    × (a.name ≡ bytes "a")
    × (a.editable ≡ true)
    × Replaces whole_numbers reader printing before a.span 305 faster
write_attribute-Replaces_example =
    write_attribute-Replaces whole_numbers reader printing before faster (bytes "P::p") (bytes "a")
      305 writes_run.1

write_limit-Replaces_example :
    (r : Requirement ℕ) × (requirement_by_id (bytes "P::r") before.requirements ≡ some r)
    × (r.limit_editable ≡ true)
    × Replaces whole_numbers reader printing before r.limit_span 400 looser
write_limit-Replaces_example =
    write_limit-Replaces whole_numbers reader printing before looser (bytes "P::r") 400 writes_run.2
