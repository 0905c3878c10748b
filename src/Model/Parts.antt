-- ===== src/Model/Parts.antt =====
-- adapter/model/build.go: part, requirements and verifications, which make the nodes.
pub mod Ending
pub mod Unique
use sysml_federation.Base.{
  ℕ, zero, suc, List, [], ◌∷◌, ◌++◌, Bool, true, false, not, Option, none, some, if◌then◌else◌,
  length, Bytes, bytes, bytes_eq, one_of, lookup, update_nth, is_some,
}
use sysml_federation.Model.Declare.{
  choose_id, def_chain, add_ports, def_ports, add_slots, def_slots, declared_by, doc_text_of,
}
use sysml_federation.Model.Nodes.{
  Slot, Port, Part, Requirement, VerificationCase, PartNode, ReqNode, VcNode, Definitions, Scope,
  Arithmetic,
}
use sysml_federation.Model.Outcome.{
  Outcome, done, refused, crash, out_of_fuel, pure, ◌>>=◌, ◌>>◌, Source, fail, refuse_if,
}
use sysml_federation.Syntax.Ast.{
  comparison_zero, PartFields, PartUsage, part_usage, PartUsages, no_parts, parts_then, PartDef,
  RequirementDef, RequirementUsage, VerificationUsage, VerificationDef, Package,
}
use sysml_federation.Syntax.Token.{Span}

module _ {F : Type 0} (s : Source) (defs : Definitions F) where
  -- The definitions of a usage: none where it has no type.
  unfoldable pub usage_defs : Bytes → Span → Outcome (List (PartDef F))
  usage_defs type at = if bytes_eq type [] then pure [] else def_chain s defs type at

  -- The node of a part usage without its children.
  unfoldable pub part_node : PartFields F → List ℕ → Bytes → Bytes → Outcome (PartNode F)
  part_node u enclosing id qualified = usage_defs u.type u.span >>= λ chain.
      def_slots s [] chain >>= λ inherited.
      add_slots s inherited u.attributes (declared_by u.type u.name) >>= λ slots.
      def_ports s defs [] chain >>= λ base. add_ports s defs base u.ports >>= λ ports.
      pure (record {
        ast = u;
        defs = chain;
        enclosing = enclosing;
        children = [];
        attrs = slots;
        out = record {
          id = id;
          short_name = u.short_name;
          name = u.name;
          definition = u.type;
          doc = doc_text_of u.doc;
          attributes = [];
          ports = ports;
          connections = [];
          satisfies = [];
        };
      })

-- What part changes: the ids, and the parts so far.
pub record Grown (F : Type 0) : Type 0 where
  pub ids : List Bytes
  pub parts : List (PartNode F)

abbrev pub add_child : {F : Type 0} → ℕ → PartNode F → PartNode F
add_child c n = record n { children = n.children ++ c ∷ [] }

module _ {F : Type 0} (s : Source) (defs : Definitions F) where
  unfoldable mutual
    -- part: the new node's index, and what has grown.
    pub part : PartUsage F → List ℕ → Bytes → Grown F → Outcome (ℕ × Grown F)
    part (part_usage u parts) enclosing owner g =
        choose_id s u.short_name (owner ++ bytes "::" ++ u.name) u.span g.ids >>= λ (id, ids).
        part_node s defs u enclosing id (owner ++ bytes "::" ++ u.name) >>= λ n.
        child_parts parts (length g.parts) (length g.parts ∷ enclosing)
          (owner ++ bytes "::" ++ u.name) (record { ids = ids; parts = g.parts ++ n ∷ [] })
        >>= λ g'. pure (length g.parts, g')

    -- The loop of part over the parts of the usage, whose node is `parent`.
    pub child_parts : PartUsages F → ℕ → List ℕ → Bytes → Grown F → Outcome (Grown F)
    child_parts no_parts parent enclosing qualified g = pure g
    child_parts (parts_then parts u) parent enclosing qualified g =
        child_parts parts parent enclosing qualified g >>= λ g'.
        part u enclosing qualified g' >>= λ (c, g'').
        pure (record g'' { parts = update_nth parent (add_child c) g''.parts })

  -- The loop of build over the parts of the package.
  unfoldable pub root_parts :
      Bytes
      → List (PartUsage F)
      → List ℕ
      → List (Bytes × ℕ)
      → Grown F
      → Outcome (List ℕ × List (Bytes × ℕ) × Grown F)
  root_parts package_name [] roots by_name g = pure (roots, by_name, g)
  root_parts package_name (part_usage u children ∷ usages) roots by_name g =
      part (part_usage u children) [] package_name g >>= λ (n, g').
      refuse_if (is_some (lookup u.name by_name)) s u.span
        (bytes "part " ++ s.quote u.name ++ bytes " is declared twice")
      >> root_parts package_name usages (roots ++ n ∷ []) ((u.name, n) ∷ by_name) g'

-- What requirements changes.
pub record ReqsGrown (F : Type 0) : Type 0 where
  pub ids : List Bytes
  pub reqs : List (ReqNode F)
  pub by_name : List (Bytes × ℕ)

module _ {F : Type 0} (s : Source) (defs : Definitions F) where
  unfoldable pub usage_req_def : Bytes → Span → Outcome (Option (RequirementDef F))
  usage_req_def type at = if bytes_eq type [] then pure none else elim (lookup type defs.req_defs) [
    | none ↦ fail s at (bytes "unresolved definition " ++ s.quote type)
    | some d ↦ pure (some d)
  ]

  abbrev pub def_req_slots : Option (RequirementDef F) → Outcome (List (Slot F))
  def_req_slots none = pure []
  def_req_slots (some d) = add_slots s [] d.body.attributes d.name

  -- The usage's text, else that of its definition.
  abbrev pub req_text : RequirementUsage F → Option (RequirementDef F) → Bytes
  req_text u none = doc_text_of u.body.doc
  req_text u (some d) =
      if bytes_eq (doc_text_of u.body.doc) []
      then doc_text_of d.body.doc
      else doc_text_of u.body.doc

  -- The loop of requirements.
  unfoldable pub requirements :
      Arithmetic F → Bytes → List (RequirementUsage F) → ReqsGrown F → Outcome (ReqsGrown F)
  requirements floats package_name [] g = pure g
  requirements floats package_name (u ∷ usages) g = usage_req_def u.type u.span >>= λ d.
      def_req_slots d >>= λ inherited.
      add_slots s inherited u.body.attributes (declared_by u.type u.name) >>= λ slots.
      choose_id s u.short_name (package_name ++ bytes "::" ++ u.name) u.span g.ids >>= λ (id, ids).
      refuse_if (is_some (lookup u.name g.by_name)) s u.span
        (bytes "requirement " ++ s.quote u.name ++ bytes " is declared twice")
      >> requirements floats package_name usages (record {
        ids = ids;
        reqs =
            g.reqs
            ++ record {
              ast = u;
              def = d;
              attrs = slots;
              subject = none;
              out = record {
                id = id;
                short_name = u.short_name;
                name = u.name;
                text = req_text u d;
                subject = [];
                quantity = [];
                comparison = comparison_zero;
                limit = floats.zero;
                limit_unit = [];
                limit_editable = false;
                derived_from = [];
                derives = [];
                satisfied_by = [];
                verified_by = [];
                limit_span = record { start = 0; stop = 0 };
              };
            }
              ∷ [];
        by_name = (u.name, length g.reqs) ∷ g.by_name;
      })

  unfoldable pub usage_vc_def : Bytes → Span → Outcome (Option VerificationDef)
  usage_vc_def type at = if bytes_eq type [] then pure none else elim (lookup type defs.vc_defs) [
    | none ↦ fail s at (bytes "unresolved definition " ++ s.quote type)
    | some d ↦ pure (some d)
  ]

  -- The loop of verifications.
  unfoldable pub verifications :
      Bytes → List VerificationUsage → List Bytes → List VcNode → Outcome (List Bytes × List VcNode)
  verifications package_name [] ids vcs = pure (ids, vcs)
  verifications package_name (u ∷ usages) ids vcs = usage_vc_def u.type u.span >>= λ d.
      choose_id s u.short_name (package_name ++ bytes "::" ++ u.name) u.span ids >>= λ (id, ids').
      verifications package_name usages ids' (
        vcs
        ++ record {
          ast = u;
          def = d;
          out = record { id = id; short_name = u.short_name; name = u.name; verifies = [] };
        }
          ∷ [])
