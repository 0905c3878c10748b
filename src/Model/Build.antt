-- ===== src/Model/Build.antt =====
-- adapter/model/build.go: project, exclusive and build, and Parse of model.go.
pub mod Built
pub mod Taken
pub mod Ids
pub mod Carriers
pub mod Filled
use sysml_federation.Base.{
  ℕ, zero, suc, List, [], ◌∷◌, ◌++◌, Bool, true, false, ◌&&◌, Option, none, some, if◌then◌else◌,
  ltb, map, Bytes, update_nth, index_by,
}
use sysml_federation.Model.Constraint.{count_of, count_literal, constraints}
use sysml_federation.Model.Eval.{eval, eval_fuel, expr_span}
use sysml_federation.Model.Link.{indices, link, with_part}
use sysml_federation.Model.Nodes.{
  Attribute, Part, Requirement, VerificationCase, Slot, PartNode, ReqNode, VcNode, Definitions,
  Scope, Quantity, Counts, Memo, Building, Owner, of_part, Arithmetic,
}
use sysml_federation.Model.Outcome.{
  Outcome, done, refused, crash, out_of_fuel, pure, ◌>>=◌, Source, fail,
}
use sysml_federation.Model.Parts.{Grown, root_parts, ReqsGrown, requirements, verifications}
use sysml_federation.Model.Resolve.{node_at, text_at}
use sysml_federation.Syntax.Ast.{
  Expr, literal, feature_chain, binary, PartDef, PortDef, RequirementDef, VerificationDef, Package,
  File,
}
use sysml_federation.Syntax.Expr.{Numbers}
use sysml_federation.Syntax.Lexer.{Reader}
use sysml_federation.Syntax.Parser.{Parsed, parsed, parse}
use sysml_federation.Syntax.Token.{Span, Error}

-- The maps parts, reqs and vcs have an entry for each element under its id, which no other element
-- has: a lookup is a scan of the list.
pub record Model (F : Type 0) : Type 0 where
  pub version : ℕ
  pub text : Bytes
  pub roots : List ℕ
  pub parts : List (Part F)
  pub children : List (List ℕ)
  pub requirements : List (Requirement F)
  pub verification_cases : List VerificationCase
  pub file : File F
  pub literals : Counts

abbrev pub no_span : Span
no_span = record { start = 0; stop = 0 }

module _ {F : Type 0} (s : Source) (floats : Arithmetic F) where
  abbrev pub unbound : Bytes → Attribute F
  unbound name = record {
    name = name;
    value = none;
    unit = [];
    editable = false;
    expression = [];
    span = no_span;
  }

  -- The fields that depend on what the binding is, and the count of a literal.
  unfoldable pub projected : Bytes → Quantity F → Expr F → Counts → Outcome (Attribute F × Counts)
  projected name q (literal l) counts = pure (
    record (unbound name) { value = some q.num; unit = q.unit; editable = true; span = l.span },
    count_literal l.span counts,
  )
  projected name q (feature_chain c) counts = text_at s c.span >>= λ text.
      pure (record (unbound name) { value = some q.num; unit = q.unit; expression = text }, counts)
  projected name q (binary op l r at) counts = text_at s at >>= λ text.
      pure (record (unbound name) { value = some q.num; unit = q.unit; expression = text }, counts)

  -- attribute, with the counts and the memo
  unfoldable pub attribute :
      Scope F → ℕ → Slot F → Counts → Memo F → Outcome (Attribute F × Counts × Memo F)
  attribute sc i slot counts m = elim slot.bind [
    | none ↦ pure (unbound slot.name, counts, m)
    | some e ↦ eval s sc floats (eval_fuel s sc) (of_part i) slot.name e m >>= λ (q, m').
        projected slot.name q e counts >>= λ (a, counts'). pure (a, counts', m')
  ]

  -- The inner loop of project.
  unfoldable pub attributes :
      Scope F → ℕ → List (Slot F) → Counts → Memo F → Outcome (List (Attribute F) × Counts × Memo F)
  attributes sc i [] counts m = pure ([], counts, m)
  attributes sc i (slot ∷ slots) counts m = attribute sc i slot counts m >>= λ (a, counts', m').
      attributes sc i slots counts' m' >>= λ (list, counts'', m''). pure (a ∷ list, counts'', m'')

  unfoldable pub project : List ℕ → Building F → Outcome (Building F)
  project [] b = pure b
  project (i ∷ is) b = node_at b.scope i >>= λ n.
      attributes b.scope i n.attrs b.literals b.memo >>= λ (list, counts, m). project is (record {
        scope = with_part i (λ p. record p { attributes = p.attributes ++ list }) b.scope;
        literals = counts;
        memo = m;
      })

module _ {F : Type 0} (counts : Counts) where
  -- exclusive, on one attribute and on one limit
  unfoldable pub exclusive_attribute : Attribute F → Attribute F
  exclusive_attribute a =
      if a.editable && ltb 1 (count_of a.span counts)
      then record a { editable = false; span = no_span }
      else a

  unfoldable pub exclusive_part : Part F → Part F
  exclusive_part p = record p { attributes = map exclusive_attribute p.attributes }

  unfoldable pub exclusive_limit : Requirement F → Requirement F
  exclusive_limit r =
      if r.limit_editable && ltb 1 (count_of r.limit_span counts)
      then record r { limit_editable = false; limit_span = no_span }
      else r

module _ {F : Type 0} where
  -- The maps of the definitions.
  unfoldable pub definitions : Package F → Definitions F
  definitions pkg = record {
    part_defs = index_by (λ d. d.name) pkg.part_defs [];
    port_defs = index_by (λ d. d.name) pkg.port_defs [];
    req_defs = index_by (λ d. d.name) pkg.requirement_defs [];
    vc_defs = index_by (λ d. d.name) pkg.verification_defs [];
  }

  -- The model that build returns, after exclusive.
  unfoldable pub finish : File F → Building F → Model F
  finish f b = record {
    version = 1;
    text = f.src;
    roots = b.scope.roots;
    parts = map (λ n. exclusive_part b.literals n.out) b.scope.parts;
    children = map (λ n. n.children) b.scope.parts;
    requirements = map (λ n. exclusive_limit b.literals n.out) b.scope.reqs;
    verification_cases = map (λ n. n.out) b.scope.vcs;
    file = f;
    literals = b.literals;
  }

  abbrev pub source_of : File F → (Bytes → Bytes) → Source
  source_of f quote = record { file = f.name; src = f.src; quote = quote }

  -- The nodes of every element, before any is linked.
  unfoldable pub declare : Source → Arithmetic F → Package F → Outcome (Scope F)
  declare s floats pkg =
      let defs = definitions pkg in
      root_parts s defs pkg.name pkg.parts [] [] (record { ids = []; parts = [] })
      >>= λ (roots, by_name, g).
          requirements s defs floats pkg.name pkg.requirements
            (record { ids = g.ids; reqs = []; by_name = [] })
          >>= λ r. verifications s defs pkg.name pkg.verifications r.ids [] >>= λ (ids, vcs).
              pure (record {
                parts = g.parts;
                roots = roots;
                by_name = by_name;
                reqs = r.reqs;
                req_by_name = r.by_name;
                vcs = vcs;
              })

  -- The constraints and the projection of a linked scope.
  unfoldable pub fill : Source → Arithmetic F → Scope F → Outcome (Building F)
  fill s floats sc =
      constraints s floats (indices sc.reqs)
        (record { scope = sc; literals = []; memo = record { values = []; busy = [] } })
      >>= λ b. project s floats (indices b.scope.parts) b

  unfoldable pub build : (Bytes → Bytes) → Arithmetic F → File F → Outcome (Model F)
  build quote floats f =
      let s = source_of f quote in
      declare s floats f.package_ >>= λ sc.
      link s f.package_.derivations sc >>= λ linked. fill s floats linked >>= λ b. pure (finish f b)

  abbrev pub build_parsed : (Bytes → Bytes) → Arithmetic F → Parsed F → Outcome (Model F)
  build_parsed quote floats (parsed f) = build quote floats f
  build_parsed quote floats (Parsed.refused e) = Outcome.refused e
  build_parsed quote floats Parsed.crash = Outcome.crash
  build_parsed quote floats Parsed.out_of_fuel = Outcome.out_of_fuel

  -- Parse
  unfoldable pub parse_model : Numbers F → Reader → Arithmetic F → Bytes → Bytes → Outcome (Model F)
  parse_model numbers reader floats name src =
      build_parsed reader.quote floats (parse numbers reader name src)
