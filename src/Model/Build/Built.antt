-- ===== src/Model/Build/Built.antt =====
-- The whole build, from the text to the model.
use mathlib.Core.List.{Nodup, append-nil}
use sysml_federation.Base.{
  ◌≡◌, refl, sym, ap, ◌∙◌, subst, inl, inr, List, [], ◌∷◌, ◌++◌, arith, map, Bytes, if◌then◌else◌,
  ◌==◌,
}
use sysml_federation.Model.Build.Carriers.{
  sum, attr_carriers, req_carriers, carriers, model_carriers, exclusive-parts, exclusive-limits,
}
use sysml_federation.Model.Build.Filled.{all_ids, IsFilled, fill-IsFilled}
use sysml_federation.Model.Build.Ids.{
  part_ids, req_ids, vc_ids, root_parts-IsGrown, requirements-AreRequired, verifications-AreTaken,
}
use sysml_federation.Model.Build.Taken.{AreTaken, no_ids-AreTaken, AllFalse}
use sysml_federation.Model.Build.{
  Model, exclusive_part, exclusive_limit, definitions, source_of, finish, declare, build,
  build_parsed, parse_model,
}
use sysml_federation.Model.Constraint.{count_of}
use sysml_federation.Model.Link.Keeps.{part_core, req_core, vc_core, Relinked, link-Relinked}
use sysml_federation.Model.Nodes.{PartNode, ReqNode, VcNode, Scope, Building, Counts, Arithmetic}
use sysml_federation.Model.Outcome.Holds.{Holds, returns, refuses, Ends, Holds-bind, Holds-map}
use sysml_federation.Model.Outcome.{Source}
use sysml_federation.Syntax.Ast.{File, Package}
use sysml_federation.Syntax.Expr.{Numbers}
use sysml_federation.Syntax.Lexer.{Reader}
use sysml_federation.Syntax.Parser.Total.{parse_total, parse-file}
use sysml_federation.Syntax.Token.{Span}

-- Before the constraints are read: unique ids, and no editable value.
record IsDeclared {F : Type 0} (sc : Scope F) : Type 0 where
  pub unique : Nodup (all_ids sc)
  pub bare : (at : Span) → carriers at sc ≡ 0
  pub unread : AllFalse (map (λ n. n.out.limit_editable) sc.reqs)

map-core :
    {A B : Type 0} (h : A → B) (core : A → A) (list : List A)
    → ((a : A) → h (core a) ≡ h a)
    → map h (map core list) ≡ map h list
map-core h core [] same = refl
map-core h core (a ∷ list) same = cc (same a, map-core h core list same)

-- What the core of a node has is the same in two lists with the same cores.
core-eq :
    {A B : Type 0} (h : A → B) (core : A → A) (xs ys : List A)
    → ((a : A) → h (core a) ≡ h a)
    → map core xs ≡ map core ys
    → map h xs ≡ map h ys
core-eq h core xs ys same e = sym (map-core h core xs same) ∙ ap (map h) e ∙ map-core h core ys same

vc_nodes-ids : (vcs : List VcNode) → map (λ v. v.id) (map (λ n. n.out) vcs) ≡ vc_ids vcs
vc_nodes-ids [] = refl
vc_nodes-ids (n ∷ vcs) = ap (λ l. n.out.id ∷ l) (vc_nodes-ids vcs)

module _ {F : Type 0} where
  unread-carriers :
      (reqs : List (ReqNode F)) (at : Span)
      → AllFalse (map (λ n. n.out.limit_editable) reqs)
      → req_carriers at reqs ≡ 0
  unread-carriers [] at all = refl
  unread-carriers (n ∷ reqs) at (own, all) = ground (arith, own, unread-carriers reqs at all)

  Relinked-IsDeclared : (a b : Scope F) → Relinked a b → IsDeclared a → IsDeclared b
  Relinked-IsDeclared a b k d =
      let parts = core-eq (λ n. n.out.id) part_core b.parts a.parts (λ n. refl) k.parts in
      let reqs = core-eq (λ n. n.out.id) req_core b.reqs a.reqs (λ n. refl) k.reqs in
      let vcs = core-eq (λ n. n.out.id) vc_core b.vcs a.vcs (λ n. refl) k.vcs in
      let same : all_ids b ≡ all_ids a = cc (parts, reqs, vcs) in
      let unread : AllFalse (map (λ n. n.out.limit_editable) b.reqs) =
        subst AllFalse
          (sym (core-eq (λ n. n.out.limit_editable) req_core b.reqs a.reqs (λ n. refl) k.reqs))
          d.unread in
      record {
        unique = subst Nodup (sym same) d.unique;
        bare = λ at. omega (
          arith,
          d.bare at,
          unread-carriers a.reqs at d.unread,
          unread-carriers b.reqs at unread,
          ap sum (
              core-eq (λ n. attr_carriers at n.out.attributes) part_core b.parts a.parts (λ n. refl)
                k.parts),
        );
        unread = unread;
      }

  declare-IsDeclared :
      (s : Source) (floats : Arithmetic F) (pkg : Package F)
      → Holds IsDeclared (declare s floats pkg)
  unfolding declare
  declare-IsDeclared s floats pkg =
      Holds-bind
        (root_parts-IsGrown s (definitions pkg) pkg.name pkg.parts [] [] _
          (record { taken = no_ids-AreTaken; bare = λ at. refl }))
        (λ x _ grown.
          Holds-bind
            (requirements-AreRequired s (definitions pkg) (part_ids x.2.parts) floats pkg.name
              pkg.requirements _
              (record {
                taken =
                    subst (λ l. AreTaken l x.2.ids) (sym (append-nil (part_ids x.2.parts)))
                      grown.taken;
                bare = tt;
              }))
            (λ r _ required.
              Holds-bind
                (verifications-AreTaken s (definitions pkg) (part_ids x.2.parts ++ req_ids r.reqs)
                  pkg.name pkg.verifications r.ids []
                  (subst (λ l. AreTaken l r.ids)
                    (sym (append-nil (part_ids x.2.parts ++ req_ids r.reqs))) required.taken))
                (λ v _ taken. returns (record {
                  unique = taken.once;
                  bare =
                      λ at. omega (arith, grown.bare at, unread-carriers r.reqs at required.bare);
                  unread = required.bare;
                }))))

  abbrev pub model_ids : Model F → List Bytes
  model_ids m =
      (map (λ p. p.id) m.parts ++ map (λ r. r.id) m.requirements)
      ++ map (λ v. v.id) m.verification_cases

  pub record IsBuilt (m : Model F) : Type 0 where
    pub unique : Nodup (model_ids m)
    pub alone : (at : Span) → model_carriers at m ≡ (if count_of at m.literals == 1 then 1 else 0)

  exclusive_part-ids :
      (counts : Counts) (parts : List (PartNode F))
      → map (λ p. p.id) (map (λ n. exclusive_part counts n.out) parts) ≡ part_ids parts
  unfolding exclusive_part
  exclusive_part-ids counts [] = refl
  exclusive_part-ids counts (n ∷ parts) = ap (λ l. n.out.id ∷ l) (exclusive_part-ids counts parts)

  exclusive_limit-ids :
      (counts : Counts) (reqs : List (ReqNode F))
      → map (λ r. r.id) (map (λ n. exclusive_limit counts n.out) reqs) ≡ req_ids reqs
  unfolding exclusive_limit
  exclusive_limit-ids counts [] = refl
  exclusive_limit-ids counts (n ∷ reqs) = ground (arith, exclusive_limit-ids counts reqs)

  finish-ids : (f : File F) (b : Building F) → model_ids (finish f b) ≡ all_ids b.scope
  unfolding finish
  finish-ids f b = cc (
    exclusive_part-ids b.literals b.scope.parts,
    exclusive_limit-ids b.literals b.scope.reqs,
    vc_nodes-ids b.scope.vcs,
  )

  finish-IsBuilt :
      (f : File F) (sc : Scope F) (b : Building F)
      → IsDeclared sc
      → IsFilled sc b
      → IsBuilt (finish f b)
  unfolding finish
  finish-IsBuilt f sc b d k = record {
    unique = subst Nodup (sym (finish-ids f b ∙ k.ids)) d.unique;
    alone = λ at. ground (
      arith,
      exclusive-parts b.literals at b.scope.parts,
      exclusive-limits b.literals at b.scope.reqs,
      k.counted at,
    );
  }

  build-IsBuilt :
      (quote : Bytes → Bytes) (floats : Arithmetic F) (f : File F)
      → Holds (λ m. IsBuilt m × (m.text ≡ f.src) × (m.file ≡ f)) (build quote floats f)
  unfolding build finish
  build-IsBuilt quote floats f =
      Holds-bind (declare-IsDeclared (source_of f quote) floats f.package_) (λ sc _ d.
        Holds-bind (link-Relinked (source_of f quote) f.package_.derivations sc) (λ linked _ k.
          let d' = Relinked-IsDeclared sc linked k d in
          Holds-bind (fill-IsFilled (source_of f quote) floats linked d'.bare d'.unread)
            (λ b _ filled. returns (finish-IsBuilt f linked b d' filled, refl, refl))))

module _ {F : Type 0} (numbers : Numbers F) (reader : Reader) (floats : Arithmetic F)
    (name src : Bytes) where
  pub parse_model-IsBuilt :
      Holds
        (λ m. IsBuilt m × (m.text ≡ src) × (m.file.name ≡ name))
        (parse_model numbers reader floats name src)
  unfolding parse_model
  parse_model-IsBuilt = elim (parse_total numbers reader name src) [
    | inl (f, e) ↦
        let same = parse-file numbers reader name src f e in
        subst
          (λ p.
            Holds (λ m. IsBuilt m × (m.text ≡ src) × (m.file.name ≡ name))
              (build_parsed reader.quote floats p))
          (sym e)
          (Holds-map (build-IsBuilt reader.quote floats f)
            (λ m _ (k, text, file). (k, text ∙ same.0, ap (λ (x : File F). x.name) file ∙ same.1)))
    | inr (r, e) ↦
        subst
          (λ p.
            Holds (λ m. IsBuilt m × (m.text ≡ src) × (m.file.name ≡ name))
              (build_parsed reader.quote floats p))
          (sym e) refuses
  ]

  -- For every text, Parse of the model package ends: it gives a model, or it refuses the text, or it
  -- panics as an index out of range does. The chains of definitions, the walks along names and the
  -- evaluation of values never run out of fuel, and neither do the lexer and the parser.
  pub parse_model-Ends : Ends (parse_model numbers reader floats name src)
  parse_model-Ends = Holds-map parse_model-IsBuilt (λ m _ k. tt)

  -- In every model that Parse gives, no two of the parts, requirements and verification cases have the
  -- same id.
  pub parse_model-Nodup :
      Holds (λ m. Nodup (model_ids m)) (parse_model numbers reader floats name src)
  parse_model-Nodup = Holds-map parse_model-IsBuilt (λ m _ k. k.0.unique)

  -- In every model that Parse gives, and for every span of the text, the editable attributes and limits
  -- whose literal stands at the span are exactly one where the model counts one value for the span, and
  -- none otherwise: no two editable values share a literal.
  pub parse_model-carriers :
      Holds
        (λ m. (at : Span) → model_carriers at m ≡ (if count_of at m.literals == 1 then 1 else 0))
        (parse_model numbers reader floats name src)
  parse_model-carriers = Holds-map parse_model-IsBuilt (λ m _ k. k.0.alone)
