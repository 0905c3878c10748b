-- ===== src/Model/Build/Ids.antt =====
-- The ids of the elements, as part, requirements and verifications of build.go make them.
use mathlib.Core.List.{Mem, map-append}
use sysml_federation.Base.{
  arith, ℕ, ◌≡◌, refl, sym, ap, ◌∙◌, subst, List, [], ◌∷◌, ◌++◌, Bytes, bytes, map, length,
  map-update_nth, lookup, is_some,
}
use sysml_federation.Model.Build.Carriers.{sum, sum-append, attr_carriers, part_carriers}
use sysml_federation.Model.Build.Taken.{
  AreTaken, choose_id-fresh, AllFalse, snoc-AllFalse, map-snoc-AreTaken,
}
use sysml_federation.Model.Declare.{declared_by}
use sysml_federation.Model.Declare.Ending.{
  add_ports-Ends, def_ports-Ends, add_slots-Ends, def_slots-Ends,
}
use sysml_federation.Model.Nodes.{PartNode, ReqNode, VcNode, Definitions, Arithmetic}
use sysml_federation.Model.Outcome.Holds.{Holds, returns, Holds-bind, Holds-refuse}
use sysml_federation.Model.Outcome.{Source}
use sysml_federation.Model.Parts.Ending.{
  usage_defs-Ends, usage_req_def-Ends, def_req_slots-Ends, usage_vc_def-Ends,
}
use sysml_federation.Model.Parts.{
  part_node, Grown, add_child, part, child_parts, root_parts, ReqsGrown, requirements,
  verifications,
}
use sysml_federation.Syntax.Ast.{
  PartFields, PartUsage, part_usage, PartUsages, no_parts, parts_then, RequirementUsage,
  VerificationUsage,
}
use sysml_federation.Syntax.Token.{Span}

abbrev pub part_ids : {F : Type 0} → List (PartNode F) → List Bytes
part_ids parts = map (λ n. n.out.id) parts

abbrev pub req_ids : {F : Type 0} → List (ReqNode F) → List Bytes
req_ids reqs = map (λ n. n.out.id) reqs

abbrev pub vc_ids : List VcNode → List Bytes
vc_ids vcs = map (λ n. n.out.id) vcs

module _ {F : Type 0} (s : Source) (defs : Definitions F) where
  part_node-id :
      (u : PartFields F) (enclosing : List ℕ) (id qualified : Bytes)
      → Holds
          (λ n. (n.out.id ≡ id) × (n.out.attributes ≡ []))
          (part_node s defs u enclosing id qualified)
  unfolding part_node
  part_node-id u enclosing id qualified =
      Holds-bind (usage_defs-Ends s defs u.type u.span) (λ chain _ _.
        Holds-bind (def_slots-Ends s [] chain) (λ inherited _ _.
          Holds-bind (add_slots-Ends s inherited u.attributes (declared_by u.type u.name))
            (λ slots _ _. Holds-bind (def_ports-Ends s defs [] chain) (λ base _ _.
              Holds-bind (add_ports-Ends s defs base u.ports)
                (λ ports _ _. returns (refl, refl))))))

  -- The ids of the parts are taken, and no part has an attribute before the projection.
  pub record IsGrown (g : Grown F) : Type 0 where
    pub taken : AreTaken (part_ids g.parts) g.ids
    pub bare : (at : Span) → part_carriers at g.parts ≡ 0

  added :
      (g : Grown F) (n : PartNode F) (id : Bytes) (ids : List Bytes)
      → IsGrown g
      → ¬ Mem id g.ids
      → ids ≡ id ∷ g.ids
      → n.out.id ≡ id
      → n.out.attributes ≡ []
      → IsGrown (record { ids = ids; parts = g.parts ++ n ∷ [] })
  added g n id ids t fresh grown own none = record {
    taken = subst (AreTaken (part_ids (g.parts ++ n ∷ []))) (ap (λ x. x ∷ g.ids) own ∙ sym grown) (
        map-snoc-AreTaken (λ (x : PartNode F). x.out.id) [] g.parts n g.ids t.taken
          (subst (λ x. ¬ Mem x g.ids) (sym own) fresh));
    bare = λ at.
        ap sum (map-append (λ (x : PartNode F). attr_carriers at x.out.attributes) g.parts (n ∷ []))
        ∙ omega (
          arith,
          sum-append (map (λ (x : PartNode F). attr_carriers at x.out.attributes) g.parts)
              (attr_carriers at n.out.attributes ∷ []),
          t.bare at,
          ap (attr_carriers at) none,
        );
  }

  mutual
    unfolding part child_parts

    part-IsGrown :
        (u : PartUsage F) (enclosing : List ℕ) (owner : Bytes) (g : Grown F)
        → IsGrown g
        → Holds (λ r. IsGrown r.1) (part s defs u enclosing owner g)
    part-IsGrown (part_usage u parts) enclosing owner g t =
        Holds-bind (choose_id-fresh s u.short_name (owner ++ bytes "::" ++ u.name) u.span g.ids)
          (λ r _ (fresh, ids).
            Holds-bind (part_node-id u enclosing r.0 (owner ++ bytes "::" ++ u.name))
              (λ n _ (own, none).
                Holds-bind
                  (child_parts-IsGrown parts (length g.parts) (length g.parts ∷ enclosing)
                    (owner ++ bytes "::" ++ u.name) _ (added g n r.0 r.1 t fresh ids own none))
                  (λ g' _ later. returns later)))

    child_parts-IsGrown :
        (parts : PartUsages F) (parent : ℕ) (enclosing : List ℕ) (qualified : Bytes) (g : Grown F)
        → IsGrown g
        → Holds IsGrown (child_parts s defs parts parent enclosing qualified g)
    child_parts-IsGrown no_parts parent enclosing qualified g t = returns t
    child_parts-IsGrown (parts_then parts u) parent enclosing qualified g t =
        Holds-bind (child_parts-IsGrown parts parent enclosing qualified g t) (λ g' _ t'.
          Holds-bind (part-IsGrown u enclosing qualified g' t') (λ r _ later. returns (record {
            taken =
                subst (λ l. AreTaken l r.1.ids)
                  (sym
                    (map-update_nth (λ n. n.out.id) parent (add_child r.0) r.1.parts (λ n. refl)))
                  later.taken;
            bare = λ at.
                ap sum (
                  map-update_nth (λ n. attr_carriers at n.out.attributes) parent (add_child r.0)
                    r.1.parts (λ n. refl))
                ∙ later.bare at;
          })))

  pub root_parts-IsGrown :
      (package_name : Bytes) (usages : List (PartUsage F)) (roots : List ℕ)
      (by_name : List (Bytes × ℕ)) (g : Grown F)
      → IsGrown g
      → Holds (λ r. IsGrown r.2) (root_parts s defs package_name usages roots by_name g)
  unfolding root_parts
  root_parts-IsGrown package_name [] roots by_name g t = returns t
  root_parts-IsGrown package_name (part_usage u children ∷ usages) roots by_name g t =
      Holds-bind (part-IsGrown (part_usage u children) [] package_name g t) (λ r _ later.
        Holds-refuse (is_some (lookup u.name by_name)) s u.span _ (λ _.
          root_parts-IsGrown package_name usages (roots ++ r.0 ∷ []) ((u.name, r.0) ∷ by_name) r.1
            later))

  -- Behind the ids of the parts, those of the requirements are taken; no limit is editable before the
  -- constraints are read.
  pub record AreRequired (front : List Bytes) (g : ReqsGrown F) : Type 0 where
    pub taken : AreTaken (front ++ req_ids g.reqs) g.ids
    pub bare : AllFalse (map (λ n. n.out.limit_editable) g.reqs)

  pub requirements-AreRequired :
      (front : List Bytes) (floats : Arithmetic F) (package_name : Bytes)
      (usages : List (RequirementUsage F)) (g : ReqsGrown F)
      → AreRequired front g
      → Holds (AreRequired front) (requirements s defs floats package_name usages g)
  unfolding requirements
  requirements-AreRequired front floats package_name [] g t = returns t
  requirements-AreRequired front floats package_name (u ∷ usages) g t =
      Holds-bind (usage_req_def-Ends s defs u.type u.span) (λ d _ _.
        Holds-bind (def_req_slots-Ends s defs d) (λ inherited _ _.
          Holds-bind (add_slots-Ends s inherited u.body.attributes (declared_by u.type u.name))
            (λ slots _ _.
              Holds-bind
                (choose_id-fresh s u.short_name (package_name ++ bytes "::" ++ u.name) u.span g.ids)
                (λ r _ (fresh, ids).
                  Holds-refuse (is_some (lookup u.name g.by_name)) s u.span _ (λ _.
                    requirements-AreRequired front floats package_name usages _ (record {
                      taken = subst (AreTaken _) (sym ids) (
                          map-snoc-AreTaken (λ (x : ReqNode F). x.out.id) front g.reqs _ g.ids
                            t.taken fresh);
                      bare =
                          snoc-AllFalse (λ (x : ReqNode F). x.out.limit_editable) g.reqs _ t.bare
                            refl;
                    }))))))

  pub verifications-AreTaken :
      (front : List Bytes) (package_name : Bytes) (usages : List VerificationUsage)
      (ids : List Bytes) (vcs : List VcNode)
      → AreTaken (front ++ vc_ids vcs) ids
      → Holds
          (λ r. AreTaken (front ++ vc_ids r.1) r.0)
          (verifications s defs package_name usages ids vcs)
  unfolding verifications
  verifications-AreTaken front package_name [] ids vcs t = returns t
  verifications-AreTaken front package_name (u ∷ usages) ids vcs t =
      Holds-bind (usage_vc_def-Ends s defs u.type u.span) (λ d _ _.
        Holds-bind
          (choose_id-fresh s u.short_name (package_name ++ bytes "::" ++ u.name) u.span ids)
          (λ r _ (fresh, grown). verifications-AreTaken front package_name usages r.1 _ (
            subst (AreTaken _) (sym grown)
              (map-snoc-AreTaken (λ (x : VcNode). x.out.id) front vcs _ ids t fresh))))
