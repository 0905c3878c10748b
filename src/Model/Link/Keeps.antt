-- ===== src/Model/Link/Keeps.antt =====
-- What the loops of link in build.go keep.
use sysml_federation.Base.{
  ℕ, ◌≡◌, refl, ap, ◌∙◌, List, [], ◌∷◌, ◌++◌, Bool, true, false, none, some, Bytes, map, get_elem?,
  map-update_nth,
}
use sysml_federation.Model.Link.{
  indices, subject_value, objective_list, def_objective, with_part, with_req, with_vc, with_subject,
  link_subjects, link_connects, link_satisfies, link_parts, link_derives, link_derivations,
  link_objectives, link_verifications, link,
}
use sysml_federation.Model.Nodes.{
  Scope, Part, Requirement, VerificationCase, PartNode, ReqNode, VcNode,
}
use sysml_federation.Model.Outcome.Holds.{
  Holds, returns, Ends, Holds-bind, Holds-fail, Holds-option, Holds-refuse,
}
use sysml_federation.Model.Outcome.{Source}
use sysml_federation.Model.Resolve.Ending.{
  or_crash-Ends, text_at-Ends, node_at-Ends, find_part-Ends, find_req-Ends, port_end-Ends,
}
use sysml_federation.Model.Resolve.{is_out, is_in, has_connection, check_direction, connect}
use sysml_federation.Syntax.Ast.{FeatureChain, Connect, Satisfy, Objective, DerivationConnection}

abbrev pub bare_vc : VerificationCase → VerificationCase
bare_vc v = record v { verifies = [] }

abbrev pub vc_core : VcNode → VcNode
vc_core n = record n { out = bare_vc n.out }

module _ {F : Type 0} where
  -- A node without its links.
  abbrev pub bare_part : Part F → Part F
  bare_part p = record p { connections = []; satisfies = [] }

  abbrev pub bare_req : Requirement F → Requirement F
  bare_req q = record q {
    subject = [];
    derived_from = [];
    derives = [];
    satisfied_by = [];
    verified_by = [];
  }

  abbrev pub part_core : PartNode F → PartNode F
  part_core n = record n { out = bare_part n.out }

  abbrev pub req_core : ReqNode F → ReqNode F
  req_core n = record n { subject = none; out = bare_req n.out }

  -- The two differ in links alone.
  pub record Relinked (sc sc' : Scope F) : Type 0 where
    pub parts : map part_core sc'.parts ≡ map part_core sc.parts
    pub reqs : map req_core sc'.reqs ≡ map req_core sc.reqs
    pub vcs : map vc_core sc'.vcs ≡ map vc_core sc.vcs
    pub roots : sc'.roots ≡ sc.roots

  Relinked-refl : (sc : Scope F) → Relinked sc sc
  Relinked-refl sc = record { parts = refl; reqs = refl; vcs = refl; roots = refl }

  with_part-Relinked :
      (i : ℕ) (f : Part F → Part F) (a b : Scope F)
      → ((p : Part F) → bare_part (f p) ≡ bare_part p)
      → Relinked a b
      → Relinked a (with_part i f b)
  with_part-Relinked i f a b same k = record {
    parts =
        map-update_nth part_core i (λ n. record n { out = f n.out }) b.parts
          (λ n. ap (λ (p : Part F). record n { out = p }) (same n.out))
        ∙ k.parts;
    reqs = k.reqs;
    vcs = k.vcs;
    roots = k.roots;
  }

  with_req-Relinked :
      (i : ℕ) (f : Requirement F → Requirement F) (a b : Scope F)
      → ((q : Requirement F) → bare_req (f q) ≡ bare_req q)
      → Relinked a b
      → Relinked a (with_req i f b)
  with_req-Relinked i f a b same k = record {
    parts = k.parts;
    reqs =
        map-update_nth req_core i (λ n. record n { out = f n.out }) b.reqs
          (λ n. ap (λ (q : Requirement F). record n { subject = none; out = q }) (same n.out))
        ∙ k.reqs;
    vcs = k.vcs;
    roots = k.roots;
  }

  with_vc-Relinked :
      (i : ℕ) (f : VerificationCase → VerificationCase) (a b : Scope F)
      → ((v : VerificationCase) → bare_vc (f v) ≡ bare_vc v)
      → Relinked a b
      → Relinked a (with_vc i f b)
  with_vc-Relinked i f a b same k = record {
    parts = k.parts;
    reqs = k.reqs;
    vcs =
        map-update_nth vc_core i (λ n. record n { out = f n.out }) b.vcs
          (λ n. ap (λ (v : VerificationCase). record n { out = v }) (same n.out))
        ∙ k.vcs;
    roots = k.roots;
  }

  with_subject-Relinked :
      (i p : ℕ) (id : Bytes) (a b : Scope F) → Relinked a b → Relinked a (with_subject i p id b)
  with_subject-Relinked i p id a b k = record {
    parts = k.parts;
    reqs =
        map-update_nth req_core i
          (λ n. record n { subject = some p; out = record n.out { subject = id } }) b.reqs
          (λ n. refl)
        ∙ k.reqs;
    vcs = k.vcs;
    roots = k.roots;
  }

check_direction-Ends :
    (s : Source) (b : Bool) (c : FeatureChain) (which wanted : Bytes)
    → Ends (check_direction s b c which wanted)
unfolding check_direction
check_direction-Ends s true c which wanted = returns tt
check_direction-Ends s false c which wanted =
    Holds-bind (text_at-Ends s c.span) (λ text _ _. Holds-fail s c.span _)

module _ {F : Type 0} (s : Source) where
  connect-Ends : (sc : Scope F) (owner : ℕ) (c : Connect) → Ends (connect s sc owner c)
  unfolding connect
  connect-Ends sc owner c = Holds-bind (port_end-Ends sc s c.from owner) (λ x _ _.
      Holds-bind (check_direction-Ends s (is_out x.1.direction) c.from _ _) (λ _ _ _.
        Holds-bind (port_end-Ends sc s c.to owner) (λ y _ _.
          Holds-bind (check_direction-Ends s (is_in y.1.direction) c.to _ _) (λ _ _ _.
            Holds-bind (node_at-Ends sc x.0) (λ f _ _. Holds-bind (node_at-Ends sc y.0) (λ t _ _.
              Holds-bind (node_at-Ends sc owner) (λ o _ _.
                Holds-refuse (has_connection _ o.out.connections) s c.span _
                  (λ _. returns tt))))))))

  link_subjects-Keeps :
      (is : List ℕ) (a sc : Scope F) → Relinked a sc → Holds (Relinked a) (link_subjects s is sc)
  unfolding link_subjects
  link_subjects-Keeps [] a sc k = returns k
  link_subjects-Keeps (i ∷ is) a sc k = Holds-bind (or_crash-Ends (get_elem? sc.reqs i)) (λ r _ _.
      Holds-option (subject_value r.ast.body.subject) (λ _. link_subjects-Keeps is a sc k)
        (λ c _. Holds-bind (find_part-Ends sc s c none) (λ p _ _.
          Holds-bind (node_at-Ends sc p)
            (λ n _ _. link_subjects-Keeps is a _ (with_subject-Relinked i p n.out.id a sc k)))))

  link_connects-Keeps :
      (i : ℕ) (connects : List Connect) (a sc : Scope F)
      → Relinked a sc
      → Holds (Relinked a) (link_connects s i connects sc)
  unfolding link_connects
  link_connects-Keeps i [] a sc k = returns k
  link_connects-Keeps i (c ∷ connects) a sc k =
      Holds-bind (connect-Ends sc i c)
        (λ list _ _. link_connects-Keeps i connects a _ (with_part-Relinked i _ a sc (λ p. refl) k))

  link_satisfies-Keeps :
      (i : ℕ) (satisfies : List Satisfy) (a sc : Scope F)
      → Relinked a sc
      → Holds (Relinked a) (link_satisfies s i satisfies sc)
  unfolding link_satisfies
  link_satisfies-Keeps i [] a sc k = returns k
  link_satisfies-Keeps i (c ∷ satisfies) a sc k =
      Holds-bind (find_req-Ends sc s c.requirement) (λ r _ _.
        Holds-bind (find_part-Ends sc s c.by (some i)) (λ by _ _.
          Holds-bind (or_crash-Ends (get_elem? sc.reqs r)) (λ rn _ _.
            Holds-bind (node_at-Ends sc by) (λ bn _ _. link_satisfies-Keeps i satisfies a _ (
              with_part-Relinked by _ a _ (λ p. refl)
                (with_req-Relinked r _ a sc (λ q. refl) k))))))

  link_parts-Keeps :
      (is : List ℕ) (a sc : Scope F) → Relinked a sc → Holds (Relinked a) (link_parts s is sc)
  unfolding link_parts
  link_parts-Keeps [] a sc k = returns k
  link_parts-Keeps (i ∷ is) a sc k = Holds-bind (node_at-Ends sc i) (λ n _ _.
      Holds-bind (link_connects-Keeps i n.ast.connects a sc k) (λ b _ kb.
        Holds-bind (link_satisfies-Keeps i n.ast.satisfies a b kb)
          (λ c _ kc. link_parts-Keeps is a c kc)))

  link_derives-Keeps :
      (orig : ℕ) (derives : List FeatureChain) (a sc : Scope F)
      → Relinked a sc
      → Holds (Relinked a) (link_derives s orig derives sc)
  unfolding link_derives
  link_derives-Keeps orig [] a sc k = returns k
  link_derives-Keeps orig (c ∷ derives) a sc k = Holds-bind (find_req-Ends sc s c) (λ der _ _.
      Holds-bind (or_crash-Ends (get_elem? sc.reqs orig)) (λ on _ _.
        Holds-bind (or_crash-Ends (get_elem? sc.reqs der)) (λ dn _ _.
          link_derives-Keeps orig derives a _ (
            with_req-Relinked der _ a _ (λ q. refl)
              (with_req-Relinked orig _ a sc (λ q. refl) k)))))

  link_derivations-Keeps :
      (list : List DerivationConnection) (a sc : Scope F)
      → Relinked a sc
      → Holds (Relinked a) (link_derivations s list sc)
  unfolding link_derivations
  link_derivations-Keeps [] a sc k = returns k
  link_derivations-Keeps (d ∷ list) a sc k = Holds-bind (find_req-Ends sc s d.original) (λ orig _ _.
      Holds-bind (link_derives-Keeps orig d.derives a sc k)
        (λ b _ kb. link_derivations-Keeps list a b kb))

  link_objectives-Keeps :
      (v : ℕ) (objectives : List Objective) (a sc : Scope F)
      → Relinked a sc
      → Holds (Relinked a) (link_objectives s v objectives sc)
  unfolding link_objectives
  link_objectives-Keeps v [] a sc k = returns k
  link_objectives-Keeps v (o ∷ objectives) a sc k =
      Holds-bind (find_req-Ends sc s o.verify) (λ r _ _.
        Holds-bind (or_crash-Ends (get_elem? sc.reqs r)) (λ rn _ _.
          Holds-bind (or_crash-Ends (get_elem? sc.vcs v)) (λ vn _ _.
            link_objectives-Keeps v objectives a _ (
              with_req-Relinked r _ a _ (λ q. refl)
                (with_vc-Relinked v (λ c. record c { verifies = c.verifies ++ rn.out.id ∷ [] }) a sc
                  (λ c. refl) k)))))

  link_verifications-Keeps :
      (vs : List ℕ) (a sc : Scope F)
      → Relinked a sc
      → Holds (Relinked a) (link_verifications s vs sc)
  unfolding link_verifications
  link_verifications-Keeps [] a sc k = returns k
  link_verifications-Keeps (v ∷ vs) a sc k =
      Holds-bind (or_crash-Ends (get_elem? sc.vcs v)) (λ vn _ _.
        Holds-bind
          (link_objectives-Keeps v
            (objective_list (def_objective vn.def) ++ objective_list vn.ast.body.objective) a sc k)
          (λ b _ kb. link_verifications-Keeps vs a b kb))

  -- Linking ends; it adds links, and keeps all else of every part, requirement and verification case.
  pub link-Relinked :
      (list : List DerivationConnection) (sc : Scope F) → Holds (Relinked sc) (link s list sc)
  unfolding link
  link-Relinked list sc =
      Holds-bind (link_subjects-Keeps (indices sc.reqs) sc sc (Relinked-refl sc)) (λ a _ ka.
        Holds-bind (link_parts-Keeps (indices a.parts) sc a ka) (λ b _ kb.
          Holds-bind (link_derivations-Keeps list sc b kb)
            (λ c _ kc. link_verifications-Keeps (indices c.vcs) sc c kc)))
