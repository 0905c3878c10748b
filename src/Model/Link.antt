-- ===== src/Model/Link.antt =====
-- adapter/model/build.go: link, which connects the elements once all of them are there.
pub mod Keeps
pub mod Wires
use sysml_federation.Base.{
  ℕ, zero, suc, List, [], ◌∷◌, ◌++◌, Bool, true, false, Option, none, some, Bytes, length,
  update_nth, indices_from, get_elem?,
}
use sysml_federation.Model.Eval.{req_at}
use sysml_federation.Model.Nodes.{
  Connection, Part, Requirement, VerificationCase, PartNode, ReqNode, VcNode, Scope,
}
use sysml_federation.Model.Outcome.{
  Outcome, done, refused, crash, out_of_fuel, pure, ◌>>=◌, Source, fail,
}
use sysml_federation.Model.Resolve.{or_crash, node_at, find_part, find_req, connect}
use sysml_federation.Syntax.Ast.{
  FeatureChain, Subject, Connect, Satisfy, Objective, VerificationDef, DerivationConnection,
  Package,
}

abbrev pub indices {ℓ} : {A : Type ℓ} → List A → List ℕ
indices list = indices_from 0 (length list)

-- The value of the usage's subject, where it has both.
abbrev pub subject_value : Option Subject → Option FeatureChain
subject_value none = none
subject_value (some subject) = subject.value

-- The objectives of a verification: its definition's, then its own.
abbrev pub objective_list : Option Objective → List Objective
objective_list none = []
objective_list (some o) = o ∷ []

abbrev pub def_objective : Option VerificationDef → Option Objective
def_objective none = none
def_objective (some d) = d.body.objective

module _ {F : Type 0} where
  abbrev pub with_part : ℕ → (Part F → Part F) → Scope F → Scope F
  with_part i f sc = record sc { parts = update_nth i (λ n. record n { out = f n.out }) sc.parts }

  abbrev pub with_req : ℕ → (Requirement F → Requirement F) → Scope F → Scope F
  with_req i f sc = record sc { reqs = update_nth i (λ n. record n { out = f n.out }) sc.reqs }

  abbrev pub with_vc : ℕ → (VerificationCase → VerificationCase) → Scope F → Scope F
  with_vc i f sc = record sc { vcs = update_nth i (λ n. record n { out = f n.out }) sc.vcs }

  abbrev pub with_subject : ℕ → ℕ → Bytes → Scope F → Scope F
  with_subject i p id sc = record sc {
    reqs =
        update_nth i (λ n. record n { subject = some p; out = record n.out { subject = id } })
          sc.reqs;
  }

module _ {F : Type 0} (s : Source) where
  -- The first loop of link, over the requirements.
  unfoldable pub link_subjects : List ℕ → Scope F → Outcome (Scope F)
  link_subjects [] sc = pure sc
  link_subjects (i ∷ is) sc = req_at sc i >>= λ r. elim (subject_value r.ast.body.subject) [
    | none ↦ link_subjects is sc
    | some c ↦ find_part s sc c none >>= λ p.
        node_at sc p >>= λ n. link_subjects is (with_subject i p n.out.id sc)
  ]

  unfoldable pub link_connects : ℕ → List Connect → Scope F → Outcome (Scope F)
  link_connects i [] sc = pure sc
  link_connects i (c ∷ connects) sc = connect s sc i c >>= λ connections.
      link_connects i connects (with_part i (λ p. record p { connections = connections }) sc)

  unfoldable pub link_satisfies : ℕ → List Satisfy → Scope F → Outcome (Scope F)
  link_satisfies i [] sc = pure sc
  link_satisfies i (c ∷ satisfies) sc = find_req s sc c.requirement >>= λ r.
      find_part s sc c.by (some i) >>= λ by. req_at sc r >>= λ rn. node_at sc by >>= λ bn.
      link_satisfies i satisfies (
        with_part by (λ p. record p { satisfies = p.satisfies ++ rn.out.id ∷ [] })
          (with_req r (λ q. record q { satisfied_by = q.satisfied_by ++ bn.out.id ∷ [] }) sc))

  -- The second loop, over the parts.
  unfoldable pub link_parts : List ℕ → Scope F → Outcome (Scope F)
  link_parts [] sc = pure sc
  link_parts (i ∷ is) sc = node_at sc i >>= λ n. link_connects i n.ast.connects sc >>= λ sc'.
      link_satisfies i n.ast.satisfies sc' >>= λ sc''. link_parts is sc''

  unfoldable pub link_derives : ℕ → List FeatureChain → Scope F → Outcome (Scope F)
  link_derives orig [] sc = pure sc
  link_derives orig (c ∷ derives) sc = find_req s sc c >>= λ der. req_at sc orig >>= λ on.
      req_at sc der >>= λ dn. link_derives orig derives (
        with_req der (λ q. record q { derived_from = q.derived_from ++ on.out.id ∷ [] })
          (with_req orig (λ q. record q { derives = q.derives ++ dn.out.id ∷ [] }) sc))

  unfoldable pub link_derivations : List DerivationConnection → Scope F → Outcome (Scope F)
  link_derivations [] sc = pure sc
  link_derivations (d ∷ derivations) sc = find_req s sc d.original >>= λ orig.
      link_derives orig d.derives sc >>= λ sc'. link_derivations derivations sc'

  unfoldable pub link_objectives : ℕ → List Objective → Scope F → Outcome (Scope F)
  link_objectives v [] sc = pure sc
  link_objectives v (o ∷ objectives) sc = find_req s sc o.verify >>= λ r. req_at sc r >>= λ rn.
      or_crash (get_elem? sc.vcs v) >>= λ vn. link_objectives v objectives (
        with_req r (λ q. record q { verified_by = q.verified_by ++ vn.out.id ∷ [] })
          (with_vc v (λ c. record c { verifies = c.verifies ++ rn.out.id ∷ [] }) sc))

  unfoldable pub link_verifications : List ℕ → Scope F → Outcome (Scope F)
  link_verifications [] sc = pure sc
  link_verifications (v ∷ vs) sc = or_crash (get_elem? sc.vcs v) >>= λ vn.
      link_objectives v
        (objective_list (def_objective vn.def) ++ objective_list vn.ast.body.objective) sc
      >>= λ sc'. link_verifications vs sc'

  unfoldable pub link : List DerivationConnection → Scope F → Outcome (Scope F)
  link derivations sc = link_subjects (indices sc.reqs) sc >>= λ a.
      link_parts (indices a.parts) a >>= λ b.
      link_derivations derivations b >>= λ c. link_verifications (indices c.vcs) c
