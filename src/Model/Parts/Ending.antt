-- ===== src/Model/Parts/Ending.antt =====
-- The definitions of a usage.
use sysml_federation.Base.{[], Option, none, some, Bytes, bytes_eq, lookup}
use sysml_federation.Model.Declare.Ending.{def_chain-Ends, add_slots-Ends}
use sysml_federation.Model.Nodes.{Definitions}
use sysml_federation.Model.Outcome.Holds.{returns, Ends, Holds-fail, Holds-if, Holds-option}
use sysml_federation.Model.Outcome.{Source}
use sysml_federation.Model.Parts.{usage_defs, usage_req_def, def_req_slots, usage_vc_def}
use sysml_federation.Syntax.Ast.{RequirementDef}
use sysml_federation.Syntax.Token.{Span}

module _ {F : Type 0} (s : Source) (defs : Definitions F) where
  pub usage_defs-Ends : (type : Bytes) (at : Span) → Ends (usage_defs s defs type at)
  unfolding usage_defs
  usage_defs-Ends type at =
      Holds-if (bytes_eq type []) (λ _. returns tt) (λ _. def_chain-Ends s defs type at)

  pub usage_req_def-Ends : (type : Bytes) (at : Span) → Ends (usage_req_def s defs type at)
  unfolding usage_req_def
  usage_req_def-Ends type at =
      Holds-if (bytes_eq type []) (λ _. returns tt)
        (λ _. Holds-option (lookup type defs.req_defs) (λ _. Holds-fail s at _) (λ d _. returns tt))

  pub def_req_slots-Ends : (d : Option (RequirementDef F)) → Ends (def_req_slots s defs d)
  def_req_slots-Ends none = returns tt
  def_req_slots-Ends (some d) = add_slots-Ends s [] d.body.attributes d.name

  pub usage_vc_def-Ends : (type : Bytes) (at : Span) → Ends (usage_vc_def s defs type at)
  unfolding usage_vc_def
  usage_vc_def-Ends type at =
      Holds-if (bytes_eq type []) (λ _. returns tt)
        (λ _. Holds-option (lookup type defs.vc_defs) (λ _. Holds-fail s at _) (λ d _. returns tt))
