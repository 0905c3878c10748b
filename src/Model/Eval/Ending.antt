-- ===== src/Model/Eval/Ending.antt =====
-- eval in any scope.
use mathlib.Core.List.{Mem, not-mem-nil, Nodup, Nodup-nil}
use sysml_federation.Base.{◌≡◌, sym, ◌∙◌, subst, [], Bytes, arith}
use sysml_federation.Model.Eval.Keys.{key_at, IsSlot-Mem}
use sysml_federation.Model.Eval.Rule.{Rule, eval-Good}
use sysml_federation.Model.Eval.{eval, eval_fuel, scope_keys}
use sysml_federation.Model.Nodes.{Scope, Owner, Memo, Arithmetic}
use sysml_federation.Model.Outcome.Holds.{Holds, Holds-map}
use sysml_federation.Model.Outcome.{Source}
use sysml_federation.Syntax.Ast.{Expr}

module _ {F : Type 0} (s : Source) (sc : Scope F) (floats : Arithmetic F) where
  ending : Rule s sc floats
  ending = record {
    Value = λ owner e q. Unit {0};
    Bound = λ k e. Mem k (scope_keys s sc);
    known = λ k e b. b;
    slot = λ {of} {slot} i bound. IsSlot-Mem s sc of slot i;
    same = λ k e d q b c v. tt;
    of_literal = λ owner l. tt;
    of_chain = λ to bound d. tt;
    of_binary = λ dl dr c. tt;
  }

  pub eval-Ends :
      (owner : Owner) (name : Bytes) (e : Expr F) (m : Memo F)
      → Mem (key_at owner name) (scope_keys s sc)
      → m.busy ≡ []
      → Holds (λ r. r.1.busy ≡ []) (eval s sc floats (eval_fuel s sc) owner name e m)
  unfolding eval_fuel ending
  eval-Ends owner name e m i idle =
      Holds-map
        (eval-Good s sc floats ending (eval_fuel s sc) owner name e m
          (record {
            values = λ k q x v b. tt;
            once = subst Nodup (sym idle) Nodup-nil;
            known = λ k b. absurd (not-mem-nil (subst (Mem k) idle b));
          })
          i (omega arith))
        (λ r _ (d, later, busy). busy ∙ idle)
