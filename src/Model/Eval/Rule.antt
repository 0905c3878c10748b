-- ===== src/Model/Eval/Rule.antt =====
-- The rule by which eval is reasoned about: what is judged of literals, chains and operators is judged
-- of every result.
use mathlib.Core.List.{Mem, Mem-prop, mem-cons, mem-cons_of_mem, Nodup, Nodup-cons}
use mathlib.Core.Logic.Or
use sysml_federation.Base.{
  ℕ, zero, suc, ◌+◌, ◌<◌, ◌≡◌, refl, sym, ap, ◌∙◌, subst, inl, inr, List, [], ◌∷◌, true, false, not,
  ◌&&◌, ◌||◌, some, arith, length, length-subset, Bytes, bytes_eq, Bool-cases,
}
use sysml_federation.Model.Eval.Slots.{IsSlot, chain_slot-IsSlot}
use sysml_federation.Model.Eval.{
  key_eq, value_of, is_busy, remove_key, expr_span, chain_slot, combine, slot_value, expr, eval,
  join_units, apply_operator, scope_keys,
}
use sysml_federation.Model.Nodes.{Slot, Scope, Quantity, Owner, Key, Memo, Arithmetic}
use sysml_federation.Model.Outcome.Holds.{
  Holds, returns, Ends, Holds-bind, Holds-fail, Holds-if, Holds-option, Holds-refuse, Holds-map,
}
use sysml_federation.Model.Outcome.{Outcome, done, Source}
use sysml_federation.Syntax.Ast.{
  Operator, FeatureChain, Literal, Expr, literal, feature_chain, binary,
}
use sysml_federation.Syntax.Token.{Span}
use sysml_federation.Model.Eval.Keys.{key_at, key_eq_sound, is_busy-Mem, remove_key-cons}

-- What is judged of the value of an expression, and of the expression that a key is bound to.
pub record Rule {F : Type 0} (s : Source) (sc : Scope F) (floats : Arithmetic F) : Type 1 where
  pub Value : Owner → Expr F → Quantity F → Type 0
  pub Bound : Key → Expr F → Type 0
  pub known : (k : Key) (e : Expr F) → Bound k e → Mem k (scope_keys s sc)
  pub slot :
      {of : Owner} {slot : Slot F} {e : Expr F}
      → IsSlot s sc of slot
      → slot.bind ≡ some e
      → Bound (key_at of slot.name) e
  pub same :
      (k : Key) (e d : Expr F) (q : Quantity F)
      → Bound k e
      → Bound k d
      → Value k.owner e q
      → Value k.owner d q
  pub of_literal :
      (owner : Owner) (l : Literal F)
      → Value owner (literal l) (record { num = l.number; unit = l.unit })
  pub of_chain :
      {owner of : Owner} {c : FeatureChain} {slot : Slot F} {e : Expr F} {q : Quantity F}
      → chain_slot s sc owner c ≡ done (of, slot)
      → slot.bind ≡ some e
      → Value of e q
      → Value owner (feature_chain c) q
  pub of_binary :
      {owner : Owner} {op : Operator} {l r : Expr F} {at : Span} {ql qr q : Quantity F}
      → Value owner l ql
      → Value owner r qr
      → combine s sc floats op ql qr at ≡ done q
      → Value owner (binary op l r at) q

module _ {F : Type 0} where
  value_of-same :
      (k j : Key) (q : Quantity F) (values : List (Key × Quantity F)) {p : Quantity F}
      → key_eq k j ≡ true
      → value_of j ((k, q) ∷ values) ≡ some p
      → q ≡ p
  unfolding value_of
  value_of-same k j q values same v = ground (arith, v, same)

  value_of-other :
      (k j : Key) (q : Quantity F) (values : List (Key × Quantity F)) {p : Quantity F}
      → key_eq k j ≡ false
      → value_of j ((k, q) ∷ values) ≡ some p
      → value_of j values ≡ some p
  unfolding value_of
  value_of-other k j q values other v = ground (arith, v, other)

module _ {F : Type 0} (s : Source) (sc : Scope F) (floats : Arithmetic F) where
  combine-Ends :
      (op : Operator) (l r : Quantity F) (at : Span) → Ends (combine s sc floats op l r at)
  unfolding combine join_units apply_operator
  combine-Ends op l r at = Holds-bind (units l.unit r.unit) (λ unit _ _.
      Holds-bind (operator op l.num r.num)
        (λ n _ _. Holds-refuse (floats.is_inf n || floats.is_nan n) s at _ (λ _. returns tt)))
    where
      units : (l r : Bytes) → Ends (join_units s sc floats l r at)
      units l r =
          Holds-if (bytes_eq l []) (λ _. returns tt)
            (λ _.
              Holds-if (not (bytes_eq r []) && not (bytes_eq r l)) (λ _. Holds-fail s at _)
                (λ _. returns tt))

      operator : (op : Operator) (l r : F) → Ends (apply_operator s sc floats op l r at)
      operator Operator.add l r = returns tt
      operator Operator.sub l r = returns tt
      operator Operator.mul l r = returns tt
      operator Operator.div l r = Holds-refuse (floats.is_zero r) s at _ (λ _. returns tt)

module _ {F : Type 0} (s : Source) (sc : Scope F) (floats : Arithmetic F)
    (rule : Rule s sc floats) where
  -- Every value of the memo is judged of what its key is bound to, and the busy keys are keys of the
  -- model, each of them once.
  pub record IsSound (m : Memo F) : Type 0 where
    pub values :
        (k : Key) (q : Quantity F) (e : Expr F)
        → value_of k m.values ≡ some q
        → rule.Bound k e
        → rule.Value k.owner e q
    pub once : Nodup m.busy
    pub known : (k : Key) → Mem k m.busy → Mem k (scope_keys s sc)

  -- A result is judged; the memo is sound again, and as many are busy as before.
  abbrev pub Good : Owner → Expr F → List Key → Quantity F × Memo F → Type 0
  Good owner e busy r = rule.Value owner e r.0 × IsSound r.1 × (r.1.busy ≡ busy)

  slot_value-Good :
      (ev : Owner → Bytes → Expr F → Memo F → Outcome (Quantity F × Memo F)) (busy : List Key)
      → ((owner : Owner) (name : Bytes) (e : Expr F) (m : Memo F)
          → m.busy ≡ busy
          → IsSound m
          → rule.Bound (key_at owner name) e
          → Holds (Good owner e busy) (ev owner name e m))
      → (owner : Owner) (c : FeatureChain) (of : Owner) (slot : Slot F) (m : Memo F)
      → chain_slot s sc owner c ≡ done (of, slot)
      → IsSlot s sc of slot
      → m.busy ≡ busy
      → IsSound m
      → Holds (Good owner (feature_chain c) busy) (slot_value s sc floats ev of slot c.span m)
  unfolding slot_value
  slot_value-Good ev busy spec owner c of slot m to i b sound =
      Holds-option slot.bind (λ _. Holds-fail s c.span _)
        (λ e bound.
          Holds-map (spec of slot.name e m b sound (rule.slot i bound))
            (λ r _ (d, later, same). (rule.of_chain to bound d, later, same)))

  pub expr-Good :
      (ev : Owner → Bytes → Expr F → Memo F → Outcome (Quantity F × Memo F)) (busy : List Key)
      → ((owner : Owner) (name : Bytes) (e : Expr F) (m : Memo F)
          → m.busy ≡ busy
          → IsSound m
          → rule.Bound (key_at owner name) e
          → Holds (Good owner e busy) (ev owner name e m))
      → (owner : Owner) (e : Expr F) (m : Memo F) → m.busy ≡ busy
      → IsSound m
      → Holds (Good owner e busy) (expr s sc floats ev owner e m)
  unfolding expr
  expr-Good ev busy spec owner (literal l) m b sound = returns (rule.of_literal owner l, sound, b)
  expr-Good ev busy spec owner (feature_chain c) m b sound =
      Holds-bind (chain_slot-IsSlot s sc owner c)
        (λ r to i. slot_value-Good ev busy spec owner c r.0 r.1 m to i b sound)
  expr-Good ev busy spec owner (binary op l r at) m b sound =
      Holds-bind (expr-Good ev busy spec owner l m b sound) (λ x _ (dl, sl, bl).
        Holds-bind (expr-Good ev busy spec owner r x.1 bl sl) (λ y _ (dr, sr, br).
          Holds-bind (combine-Ends s sc floats op x.0 y.0 at)
            (λ q c _. returns (rule.of_binary dl dr c, sr, br))))

  known-cons :
      (k : Key) (busy : List Key)
      → Mem k (scope_keys s sc)
      → ((j : Key) → Mem j busy → Mem j (scope_keys s sc))
      → (j : Key) → Mem j (k ∷ busy)
      → Mem j (scope_keys s sc)
  known-cons k busy here known j m =
      Or.elim Mem-prop (mem-cons.0 m) (λ same. subst (λ x. Mem x (scope_keys s sc)) (sym same) here)
        (known j)

  -- The value of a binding that is done is stored, and it is busy no longer.
  stored-IsSound :
      (k : Key) (e : Expr F) (q : Quantity F) (m : Memo F) (busy : List Key)
      → rule.Bound k e
      → is_busy k busy ≡ false
      → Good k.owner e (k ∷ busy) (q, m)
      → Good k.owner e busy (q, record { values = (k, q) ∷ m.values; busy = remove_key k m.busy })
  stored-IsSound k e q m busy bound free (d, sound, b) =
      let less : remove_key k m.busy ≡ busy = ap (remove_key k) b ∙ remove_key-cons k busy free in
      let once : Nodup (k ∷ busy) = subst Nodup b sound.once in
      (
        d,
        record {
          values = λ j p x v w. elim (Bool-cases (key_eq k j)) [
            | inl same ↦
                let here : k ≡ j = key_eq_sound k j same in
                let value : q ≡ p = value_of-same k j q m.values same v in
                subst (λ y. rule.Value j.owner x y) value
                  (rule.same j e x q (subst (λ y. rule.Bound y e) here bound) w
                    (subst (λ y. rule.Value y.owner e q) here d))
            | inr other ↦ sound.values j p x (value_of-other k j q m.values other v) w
          ];
          once = subst Nodup (sym less) (Nodup-cons.0 once).1;
          known = λ j i.
              sound.known j (subst (Mem j) (sym b) (mem-cons_of_mem k (subst (Mem j) less i)));
        },
        less,
      )

  pub begun-IsSound :
      (k : Key) (e : Expr F) (m : Memo F)
      → rule.Bound k e
      → is_busy k m.busy ≡ false
      → IsSound m
      → IsSound (record m { busy = k ∷ m.busy })
  begun-IsSound k e m bound free sound = record {
    values = sound.values;
    once = Nodup-cons.1 (is_busy-Mem k m.busy free, sound.once);
    known = known-cons k m.busy (rule.known k e bound) sound.known;
  }

  -- With fuel for every binding that is not busy, eval ends, and a result is judged.
  pub eval-Good :
      (fuel : ℕ) (owner : Owner) (name : Bytes) (e : Expr F) (m : Memo F)
      → IsSound m
      → rule.Bound (key_at owner name) e
      → length (scope_keys s sc) < fuel + length m.busy
      → Holds (Good owner e m.busy) (eval s sc floats fuel owner name e m)
  unfolding eval
  eval-Good zero owner name e m sound bound h =
      absurd (omega (arith, length-subset m.busy (scope_keys s sc) sound.once sound.known))
  eval-Good (suc fuel) owner name e m sound bound h =
      let k : Key = key_at owner name in
      Holds-option (value_of k m.values)
        (λ _. Holds-refuse (is_busy k m.busy) s (expr_span e) _ (λ free.
          Holds-bind
            (expr-Good (eval s sc floats fuel) (k ∷ m.busy)
              (λ o n x m' b later bound'.
                subst (λ y. Holds (Good o x y) (eval s sc floats fuel o n x m')) b
                  (eval-Good fuel o n x m' later bound' (omega (arith, ap length b))))
              owner e (record m { busy = k ∷ m.busy }) refl (begun-IsSound k e m bound free sound))
            (λ r _ good. returns (stored-IsSound k e r.0 r.1 m.busy bound free good))))
        (λ q v. returns (sound.values k q e v bound, sound, refl))
