-- ===== src/Model/Eval/Complete.antt =====
-- Runs of eval on bindings that denote a value.
use mathlib.Core.List.{Mem, not-mem-nil, mem-cons, mem-cons_of_mem}
use mathlib.Core.Logic.Or
use sysml_federation.Base.{
  ℕ, zero, suc, ◌+◌, ◌≤◌, ◌<◌, ◌≡◌, refl, sym, ap, ◌∙◌, subst, inl, inr, List, [], ◌∷◌, true, false,
  none, some, arith, length, length-subset, Bytes, Bool-cases, Option-cases,
}
use sysml_federation.Model.Eval.Heights.{
  DenotesIn, in_literal, in_chain, in_binary, Denotes-DenotesIn, DenotesIn-Denotes, Above,
  Above-cons,
}
use sysml_federation.Model.Eval.Keys.{key_at, key_eq_sound}
use sysml_federation.Model.Eval.Rule.{IsSound, Good, eval-Good, expr-Good, begun-IsSound}
use sysml_federation.Model.Eval.Slots.{IsSlot, chain_slot-IsSlot}
use sysml_federation.Model.Eval.Sound.{Denotes, Denotes-unique, Bound, denoting}
use sysml_federation.Model.Eval.{
  key_eq, value_of, is_busy, remove_key, slot_value, expr, eval, scope_keys, eval_fuel,
}
use sysml_federation.Model.Nodes.{Slot, Scope, Quantity, Owner, Key, Memo, Arithmetic}
use sysml_federation.Model.Outcome.Holds.{Holds, Holds-done}
use sysml_federation.Model.Outcome.{Outcome, done, Source, refuse_if}
use sysml_federation.Syntax.Ast.{Expr, literal, feature_chain, binary}
use sysml_federation.Syntax.Token.{Span}

is_busy-true : (k : Key) (busy : List Key) → is_busy k busy ≡ true → Mem k busy
unfolding is_busy
is_busy-true k [] h = absurd (ground arith)
is_busy-true k (j ∷ busy) h = elim (Bool-cases (key_eq j k)) [
  | inl e ↦ mem-cons.1 (Or.inl (sym (key_eq_sound j k e)))
  | inr e ↦ mem-cons_of_mem j (is_busy-true k busy (ground (arith, h, e)))
]

module _ {F : Type 0} (s : Source) (sc : Scope F) (floats : Arithmetic F) where
  slot_value-bound :
      (ev : Owner → Bytes → Expr F → Memo F → Outcome (Quantity F × Memo F)) (of : Owner)
      (slot : Slot F) (e : Expr F) (at : Span) (m : Memo F)
      → slot.bind ≡ some e
      → slot_value s sc floats ev of slot at m ≡ ev of slot.name e m
  unfolding slot_value
  slot_value-bound ev of slot e at m bound = rw bound

  expr-Gives :
      (ev : Owner → Bytes → Expr F → Memo F → Outcome (Quantity F × Memo F)) (busy : List Key)
      (n : ℕ)
      → ((owner : Owner) (name : Bytes) (e : Expr F) (m : Memo F)
          → m.busy ≡ busy
          → IsSound s sc floats (denoting s sc floats) m
          → Bound s sc floats (key_at owner name) e
          → Holds (Good s sc floats (denoting s sc floats) owner e busy) (ev owner name e m))
      → ((owner : Owner) (name : Bytes) (e : Expr F) (q : Quantity F) (j : ℕ) (m : Memo F)
          → m.busy ≡ busy
          → IsSound s sc floats (denoting s sc floats) m
          → Bound s sc floats (key_at owner name) e
          → DenotesIn s sc floats j owner e q
          → j < n
          → (m' : Memo F) × (ev owner name e m ≡ done (q, m')))
      → (owner : Owner) (e : Expr F) (q : Quantity F) (j : ℕ) (m : Memo F) → m.busy ≡ busy
      → IsSound s sc floats (denoting s sc floats) m
      → DenotesIn s sc floats j owner e q
      → j ≤ n
      → (m' : Memo F) × (expr s sc floats ev owner e m ≡ done (q, m'))
  unfolding expr denoting
  expr-Gives ev busy n good gives owner (literal l) _ _ m b sound in_literal h = (m, refl)
  expr-Gives ev busy n good gives owner (feature_chain c) q _ m b sound
        (in_chain {n = j} {of = of} {slot = slot} {e = e} to bound d) h =
      let i : IsSlot s sc of slot = Holds-done (chain_slot-IsSlot s sc owner c) to in
      let (m', given) = gives of slot.name e q j m b sound (slot, i, refl, bound) d (omega arith) in
      (m', rw to (slot_value-bound ev of slot e c.span m bound ∙ given))
  expr-Gives ev busy n good gives owner (binary op l r at) q _ m b sound
        (in_binary {m = x} {n = y} {ql = ql} {qr = qr} dl dr c) h =
      let (ml, el) = expr-Gives ev busy n good gives owner l ql x m b sound dl (omega arith) in
      let gl =
        Holds-done (expr-Good s sc floats (denoting s sc floats) ev busy good owner l m b sound)
          el in
      let (mr, er) = expr-Gives ev busy n good gives owner r qr y ml gl.2 gl.1 dr (omega arith) in
      (mr, rw el (rw er (rw c refl)))

  eval-remembers :
      (fuel : ℕ) (owner : Owner) (name : Bytes) (e : Expr F) (m : Memo F) {p : Quantity F}
      → value_of (key_at owner name) m.values ≡ some p
      → eval s sc floats (suc fuel) owner name e m ≡ done (p, m)
  unfolding eval
  eval-remembers fuel owner name e m v = rw (v, eval) refl

  eval-stores :
      (fuel : ℕ) (owner : Owner) (name : Bytes) (e : Expr F) (q : Quantity F) (m m' : Memo F)
      → value_of (key_at owner name) m.values ≡ none
      → is_busy (key_at owner name) m.busy ≡ false
      → expr s sc floats
          (eval s sc floats fuel)
          owner
          e
          (record m { busy = key_at owner name ∷ m.busy })
        ≡ done (q, m')
      → eval s sc floats (suc fuel) owner name e m
        ≡ done (
          q,
          record {
            values = (key_at owner name, q) ∷ m'.values;
            busy = remove_key (key_at owner name) m'.busy;
          },
        )
  unfolding eval refuse_if
  eval-stores fuel owner name e q m m' v free given = rw (v, eval) (rw free (rw given refl))

  eval-Gives :
      (fuel : ℕ) (owner : Owner) (name : Bytes) (e : Expr F) (q : Quantity F) (n : ℕ) (m : Memo F)
      → IsSound s sc floats (denoting s sc floats) m
      → Bound s sc floats (key_at owner name) e
      → Above s sc floats n m.busy
      → DenotesIn s sc floats n owner e q
      → length (scope_keys s sc) < fuel + length m.busy
      → (m' : Memo F) × (eval s sc floats fuel owner name e m ≡ done (q, m'))
  unfolding denoting
  eval-Gives zero owner name e q n m sound bound above d h =
      absurd (omega (arith, length-subset m.busy (scope_keys s sc) sound.once sound.known))
  eval-Gives (suc fuel) owner name e q n m sound bound above d h =
      let k : Key = key_at owner name in
      elim (Option-cases (value_of k m.values)) [
        | inr (p, v) ↦
            let same : p ≡ q =
              Denotes-unique s sc floats (sound.values k p e v bound)
                (DenotesIn-Denotes s sc floats d) in
            (m, eval-remembers fuel owner name e m v ∙ ap (λ x. done (x, m)) same)
        | inl v ↦ elim (Bool-cases (is_busy k m.busy)) [
          | inl b ↦ absurd (omega (arith, above k e q n (is_busy-true k m.busy b) bound d))
          | inr free ↦
              let (m', given) =
                expr-Gives (eval s sc floats fuel) (k ∷ m.busy) n
                  (λ o i x m' b later bound'.
                    subst
                      (λ y.
                        Holds (Good s sc floats (denoting s sc floats) o x y)
                          (eval s sc floats fuel o i x m'))
                      b
                      (eval-Good s sc floats (denoting s sc floats) fuel o i x m' later bound'
                        (omega (arith, ap length b))))
                  (λ o i x p j m' b later bound' d' lower.
                    eval-Gives fuel o i x p j m' later bound'
                      (subst (Above s sc floats j) (sym b)
                        (Above-cons s sc floats n j k e q m.busy bound d above lower))
                      d' (omega (arith, ap length b)))
                  owner e q n (record m { busy = k ∷ m.busy }) refl
                  (begun-IsSound s sc floats (denoting s sc floats) k e m bound free sound) d
                  (omega arith) in
              (_, eval-stores fuel owner name e q m m' v free given)
        ]
      ]

  -- Where a slot's expression denotes a value, eval with the fuel that the builder gives it gives that
  -- value, from every memo whose values are those that their bindings denote and with no binding busy:
  -- neither the guard against cycles nor the memo stands in the way.
  pub eval_complete :
      (owner : Owner) (slot : Slot F) (e : Expr F) (q : Quantity F) (m : Memo F)
      → IsSlot s sc owner slot
      → slot.bind ≡ some e
      → IsSound s sc floats (denoting s sc floats) m
      → m.busy ≡ []
      → Denotes s sc floats owner e q
      → (m' : Memo F) × (eval s sc floats (eval_fuel s sc) owner slot.name e m ≡ done (q, m'))
  unfolding eval_fuel denoting
  eval_complete owner slot e q m i bound sound idle d =
      let (n, d') = Denotes-DenotesIn s sc floats d in
      eval-Gives (eval_fuel s sc) owner slot.name e q n m sound (slot, i, refl, bound)
        (λ k x p j b bound' deeper. absurd (not-mem-nil (subst (Mem k) idle b))) d' (omega arith)
