-- ===== src/Model/Eval/Sound.antt =====
-- adapter/model/eval.go: what the bindings denote, apart from the memo and the fuel.
use mathlib.Core.List.{Mem, not-mem-nil, Nodup-nil}
use sysml_federation.Base.{◌≡◌, refl, sym, ap, ◌∙◌, subst, [], some, arith}
use sysml_federation.Model.Eval.Slots.{IsSlot}
use sysml_federation.Model.Eval.{value_of, chain_slot, combine, eval, scope_keys, eval_fuel}
use sysml_federation.Model.Nodes.{Slot, Scope, Quantity, Owner, Key, Memo, Arithmetic}
use sysml_federation.Model.Eval.Rule.{Rule, IsSound, eval-Good}
use sysml_federation.Model.Outcome.Holds.{Holds, Holds-map, done-injective}
use sysml_federation.Model.Outcome.{done, Source}
use sysml_federation.Syntax.Ast.{
  Operator, FeatureChain, Literal, Expr, literal, feature_chain, binary,
}
use sysml_federation.Syntax.Token.{Span}
use sysml_federation.Model.Eval.Keys.{key_at, IsSlot-Mem}

-- What a binding denotes: chains are followed to the slot that they lead to, and its binding is what
-- counts. Neither the memo nor the fuel matters here.
pub data Denotes {F : Type 0} (s : Source) (sc : Scope F) (floats : Arithmetic F)
    : Owner → Expr F → Quantity F → Type 0 where
  of_literal :
      {owner : Owner} {l : Literal F}
      → Denotes s sc floats owner (literal l) (record { num = l.number; unit = l.unit })
  of_chain :
      {owner of : Owner} {c : FeatureChain} {slot : Slot F} {e : Expr F} {q : Quantity F}
      → chain_slot s sc owner c ≡ done (of, slot)
      → slot.bind ≡ some e
      → Denotes s sc floats of e q
      → Denotes s sc floats owner (feature_chain c) q
  of_binary :
      {owner : Owner} {op : Operator} {l r : Expr F} {at : Span} {ql qr q : Quantity F}
      → Denotes s sc floats owner l ql
      → Denotes s sc floats owner r qr
      → combine s sc floats op ql qr at ≡ done q
      → Denotes s sc floats owner (binary op l r at) q

module _ {F : Type 0} (s : Source) (sc : Scope F) (floats : Arithmetic F) where
  -- No value is denoted beside it.
  pub Denotes-unique :
      {owner : Owner} {e : Expr F} {q p : Quantity F}
      → Denotes s sc floats owner e q
      → Denotes s sc floats owner e p
      → q ≡ p
  Denotes-unique of_literal of_literal = refl
  Denotes-unique {p = p} (of_chain {of = o} {slot = slot} {e = e} to bound d)
        (of_chain {of = o'} {slot = slot'} {e = e'} to' bound' d') =
      let a : Owner × Slot F = (o, slot) in
      let b : Owner × Slot F = (o', slot') in
      let same : a ≡ b = done-injective (sym to ∙ to') in
      let at : o' ≡ o = ap (λ (x : Owner × Slot F). x.0) (sym same) in
      let bind : some e ≡ some e' =
        sym bound ∙ ap (λ (x : Owner × Slot F). x.1.bind) same ∙ bound' in
      let body : e' ≡ e = ground (arith, bind) in
      Denotes-unique d (
        subst (λ x. Denotes s sc floats x e p) at (subst (λ y. Denotes s sc floats o' y p) body d'))
  Denotes-unique (of_binary l r c) (of_binary l' r' c') =
      cc (Denotes-unique l l', Denotes-unique r r', c, c')

  -- The owner's slot of this name is bound to the expression.
  abbrev pub Bound : Key → Expr F → Type 0
  Bound k e =
      (slot : Slot F) × IsSlot s sc k.owner slot × (slot.name ≡ k.name) × (slot.bind ≡ some e)

  pub Bound-unique : (k : Key) (e d : Expr F) → Bound k e → Bound k d → e ≡ d
  Bound-unique k e d (slot, (slots, o, f), n, b) (slot', (slots', o', f'), n', b') =
      let same : slots ≡ slots' = done-injective (sym o ∙ o') in
      let found : some slot ≡ some slot' = cc (f, f', n, n', same) in
      let there : slot ≡ slot' = ground (arith, found) in
      let bind : some e ≡ some d = sym b ∙ ap (λ (x : Slot F). x.bind) there ∙ b' in
      ground (arith, bind)

  unfoldable pub denoting : Rule s sc floats
  denoting = record {
    Value = Denotes s sc floats;
    Bound = Bound;
    known = λ k e b.
        subst (λ x. Mem (key_at k.owner x) (scope_keys s sc)) b.2 (IsSlot-Mem s sc k.owner b.0 b.1);
    slot = λ {of} {slot} i bound. (slot, i, refl, bound);
    same = λ k e d q b c v. subst (λ x. Denotes s sc floats k.owner x q) (Bound-unique k e d b c) v;
    of_literal = λ owner l. of_literal;
    of_chain = λ to bound d. of_chain to bound d;
    of_binary = λ dl dr c. of_binary dl dr c;
  }

  pub empty-IsSound : IsSound s sc floats denoting (record { values = []; busy = [] })
  unfolding value_of
  empty-IsSound = record {
    values = λ k q e v b. absurd (ground (arith, v));
    once = Nodup-nil;
    known = λ k m. absurd (not-mem-nil m);
  }

  -- For a memo whose values are those that their bindings denote, and with no binding busy, eval with the
  -- fuel that the builder gives it neither runs out of fuel nor gives another value than the one that
  -- the slot's expression denotes; it leaves the memo as sound as it was, and no binding busy.
  pub eval-Denotes :
      (owner : Owner) (slot : Slot F) (e : Expr F) (m : Memo F)
      → IsSlot s sc owner slot
      → slot.bind ≡ some e
      → IsSound s sc floats denoting m
      → m.busy ≡ []
      → Holds
          (λ r.
            Denotes s sc floats owner e r.0 × IsSound s sc floats denoting r.1 × (r.1.busy ≡ []))
          (eval s sc floats (eval_fuel s sc) owner slot.name e m)
  unfolding eval_fuel denoting
  eval-Denotes owner slot e m i bound sound idle =
      Holds-map
        (eval-Good s sc floats denoting (eval_fuel s sc) owner slot.name e m sound
          (slot, i, refl, bound) (omega arith))
        (λ r _ (d, later, busy). (d, later, busy ∙ idle))
