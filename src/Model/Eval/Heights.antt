-- ===== src/Model/Eval/Heights.antt =====
-- The height of the derivation of a value.
use mathlib.Core.List.{Mem, mem-cons}
use mathlib.Core.HLevel.{⊥_prop}
use mathlib.Core.Logic.Or
use sysml_federation.Base.{
  ℕ, suc, ◌+◌, ◌≤◌, ◌<◌, ◌≡◌, refl, sym, ap, ◌∙◌, subst, List, ◌∷◌, some, arith,
}
use sysml_federation.Model.Eval.Sound.{
  Denotes, of_literal, of_chain, of_binary, Bound, Bound-unique,
}
use sysml_federation.Model.Eval.{chain_slot, combine}
use sysml_federation.Model.Nodes.{Slot, Scope, Quantity, Owner, Key, Arithmetic}
use sysml_federation.Model.Outcome.Holds.{done-injective}
use sysml_federation.Model.Outcome.{done, Source}
use sysml_federation.Syntax.Ast.{
  Operator, FeatureChain, Literal, Expr, literal, feature_chain, binary,
}
use sysml_federation.Syntax.Token.{Span}

-- What a binding denotes, with the height of the derivation.
pub data DenotesIn {F : Type 0} (s : Source) (sc : Scope F) (floats : Arithmetic F)
    : ℕ → Owner → Expr F → Quantity F → Type 0 where
  in_literal :
      {owner : Owner} {l : Literal F}
      → DenotesIn s sc floats 0 owner (literal l) (record { num = l.number; unit = l.unit })
  in_chain :
      {n : ℕ} {owner of : Owner} {c : FeatureChain} {slot : Slot F} {e : Expr F} {q : Quantity F}
      → chain_slot s sc owner c ≡ done (of, slot)
      → slot.bind ≡ some e
      → DenotesIn s sc floats n of e q
      → DenotesIn s sc floats (suc n) owner (feature_chain c) q
  in_binary :
      {m n : ℕ} {owner : Owner} {op : Operator} {l r : Expr F} {at : Span} {ql qr q : Quantity F}
      → DenotesIn s sc floats m owner l ql
      → DenotesIn s sc floats n owner r qr
      → combine s sc floats op ql qr at ≡ done q
      → DenotesIn s sc floats (suc (m + n)) owner (binary op l r at) q

module _ {F : Type 0} (s : Source) (sc : Scope F) (floats : Arithmetic F) where
  pub Denotes-DenotesIn :
      {owner : Owner} {e : Expr F} {q : Quantity F}
      → Denotes s sc floats owner e q
      → (n : ℕ) × DenotesIn s sc floats n owner e q
  Denotes-DenotesIn of_literal = (0, in_literal)
  Denotes-DenotesIn (of_chain to bound d) =
      let (n, d') = Denotes-DenotesIn d in (suc n, in_chain to bound d')
  Denotes-DenotesIn (of_binary l r c) =
      let (m, l') = Denotes-DenotesIn l in
      let (n, r') = Denotes-DenotesIn r in (suc (m + n), in_binary l' r' c)

  pub DenotesIn-Denotes :
      {n : ℕ} {owner : Owner} {e : Expr F} {q : Quantity F}
      → DenotesIn s sc floats n owner e q
      → Denotes s sc floats owner e q
  DenotesIn-Denotes in_literal = of_literal
  DenotesIn-Denotes (in_chain to bound d) = of_chain to bound (DenotesIn-Denotes d)
  DenotesIn-Denotes (in_binary l r c) = of_binary (DenotesIn-Denotes l) (DenotesIn-Denotes r) c

  pub DenotesIn-unique :
      {m n : ℕ} {owner : Owner} {e : Expr F} {q p : Quantity F}
      → DenotesIn s sc floats m owner e q
      → DenotesIn s sc floats n owner e p
      → m ≡ n
  DenotesIn-unique in_literal in_literal = refl
  DenotesIn-unique {p = p} (in_chain {of = o} {slot = slot} {e = e} to bound d)
        (in_chain {n = n} {of = o'} {slot = slot'} {e = e'} to' bound' d') =
      let a : Owner × Slot F = (o, slot) in
      let b : Owner × Slot F = (o', slot') in
      let same : a ≡ b = done-injective (sym to ∙ to') in
      let at : o' ≡ o = ap (λ (x : Owner × Slot F). x.0) (sym same) in
      let bind : some e ≡ some e' =
        sym bound ∙ ap (λ (x : Owner × Slot F). x.1.bind) same ∙ bound' in
      let body : e' ≡ e = ground (arith, bind) in
      ap suc (
        DenotesIn-unique d (
          subst (λ x. DenotesIn s sc floats n x e p) at
            (subst (λ y. DenotesIn s sc floats n o' y p) body d')))
  DenotesIn-unique (in_binary l r c) (in_binary l' r' c') =
      omega (arith, DenotesIn-unique l l', DenotesIn-unique r r')

  -- The busy bindings denote, if at all, by a higher derivation.
  abbrev pub Above : ℕ → List Key → Type 0
  Above n busy =
      (k : Key) (e : Expr F) (q : Quantity F) (j : ℕ)
      → Mem k busy
      → Bound s sc floats k e
      → DenotesIn s sc floats j k.owner e q
      → n < j

  pub Above-cons :
      (n m : ℕ) (k : Key) (e : Expr F) (q : Quantity F) (busy : List Key)
      → Bound s sc floats k e
      → DenotesIn s sc floats n k.owner e q
      → Above n busy
      → m < n
      → Above m (k ∷ busy)
  Above-cons n m k e q busy bound d above h k' e' q' j i bound' d' =
      let higher : ¬ (j ≤ m) = λ low.
        Or.elim ⊥_prop (mem-cons.0 i)
          (λ same.
            let here : Bound s sc floats k e' = subst (λ x. Bound s sc floats x e') same bound' in
            let there : DenotesIn s sc floats j k.owner e' q' =
              subst (λ x. DenotesIn s sc floats j x.owner e' q') same d' in
            let body : e' ≡ e = Bound-unique s sc floats k e' e here bound in
            omega (
              arith,
              DenotesIn-unique d (subst (λ x. DenotesIn s sc floats j k.owner x q') body there),
            ))
          (λ later. omega (arith, above k' e' q' j later bound' d')) in
      omega (arith, higher)
