-- ===== src/Base/Pigeonhole.antt =====
-- A list without repetitions is not longer than a list that has all of its entries.
use Prim.Native.Nat.{◌≤◌, ◌<◌}
use mathlib.Core.Path.{ap, subst}
use mathlib.Core.List.{
  List, [], ◌∷◌, ◌++◌, Mem, Mem-prop, mem-cons, mem-append, mem-cons_self, mem-cons_of_mem,
  append_of_mem, Nodup, Nodup-cons,
}
use mathlib.Core.Logic.Or
use mathlib.Core.Logic.{◌≢◌, ∥∥₁_elim}
use native.Mathlib.Omega.{arith}
use sysml_federation.Base.Lists.{length, length-append}

mem_except {ℓ} :
    {A : Type ℓ} (y x : A) (front back : List A)
    → Mem y (front ++ (x ∷ back))
    → y ≢ x
    → Mem y (front ++ back)
mem_except y x front back m other =
    Or.elim Mem-prop (mem-append.0 m) (λ f. mem-append.1 (Or.inl f))
      (λ r. Or.elim Mem-prop (mem-cons.0 r) (λ e. absurd (other e)) (λ b. mem-append.1 (Or.inr b)))

-- A list without repetitions whose entries are all in another is not the longer one.
pub length-subset {ℓ} :
    {A : Type ℓ} (xs ys : List A)
    → Nodup xs
    → ((x : A) → Mem x xs → Mem x ys)
    → length xs ≤ length ys
length-subset [] ys d sub = omega arith
length-subset (x ∷ xs) ys d sub =
    let k : (¬ Mem x xs) × Nodup xs = Nodup-cons.0 d in
    let shorter : ¬ (length ys < length (x ∷ xs)) =
      ∥∥₁_elim (append_of_mem (sub x mem-cons_self)) (hlevel) (λ (front, back, e) h. omega (
        arith,
        length-subset xs (front ++ back) k.1 (λ y m.
            mem_except y x front back (subst (Mem y) e (sub y (mem-cons_of_mem x m)))
              (λ same. k.0 (subst (λ z. Mem z xs) same m))),
        length-append front back,
        length-append front (x ∷ back),
        ap length e,
      )) in
    omega (arith, shorter)
