-- ===== src/Capacity/Flow/Conserved.antt =====
-- flow.go over whole numbers: what a search takes from the sums over the arcs that leave a set.
use sysml_federation.Base.{
  ℕ, suc, ◌+◌, ◌≤◌, ◌≡◌, refl, sym, ap, ◌∙◌, subst, arith, List, [], Bool, true, false, not, ◌&&◌,
  none, some, if◌then◌else◌, get_or, get_elem?,
}
use sysml_federation.Capacity.Flow.{Arc, push, advance}
use sysml_federation.Capacity.Flow.Visit.{
  shape, Visit, arrived, exhausted, skipped, pushed, refused, Visit-Kept, level-Kept, level-follows,
}
use sysml_federation.Capacity.Flow.Progress.{Net, is_positive}
use sysml_federation.Capacity.Flow.Cuts.{amount, endless, total, Paired, push-Pushed}
use sysml_federation.Capacity.Exact.{
  Amount, finite, infinite, less, least, plus, minus, exact, exact_arithmetic,
}

-- The flow, counted where the vertex is in the set.
abbrev pub when : Bool → Amount → ℕ
when b d = if b then amount d else 0

push_sums :
    (su sv : Bool) (cap d back : Amount) (am_h am_k en_h en_k : ℕ)
    → am_h + (if su && not sv then amount cap else 0) + (if sv && not su then amount back else 0)
      ≡ am_k
        + (if su && not sv then amount (minus cap d) else 0)
        + (if sv && not su then amount (plus back d) else 0)
    → en_h + (if su && not sv then endless cap else 0) + (if sv && not su then endless back else 0)
      ≡ en_k
        + (if su && not sv then endless (minus cap d) else 0)
        + (if sv && not su then endless (plus back d) else 0)
    → en_k ≡ 0
    → (if su && not sv then endless cap else 0) ≤ en_k
    → (if sv && not su then endless back else 0)
      ≤ en_k + (if su && not sv then endless (minus cap d) else 0)
    → less cap d ≡ false
    → (sv ≡ true → d ≡ finite (amount d))
    → (am_h + when su d ≡ am_k + when sv d) × (en_h ≡ 0) × (su ≡ true → d ≡ finite (amount d))
push_sums true true cap d back am_h am_k en_h en_k a b z o r l f = ground arith
push_sums true false cap d back am_h am_k en_h en_k a b z o r l f = ground arith
push_sums false true cap d back am_h am_k en_h en_k a b z o r l f = ground arith
push_sums false false cap d back am_h am_k en_h en_k a b z o r l f = ground arith

-- What a search from u that finds d leaves of the sums over the arcs that leave the set.
pub record Carried (within : ℕ → Bool) (u : ℕ) (d : Amount) (g h : Net) : Type 0 where
  pub sums : total amount within 0 h.adj + when (within u) d ≡ total amount within 0 g.adj
  pub sealed : total endless within 0 h.adj ≡ 0
  pub bounded : within u ≡ true → d ≡ finite (amount d)

less-least : (f c d : Amount) → less (least f c) d ≡ false → (less f d ≡ false) × (less c d ≡ false)
less-least (finite a) (finite b) (finite n) h = ground arith
less-least (finite a) (finite b) infinite h = cc
less-least (finite a) infinite d h = ground arith
less-least infinite c d h = (refl, h)

pub Visit-le :
    {t : ℕ} {g h : Net} {u : ℕ} {f d : Amount}
    → Visit exact exact_arithmetic t g u f h d
    → less f d ≡ false
Visit-le {t} {g} {h} {u} {f} {d} (arrived a e q) =
    subst (λ x. less f x ≡ false) (sym q) (less-same f)
  where
    less-same : (a : Amount) → less a a ≡ false
    less-same (finite n) = ground arith
    less-same infinite = refl
Visit-le {t} {g} {h} {u} {f} {d} (exhausted n c e q) =
    subst (λ x. less f x ≡ false) (sym q) (less-zero f)
  where
    less-zero : (a : Amount) → less a (finite 0) ≡ false
    less-zero (finite n) = ground arith
    less-zero infinite = refl
Visit-le {t} {g} {h} {u} {f} {d} (skipped e n c s v) = Visit-le v
Visit-le {t} {g} {h} {u} {f} {d} (pushed e k n c s v x q) = (less-least f e.cap d (Visit-le v)).0
Visit-le {t} {g} {h} {u} {f} {d} (refused e k c n r s v x more) = Visit-le more

pub amount_zero : (c : Amount) → is_positive c ≡ false → amount c ≡ 0
amount_zero (finite n) e = ground arith
amount_zero infinite e = refl

push-Carried :
    (within : ℕ → Bool) (g : Net) (u i : ℕ) (e : Arc Amount) (d : Amount)
    → Paired (shape g.adj)
    → get_elem? (get_or g.adj u []) i ≡ some e
    → total endless within 0 g.adj ≡ 0
    → less e.cap d ≡ false
    → (within e.to ≡ true → d ≡ finite (amount d))
    → (total amount within 0 (push exact exact_arithmetic u i e d g).adj + when (within u) d
        ≡ total amount within 0 g.adj + when (within e.to) d)
      × (total endless within 0 (push exact exact_arithmetic u i e d g).adj ≡ 0)
      × (within u ≡ true → d ≡ finite (amount d))
push-Carried within g u i e d p q z l f =
    let (back, k) = push-Pushed within g u i e d p q in
    push_sums (within u) (within e.to) e.cap d back
      (total amount within 0 (push exact exact_arithmetic u i e d g).adj)
      (total amount within 0 g.adj)
      (total endless within 0 (push exact exact_arithmetic u i e d g).adj)
      (total endless within 0 g.adj) (k.sums amount) (k.sums endless) z k.out_le k.back_le l f

pub Visit-Carried :
    {t : ℕ} {g h : Net} {u : ℕ} {f d : Amount} (m : ℕ) (within : ℕ → Bool)
    → within t ≡ false
    → Paired (shape g.adj)
    → get_or g.level u none ≡ some m
    → total endless within 0 g.adj ≡ 0
    → Visit exact exact_arithmetic t g u f h d
    → Carried within u d g h
unfolding advance
Visit-Carried {t} {g} {h} {u} {f} {d} m within out p at z (arrived e q y) =
    let no : within u ≡ false = cc (out, e) in
    record {
      sums = rw (no) (ground (arith, ap (λ (x : Net). total amount within 0 x.adj) q));
      sealed = ap (λ (x : Net). total endless within 0 x.adj) q ∙ z;
      bounded = λ b. absurd (cc (b, no));
    }
Visit-Carried {t} {g} {h} {u} {f} {d} m within out p at z (exhausted n c q y) = record {
  sums = ground (arith, ap (λ (x : Net). total amount within 0 x.adj) q, ap amount y);
  sealed = ap (λ (x : Net). total endless within 0 x.adj) q ∙ z;
  bounded = λ b. y ∙ ap finite (sym (ap amount y));
}
Visit-Carried {t} {g} {h} {u} {f} {d} m within out p at z (skipped e n c s v) =
    let k = Visit-Carried {f = f} m within out p at z v in
    record { sums = k.sums; sealed = k.sealed; bounded = k.bounded }
Visit-Carried {t} {g} {h} {u} {f} {d} m within out p at z (pushed e k n c s v x q) =
    let at_e = level-follows exact exact_arithmetic g u m e at s in
    let inner = Visit-Carried (suc m) within out p at_e z v in
    let kept = Visit-Kept exact exact_arithmetic {level = suc m} at_e v in
    let there =
      ap (λ (es : List (Arc Amount)). get_elem? es (get_or g.next u 0))
        (kept.rows u m at (omega arith))
      ∙ c in
    let (sums, sealed, bounded) =
      push-Carried within k u (get_or g.next u 0) e d (subst Paired (sym kept.shapes) p) there
        inner.sealed (less-least f e.cap d (Visit-le v)).1 inner.bounded in
    subst (λ (y : Net). Carried within u d g y) (sym q)
      (record { sums = omega (arith, sums, inner.sums); sealed = sealed; bounded = bounded })
Visit-Carried {t} {g} {h} {u} {f} {d} m within out p at z (refused e k c n r s v x more) =
    let at_e = level-follows exact exact_arithmetic g u m e at s in
    let inner = Visit-Carried (suc m) within out p at_e z v in
    let kept = Visit-Kept exact exact_arithmetic {level = suc m} at_e v in
    let rest =
      Visit-Carried {f = f} m within out (subst Paired (sym kept.shapes) p)
        (level-Kept exact exact_arithmetic g k (suc m) u m kept at) inner.sealed more in
    record {
      sums = ground (arith, rest.sums, inner.sums, amount_zero c x);
      sealed = rest.sealed;
      bounded = rest.bounded;
    }

endless-minus : (c d : Amount) → endless (minus c d) ≡ endless c
endless-minus (finite a) (finite b) = refl
endless-minus (finite a) infinite = refl
endless-minus infinite d = refl

endless-plus : (c d : Amount) → endless c ≤ endless (plus c d)
endless-plus (finite a) d = omega arith
endless-plus infinite d = omega arith

push-endless :
    (within : ℕ → Bool) (g : Net) (u i : ℕ) (e : Arc Amount) (d : Amount)
    → Paired (shape g.adj)
    → get_elem? (get_or g.adj u []) i ≡ some e
    → total endless within 0 g.adj
      ≤ total endless within 0 (push exact exact_arithmetic u i e d g).adj
push-endless within g u i e d p q =
    let (back, k) = push-Pushed within g u i e d p q in
    ground (arith, k.sums endless, endless-minus e.cap d, endless-plus back d)

-- An arc without limit keeps none, whichever set it leaves.
pub Visit-endless :
    {t : ℕ} {g h : Net} {u : ℕ} {f d : Amount} (m : ℕ) (within : ℕ → Bool)
    → Paired (shape g.adj)
    → get_or g.level u none ≡ some m
    → Visit exact exact_arithmetic t g u f h d
    → total endless within 0 g.adj ≤ total endless within 0 h.adj
unfolding advance
Visit-endless {t} {g} {h} {u} {f} {d} m within p at (arrived e q y) =
    omega (arith, ap (λ (x : Net). total endless within 0 x.adj) q)
Visit-endless {t} {g} {h} {u} {f} {d} m within p at (exhausted n c q y) =
    omega (arith, ap (λ (x : Net). total endless within 0 x.adj) q)
Visit-endless {t} {g} {h} {u} {f} {d} m within p at (skipped e n c s v) =
    Visit-endless {f = f} m within p at v
Visit-endless {t} {g} {h} {u} {f} {d} m within p at (pushed e k n c s v x q) =
    let at_e = level-follows exact exact_arithmetic g u m e at s in
    let kept = Visit-Kept exact exact_arithmetic {level = suc m} at_e v in
    let there =
      ap (λ (es : List (Arc Amount)). get_elem? es (get_or g.next u 0))
        (kept.rows u m at (omega arith))
      ∙ c in
    omega (
      arith,
      Visit-endless (suc m) within p at_e v,
      push-endless within k u (get_or g.next u 0) e d (subst Paired (sym kept.shapes) p) there,
      ap (λ (x : Net). total endless within 0 x.adj) q,
    )
Visit-endless {t} {g} {h} {u} {f} {d} m within p at (refused e k c n r s v x more) =
    let at_e = level-follows exact exact_arithmetic g u m e at s in
    let kept = Visit-Kept exact exact_arithmetic {level = suc m} at_e v in
    omega (
      arith,
      Visit-endless (suc m) within p at_e v,
      Visit-endless {f = f} m within (subst Paired (sym kept.shapes) p)
          (level-Kept exact exact_arithmetic g k (suc m) u m kept at) more,
    )
