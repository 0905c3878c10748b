-- ===== src/Capacity/Rollup/Crossing.antt =====
-- flow.go: ways along connections from an entry to an exit, and the cut.
use mathlib.Core.List.{Memᴰ}
use mathlib.Core.List.Memᴰ
use sysml_federation.Base.{
  ℕ, zero, suc, ◌+◌, ◌<◌, ◌≡◌, ◌≢◌, inl, inr, refl, sym, ap, ◌∙◌, subst, arith, List, [], ◌∷◌, Bool,
  true, false, some, length, get_elem?, Bytes, Bool-cases,
}
use sysml_federation.Capacity.Verdict.{Node, Edge, rolled}
use sysml_federation.Capacity.Flow.MinCut.{marked}
use sysml_federation.Capacity.Rollup.{
  indexed, Wired, in_of, out_of, index_nodes, network, cut_ids, rollup,
}
use sysml_federation.Capacity.Rollup.Ends.{IsEntry, IsExit}
use sysml_federation.Capacity.Rollup.Sums.{Whole, Ranged, ranged_none, ranged_some}
use sysml_federation.Capacity.Rollup.Ids.{cut_ids-Memᴰ}
use sysml_federation.Capacity.Rollup.Separation.{Separates}
use sysml_federation.Capacity.Rollup.Minimum.{sum_of, wiring, rollup-Answers}
use sysml_federation.Capacity.Rollup.Connections.{Connects}
use sysml_federation.Capacity.Exact.{Amount, exact, exact_arithmetic}

-- The ways along connections from one child to another, and the children that they pass.
pub data Chain (w : Wired) (last : ℕ) : ℕ → List ℕ → Type 0 where
  ends_at : {i : ℕ} {met : List ℕ} → i ≡ last → met ≡ i ∷ [] → Chain w last i met
  goes :
      {i : ℕ} {met : List ℕ} (k next : ℕ) (rest : List ℕ)
      → get_elem? w.wires k ≡ some (i, next)
      → Chain w last next rest
      → met ≡ i ∷ rest
      → Chain w last i met

-- A way from a child that is fed to one that does not pass on meets one that is fed and does not pass on.
meets_cut :
    (w : Wired) (n last : ℕ) (fed passes : ℕ → Bool) {i : ℕ} {met : List ℕ}
    → Separates w n fed passes
    → passes last ≡ false
    → fed i ≡ true
    → Chain w last i met
    → (x : ℕ) × Memᴰ x met × (fed x ≡ true) × (passes x ≡ false)
meets_cut w n last fed passes {i} {met} s p f (ends_at e m) =
    (i, subst (Memᴰ i) (sym m) (Memᴰ.head refl), f, subst (λ x. passes x ≡ false) (sym e) p)
meets_cut w n last fed passes {i} {met} s p f (goes k next rest q c m) =
    elim (Bool-cases (passes i)) [
      | inr stops ↦ (i, subst (Memᴰ i) (sym m) (Memᴰ.head refl), f, stops)
      | inl on ↦
          let (x, there, g, h) = meets_cut w n last fed passes s p (s.along k i next q on) c in
          (x, subst (Memᴰ x) (sym m) (Memᴰ.tail there), g, h)
    ]

wire_to :
    (n : ℕ) (wires : List (ℕ × ℕ)) (k : ℕ) {i j : ℕ}
    → Ranged n wires
    → get_elem? wires k ≡ some (i, j)
    → j < n
wire_to n wires k {i} {j} (ranged_none e) q =
    absurd (ground (arith, ap (λ (l : List (ℕ × ℕ)). get_elem? l k) e, q))
wire_to n wires zero {i} {j} (ranged_some from to rest e f t r) q =
    ground (arith, ap (λ (l : List (ℕ × ℕ)). get_elem? l 0) e, q, t)
wire_to n wires (suc k) {i} {j} (ranged_some from to rest e f t r) q =
    wire_to n rest k {i = i} {j = j} r (sym (ap (λ (l : List (ℕ × ℕ)). get_elem? l (suc k)) e) ∙ q)

Chain-below :
    (w : Wired) (n last x : ℕ) {i : ℕ} {met : List ℕ}
    → Ranged n w.wires
    → i < n
    → Chain w last i met
    → Memᴰ x met
    → x < n
Chain-below w n last x {i} {met} r h (ends_at e m) there =
    let same : x ≡ i = Memᴰ.eq_of_singleton (subst (Memᴰ x) m there) in omega (arith, same)
Chain-below w n last x {i} {met} r h (goes k next rest q c m) there =
    elim (Memᴰ.cases_cons (subst (Memᴰ x) m there)) [
      | inl same ↦ omega (arith, same)
      | inr later ↦
          Chain-below w n last x {i = next} {met = rest} r
            (wire_to n w.wires k {i = i} {j = next} r q) c later
    ]

child_at :
    (nodes : List (Node exact)) (x : ℕ)
    → x < length nodes
    → (nd : Node exact) × (get_elem? nodes x ≡ some nd)
child_at [] x h = absurd (omega arith)
child_at (nd ∷ nodes) zero h = (nd, refl)
child_at (nd ∷ nodes) (suc x) h = child_at nodes x (omega arith)

-- The way meets a child whose id is in the list.
abbrev pub Meets : List (Node exact) → List ℕ → List Bytes → Type 0
Meets nodes met cut =
    (x : ℕ) × (child : Node exact) × Memᴰ x met
    × (get_elem? nodes x ≡ some child)
    × Memᴰ child.id cut

cut_ids-Meets :
    (nodes : List (Node exact)) (w : Wired) (seen : List Bool) (first last : ℕ) (met : List ℕ)
    → Ranged (length nodes) w.wires
    → Separates w (length nodes) (λ i. marked seen (in_of i)) (λ i. marked seen (out_of i))
    → first < length nodes
    → last < length nodes
    → IsEntry w first
    → IsExit w last
    → Chain w last first met
    → Meets nodes met (cut_ids exact exact_arithmetic seen 0 nodes)
cut_ids-Meets nodes w seen first last met r s hf hl a z c =
    let (x, there, fed, stops) =
      meets_cut w (length nodes) last (λ i. marked seen (in_of i)) (λ i. marked seen (out_of i)) s
        (s.exits last hl z.0 z.1) (s.entries first hf a.0 a.1) c in
    let (child, q) = child_at nodes x (Chain-below w (length nodes) last x r hf c there) in
    let start : 0 + x ≡ x = omega arith in
    (
      x,
      child,
      there,
      q,
      cut_ids-Memᴰ seen 0 x nodes {nd = child} q
          (subst (λ j. marked seen (in_of j) ≡ true) (sym start) fed)
          (subst (λ j. marked seen (out_of j) ≡ false) (sym start) stops),
    )

-- Where there is a child, every child has a whole value and the fuel is more than the values together:
-- a connection is an edge whose two ends are ids of children, from the last child with the one id to the
-- last child with the other; the wires and the flags that Rollup makes are those of the connections. When
-- Rollup over exact numbers, where eps is zero and no sum overflows, answers a capacity and a cut, every way along connections from an
-- entry child to an exit child meets a child whose id is in the cut.
pub rollup-Meets :
    (fuel : ℕ) (nd : Node exact) (rest : List (Node exact)) (xs : List ℕ) (edges : List Edge)
    (c : Amount) (cut entry exit : List Bytes)
    → Whole (nd ∷ rest) xs
    → sum_of xs < fuel
    → rollup exact exact_arithmetic fuel (nd ∷ rest) edges ≡ some (rolled c cut entry exit)
    → (index : List (Bytes × ℕ)) × (index_nodes exact exact_arithmetic 0 (nd ∷ rest) []
        ≡ indexed index)
      × Connects (nd ∷ rest) edges (wiring (nd ∷ rest) index edges)
      × ((first last : ℕ) (met : List ℕ)
          → first < length (nd ∷ rest)
          → last < length (nd ∷ rest)
          → IsEntry (wiring (nd ∷ rest) index edges) first
          → IsExit (wiring (nd ∷ rest) index edges) last
          → Chain (wiring (nd ∷ rest) index edges) last first met
          → Meets (nd ∷ rest) met cut)
rollup-Meets fuel nd rest xs edges c cut entry exit whole h r =
    let nodes = nd ∷ rest in
    let (index, e, a) = rollup-Answers fuel nd rest xs edges whole h in
    let w = wiring nodes index edges in
    let some_entry : (network exact exact_arithmetic nodes w).entry ≢ [] =
      λ n. absurd (ground (arith, a.without_entry n, r)) in
    let some_exit : (network exact exact_arithmetic nodes w).exit ≢ [] =
      λ n. absurd (ground (arith, a.without_exit some_entry n, r)) in
    let (d, seen, q, _, k) = a.with_both some_entry some_exit in
    let same : cut_ids exact exact_arithmetic seen 0 nodes ≡ cut = ground (arith, q, r) in
    (
      index,
      e,
      a.connects,
      λ first last met hf hl at_entry at_exit chain. subst (Meets nodes met) same (
          cut_ids-Meets nodes w seen first last met a.ranged k.separates hf hl at_entry at_exit
            chain),
    )
