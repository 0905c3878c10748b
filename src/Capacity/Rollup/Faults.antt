-- ===== src/Capacity/Rollup/Faults.antt =====
-- flow.go: the ValueError of Rollup, for any values of float64.
use mathlib.Core.List.{Memᴰ}
use mathlib.Core.List.Memᴰ
use sysml_federation.Base.{
  ℕ, suc, ◌≡◌, ◌≢◌, ◌↔◌, inl, inr, refl, sym, ap, ◌∙◌, subst, arith, List, [], ◌∷◌, ◌++◌, Bool,
  true, false, none, some, Bytes, Bool-cases, Option-cases,
}
use sysml_federation.Capacity.Verdict.{Floats, Node, Edge, value_error}
use sysml_federation.Capacity.Flow.{Arithmetic}
use sysml_federation.Capacity.Rollup.{
  Indexed, bad_value, indexed, Built, index_nodes, solve, analyse_network, rollup,
}

module _ (floats : Floats) (arithmetic : Arithmetic floats.Float) where
  abbrev pub IsSound : Node floats → Type 0
  IsSound nd = (v : floats.Float) × (nd.value ≡ some v) × (floats.less v floats.float_zero ≡ false)

  -- The value is missing, or it is below zero.
  abbrev pub IsFaulty : Node floats → Bool → Type 0
  IsFaulty nd false = nd.value ≡ none
  IsFaulty nd true =
      (v : floats.Float) × (nd.value ≡ some v) × (floats.less v floats.float_zero ≡ true)

  -- The first child that has no value or one below zero.
  pub record FirstFault (nodes : List (Node floats)) (id name : Bytes) (negative : Bool)
      : Type 0 where
    pub front : List (Node floats)
    pub child : Node floats
    pub back : List (Node floats)
    pub split : nodes ≡ front ++ (child ∷ back)
    pub sound : (nd : Node floats) → Memᴰ nd front → IsSound nd
    pub faulty : IsFaulty child negative
    pub same_id : id ≡ child.id
    pub same_name : name ≡ child.name

  FirstFault-here :
      (nd : Node floats) (nodes : List (Node floats)) (id name : Bytes) (which negative : Bool)
      → IsFaulty nd which
      → bad_value nd.id nd.name which ≡ bad_value id name negative
      → FirstFault (nd ∷ nodes) id name negative
  FirstFault-here nd nodes id name which negative f e = record {
    front = [];
    child = nd;
    back = nodes;
    split = refl;
    sound = λ x m. absurd (Memᴰ.not-nil m);
    faulty = subst (IsFaulty nd) (ground (arith, e)) f;
    same_id = ground (arith, e);
    same_name = ground (arith, e);
  }

  FirstFault-later :
      (nd : Node floats) (nodes : List (Node floats)) (id name : Bytes) (negative : Bool)
      → IsSound nd
      → FirstFault nodes id name negative
      → FirstFault (nd ∷ nodes) id name negative
  FirstFault-later nd nodes id name negative s f = record {
    front = nd ∷ f.front;
    child = f.child;
    back = f.back;
    split = ap (λ (l : List (Node floats)). nd ∷ l) f.split;
    sound = λ x m. elim (Memᴰ.cases_cons m) [
      | inl e ↦ subst IsSound (sym e) s
      | inr later ↦ f.sound x later
    ];
    faulty = f.faulty;
    same_id = f.same_id;
    same_name = f.same_name;
  }

  index_nodes-FirstFault :
      (i : ℕ) (nodes : List (Node floats)) (index : List (Bytes × ℕ)) (id name : Bytes)
      (negative : Bool)
      → index_nodes floats arithmetic i nodes index ≡ bad_value id name negative
      → FirstFault nodes id name negative
  unfolding index_nodes
  index_nodes-FirstFault i [] index id name negative e = absurd (ground arith)
  index_nodes-FirstFault i (nd ∷ nodes) index id name negative e = elim (Option-cases nd.value) [
    | inl gone ↦ FirstFault-here nd nodes id name false negative gone (rw (gone, index_nodes) at e)
    | inr (v, q) ↦ elim (Bool-cases (floats.less v floats.float_zero)) [
      | inl below ↦
          FirstFault-here nd nodes id name true negative (v, q, below)
            (rw (q, below, index_nodes) at e)
      | inr above ↦
          FirstFault-later nd nodes id name negative (v, q, above)
            (index_nodes-FirstFault (suc i) nodes ((nd.id, i) ∷ index) id name negative
              (rw (q, above, index_nodes) at e))
    ]
  ]

  FirstFault-index_nodes :
      (i : ℕ) (front back : List (Node floats)) (child : Node floats) (index : List (Bytes × ℕ))
      (negative : Bool)
      → ((nd : Node floats) → Memᴰ nd front → IsSound nd)
      → IsFaulty child negative
      → index_nodes floats arithmetic i (front ++ (child ∷ back)) index
        ≡ bad_value child.id child.name negative
  unfolding index_nodes
  FirstFault-index_nodes i [] back child index false s f = rw (f, index_nodes) refl
  FirstFault-index_nodes i [] back child index true s (v, q, below) =
      rw (q, below, index_nodes) refl
  FirstFault-index_nodes i (nd ∷ front) back child index negative s f =
      let (v, q, above) = s nd (Memᴰ.head refl) in
      rw (q, above, index_nodes)
        (FirstFault-index_nodes (suc i) front back child ((nd.id, i) ∷ index) negative
          (λ x m. s x (Memᴰ.tail m)) f)

  solve-value_error :
      (fuel : ℕ) (nodes : List (Node floats)) (b : Built floats.Float) (id name : Bytes)
      (negative : Bool)
      → solve floats arithmetic fuel nodes b ≢ some (value_error id name negative)
  unfolding solve
  solve-value_error fuel nodes b id name negative e = ground arith

  analyse_network-value_error :
      (fuel : ℕ) (nodes : List (Node floats)) (b : Built floats.Float) (id name : Bytes)
      (negative : Bool)
      → analyse_network floats arithmetic fuel nodes b ≢ some (value_error id name negative)
  unfolding analyse_network
  analyse_network-value_error fuel nodes b id name negative e =
      ground (arith, solve-value_error fuel nodes b id name negative)

  -- For any values of float64, whatever the fuel and the connections: Rollup answers a ValueError exactly
  -- for the first child whose value is missing or below zero, with its id and name, and says which.
  pub rollup-FirstFault :
      (fuel : ℕ) (nodes : List (Node floats)) (edges : List Edge) (id name : Bytes)
      (negative : Bool)
      → (rollup floats arithmetic fuel nodes edges ≡ some (value_error id name negative))
        ↔ FirstFault nodes id name negative
  unfolding rollup
  rollup-FirstFault fuel [] edges id name negative =
      (λ e. absurd (ground arith), λ f. absurd (nil_split f.front f.child f.back f.split))
    where
      nil_split :
          (front : List (Node floats)) (x : Node floats) (back : List (Node floats))
          → [] ≢ front ++ (x ∷ back)
      nil_split [] x back e = cc
      nil_split (y ∷ front) x back e = cc
  rollup-FirstFault fuel (nd ∷ nodes) edges id name negative = (
    λ e. answer (index_nodes floats arithmetic 0 (nd ∷ nodes) []) refl e,
    λ f.
        let found : index_nodes floats arithmetic 0 (nd ∷ nodes) [] ≡ bad_value id name negative =
          ap (λ (l : List (Node floats)). index_nodes floats arithmetic 0 l []) f.split
          ∙ FirstFault-index_nodes 0 f.front f.back f.child [] negative f.sound f.faulty
          ∙ cc (f.same_id, f.same_name) in
        rw (found, rollup) refl,
  )
    where
      answer :
          (r : Indexed)
          → index_nodes floats arithmetic 0 (nd ∷ nodes) [] ≡ r
          → rollup floats arithmetic fuel (nd ∷ nodes) edges ≡ some (value_error id name negative)
          → FirstFault (nd ∷ nodes) id name negative
      answer (bad_value i n b) q e =
          let same : bad_value i n b ≡ bad_value id name negative =
            ground (arith, rw (q, rollup) at e) in
          index_nodes-FirstFault 0 (nd ∷ nodes) [] id name negative (q ∙ same)
      answer (indexed index) q e =
          absurd
            (analyse_network-value_error fuel (nd ∷ nodes) _ id name negative (rw (q, rollup) at e))
