-- ===== src/Model/Constraint/Ending.antt =====
-- Reading a constraint.
use mathlib.Core.List.{Mem}
use sysml_federation.Base.{
  refl, ℕ, ◌≡◌, List, [], ◌∷◌, not, none, some, Bytes, bytes_eq, get_elem?, is_some, arith,
}
use sysml_federation.Model.Constraint.{
  rooted, last_of, but_last, constraint_of, subject_name, chain_of, limit_slot, sides_of,
  walk_parts, quantity_owner, check_quantity, bound_limit, limit_of, read_sides, read_constraint,
}
use sysml_federation.Model.Declare.{find_slot}
use sysml_federation.Model.Eval.Ending.{eval-Ends}
use sysml_federation.Model.Eval.Keys.{key_at, req_slot-Mem}
use sysml_federation.Model.Eval.Slots.{find_slot-Mem}
use sysml_federation.Model.Eval.{scope_keys}
use sysml_federation.Model.Nodes.{Slot, ReqNode, Scope, Memo, of_req, Arithmetic}
use sysml_federation.Model.Outcome.Holds.{
  Holds, returns, crashes, Ends, Holds-bind, Holds-fail, Holds-cases, Holds-list, Holds-option,
  Holds-refuse,
}
use sysml_federation.Model.Outcome.{Source}
use sysml_federation.Model.Resolve.Ending.{child-Ends, node_at-Ends, text_at-Ends}
use sysml_federation.Syntax.Ast.{
  FeatureChain, Expr, literal, feature_chain, binary, RequireConstraint,
}
use sysml_federation.Syntax.Token.{Span}

module _ {F : Type 0} where
  chain_of-Ends : (e : Expr F) → Ends (chain_of e)
  chain_of-Ends (feature_chain c) = returns tt
  chain_of-Ends (literal l) = crashes
  chain_of-Ends (binary op l r at) = crashes

  limit_slot-Mem :
      (r : ReqNode F) (c : FeatureChain) {slot : Slot F}
      → limit_slot r c ≡ some slot
      → Mem slot r.attrs
  unfolding limit_slot
  limit_slot-Mem r c {slot} h = of_names c.names h
    where
      of_names :
          (names : List Bytes)
          → elim names [
            | [] ↦ none
            | name ∷ names ↦ elim names [ [] ↦ find_slot r.attrs name | next ∷ more ↦ none ]
          ]
            ≡ some slot
          → Mem slot r.attrs
      of_names [] h = absurd (ground arith)
      of_names (name ∷ []) h = find_slot-Mem r.attrs name h
      of_names (name ∷ next ∷ more) h = absurd (ground arith)

module _ {F : Type 0} (s : Source) where
  sides_of-Ends : (c : RequireConstraint F) (subject : Bytes) → Ends (sides_of s c subject)
  unfolding sides_of
  sides_of-Ends c subject =
      Holds-cases (rooted c.left subject)
        (λ _.
          Holds-cases (rooted c.right subject) (λ _. Holds-fail s c.span _)
            (λ _. Holds-bind (chain_of-Ends c.left) (λ chain _ _. returns tt)))
        (λ _.
          Holds-cases (rooted c.right subject)
            (λ _. Holds-bind (chain_of-Ends c.right) (λ chain _ _. returns tt))
            (λ _. Holds-fail s c.span _))

  module _ (sc : Scope F) where
    walk_parts-Ends :
        (subject : Bytes) (cur : ℕ) (names : List Bytes) (at : Span)
        → Ends (walk_parts s sc subject cur names at)
    unfolding walk_parts
    walk_parts-Ends subject cur [] at = returns tt
    walk_parts-Ends subject cur (name ∷ names) at = Holds-bind (child-Ends sc cur name) (elim [
      | none ↦ λ e _. Holds-fail s at _
      | some c ↦ λ e _. walk_parts-Ends subject c names at
    ])

    check_quantity-Ends :
        (subject : ℕ) (chain : FeatureChain) → Ends (check_quantity s sc subject chain)
    unfolding check_quantity quantity_owner
    check_quantity-Ends subject chain =
        Holds-list chain.names (λ _. crashes)
          (λ first rest _.
            Holds-list rest (λ _. crashes)
              (λ name names _. Holds-bind (node_at-Ends sc subject) (λ n _ _.
                Holds-bind (walk_parts-Ends n.out.id subject (but_last name names) chain.span)
                  (λ cur _ _. Holds-bind (node_at-Ends sc cur) (λ m _ _.
                    Holds-refuse (not (is_some (find_slot m.attrs (last_of name names)))) s
                      chain.span _ (λ _. returns tt))))))

    module _ (floats : Arithmetic F) where
      bound_limit-Ends :
          (i : ℕ) (name : Bytes) (e : Expr F) (m : Memo F)
          → Mem (key_at (of_req i) name) (scope_keys s sc)
          → m.busy ≡ []
          → Holds (λ r. r.1.busy ≡ []) (bound_limit s sc floats i name e m)
      bound_limit-Ends i name (literal l) m k idle = returns idle
      bound_limit-Ends i name (feature_chain c) m k idle =
          Holds-bind (eval-Ends s sc floats (of_req i) name (feature_chain c) m k idle)
            (λ r _ b. returns b)
      bound_limit-Ends i name (binary op l r at) m k idle =
          Holds-bind (eval-Ends s sc floats (of_req i) name (binary op l r at) m k idle)
            (λ r _ b. returns b)

      limit_of-Ends :
          (i : ℕ) (r : ReqNode F) (e : Expr F) (m : Memo F)
          → get_elem? sc.reqs i ≡ some r
          → m.busy ≡ []
          → Holds (λ x. x.1.busy ≡ []) (limit_of s sc floats i r e m)
      unfolding limit_of
      limit_of-Ends i r (literal l) m here idle = returns idle
      limit_of-Ends i r (binary op x y at) m here idle = returns idle
      limit_of-Ends i r (feature_chain c) m here idle =
          Holds-option (limit_slot r c)
            (λ _. Holds-bind (text_at-Ends s c.span) (λ text _ _. Holds-fail s c.span _))
            (λ slot f.
              Holds-option slot.bind (λ _. Holds-fail s r.ast.span _)
                (λ e _.
                  Holds-bind
                    (bound_limit-Ends i slot.name e m
                      (req_slot-Mem s sc i r slot here (limit_slot-Mem r c f)) idle)
                    (λ x _ b. returns b)))

      -- The requirement's id, and whether its limit is editable, stay as they are.
      pub read_constraint-Ends :
          (i : ℕ) (r : ReqNode F) (m : Memo F)
          → get_elem? sc.reqs i ≡ some r
          → m.busy ≡ []
          → Holds
              (λ x.
                (x.2.busy ≡ []) × (x.1.id ≡ r.out.id) × (x.1.limit_editable ≡ r.out.limit_editable))
              (read_constraint s sc floats i r m)
      unfolding read_constraint read_sides
      read_constraint-Ends i r m here idle =
          Holds-option (constraint_of r) (λ _. Holds-fail s r.ast.span _)
            (λ c _. Holds-refuse (bytes_eq (subject_name r) []) s r.ast.span _ (λ _.
              Holds-bind (sides_of-Ends c (subject_name r)) (λ sides _ _.
                Holds-option r.subject (λ _. Holds-fail s r.ast.span _)
                  (λ p _. Holds-bind (check_quantity-Ends p sides.chain) (λ owner _ _.
                    Holds-bind (limit_of-Ends i r sides.other m here idle)
                      (λ x _ b. returns (b, refl, refl)))))))
