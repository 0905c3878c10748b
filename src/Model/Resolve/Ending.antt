-- ===== src/Model/Resolve/Ending.antt =====
-- The lookups of resolve.go.
use sysml_federation.Base.{
  ℕ, ◌≡◌, refl, List, [], ◌∷◌, Option, none, some, Bytes, bytes_eq, get_elem?, lookup, is_some, leb,
  ◌&&◌, length,
}
use sysml_federation.Model.Nodes.{Scope}
use sysml_federation.Model.Outcome.Holds.{
  Holds, returns, crashes, Ends, Holds-bind, Holds-fail, Holds-if, Holds-list, Holds-option,
}
use sysml_federation.Model.Outcome.{Source}
use sysml_federation.Model.Resolve.{
  text_at, or_crash, node_at, find_child, child, find_outward, scope_chain, descend, not_a_part,
  find_first, find_part, find_req, find_port, port_of, port_end,
}
use sysml_federation.Syntax.Ast.{FeatureChain}
use sysml_federation.Syntax.Token.{Span}

pub or_crash-Ends {ℓ} : {A : Type ℓ} (o : Option A) → Ends (or_crash o)
or_crash-Ends none = crashes
or_crash-Ends (some a) = returns tt

pub or_crash-Holds : {A : Type 0} (o : Option A) → Holds (λ a. o ≡ some a) (or_crash o)
or_crash-Holds none = crashes
or_crash-Holds (some a) = returns refl

pub text_at-Ends : (s : Source) (at : Span) → Ends (text_at s at)
unfolding text_at
text_at-Ends s at =
    Holds-if (leb at.start at.stop && leb at.stop (length s.src)) (λ _. returns tt) (λ _. crashes)

module _ {F : Type 0} (sc : Scope F) where
  pub node_at-Ends : (i : ℕ) → Ends (node_at sc i)
  unfolding node_at
  node_at-Ends i = or_crash-Ends (get_elem? sc.parts i)

  find_child-Ends : (children : List ℕ) (name : Bytes) → Ends (find_child sc children name)
  unfolding find_child
  find_child-Ends [] name = returns tt
  find_child-Ends (c ∷ children) name = Holds-bind (node_at-Ends c) (λ n e _.
      Holds-if (bytes_eq n.ast.name name) (λ _. returns tt) (λ _. find_child-Ends children name))

  pub child-Ends : (i : ℕ) (name : Bytes) → Ends (child sc i name)
  unfolding child
  child-Ends i name = Holds-bind (node_at-Ends i) (λ n e _. find_child-Ends n.children name)

  find_outward-Ends : (chain : List ℕ) (name : Bytes) → Ends (find_outward sc chain name)
  unfolding find_outward
  find_outward-Ends [] name = returns tt
  find_outward-Ends (p ∷ outer) name =
      Holds-bind (child-Ends p name)
        (elim [ none ↦ λ e _. find_outward-Ends outer name | some i ↦ λ e _. returns tt ])

  scope_chain-Ends : (scope : Option ℕ) → Ends (scope_chain sc scope)
  scope_chain-Ends none = returns tt
  scope_chain-Ends (some p) = Holds-bind (node_at-Ends p) (λ n e _. returns tt)

  module _ (s : Source) where
    descend-Ends : (cur : ℕ) (names : List Bytes) (at : Span) → Ends (descend s sc cur names at)
    unfolding descend
    descend-Ends cur [] at = returns tt
    descend-Ends cur (name ∷ names) at = Holds-bind (child-Ends cur name) (elim [
      | none ↦ λ e _. Holds-bind (node_at-Ends cur) (λ n e' _. Holds-fail s at _)
      | some c ↦ λ e _. descend-Ends c names at
    ])

    not_a_part-Ends : (name : Bytes) (at : Span) → Ends (not_a_part s sc name at)
    unfolding not_a_part
    not_a_part-Ends name at =
        Holds-if (is_some (lookup name sc.req_by_name)) (λ _. Holds-fail s at _)
          (λ _. Holds-fail s at _)

    find_first-Ends :
        (scope : Option ℕ) (name : Bytes) (at : Span) → Ends (find_first s sc scope name at)
    unfolding find_first
    find_first-Ends scope name at = Holds-bind (scope_chain-Ends scope) (λ chain e _.
        Holds-bind (find_outward-Ends chain name) (elim [
          | some i ↦ λ e' _. returns tt
          | none ↦ λ e' _.
              Holds-option (lookup name sc.by_name) (λ _. not_a_part-Ends name at)
                (λ i _. returns tt)
        ]))

    pub find_part-Ends : (c : FeatureChain) (scope : Option ℕ) → Ends (find_part s sc c scope)
    unfolding find_part
    find_part-Ends c scope =
        Holds-list c.names (λ _. crashes)
          (λ name names _.
            Holds-bind (find_first-Ends scope name c.span)
              (λ cur e _. descend-Ends cur names c.span))

    pub find_req-Ends : (c : FeatureChain) → Ends (find_req s sc c)
    unfolding find_req
    find_req-Ends c =
        Holds-list c.names (λ _. crashes)
          (λ name names _.
            Holds-list names
              (λ _.
                Holds-option (lookup name sc.req_by_name)
                  (λ _.
                    Holds-if (is_some (lookup name sc.by_name)) (λ _. Holds-fail s c.span _)
                      (λ _. Holds-fail s c.span _))
                  (λ r _. returns tt))
              (λ other others _. Holds-fail s c.span _))

    port_of-Ends :
        (owner : ℕ) (name port : Bytes) (at : Span) → Ends (port_of s sc owner name port at)
    unfolding port_of
    port_of-Ends owner name port at = Holds-bind (child-Ends owner name) (elim [
      | none ↦ λ e _. Holds-fail s at _
      | some i ↦ λ e _. Holds-bind (node_at-Ends i) (λ n e' _.
          Holds-option (find_port port n.out.ports) (λ _. Holds-fail s at _) (λ p _. returns tt))
    ])

    pub port_end-Ends : (c : FeatureChain) (owner : ℕ) → Ends (port_end s sc c owner)
    unfolding port_end
    port_end-Ends c owner =
        Holds-list c.names (λ _. crashes)
          (λ name names _.
            Holds-list names
              (λ _.
                Holds-bind (child-Ends owner name)
                  (elim [ none ↦ λ e _. Holds-fail s c.span _ | some i ↦ λ e _. crashes ]))
              (λ port more _. port_of-Ends owner name port c.span))
