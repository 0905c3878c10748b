-- ===== src/Model/Resolve.antt =====
-- adapter/model/resolve.go: names of parts and requirements, and the ends of a connection.
pub mod Ending
use sysml_federation.Base.{
  ℕ, zero, suc, List, [], ◌∷◌, ◌++◌, Bool, true, false, not, Option, none, some, if◌then◌else◌,
  get_elem?, leb, ◌&&◌, length, take, drop, ◌-◌, Bytes, bytes, bytes_eq, lookup, update_nth,
  is_some,
}
use sysml_federation.Model.Nodes.{Port, Connection, Part, PartNode, Scope}
use sysml_federation.Model.Outcome.{
  Outcome, done, refused, crash, out_of_fuel, pure, ◌>>=◌, ◌>>◌, Source, fail, refuse_if,
}
use sysml_federation.Syntax.Ast.{
  Direction, direction_zero, direction_in, direction_out, direction_in_out, FeatureChain, Connect,
}
use sysml_federation.Syntax.Token.{Span}

-- f.Text(at), which panics outside the source.
unfoldable pub text_at : Source → Span → Outcome Bytes
text_at s at =
    if leb at.start at.stop && leb at.stop (length s.src)
    then pure (take (at.stop - at.start) (drop at.start s.src))
    else crash

abbrev pub or_crash {ℓ} : {A : Type ℓ} → Option A → Outcome A
or_crash none = crash
or_crash (some a) = done a

abbrev pub find_port : Bytes → List Port → Option Port
find_port name [] = none
find_port name (p ∷ ports) =
    let rest = find_port name ports in if bytes_eq p.name name then some p else rest

abbrev pub is_out : Direction → Bool
is_out direction_out = true
is_out direction_zero = false
is_out direction_in = false
is_out direction_in_out = false

abbrev pub is_in : Direction → Bool
is_in direction_in = true
is_in direction_zero = false
is_in direction_out = false
is_in direction_in_out = false

unfoldable pub has_connection : Bytes → List Connection → Bool
has_connection id [] = false
has_connection id (c ∷ connections) =
    let rest = has_connection id connections in if bytes_eq c.id id then true else rest

unfoldable pub connection_id : Bytes → Bytes → Bytes → Bytes → Bytes
connection_id from from_port to to_port =
    from ++ bytes "." ++ from_port ++ bytes "->" ++ to ++ bytes "." ++ to_port

-- The refusal of an end whose port does not have the direction.
unfoldable pub check_direction : Source → Bool → FeatureChain → Bytes → Bytes → Outcome (Unit {0})
check_direction s true c which wanted = pure tt
check_direction s false c which wanted =
    text_at s c.span >>= λ text. fail s c.span (which ++ s.quote text ++ wanted)

module _ {F : Type 0} where
  -- The node behind a pointer.
  unfoldable pub node_at : Scope F → ℕ → Outcome (PartNode F)
  node_at sc i = or_crash (get_elem? sc.parts i)

  -- child, on the children that are left
  unfoldable pub find_child : Scope F → List ℕ → Bytes → Outcome (Option ℕ)
  find_child sc [] name = pure none
  find_child sc (c ∷ children) name = node_at sc c >>= λ n.
      (let rest = find_child sc children name in
        if bytes_eq n.ast.name name then pure (some c) else rest)

  unfoldable pub child : Scope F → ℕ → Bytes → Outcome (Option ℕ)
  child sc i name = node_at sc i >>= λ n. find_child sc n.children name

  -- The first loop of findPart, from the scope outward.
  unfoldable pub find_outward : Scope F → List ℕ → Bytes → Outcome (Option ℕ)
  find_outward sc [] name = pure none
  find_outward sc (p ∷ outer) name =
      child sc p name >>= λ c. elim c [ none ↦ find_outward sc outer name | some i ↦ pure (some i) ]

  -- The part of the scope with those around it; none for no scope.
  abbrev pub scope_chain : Scope F → Option ℕ → Outcome (List ℕ)
  scope_chain sc none = pure []
  scope_chain sc (some p) = node_at sc p >>= λ n. pure (p ∷ n.enclosing)

  module _ (s : Source) where
    -- The second loop of findPart.
    unfoldable pub descend : Scope F → ℕ → List Bytes → Span → Outcome ℕ
    descend sc cur [] at = pure cur
    descend sc cur (name ∷ names) at = child sc cur name >>= λ next. elim next [
      | none ↦ node_at sc cur >>= λ n.
          fail s at (s.quote n.out.name ++ bytes " has no part " ++ s.quote name)
      | some c ↦ descend sc c names at
    ]

    -- A name that no part has: it may be a requirement's.
    unfoldable pub not_a_part : Scope F → Bytes → Span → Outcome ℕ
    not_a_part sc name at =
        if is_some (lookup name sc.req_by_name)
        then fail s at (s.quote name ++ bytes " is not a part")
        else fail s at (bytes "unresolved name " ++ s.quote name)

    -- The part that a first name stands for.
    unfoldable pub find_first : Scope F → Option ℕ → Bytes → Span → Outcome ℕ
    find_first sc scope name at = scope_chain sc scope >>= λ chain.
        find_outward sc chain name >>= λ found. elim found [
          | some i ↦ pure i
          | none ↦ elim (lookup name sc.by_name) [ some i ↦ pure i | none ↦ not_a_part sc name at ]
        ]

    unfoldable pub find_part : Scope F → FeatureChain → Option ℕ → Outcome ℕ
    find_part sc c scope = elim c.names [
      | [] ↦ crash
      | name ∷ names ↦ find_first sc scope name c.span >>= λ cur. descend sc cur names c.span
    ]

    unfoldable pub find_req : Scope F → FeatureChain → Outcome ℕ
    find_req sc c = elim c.names [
      | [] ↦ crash
      | name ∷ names ↦ elim names [
        | [] ↦ elim (lookup name sc.req_by_name) [
          | some r ↦ pure r
          | none ↦
              if is_some (lookup name sc.by_name)
              then fail s c.span (s.quote name ++ bytes " is not a requirement")
              else fail s c.span (bytes "unresolved name " ++ s.quote name)
        ]
        | other ∷ others ↦ fail s c.span (bytes "unresolved name " ++ s.quote name)
      ]
    ]

    -- portEnd on the two names of the chain
    unfoldable pub port_of : Scope F → ℕ → Bytes → Bytes → Span → Outcome (ℕ × Port)
    port_of sc owner name port at = child sc owner name >>= λ c. elim c [
      | none ↦ fail s at (bytes "unresolved name " ++ s.quote name)
      | some i ↦ node_at sc i >>= λ n. elim (find_port port n.out.ports) [
        | none ↦ fail s at (s.quote name ++ bytes " has no port " ++ s.quote port)
        | some p ↦ pure (i, p)
      ]
    ]

    -- An unknown child is refused before a missing port name is read.
    unfoldable pub port_end : Scope F → FeatureChain → ℕ → Outcome (ℕ × Port)
    port_end sc c owner = elim c.names [
      | [] ↦ crash
      | name ∷ names ↦ elim names [
        | [] ↦ child sc owner name >>= λ found. elim found [
          | none ↦ fail s c.span (bytes "unresolved name " ++ s.quote name)
          | some i ↦ crash
        ]
        | port ∷ more ↦ port_of sc owner name port c.span
      ]
    ]

    -- connect: the connections of the owner with the new one.
    unfoldable pub connect : Scope F → ℕ → Connect → Outcome (List Connection)
    connect sc owner c = port_end sc c.from owner >>= λ (from, fp).
        check_direction s (is_out fp.direction) c.from (bytes "first end ")
          (bytes " is not an out port")
        >> (port_end sc c.to owner >>= λ (to, tp).
            check_direction s (is_in tp.direction) c.to (bytes "second end ")
              (bytes " is not an in port")
            >> (node_at sc from >>= λ f. node_at sc to >>= λ t. node_at sc owner >>= λ o.
                let id = connection_id f.out.id fp.name t.out.id tp.name in
                refuse_if (has_connection id o.out.connections) s c.span
                  (bytes "duplicate connection " ++ s.quote id)
                >> pure (
                    o.out.connections
                    ++ record {
                      id = id;
                      from = f.out.id;
                      from_port = fp.name;
                      to = t.out.id;
                      to_port = tp.name;
                    }
                      ∷ [])))
