-- ===== src/Model/Link/Wires.antt =====
-- What a connect statement adds.
use mathlib.Core.List.{Mem, not-mem-nil, mem-cons}
use mathlib.Core.List.{Memᴰ}
use mathlib.Core.HLevel.{⊥_prop}
use mathlib.Core.Logic.Or
use sysml_federation.Base.{
  ℕ, ◌≡◌, refl, sym, ap, subst, ◌∙◌, inl, inr, List, [], ◌∷◌, ◌++◌, Bool, true, false, none, some,
  arith, map, Bytes, bytes_eq, bytes_eq_iff, get_elem?, Bool-cases,
}
use sysml_federation.Model.Nodes.{Port, Connection, PartNode, Scope}
use sysml_federation.Model.Outcome.Holds.{
  Holds, returns, crashes, Holds-bind, Holds-fail, Holds-list, Holds-option, Holds-refuse,
  Holds-done, Holds-if, Holds-map,
}
use sysml_federation.Model.Outcome.{Source, done}
use sysml_federation.Model.Resolve.Ending.{or_crash-Holds, text_at-Ends, child-Ends}
use sysml_federation.Model.Resolve.{
  node_at, child, find_child, find_port, port_of, port_end, is_out, is_in, check_direction,
  has_connection, connection_id, connect,
}
use sysml_federation.Syntax.Ast.{
  Direction, direction_out, direction_in, direction_zero, direction_in_out, FeatureChain, Connect,
}

has_connection-Mem :
    (id : Bytes) (list : List Connection)
    → has_connection id list ≡ false
    → ¬ Mem id (map (λ c. c.id) list)
unfolding has_connection
has_connection-Mem id [] h m = not-mem-nil m
has_connection-Mem id (c ∷ list) h m = elim (Bool-cases (bytes_eq c.id id)) [
  | inl e ↦ ground (arith, e)
  | inr e ↦
      Or.elim ⊥_prop (mem-cons.0 m) (λ same. ground (arith, e, (bytes_eq_iff c.id id).1 (sym same)))
        (has_connection-Mem id list (ground (arith, e)))
]

is_out-direction : (d : Direction) → is_out d ≡ true → d ≡ direction_out
is_out-direction direction_out h = refl
is_out-direction direction_zero h = absurd (ground arith)
is_out-direction direction_in h = absurd (ground arith)
is_out-direction direction_in_out h = absurd (ground arith)

is_in-direction : (d : Direction) → is_in d ≡ true → d ≡ direction_in
is_in-direction direction_in h = refl
is_in-direction direction_zero h = absurd (ground arith)
is_in-direction direction_out h = absurd (ground arith)
is_in-direction direction_in_out h = absurd (ground arith)

check_direction-true :
    (s : Source) (b : Bool) (c : FeatureChain) (which wanted : Bytes)
    → Holds (λ _. b ≡ true) (check_direction s b c which wanted)
unfolding check_direction
check_direction-true s true c which wanted = returns refl
check_direction-true s false c which wanted =
    Holds-bind (text_at-Ends s c.span) (λ text _ _. Holds-fail s c.span _)

find_port-named :
    (name : Bytes) (ports : List Port) (p : Port)
    → find_port name ports ≡ some p
    → Memᴰ p ports × (p.name ≡ name)
find_port-named name [] p e = absurd (ground (arith, e))
find_port-named name (q ∷ ports) p e = elim (Bool-cases (bytes_eq q.name name)) [
  | inl same ↦
      let is : q ≡ p = ground (arith, rw (same) at e) in
      (
        Memᴰ.head (sym is),
        subst (λ (x : Port). x.name ≡ name) is ((bytes_eq_iff q.name name).0 same),
      )
  | inr other ↦
      let (m, named) = find_port-named name ports p (rw (other) at e) in (Memᴰ.tail m, named)
]

module _ {F : Type 0} (s : Source) (sc : Scope F) (owner : ℕ) where
  -- A part of the list with the name.
  abbrev IsPart : List ℕ → Bytes → ℕ → Type 0
  IsPart children name i =
      Memᴰ i children × (n : PartNode F) × (get_elem? sc.parts i ≡ some n) × (n.ast.name ≡ name)

  find_child-IsPart :
      (children : List ℕ) (name : Bytes)
      → Holds (λ r. (i : ℕ) → r ≡ some i → IsPart children name i) (find_child sc children name)
  unfolding find_child node_at
  find_child-IsPart [] name = returns (λ i e. absurd (ground (arith, e)))
  find_child-IsPart (c ∷ children) name =
      Holds-bind (or_crash-Holds (get_elem? sc.parts c)) (λ n _ here.
        Holds-if (bytes_eq n.ast.name name)
          (λ same. returns (λ i e.
            let is : c ≡ i = ground (arith, e) in
            (
              Memᴰ.head (sym is),
              n,
              subst (λ j. get_elem? sc.parts j ≡ some n) is here,
              (bytes_eq_iff n.ast.name name).0 same,
            )))
          (λ _.
            Holds-map (find_child-IsPart children name)
              (λ r _ k i e. let (m, x, y, z) = k i e in (Memᴰ.tail m, x, y, z))))

  -- One of the owner's children has the name.
  abbrev IsChild : Bytes → ℕ → Type 0
  IsChild name i = (o : PartNode F) × (get_elem? sc.parts owner ≡ some o) × IsPart o.children name i

  child-IsChild :
      (name : Bytes) → Holds (λ r. (i : ℕ) → r ≡ some i → IsChild name i) (child sc owner name)
  unfolding child node_at
  child-IsChild name =
      Holds-bind (or_crash-Holds (get_elem? sc.parts owner))
        (λ o _ here. Holds-map (find_child-IsPart o.children name) (λ r _ k i e. (o, here, k i e)))

  -- The chain names a child part of the owner and one of that part's ports.
  abbrev pub IsEnd : FeatureChain → ℕ → Port → Type 0
  IsEnd c i p =
      (name port : Bytes) × (more : List Bytes) × (n : PartNode F) × (c.names ≡ name ∷ port ∷ more)
      × IsChild name i
      × (get_elem? sc.parts i ≡ some n)
      × Memᴰ p n.out.ports
      × (p.name ≡ port)

  port_end-IsEnd : (c : FeatureChain) → Holds (λ r. IsEnd c r.0 r.1) (port_end s sc c owner)
  unfolding port_end port_of node_at
  port_end-IsEnd c =
      Holds-list c.names (λ _. crashes)
        (λ name names outer.
          Holds-list names
            (λ _.
              Holds-bind (child-Ends sc owner name)
                (elim [ none ↦ λ e _. Holds-fail s c.span _ | some i ↦ λ e _. crashes ]))
            (λ port more inner. Holds-bind (child-IsChild name) (elim [
              | none ↦ λ e _. Holds-fail s c.span _
              | some i ↦ λ e k. Holds-bind (or_crash-Holds (get_elem? sc.parts i)) (λ n _ here.
                  Holds-option (find_port port n.out.ports) (λ _. Holds-fail s c.span _)
                    (λ p found.
                      let (m, named) = find_port-named port n.out.ports p found in
                      returns (
                        name,
                        port,
                        more,
                        n,
                        outer ∙ ap (λ l. name ∷ l) inner,
                        k i refl,
                        here,
                        m,
                        named,
                      )))
            ])))

  -- The names are the id of the part and the name of its port.
  abbrev pub IsNamed : ℕ → Port → Bytes → Bytes → Type 0
  IsNamed i p id port =
      (n : PartNode F) × (get_elem? sc.parts i ≡ some n) × (id ≡ n.out.id) × (port ≡ p.name)

  -- The connection runs from an out port to an in port of child parts of the owner, and its id tells
  -- both ends.
  pub record IsWire (c : Connect) (added : Connection) : Type 0 where
    pub from_child : ℕ
    pub to_child : ℕ
    pub from_port : Port
    pub to_port : Port
    pub from_end : IsEnd c.from from_child from_port
    pub to_end : IsEnd c.to to_child to_port
    pub out : from_port.direction ≡ direction_out
    pub into : to_port.direction ≡ direction_in
    pub starts : IsNamed from_child from_port added.from added.from_port
    pub ends : IsNamed to_child to_port added.to added.to_port
    pub id : added.id ≡ connection_id added.from added.from_port added.to added.to_port

  connect-IsWire :
      (c : Connect)
      → Holds
          (λ list.
            (o : PartNode F) × (added : Connection) × (get_elem? sc.parts owner ≡ some o)
            × (list ≡ o.out.connections ++ added ∷ [])
            × IsWire c added
            × (¬ Mem added.id (map (λ x. x.id) o.out.connections)))
          (connect s sc owner c)
  unfolding connect node_at
  connect-IsWire c = Holds-bind (port_end-IsEnd c.from) (λ x _ from.
      Holds-bind (check_direction-true s (is_out x.1.direction) c.from _ _) (λ _ _ out.
        Holds-bind (port_end-IsEnd c.to) (λ y _ to.
          Holds-bind (check_direction-true s (is_in y.1.direction) c.to _ _) (λ _ _ into.
            Holds-bind (or_crash-Holds (get_elem? sc.parts x.0)) (λ f _ f_here.
              Holds-bind (or_crash-Holds (get_elem? sc.parts y.0)) (λ t _ t_here.
                Holds-bind (or_crash-Holds (get_elem? sc.parts owner)) (λ o _ here.
                  Holds-refuse
                    (has_connection (connection_id f.out.id x.1.name t.out.id y.1.name)
                      o.out.connections)
                    s c.span _
                    (λ fresh. returns (
                      o,
                      _,
                      here,
                      refl,
                      record {
                        from_child = x.0;
                        to_child = y.0;
                        from_port = x.1;
                        to_port = y.1;
                        from_end = from;
                        to_end = to;
                        out = is_out-direction x.1.direction out;
                        into = is_in-direction y.1.direction into;
                        starts = (f, f_here, refl, refl);
                        ends = (t, t_here, refl, refl);
                        id = refl;
                      },
                      has_connection-Mem _ o.out.connections fresh,
                    )))))))))

  -- Where a connect statement is accepted, it adds one connection behind those of its part: from an out
  -- port to an in port of two child parts of that part. At each end the first name of the chain is the
  -- name of the child part and the second the name of the port, which is one of the child part's ports.
  -- The id is made of both ends, and no connection of the part had it.
  pub connect-Wires :
      (c : Connect) (list : List Connection)
      → connect s sc owner c ≡ done list
      → (o : PartNode F) × (added : Connection) × (get_elem? sc.parts owner ≡ some o)
        × (list ≡ o.out.connections ++ added ∷ [])
        × IsWire c added
        × (¬ Mem added.id (map (λ x. x.id) o.out.connections))
  connect-Wires c list h = Holds-done (connect-IsWire c) h
