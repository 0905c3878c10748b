-- ===== src/Model/Declare/Ending.antt =====
-- The loops of Declare.
use mathlib.Core.List.{
  Mem, Mem-prop, not-mem-nil, mem-cons, mem-cons_of_mem, Nodup, Nodup-nil, Nodup-cons,
}
use mathlib.Core.Logic.Or
use sysml_federation.Base.{
  ◌≤◌, length-append, ℕ, zero, suc, ◌+◌, ◌<◌, ◌≡◌, refl, sym, ap, subst, inl, inr, List, [], ◌∷◌,
  ◌++◌, some, arith, length, length-subset, Bytes, bytes_eq, bytes_eq_iff, one_of, one_of-not,
  lookup, Bool-cases,
}
use sysml_federation.Model.Declare.{
  def_loop, def_chain, port_direction, has_port, add_port, add_ports, def_ports, find_slot, rebind,
  add_slot, add_slots, def_slots, fields,
}
use sysml_federation.Model.Nodes.{Slot, Port, Definitions}
use sysml_federation.Model.Outcome.Holds.{
  Ends, Holds, Holds-bind, Holds-cases, Holds-fail, Holds-map, Holds-option, Holds-refuse, returns,
}
use sysml_federation.Model.Outcome.{Source}
use sysml_federation.Syntax.Ast.{AttributeFields, AttributeUsage, PartDef, PortUsage}
use sysml_federation.Syntax.Token.{Span}

names {ℓ} : {A : Type ℓ} → List (Bytes × A) → List Bytes
names [] = []
names ((k, v) ∷ m) = k ∷ names m

length-names {ℓ} : {A : Type ℓ} (m : List (Bytes × A)) → length (names m) ≡ length m
unfolding names
length-names [] = refl
length-names ((k, v) ∷ m) = ap suc (length-names m)

lookup-Mem {ℓ} :
    {A : Type ℓ} (k : Bytes) (m : List (Bytes × A)) {v : A} → lookup k m ≡ some v → Mem k (names m)
unfolding lookup names
lookup-Mem k [] h = absurd (ground (arith, h))
lookup-Mem k ((j, w) ∷ m) {v} h = elim (Bool-cases (bytes_eq j k)) [
  | inl e ↦ mem-cons.1 (Or.inl (sym ((bytes_eq_iff j k).0 e)))
  | inr e ↦ mem-cons_of_mem j (lookup-Mem k m {v = v} (ground (arith, h, e)))
]

module _ {F : Type 0} (s : Source) (defs : Definitions F) where
  def_loop_bounded :
      (fuel : ℕ) (name : Bytes) (at : Span) (seen : List Bytes) (chain : List (PartDef F))
      → Nodup seen
      → ((k : Bytes) → Mem k seen → Mem k (names defs.part_defs))
      → length defs.part_defs < fuel + length seen
      → length chain ≡ length seen
      → Holds (λ c. length c ≤ length defs.part_defs) (def_loop s defs fuel name at seen chain)
  unfolding def_loop
  def_loop_bounded zero [] at seen chain once known h same = returns (
      omega (
        arith,
        same,
        length-subset seen (names defs.part_defs) once known,
        length-names defs.part_defs,
      ))
  def_loop_bounded (suc fuel) [] at seen chain once known h same = returns (
      omega (
        arith,
        same,
        length-subset seen (names defs.part_defs) once known,
        length-names defs.part_defs,
      ))
  def_loop_bounded zero (c ∷ cs) at seen chain once known h same = absurd (
      omega
        (arith, length-subset seen (names defs.part_defs) once known, length-names defs.part_defs))
  def_loop_bounded (suc fuel) (c ∷ cs) at seen chain once known h same =
      Holds-option (lookup (c ∷ cs) defs.part_defs) (λ _. Holds-fail s at _)
        (λ d found. Holds-refuse (one_of seen (c ∷ cs)) s at _ (λ fresh.
          def_loop_bounded fuel d.specializes at ((c ∷ cs) ∷ seen) (chain ++ d ∷ [])
            (Nodup-cons.1 (one_of-not seen (c ∷ cs) fresh, once))
            (λ k m.
              Or.elim Mem-prop (mem-cons.0 m)
                (λ e.
                  subst (λ j. Mem j (names defs.part_defs)) (sym e)
                    (lookup-Mem (c ∷ cs) defs.part_defs found))
                (known k))
            (omega arith) (omega (arith, same, length-append chain (d ∷ [])))))

  -- The chain of a definition and its bases ends, refused or not, and it has at most as many definitions
  -- as the package declares.
  pub def_chain_bounded :
      (name : Bytes) (at : Span)
      → Holds (λ chain. length chain ≤ length defs.part_defs) (def_chain s defs name at)
  unfolding def_chain
  def_chain_bounded name at =
      def_loop_bounded (suc (suc (length defs.part_defs))) name at [] [] Nodup-nil
        (λ k m. absurd (not-mem-nil m)) (omega arith) refl

  pub def_chain-Ends : (name : Bytes) (at : Span) → Ends (def_chain s defs name at)
  def_chain-Ends name at = Holds-map (def_chain_bounded name at) (λ chain _ _. tt)

  pub port_direction-Ends : (p : PortUsage) → Ends (port_direction s defs p)
  unfolding port_direction
  port_direction-Ends p =
      Holds-option (lookup p.type defs.port_defs) (λ _. Holds-fail s p.span _) (λ d _. returns tt)

  pub add_ports-Ends :
      (ports : List Port) (usages : List PortUsage) → Ends (add_ports s defs ports usages)
  unfolding add_ports add_port
  add_ports-Ends ports [] = returns tt
  add_ports-Ends ports (p ∷ usages) =
      Holds-bind
        (Holds-refuse (has_port s defs p.name ports) s p.span _
          (λ _. Holds-bind {Q = λ _. Unit {0}} (port_direction-Ends p) (λ dir _ _. returns tt)))
        (λ ports' _ _. add_ports-Ends ports' usages)

  pub def_ports-Ends :
      (ports : List Port) (chain : List (PartDef F)) → Ends (def_ports s defs ports chain)
  unfolding def_ports
  def_ports-Ends ports [] = returns tt
  def_ports-Ends ports (d ∷ chain) =
      Holds-bind (def_ports-Ends ports chain) (λ ports' _ _. add_ports-Ends ports' d.ports)

module _ {F : Type 0} (s : Source) where
  add_slot-Ends :
      (slots : List (Slot F)) (a : AttributeFields F) (owner : Bytes)
      → Ends (add_slot s slots a owner)
  unfolding add_slot
  add_slot-Ends slots a owner =
      Holds-cases a.redefines
        (λ _.
          Holds-option (rebind a.name a.value slots) (λ _. Holds-fail s a.span _)
            (λ slots' _. returns tt))
        (λ _.
          Holds-option (find_slot slots a.name) (λ _. returns tt) (λ slot _. Holds-fail s a.span _))

  pub add_slots-Ends :
      (slots : List (Slot F)) (usages : List (AttributeUsage F)) (owner : Bytes)
      → Ends (add_slots s slots usages owner)
  unfolding add_slots
  add_slots-Ends slots [] owner = returns tt
  add_slots-Ends slots (a ∷ usages) owner =
      Holds-bind (add_slot-Ends slots (fields a) owner)
        (λ slots' _ _. add_slots-Ends slots' usages owner)

  pub def_slots-Ends :
      (slots : List (Slot F)) (chain : List (PartDef F)) → Ends (def_slots s slots chain)
  unfolding def_slots
  def_slots-Ends slots [] = returns tt
  def_slots-Ends slots (d ∷ chain) =
      Holds-bind (def_slots-Ends slots chain)
        (λ slots' _ _. add_slots-Ends slots' d.attributes d.name)
