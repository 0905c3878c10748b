-- ===== src/Model/Parts/Unique.antt =====
-- Names of the attributes and ports of a part, in build.go.
use mathlib.Core.List.{Mem, not-mem-nil, mem-cons, Nodup, Nodup-nil, map-append}
use mathlib.Core.HLevel.{⊥_prop}
use mathlib.Core.Logic.Or
use sysml_federation.Base.{
  ℕ, ◌≡◌, sym, ap, ◌∙◌, subst, inl, inr, List, [], ◌∷◌, ◌++◌, false, Option, none, some, arith, map,
  Bytes, bytes_eq, bytes_eq_iff, Bool-cases, Option-cases,
}
use sysml_federation.Model.Build.Taken.{Nodup-snoc}
use sysml_federation.Model.Declare.Ending.{port_direction-Ends}
use sysml_federation.Model.Declare.{
  has_port, add_port, add_ports, def_ports, find_slot, rebind, add_slot, add_slots, def_slots,
  fields, declared_by,
}
use sysml_federation.Model.Nodes.{Slot, Port, Definitions}
use sysml_federation.Model.Outcome.Holds.{
  Holds, returns, Holds-bind, Holds-fail, Holds-cases, Holds-option, Holds-refuse,
}
use sysml_federation.Model.Outcome.{Source}
use sysml_federation.Model.Parts.Ending.{usage_defs-Ends}
use sysml_federation.Model.Parts.{part_node}
use sysml_federation.Syntax.Ast.{AttributeUsage, PartFields, PartDef, PortUsage, Expr}

abbrev pub slot_names : {F : Type 0} → List (Slot F) → List Bytes
slot_names slots = map (λ s. s.name) slots

abbrev pub port_names : List Port → List Bytes
port_names ports = map (λ p. p.name) ports

snoc-Nodup :
    {A : Type 0} (h : A → Bytes) (list : List A) (a : A)
    → Nodup (map h list)
    → ¬ Mem (h a) (map h list)
    → Nodup (map h (list ++ a ∷ []))
snoc-Nodup h list a once fresh =
    subst Nodup (sym (map-append h list (a ∷ []))) (Nodup-snoc (map h list) (h a) once fresh)

module _ {F : Type 0} where
  find_slot-none :
      (slots : List (Slot F)) (name : Bytes)
      → find_slot slots name ≡ none
      → ¬ Mem name (slot_names slots)
  unfolding find_slot
  find_slot-none [] name h m = not-mem-nil m
  find_slot-none (s ∷ slots) name h m = elim (Bool-cases (bytes_eq s.name name)) [
    | inl e ↦ ground (arith, h, e)
    | inr e ↦
        Or.elim ⊥_prop (mem-cons.0 m)
          (λ same. ground (arith, e, (bytes_eq_iff s.name name).1 (sym same)))
          (find_slot-none slots name (ground (arith, h, e)))
  ]

  rebind-names :
      (name : Bytes) (value : Option (Expr F)) (slots : List (Slot F)) {slots' : List (Slot F)}
      → rebind name value slots ≡ some slots'
      → slot_names slots' ≡ slot_names slots
  unfolding rebind
  rebind-names name value [] h = absurd (ground arith)
  rebind-names name value (s ∷ slots) {slots'} h = elim (Bool-cases (bytes_eq s.name name)) [
    | inl e ↦ elim (Option-cases value) [
      | inl v ↦ ground (arith, h, e, v)
      | inr (x, v) ↦ ground (arith, h, e, v)
    ]
    | inr e ↦ elim (Option-cases (rebind name value slots)) [
      | inl r ↦ absurd (ground (arith, h, e, r))
      | inr (rest, r) ↦
          let same : slots' ≡ s ∷ rest = ground (arith, h, e, r) in
          ap slot_names same
          ∙ ap (λ l. s.name ∷ l) (rebind-names name value slots {slots' = rest} r)
    ]
  ]

module _ {F : Type 0} (s : Source) where
  add_slots-Nodup :
      (slots : List (Slot F)) (usages : List (AttributeUsage F)) (owner : Bytes)
      → Nodup (slot_names slots)
      → Holds (λ out. Nodup (slot_names out)) (add_slots s slots usages owner)
  unfolding add_slots add_slot
  add_slots-Nodup slots [] owner once = returns once
  add_slots-Nodup slots (u ∷ usages) owner once =
      let a = fields u in
      Holds-bind {P = λ out. Nodup (slot_names out)}
        (Holds-cases a.redefines
          (λ _.
            Holds-option (rebind a.name a.value slots) (λ _. Holds-fail s a.span _)
              (λ slots' r. returns (subst Nodup (sym (rebind-names a.name a.value slots r)) once)))
          (λ _.
            Holds-option (find_slot slots a.name)
              (λ free. returns (
                snoc-Nodup (λ (x : Slot F). x.name) slots _ once
                  (find_slot-none slots a.name free)))
              (λ slot _. Holds-fail s a.span _)))
        (λ out _ once'. add_slots-Nodup out usages owner once')

  def_slots-Nodup :
      (slots : List (Slot F)) (chain : List (PartDef F))
      → Nodup (slot_names slots)
      → Holds (λ out. Nodup (slot_names out)) (def_slots s slots chain)
  unfolding def_slots
  def_slots-Nodup slots [] once = returns once
  def_slots-Nodup slots (d ∷ chain) once =
      Holds-bind (def_slots-Nodup slots chain once)
        (λ out _ once'. add_slots-Nodup out d.attributes d.name once')

  module _ (defs : Definitions F) where
    has_port-Mem :
        (name : Bytes) (ports : List Port)
        → has_port s defs name ports ≡ false
        → ¬ Mem name (port_names ports)
    unfolding has_port
    has_port-Mem name [] h m = not-mem-nil m
    has_port-Mem name (p ∷ ports) h m = elim (Bool-cases (bytes_eq p.name name)) [
      | inl e ↦ ground (arith, h, e)
      | inr e ↦
          Or.elim ⊥_prop (mem-cons.0 m)
            (λ same. ground (arith, e, (bytes_eq_iff p.name name).1 (sym same)))
            (has_port-Mem name ports (ground (arith, h, e)))
    ]

    add_ports-Nodup :
        (ports : List Port) (usages : List PortUsage)
        → Nodup (port_names ports)
        → Holds (λ out. Nodup (port_names out)) (add_ports s defs ports usages)
    unfolding add_ports add_port
    add_ports-Nodup ports [] once = returns once
    add_ports-Nodup ports (p ∷ usages) once =
        Holds-bind {P = λ out. Nodup (port_names out)}
          (Holds-refuse (has_port s defs p.name ports) s p.span _ (λ free.
            Holds-bind (port_direction-Ends s defs p) (λ dir _ _.
              returns
                (snoc-Nodup (λ (x : Port). x.name) ports _ once (has_port-Mem p.name ports free)))))
          (λ out _ once'. add_ports-Nodup out usages once')

    def_ports-Nodup :
        (ports : List Port) (chain : List (PartDef F))
        → Nodup (port_names ports)
        → Holds (λ out. Nodup (port_names out)) (def_ports s defs ports chain)
    unfolding def_ports
    def_ports-Nodup ports [] once = returns once
    def_ports-Nodup ports (d ∷ chain) once =
        Holds-bind (def_ports-Nodup ports chain once)
          (λ out _ once'. add_ports-Nodup out d.ports once')

    -- A part usage, with what its definitions declare, is refused, or its attributes have different names
    -- and so have its ports.
    pub part_node-Nodup :
        (u : PartFields F) (enclosing : List ℕ) (id qualified : Bytes)
        → Holds
            (λ n. Nodup (slot_names n.attrs) × Nodup (port_names n.out.ports))
            (part_node s defs u enclosing id qualified)
    unfolding part_node
    part_node-Nodup u enclosing id qualified =
        Holds-bind (usage_defs-Ends s defs u.type u.span) (λ chain _ _.
          Holds-bind (def_slots-Nodup [] chain Nodup-nil) (λ inherited _ a.
            Holds-bind (add_slots-Nodup inherited u.attributes (declared_by u.type u.name) a)
              (λ slots _ b. Holds-bind (def_ports-Nodup [] chain Nodup-nil) (λ base _ c.
                Holds-bind (add_ports-Nodup base u.ports c) (λ ports _ d. returns (b, d))))))
