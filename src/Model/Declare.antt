-- ===== src/Model/Declare.antt =====
-- adapter/model/build.go: the helpers that declare ids, definition chains, attribute slots and ports.
pub mod Ending
use sysml_federation.Base.{
  ℕ, zero, suc, List, [], ◌∷◌, ◌++◌, Bool, true, false, not, Option, none, some, if◌then◌else◌,
  length, Bytes, bytes, bytes_eq, one_of, lookup,
}
use sysml_federation.Model.Nodes.{Slot, Port, Part, Definitions}
use sysml_federation.Model.Outcome.{
  Outcome, done, refused, crash, out_of_fuel, pure, ◌>>=◌, ◌>>◌, Source, fail, refuse_if,
}
use sysml_federation.Syntax.Ast.{
  Direction, direction_in, direction_out, direction_in_out, direction_zero, DirectedItem, Doc, Expr,
  AttributeFields, AttributeUsage, attribute_usage, PartDef, PortDef, PortUsage,
}
use sysml_federation.Syntax.Token.{Span}

-- id: the short name, else the qualified name, with the ids used then.
unfoldable pub choose_id : Source → Bytes → Bytes → Span → List Bytes → Outcome (Bytes × List Bytes)
choose_id s short qualified at ids =
    let id = if bytes_eq short [] then qualified else short in
    refuse_if (one_of ids id) s at (bytes "duplicate id " ++ s.quote id) >> pure (id, id ∷ ids)

-- chain[0].Name
unfoldable pub first_name : {F : Type 0} → List (PartDef F) → Bytes
first_name [] = []
first_name (d ∷ chain) = d.name

module _ {F : Type 0} (s : Source) (defs : Definitions F) where
  -- The loop of defChain: `seen` are the names met, `chain` the definitions behind them.
  unfoldable pub def_loop :
      ℕ → Bytes → Span → List Bytes → List (PartDef F) → Outcome (List (PartDef F))
  def_loop fuel [] at seen chain = pure chain
  def_loop zero (c ∷ cs) at seen chain = out_of_fuel
  def_loop (suc fuel) (c ∷ cs) at seen chain = elim (lookup (c ∷ cs) defs.part_defs) [
    | none ↦ fail s at (bytes "unresolved definition " ++ s.quote (c ∷ cs))
    | some d ↦
        refuse_if (one_of seen (c ∷ cs)) s at
          (bytes "cyclic specialization of " ++ s.quote (first_name chain))
        >> def_loop fuel d.specializes at ((c ∷ cs) ∷ seen) (chain ++ d ∷ [])
  ]

  -- defChain: a round meets a definition that no round before has met, or it fails.
  unfoldable pub def_chain : Bytes → Span → Outcome (List (PartDef F))
  def_chain name at = def_loop (suc (suc (length defs.part_defs))) name at [] []

  -- The loop of portDirection over the items behind the first one.
  unfoldable pub same_direction : Direction → List DirectedItem → Direction
  same_direction dir [] = dir
  same_direction dir (it ∷ items) =
      let rest = same_direction dir items in
      if is_direction it.direction dir then rest else direction_in_out
    where
      is_direction : Direction → Direction → Bool
      is_direction direction_zero direction_zero = true
      is_direction direction_in direction_in = true
      is_direction direction_out direction_out = true
      is_direction direction_in_out direction_in_out = true
      is_direction _ _ = false

  abbrev pub items_direction : List DirectedItem → Direction
  items_direction [] = direction_in_out
  items_direction (it ∷ items) = same_direction it.direction items

  unfoldable pub port_direction : PortUsage → Outcome Direction
  port_direction p = elim (lookup p.type defs.port_defs) [
    | none ↦ fail s p.span (bytes "unresolved definition " ++ s.quote p.type)
    | some d ↦ pure (items_direction d.items)
  ]

  unfoldable pub has_port : Bytes → List Port → Bool
  has_port name [] = false
  has_port name (p ∷ ports) =
      let rest = has_port name ports in if bytes_eq p.name name then true else rest

  -- port, on the ports of the part
  unfoldable pub add_port : List Port → PortUsage → Outcome (List Port)
  add_port ports p =
      refuse_if (has_port p.name ports) s p.span
        (bytes "port " ++ s.quote p.name ++ bytes " is declared twice")
      >> (port_direction p >>= λ dir.
          pure (ports ++ record { name = p.name; direction = dir } ∷ []))

  unfoldable pub add_ports : List Port → List PortUsage → Outcome (List Port)
  add_ports ports [] = pure ports
  add_ports ports (p ∷ usages) = add_port ports p >>= λ ports'. add_ports ports' usages

  -- The loops over the definitions run from the base down, the most specific one last.
  unfoldable pub def_ports : List Port → List (PartDef F) → Outcome (List Port)
  def_ports ports [] = pure ports
  def_ports ports (d ∷ chain) = def_ports ports chain >>= λ ports'. add_ports ports' d.ports

module _ {F : Type 0} where
  unfoldable pub find_slot : List (Slot F) → Bytes → Option (Slot F)
  find_slot [] name = none
  find_slot (s ∷ slots) name =
      let rest = find_slot slots name in if bytes_eq s.name name then some s else rest

  -- The loop of slot for a redefinition: none where no slot has the name.
  unfoldable pub rebind : Bytes → Option (Expr F) → List (Slot F) → Option (List (Slot F))
  rebind name value [] = none
  rebind name value (s ∷ slots) = elim (bytes_eq s.name name) [
    | true ↦ some (with_value value s ∷ slots)
    | false ↦ elim (rebind name value slots) [ none ↦ none | some slots' ↦ some (s ∷ slots') ]
  ]
    where
      with_value : Option (Expr F) → Slot F → Slot F
      with_value none s = s
      with_value (some e) s = record s { bind = some e }

  abbrev pub fields : AttributeUsage F → AttributeFields F
  fields (attribute_usage a body) = a

  -- slot
  unfoldable pub add_slot :
      Source → List (Slot F) → AttributeFields F → Bytes → Outcome (List (Slot F))
  add_slot s slots a owner = elim a.redefines [
    | true ↦ elim (rebind a.name a.value slots) [
      | none ↦ fail s a.span (
          bytes "redefined attribute "
          ++ s.quote a.name
          ++ bytes " is not declared by "
          ++ s.quote owner)
      | some slots' ↦ pure slots'
    ]
    | false ↦ elim (find_slot slots a.name) [
      | some _ ↦ fail s a.span (bytes "attribute " ++ s.quote a.name ++ bytes " is declared twice")
      | none ↦ pure (slots ++ record { name = a.name; bind = a.value } ∷ [])
    ]
  ]

  unfoldable pub add_slots :
      Source → List (Slot F) → List (AttributeUsage F) → Bytes → Outcome (List (Slot F))
  add_slots s slots [] owner = pure slots
  add_slots s slots (a ∷ usages) owner =
      add_slot s slots (fields a) owner >>= λ slots'. add_slots s slots' usages owner

  unfoldable pub def_slots : Source → List (Slot F) → List (PartDef F) → Outcome (List (Slot F))
  def_slots s slots [] = pure slots
  def_slots s slots (d ∷ chain) =
      def_slots s slots chain >>= λ slots'. add_slots s slots' d.attributes d.name

-- declaredBy
unfoldable pub declared_by : Bytes → Bytes → Bytes
declared_by type name = if bytes_eq type [] then name else type

unfoldable pub doc_text_of : Option Doc → Bytes
doc_text_of none = []
doc_text_of (some d) = d.text
