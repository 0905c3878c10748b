-- ===== src/Model/Examples/Links.antt =====
-- A constraint and a connect statement, on which the theorems are applied.
use mathlib.Core.List.{Mem, Nodup}
use sysml_federation.Base.{
  none, false, length, ◌≤◌, ℕ, ◌≡◌, refl, [], ◌∷◌, ◌++◌, some, ltb, leb, ◌==◌, arith, map, bytes,
  bytes_eq, get_elem?,
}
use sysml_federation.Capacity.Verdict.{Floats, holds}
use sysml_federation.Model.Constraint.Judged.{sides_of-holds}
use sysml_federation.Model.Constraint.{sides_of, rooted, flip}
use sysml_federation.Model.Examples.{place, pump, pumps, source}
use sysml_federation.Model.Declare.Ending.{def_chain_bounded}
use sysml_federation.Model.Declare.{def_chain}
use sysml_federation.Model.Outcome.Holds.{Holds}
use sysml_federation.Model.Link.Wires.{IsWire, connect-Wires}
use sysml_federation.Model.Nodes.{Definitions, PartNode, Scope, Connection}
use sysml_federation.Model.Outcome.{done, refuse_if, fail}
use sysml_federation.Model.Parts.Unique.{slot_names, port_names, part_node-Nodup}
use sysml_federation.Model.Parts.{part_node}
use sysml_federation.Model.Resolve.{
  node_at, child, find_child, port_end, port_of, check_direction, connect, has_connection,
  connection_id,
}
use sysml_federation.Syntax.Ast.{
  AttributeFields, PartFields, attribute_usage, no_attributes, Comparison, comparison_string,
  direction_in, direction_out, FeatureChain, Connect, Expr, literal, feature_chain, binary,
  RequireConstraint,
}

-- The values of the expressions in the constraint 5 >= s.load, which names the limit first.
abbrev numbers : Floats
numbers = record {
  Float = ℕ;
  less = ltb;
  at_most = leb;
  equal = ◌==◌;
  float_zero = 0;
  format = λ n. [];
}

equal_sym : (a b : ℕ) → (a == b) ≡ (b == a)
equal_sym a b = ground arith

abbrev load_chain : FeatureChain
load_chain = record { names = bytes "s" ∷ bytes "load" ∷ []; span = place }

abbrev limit_first : RequireConstraint ℕ
limit_first = record {
  left = literal (record { number = 5; unit = []; span = place });
  op = Comparison.ge;
  right = feature_chain load_chain;
  span = place;
}

abbrev value : Expr ℕ → ℕ
value (literal l) = l.number
value (feature_chain c) = 3
value (binary op l r span) = 0

sides_of_run :
    sides_of source limit_first (bytes "s")
    ≡ done (record { chain = load_chain; other = limit_first.left; op = Comparison.le })
unfolding sides_of rooted flip bytes_eq
sides_of_run = refl

sides_of-holds_example :
    holds numbers 5 (comparison_string Comparison.ge) 3
    ≡ holds numbers 3 (comparison_string Comparison.le) 5
sides_of-holds_example =
    sides_of-holds numbers equal_sym source value limit_first (bytes "s") _ sides_of_run

-- A part with the two children first, whose port out is an out port, and second.
abbrev child_part : PartNode ℕ
child_part = record pump { enclosing = 0 ∷ [] }

abbrev wired : Scope ℕ
wired = record pumps {
  parts =
      record pump { children = 1 ∷ 2 ∷ [] }
      ∷ record child_part {
        ast = record pump.ast { name = bytes "first" };
        out = record pump.out {
          id = bytes "A";
          ports = record { name = bytes "out"; direction = direction_out } ∷ [];
        };
      }
      ∷ record child_part {
        ast = record pump.ast { name = bytes "second" };
        out = record pump.out {
          id = bytes "B";
          ports = record { name = bytes "into"; direction = direction_in } ∷ [];
        };
      }
      ∷ [];
}

abbrev statement : Connect
statement = record {
  from = record { names = bytes "first" ∷ bytes "out" ∷ []; span = place };
  to = record { names = bytes "second" ∷ bytes "into" ∷ []; span = place };
  span = place;
}

abbrev wire : Connection
wire = record {
  id = bytes "A.out->B.into";
  from = bytes "A";
  from_port = bytes "out";
  to = bytes "B";
  to_port = bytes "into";
}

connect_run : connect source wired 0 statement ≡ done (wire ∷ [])
unfolding connect port_end port_of child find_child node_at check_direction connection_id
    has_connection refuse_if fail bytes_eq
connect_run = refl

connect-Wires_example :
    (o : PartNode ℕ) × (added : Connection) × (get_elem? wired.parts 0 ≡ some o)
    × (wire ∷ [] ≡ o.out.connections ++ added ∷ [])
    × IsWire source wired 0 statement added
    × (¬ Mem added.id (map (λ x. x.id) o.out.connections))
connect-Wires_example = connect-Wires source wired 0 statement (wire ∷ []) connect_run

-- A definition that specializes itself.
abbrev looping : Definitions ℕ
looping = record {
  part_defs =
      (
        bytes "D",
        record {
          abstract = false;
          short_name = [];
          name = bytes "D";
          specializes = bytes "D";
          doc = none;
          attributes = [];
          ports = [];
          parts = [];
          span = place;
        },
      )
      ∷ [];
  port_defs = [];
  req_defs = [];
  vc_defs = [];
}

def_chain_bounded_example :
    Holds (λ chain. length chain ≤ 1) (def_chain source looping (bytes "D") place)
def_chain_bounded_example = def_chain_bounded source looping (bytes "D") place

-- A usage that declares the attributes load and total.
abbrev declared : AttributeFields ℕ
declared = record {
  short_name = [];
  name = bytes "load";
  type = [];
  redefines = false;
  value = none;
  span = place;
}

abbrev usage : PartFields ℕ
usage = record pump.ast {
  attributes =
      attribute_usage declared no_attributes
      ∷ attribute_usage (record declared { name = bytes "total" }) no_attributes
      ∷ [];
}

part_node-Nodup_example :
    Holds
      (λ n. Nodup (slot_names n.attrs) × Nodup (port_names n.out.ports))
      (part_node source looping usage [] (bytes "A") (bytes "P::pump"))
part_node-Nodup_example = part_node-Nodup source looping usage [] (bytes "A") (bytes "P::pump")
