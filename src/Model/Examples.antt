-- ===== src/Model/Examples.antt =====
-- A small model, from its text, on which the theorems are applied.
mod Links
use mathlib.Core.List.{Nodup}
use sysml_federation.Base.{
  if◌then◌else◌, ℕ, ◌+◌, ◌*◌, ◌-◌, ◌/◌, ◌≡◌, refl, [], ◌∷◌, true, false, none, some, ◌==◌, Bytes,
  bytes, bytes_eq,
}
use sysml_federation.Model.Build.Built.{
  model_ids, parse_model-Ends, parse_model-Nodup, parse_model-carriers,
}
use sysml_federation.Model.Build.Carriers.{model_carriers}
use sysml_federation.Model.Constraint.{count_of}
use sysml_federation.Model.Build.{parse_model}
use sysml_federation.Model.Declare.{find_slot}
use sysml_federation.Model.Eval.Complete.{eval_complete}
use sysml_federation.Model.Eval.Rule.{IsSound}
use sysml_federation.Model.Eval.Slots.{IsSlot}
use sysml_federation.Model.Eval.Sound.{
  Denotes, of_literal, of_chain, of_binary, denoting, empty-IsSound, eval-Denotes,
}
use sysml_federation.Model.Eval.{
  value_of, is_busy, remove_key, own_slots, chain_names, chain_slot, join_units, apply_operator,
  combine, slot_value, expr, eval, eval_fuel,
}
use sysml_federation.Model.Nodes.{Slot, PartNode, Scope, Quantity, of_part, Memo, Arithmetic}
use sysml_federation.Model.Outcome.Holds.{Holds, Ends}
use sysml_federation.Model.Outcome.{done, Source, fail, refuse_if}
use sysml_federation.Model.Resolve.{node_at}
use sysml_federation.Syntax.Ast.{Operator, Expr, literal, feature_chain, binary}
use sysml_federation.Syntax.Expr.{Numbers}
use sysml_federation.Syntax.Lexer.{Reader}
use sysml_federation.Syntax.Token.{Span}

abbrev pub reader : Reader
reader = record { is_float = λ text. true; quote = λ text. text; quote_byte = λ c. c ∷ [] }

abbrev decimal : Bytes → ℕ → ℕ
decimal [] acc = acc
decimal (c ∷ cs) acc = decimal cs (acc * 10 + (c - b'0'))

abbrev pub whole_numbers : Numbers ℕ
whole_numbers = record { parse_float = λ text. decimal text 0; negate = λ n. 0 }

abbrev pub whole : Arithmetic ℕ
whole = record {
  zero = 0;
  plus = ◌+◌;
  minus = ◌-◌;
  times = ◌*◌;
  over = ◌/◌;
  is_zero = λ n. n == 0;
  is_inf = λ n. false;
  is_nan = λ n. false;
  is_negative = λ n. false;
  add_zero = λ n. n;
  format_float = λ n. [];
}

abbrev text : Bytes
text =
    bytes
      "package P {\n  port def In { in item x; }\n  port def Out { out item x; }\n  part def Q { attribute load; port a : In; port b : Out; }\n  part s { part p : Q { attribute :>> load = 3; } part q : Q { attribute :>> load = p.load + 4; } connect p.b to q.a; }\n  requirement r { subject s :> s; attribute m = 5; require constraint { s.q.load <= m } }\n}\n"

parse_model-Ends_example : Ends (parse_model whole_numbers reader whole (bytes "m") text)
parse_model-Ends_example = parse_model-Ends whole_numbers reader whole (bytes "m") text

parse_model-Nodup_example :
    Holds (λ m. Nodup (model_ids m)) (parse_model whole_numbers reader whole (bytes "m") text)
parse_model-Nodup_example = parse_model-Nodup whole_numbers reader whole (bytes "m") text

parse_model-carriers_example :
    Holds
      (λ m. (at : Span) → model_carriers at m ≡ (if count_of at m.literals == 1 then 1 else 0))
      (parse_model whole_numbers reader whole (bytes "m") text)
parse_model-carriers_example = parse_model-carriers whole_numbers reader whole (bytes "m") text

-- A part with load = 3 and total = load + 4.
abbrev pub place : Span
place = record { start = 0; stop = 1 }

abbrev total : Expr ℕ
total =
    binary Operator.add (feature_chain (record { names = bytes "load" ∷ []; span = place }))
      (literal (record { number = 4; unit = []; span = place })) place

abbrev load_slot : Slot ℕ
load_slot = record {
  name = bytes "load";
  bind = some (literal (record { number = 3; unit = bytes "kN"; span = place }));
}

abbrev total_slot : Slot ℕ
total_slot = record { name = bytes "total"; bind = some total }

abbrev pub pump : PartNode ℕ
pump = record {
  ast = record {
    short_name = [];
    name = bytes "pump";
    type = [];
    doc = none;
    attributes = [];
    ports = [];
    connects = [];
    satisfies = [];
    span = place;
  };
  defs = [];
  enclosing = [];
  children = [];
  attrs = load_slot ∷ total_slot ∷ [];
  out = record {
    id = bytes "P::pump";
    short_name = [];
    name = bytes "pump";
    definition = [];
    doc = [];
    attributes = [];
    ports = [];
    connections = [];
    satisfies = [];
  };
}

abbrev pub pumps : Scope ℕ
pumps = record {
  parts = pump ∷ [];
  roots = 0 ∷ [];
  by_name = (bytes "pump", 0) ∷ [];
  reqs = [];
  req_by_name = [];
  vcs = [];
}

abbrev pub source : Source
source = record { file = bytes "m"; src = bytes "x"; quote = λ name. name }

abbrev idle : Memo ℕ
idle = record { values = []; busy = [] }

abbrev Total : Quantity ℕ × Memo ℕ → Type 0
Total r =
    Denotes source pumps whole (of_part 0) total r.0
    × IsSound source pumps whole (denoting source pumps whole) r.1
    × (r.1.busy ≡ [])

total_slot-IsSlot : IsSlot source pumps (of_part 0) total_slot
unfolding own_slots find_slot bytes_eq node_at
total_slot-IsSlot = (load_slot ∷ total_slot ∷ [], refl, refl)

eval-Denotes_example :
    Holds Total
      (eval source pumps whole (eval_fuel source pumps) (of_part 0) (bytes "total") total idle)
eval-Denotes_example =
    eval-Denotes source pumps whole (of_part 0) total_slot total idle total_slot-IsSlot refl
      (empty-IsSound source pumps whole) refl

-- The run ends with a value.
total_is_seven :
    eval source pumps whole (eval_fuel source pumps) (of_part 0) (bytes "total") total idle
    ≡ done (
      record { num = 7; unit = bytes "kN" },
      record {
        values =
            (
              record { owner = of_part 0; name = bytes "total" },
              record { num = 7; unit = bytes "kN" },
            )
            ∷ (
              record { owner = of_part 0; name = bytes "load" },
              record { num = 3; unit = bytes "kN" },
            )
            ∷ [];
        busy = [];
      },
    )
unfolding eval eval_fuel value_of is_busy remove_key expr slot_value chain_slot chain_names
    own_slots find_slot combine join_units apply_operator refuse_if fail bytes_eq node_at
total_is_seven = refl

total-Denotes : Denotes source pumps whole (of_part 0) total (record { num = 7; unit = bytes "kN" })
unfolding chain_slot chain_names own_slots find_slot combine join_units apply_operator refuse_if
    fail bytes_eq node_at
total-Denotes =
    of_binary
      (of_chain {of = of_part 0} {slot = load_slot}
        {e = literal (record { number = 3; unit = bytes "kN"; span = place })} refl refl of_literal)
      of_literal refl

eval_complete_example :
    (m : Memo ℕ) × (eval source pumps whole
        (eval_fuel source pumps)
        (of_part 0)
        (bytes "total")
        total
        idle
      ≡ done (record { num = 7; unit = bytes "kN" }, m))
eval_complete_example =
    eval_complete source pumps whole (of_part 0) total_slot total _ idle total_slot-IsSlot refl
      (empty-IsSound source pumps whole) refl total-Denotes
