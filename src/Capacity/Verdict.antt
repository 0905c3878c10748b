-- ===== src/Capacity/Verdict.antt =====
-- examples/pipeline/capacity/flow/verdict.go. A value of float64 and what the code does with one are
-- the parameter `Floats`; Rollup of flow.go is a parameter too.
pub mod Decided
use sysml_federation.Base.{
  ℕ, List, [], ◌∷◌, ◌++◌, Bool, true, false, not, ◌&&◌, Option, none, some, if◌then◌else◌, Bytes,
  bytes, bytes_eq, join,
}

pub record Floats : Type 1 where
  pub Float : Type 0
  pub less : Float → Float → Bool
  pub at_most : Float → Float → Bool
  pub equal : Float → Float → Bool
  pub float_zero : Float
  pub format : Float → Bytes

pub data Kind : Type 0 where
  pass fail inconclusive error : Kind

pub record Names : Type 0 where
  pub quantity : Bytes
  pub attribute : Bytes

pub record Edge : Type 0 where
  pub from : Bytes
  pub to : Bytes

-- What Rollup returns: the capacity with the ids of the cut, the entry and the exit children, or one
-- of its errors. A ValueError has the id, the name and whether the value is negative.
pub data Rolled (Float : Type 0) : Type 0 where
  rolled : Float → List Bytes → List Bytes → List Bytes → Rolled Float
  value_error : Bytes → Bytes → Bool → Rolled Float
  no_nodes no_entry no_exit : Rolled Float

module _ (floats : Floats) where
  pub record Node : Type 0 where
    pub id : Bytes
    pub name : Bytes
    pub value : Option floats.Float

  pub record Subject : Type 0 where
    pub name : Bytes
    pub has_attribute : Bool
    pub attribute : Option floats.Float
    pub children : List Node
    pub edges : List Edge

  -- The switch of judge: any other comparison leaves ok false.
  unfoldable pub holds : floats.Float → Bytes → floats.Float → Bool
  holds value comparison limit =
      if bytes_eq comparison (bytes "GE")
      then floats.at_most limit value
      else if bytes_eq comparison (bytes "GT")
      then floats.less limit value
      else if bytes_eq comparison (bytes "LE")
      then floats.at_most value limit
      else if bytes_eq comparison (bytes "LT")
      then floats.less value limit
      else if bytes_eq comparison (bytes "EQ")
      then floats.equal value limit
      else false

  unfoldable pub judge : floats.Float → Bytes → floats.Float → Kind
  judge value comparison limit = if holds value comparison limit then pass else fail

  -- fault, on ValueError.Negative
  unfoldable pub fault : Bool → Bytes
  fault negative = if negative then bytes "negative" else bytes "missing"

  -- The names of the children with the id, in the inner loop of cutNames.
  unfoldable pub names_of : Bytes → List Node → List Bytes
  names_of id [] = []
  names_of id (c ∷ children) =
      let rest = names_of id children in if bytes_eq c.id id then c.name ∷ rest else rest

  unfoldable pub cut_names : List Node → List Bytes → List Bytes
  cut_names children [] = []
  cut_names children (id ∷ cut) = names_of id children ++ cut_names children cut

  -- What the reason says of the cut.
  unfoldable pub cut_reason : List Bytes → Bytes
  cut_reason [] = bytes ", no path from entry to exit"
  cut_reason (name ∷ names) = bytes ", limited by " ++ join (name ∷ names) (bytes ", ")

  -- The two last tests and the judgement, with the reason that follows it.
  unfoldable pub compare_limit :
      floats.Float → Bytes → Option floats.Float → (floats.Float → Bytes) → Kind × Bytes
  compare_limit value comparison none reason = (inconclusive, bytes "no limit to compare against")
  compare_limit value comparison (some limit) reason =
      if bytes_eq comparison []
      then (inconclusive, bytes "no comparison to apply")
      else (judge value comparison limit, reason limit)

  -- The switch on what Rollup returns, and the verdict on the capacity.
  unfoldable pub of_children :
      Names → Bytes → Option floats.Float → List Node → Rolled floats.Float → Kind × Bytes
  of_children names comparison limit children (value_error id name negative) =
      (error, name ++ bytes " has " ++ fault negative ++ bytes " " ++ names.attribute)
  of_children names comparison limit children no_entry = (inconclusive, bytes "no entry part")
  of_children names comparison limit children no_exit = (inconclusive, bytes "no exit part")
  of_children names comparison limit children no_nodes =
      compare_limit floats.float_zero comparison limit (λ l.
        names.quantity
        ++ bytes " "
        ++ floats.format floats.float_zero
        ++ bytes " against "
        ++ floats.format l
        ++ cut_reason [])
  of_children names comparison limit children (rolled capacity cut entry exit) =
      compare_limit capacity comparison limit (λ l.
        names.quantity
        ++ bytes " "
        ++ floats.format capacity
        ++ bytes " against "
        ++ floats.format l
        ++ cut_reason (cut_names children cut))

  -- The verdict on the subject's own attribute.
  unfoldable pub of_attribute :
      Names → Bytes → Option floats.Float → Bytes → Bool → Option floats.Float → Kind × Bytes
  of_attribute names comparison limit name false value =
      (inconclusive, bytes "no children to analyse")
  of_attribute names comparison limit name true none =
      (error, name ++ bytes " has missing " ++ names.attribute)
  of_attribute names comparison limit name true (some value) =
      if floats.less value floats.float_zero
      then (error, name ++ bytes " has negative " ++ names.attribute)
      else compare_limit value comparison limit (λ l.
        names.attribute ++ bytes " " ++ floats.format value ++ bytes " against " ++ floats.format l)

  module _ (rollup : List Node → List Edge → Rolled floats.Float) where
    -- The verdict on a subject whose quantity is the configured one.
    unfoldable pub of_subject : Names → Bytes → Option floats.Float → Subject → Kind × Bytes
    of_subject names comparison limit subject = elim subject.children [
      | [] ↦
          of_attribute names comparison limit subject.name subject.has_attribute subject.attribute
      | c ∷ cs ↦ of_children names comparison limit (c ∷ cs) (rollup (c ∷ cs) subject.edges)
    ]

    unfoldable pub verdict :
        Names → Bytes → Bytes → Option floats.Float → Subject → Bytes → Kind × Bytes
    verdict names quantity comparison limit subject verification_case =
        if bytes_eq quantity []
        then (inconclusive, bytes "no quantity to compute")
        else if not (bytes_eq quantity names.quantity)
        then (
          inconclusive,
          if not (bytes_eq verification_case [])
              then verification_case ++ bytes " is declared and no service runs it"
              else bytes "no service computes " ++ quantity,
        )
        else of_subject names comparison limit subject

    unfoldable pub analyse : Subject → Option floats.Float × List Bytes
    analyse subject = elim subject.children [
      | [] ↦ own subject.has_attribute subject.attribute
      | c ∷ cs ↦ answer (rollup (c ∷ cs) subject.edges)
    ]
      where
        own : Bool → Option floats.Float → Option floats.Float × List Bytes
        own false value = (none, [])
        own true none = (none, [])
        own true (some value) =
            if floats.at_most floats.float_zero value then (some value, []) else (none, [])

        answer : Rolled floats.Float → Option floats.Float × List Bytes
        answer (rolled capacity cut entry exit) = (some capacity, cut)
        answer _ = (none, [])
