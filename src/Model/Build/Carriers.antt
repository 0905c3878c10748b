-- ===== src/Model/Build/Carriers.antt =====
-- How many editable values of a model each literal's span carries.
use sysml_federation.Base.{
  ℕ, zero, suc, ◌+◌, ◌≡◌, ap, subst, inl, inr, List, [], ◌∷◌, ◌++◌, Bool, true, ◌&&◌, some, arith,
  if◌then◌else◌, ltb, map, get_elem?, update_nth, Bool-cases,
}
use sysml_federation.Model.Build.{Model, exclusive_attribute, exclusive_part, exclusive_limit}
use sysml_federation.Model.Constraint.{span_eq, count_of, count_literal}
use sysml_federation.Model.Nodes.{Attribute, Requirement, PartNode, ReqNode, Scope, Counts}
use sysml_federation.Syntax.Token.{Span}

abbrev pub sum : List ℕ → ℕ
sum [] = 0
sum (n ∷ ns) = n + sum ns

pub sum-append : (xs ys : List ℕ) → sum (xs ++ ys) ≡ sum xs + sum ys
sum-append [] ys = omega arith
sum-append (x ∷ xs) ys = omega (arith, sum-append xs ys)

pub sum-update_nth :
    {A : Type 0} (h : A → ℕ) (i : ℕ) (f : A → A) (list : List A) {a : A}
    → get_elem? list i ≡ some a
    → sum (map h (update_nth i f list)) + h a ≡ sum (map h list) + h (f a)
unfolding update_nth
sum-update_nth h i f [] e = absurd (ground arith)
sum-update_nth h zero f (b ∷ list) {a} e =
    let here : b ≡ a = ground (arith, e) in
    subst (λ x. h (f b) + sum (map h list) + h x ≡ h b + sum (map h list) + h (f x)) here
      (omega arith)
sum-update_nth h (suc i) f (b ∷ list) {a} e = omega (arith, sum-update_nth h i f list {a = a} e)

-- One, for an editable value of the literal at this span.
abbrev pub carrier : Span → Bool → Span → ℕ
carrier at editable span = if editable && span_eq span at then 1 else 0

abbrev pub attr_carriers : {F : Type 0} → Span → List (Attribute F) → ℕ
attr_carriers at attributes = sum (map (λ a. carrier at a.editable a.span) attributes)

module _ {F : Type 0} where
  abbrev pub part_carriers : Span → List (PartNode F) → ℕ
  part_carriers at parts = sum (map (λ n. attr_carriers at n.out.attributes) parts)

  abbrev pub req_carriers : Span → List (ReqNode F) → ℕ
  req_carriers at reqs = sum (map (λ n. carrier at n.out.limit_editable n.out.limit_span) reqs)

  abbrev pub carriers : Span → Scope F → ℕ
  carriers at sc = part_carriers at sc.parts + req_carriers at sc.reqs

  abbrev pub model_carriers : Span → Model F → ℕ
  model_carriers at m =
      sum (map (λ p. attr_carriers at p.attributes) m.parts)
      + sum (map (λ r. carrier at r.limit_editable r.limit_span) m.requirements)

span_eq_sound : (a b : Span) → span_eq a b ≡ true → a ≡ b
unfolding span_eq
span_eq_sound a b h = ground arith

pub count_of-literal :
    (at l : Span) (counts : Counts)
    → count_of at (count_literal l counts) ≡ count_of at counts + carrier at true l
unfolding count_of count_literal
count_of-literal at l counts = elim (Bool-cases (span_eq l at)) [
  | inl e ↦
      let same : l ≡ at = span_eq_sound l at e in
      ground (arith, e, ap (λ x. count_of x counts) same)
  | inr e ↦ ground (arith, e)
]

-- What is left of one value, for a literal that is counted more than once, or not.
abbrev pub kept : Span → Counts → ℕ → ℕ
kept at counts n = if ltb 1 (count_of at counts) then 0 else n

module _ {F : Type 0} (counts : Counts) (at : Span) where
  exclusive_attribute-carrier :
      (a : Attribute F)
      → carrier at (exclusive_attribute counts a).editable (exclusive_attribute counts a).span
        ≡ kept at counts (carrier at a.editable a.span)
  unfolding exclusive_attribute
  exclusive_attribute-carrier a = elim (Bool-cases (span_eq a.span at)) [
    | inl e ↦
        let same : a.span ≡ at = span_eq_sound a.span at e in
        ground (arith, e, ap (λ x. count_of x counts) same)
    | inr e ↦ ground (arith, e)
  ]

  exclusive_limit-carrier :
      (r : Requirement F)
      → carrier at (exclusive_limit counts r).limit_editable (exclusive_limit counts r).limit_span
        ≡ kept at counts (carrier at r.limit_editable r.limit_span)
  unfolding exclusive_limit
  exclusive_limit-carrier r = elim (Bool-cases (span_eq r.limit_span at)) [
    | inl e ↦
        let same : r.limit_span ≡ at = span_eq_sound r.limit_span at e in
        ground (arith, e, ap (λ x. count_of x counts) same)
    | inr e ↦ ground (arith, e)
  ]

  exclusive-attributes :
      (attributes : List (Attribute F))
      → attr_carriers at (map (exclusive_attribute counts) attributes)
        ≡ kept at counts (attr_carriers at attributes)
  exclusive-attributes [] = ground arith
  exclusive-attributes (a ∷ attributes) =
      ground (arith, exclusive_attribute-carrier a, exclusive-attributes attributes)

  pub exclusive-parts :
      (parts : List (PartNode F))
      → sum
          (map (λ p. attr_carriers at p.attributes) (map (λ n. exclusive_part counts n.out) parts))
        ≡ kept at counts (part_carriers at parts)
  unfolding exclusive_part
  exclusive-parts [] = ground arith
  exclusive-parts (n ∷ parts) =
      ground (arith, exclusive-attributes n.out.attributes, exclusive-parts parts)

  pub exclusive-limits :
      (reqs : List (ReqNode F))
      → sum (
          map
            (λ r. carrier at r.limit_editable r.limit_span)
            (map (λ n. exclusive_limit counts n.out) reqs))
        ≡ kept at counts (req_carriers at reqs)
  exclusive-limits [] = ground arith
  exclusive-limits (n ∷ reqs) = ground (arith, exclusive_limit-carrier n.out, exclusive-limits reqs)
