-- ===== src/Capacity/Verdict/Decided.antt =====
-- When a verdict is PASS or FAIL, and that it then judges the capacity that Analyse answers.
use sysml_federation.Base.{
  ◌≡◌, ◌≢◌, ◌↔◌, refl, sym, subst, inl, inr, List, [], ◌∷◌, Bool, true, false, not, Option, none,
  some, arith, Bool-cases, Bytes, bytes_eq, bytes_eq_iff,
}
use sysml_federation.Capacity.Verdict.{
  Floats, Kind, pass, fail, inconclusive, error, Names, Edge, Rolled, rolled, value_error, no_nodes,
  no_entry, no_exit, Node, Subject, holds, judge, compare_limit, of_children, of_attribute,
  of_subject, verdict, analyse,
}

abbrev pub is_decided : Kind → Bool
is_decided pass = true
is_decided fail = true
is_decided inconclusive = false
is_decided error = false

through {ℓ κ μ} : {A : Type ℓ} {B : Type κ} {C : Type μ} → A ↔ B → B ↔ C → A ↔ C
through f g = (λ a. g.0 (f.0 a), λ c. f.1 (g.1 c))

no_verdict {ℓ} :
    {P : Type ℓ} (given kind : Kind)
    → is_decided given ≡ false
    → ¬ P
    → ((given ≡ kind) × (is_decided kind ≡ true)) ↔ P
no_verdict given kind u n = (λ (q, d). absurd (cc (u, q, d)), λ p. absurd (n p))

module _ (floats : Floats) where
  judge-is_decided :
      (value : floats.Float) (comparison : Bytes) (limit : floats.Float)
      → is_decided (judge floats value comparison limit) ≡ true
  unfolding judge
  judge-is_decided value comparison limit =
      elim (Bool-cases (holds floats value comparison limit)) [
        | inl e ↦ rw (e) refl
        | inr e ↦ rw (e) refl
      ]

  -- A limit and a comparison are there, and the kind is the judgement of the value.
  abbrev pub IsJudged : floats.Float → Bytes → Option floats.Float → Kind → Type 0
  IsJudged value comparison limit kind =
      (comparison ≢ [])
      × (l : floats.Float) × (limit ≡ some l)
      × (kind ≡ judge floats value comparison l)

  compare_limit-IsJudged :
      (value : floats.Float) (comparison : Bytes) (limit : Option floats.Float)
      (reason : floats.Float → Bytes) (kind : Kind)
      → (((compare_limit floats value comparison limit reason).0 ≡ kind) × (is_decided kind ≡ true))
        ↔ IsJudged value comparison limit kind
  unfolding compare_limit
  compare_limit-IsJudged value comparison none reason kind =
      no_verdict inconclusive kind refl (λ p. absurd (ground (arith, p.2)))
  compare_limit-IsJudged value comparison (some limit) reason kind =
      elim (Bool-cases (bytes_eq comparison [])) [
        | inl e ↦
            rw (e) (no_verdict inconclusive kind refl (λ p. p.0 ((bytes_eq_iff comparison []).0 e)))
        | inr e ↦ rw (e) (
          λ (q, d). (λ z. cc (e, (bytes_eq_iff comparison []).1 z), limit, refl, sym q),
          λ (c, l, m, k).
              let same : limit ≡ l = ground (arith, m) in
              let judged : judge floats value comparison limit ≡ kind =
                subst (λ x. judge floats value comparison x ≡ kind) (sym same) (sym k) in
              (
                judged,
                subst (λ x. is_decided x ≡ true) judged (judge-is_decided value comparison limit),
              ),
        )
      ]

  module _ (rollup : List (Node floats) → List Edge → Rolled floats.Float) where
    abbrev pub IsAnalysed : Bytes → Option floats.Float → Subject floats → Kind → Type 0
    IsAnalysed comparison limit subject kind =
        (value : floats.Float) × ((analyse floats rollup subject).0 ≡ some value)
        × IsJudged value comparison limit kind

    module _
        (some_nodes : (c : Node floats) (cs : List (Node floats)) (es : List Edge)
          → rollup (c ∷ cs) es ≢ no_nodes) where
      -- An own attribute of the subject is at least zero exactly where it is not below zero.
      abbrev pub IsOrdered : Option floats.Float → Type 0
      IsOrdered attribute =
          (v : floats.Float)
          → attribute ≡ some v
          → floats.at_most floats.float_zero v ≡ not (floats.less v floats.float_zero)

      analysed :
          (value : floats.Float) (comparison : Bytes) (limit : Option floats.Float) (kind : Kind)
          → IsJudged value comparison limit kind
            ↔ ((v : floats.Float) × (some value ≡ some v) × IsJudged v comparison limit kind)
      analysed value comparison limit kind = (
        λ j. (value, refl, j),
        λ (v, e, j).
            let same : value ≡ v = ground (arith, e) in
            subst (λ x. IsJudged x comparison limit kind) (sym same) j,
      )

      of_subject-IsAnalysed :
          (names : Names) (comparison : Bytes) (limit : Option floats.Float) (name : Bytes)
          (has : Bool) (attribute : Option floats.Float) (children : List (Node floats))
          (edges : List Edge) (kind : Kind)
          → IsOrdered attribute
          → let subject : Subject floats = record {
            name = name;
            has_attribute = has;
            attribute = attribute;
            children = children;
            edges = edges;
          } in
            (((of_subject floats rollup names comparison limit subject).0 ≡ kind)
              × (is_decided kind ≡ true))
            ↔ IsAnalysed comparison limit subject kind
      unfolding of_subject of_attribute of_children analyse
      of_subject-IsAnalysed names comparison limit name false attribute [] edges kind ordered =
          no_verdict inconclusive kind refl (λ p. absurd (ground (arith, p.1)))
      of_subject-IsAnalysed names comparison limit name true none [] edges kind ordered =
          no_verdict error kind refl (λ p. absurd (ground (arith, p.1)))
      of_subject-IsAnalysed names comparison limit name true (some v) [] edges kind ordered =
          elim (Bool-cases (floats.less v floats.float_zero)) [
            | inl e ↦
                rw (e, ordered v refl, e)
                  (no_verdict error kind refl (λ p. absurd (ground (arith, p.1))))
            | inr e ↦
                rw (e, ordered v refl, e)
                  (through (compare_limit-IsJudged v comparison limit _ kind)
                    (analysed v comparison limit kind))
          ]
      of_subject-IsAnalysed names comparison limit name has attribute (c ∷ cs) edges kind ordered =
          outcome (rollup (c ∷ cs) edges) refl
        where
          subject : Subject floats
          subject = record {
            name = name;
            has_attribute = has;
            attribute = attribute;
            children = c ∷ cs;
            edges = edges;
          }

          outcome :
              (r : Rolled floats.Float)
              → rollup (c ∷ cs) edges ≡ r
              → (((of_subject floats rollup names comparison limit subject).0 ≡ kind)
                  × (is_decided kind ≡ true))
                ↔ IsAnalysed comparison limit subject kind
          outcome (rolled capacity cut entry exit) e = rw (e) (
              through (compare_limit-IsJudged capacity comparison limit _ kind)
                (analysed capacity comparison limit kind))
          outcome (value_error id name negative) e =
              rw (e) (no_verdict error kind refl (λ p. absurd (ground (arith, p.1))))
          outcome no_nodes e = absurd (some_nodes c cs edges e)
          outcome no_entry e =
              rw (e) (no_verdict inconclusive kind refl (λ p. absurd (ground (arith, p.1))))
          outcome no_exit e =
              rw (e) (no_verdict inconclusive kind refl (λ p. absurd (ground (arith, p.1))))

      -- Where Rollup never answers that a list with a child has none, and the subject's own attribute, if it
      -- has one, is at least zero exactly where it is not below zero, which fails for NaN only: a verdict is PASS or FAIL exactly where the quantity is the
      -- configured one and not empty, Analyse answers a capacity for the subject and there are a limit
      -- and a comparison that is not empty; it is then the judgement of that capacity against the limit.
      pub verdict-IsAnalysed :
          (names : Names) (quantity comparison : Bytes) (limit : Option floats.Float)
          (subject : Subject floats) (verification_case : Bytes) (kind : Kind)
          → IsOrdered subject.attribute
          → (((verdict floats rollup names quantity comparison limit subject verification_case).0
                ≡ kind)
              × (is_decided kind ≡ true))
            ↔ ((quantity ≢ [])
                × (quantity ≡ names.quantity)
                × IsAnalysed comparison limit subject kind)
      unfolding verdict
      verdict-IsAnalysed names quantity comparison limit subject verification_case kind ordered =
          elim (Bool-cases (bytes_eq quantity [])) [
            | inl e ↦
                rw (e)
                  (no_verdict inconclusive kind refl (λ p. p.0 ((bytes_eq_iff quantity []).0 e)))
            | inr e ↦ elim (Bool-cases (bytes_eq quantity names.quantity)) [
              | inr f ↦
                  rw (e, f)
                    (no_verdict inconclusive kind refl
                      (λ p. cc (f, (bytes_eq_iff quantity names.quantity).1 p.1)))
              | inl f ↦
                  rw (e, f)
                    (through
                      (of_subject-IsAnalysed names comparison limit subject.name
                        subject.has_attribute subject.attribute subject.children subject.edges kind
                        ordered)
                      (
                        λ a. (
                          λ z. cc (e, (bytes_eq_iff quantity []).1 z),
                          (bytes_eq_iff quantity names.quantity).0 f,
                          a,
                        ),
                        λ p. p.2,
                      ))
            ]
          ]
