-- ===== src/Model/Build/Filled.antt =====
-- The constraints and the projection of build.go.
use mathlib.Core.List.{Mem, mem-cons_self, mem-cons_of_mem, map-append}
use sysml_federation.Base.{
  length, ◌++◌, Option, none, some, zero, suc, ◌+◌, ◌≤◌, ap, ◌∙◌, arith, Bool, false, map,
  update_nth, indices_from, map-update_nth, map-update_nth_at, get_elem?-update_nth_later,
  Option-cases, ℕ, ◌≡◌, refl, sym, subst, inl, inr, List, [], ◌∷◌, some, Bytes, get_elem?,
}
use sysml_federation.Model.Build.{projected, attribute, attributes, project, fill}
use sysml_federation.Model.Build.Carriers.{
  sum, sum-append, sum-update_nth, carrier, attr_carriers, carriers, count_of-literal,
}
use sysml_federation.Model.Build.Ids.{part_ids, req_ids, vc_ids}
use sysml_federation.Model.Build.Taken.{AllFalse}
use sysml_federation.Model.Constraint.Ending.{read_constraint-Ends}
use sysml_federation.Model.Constraint.{
  count_of, set_limit_of, count_limit, put_req, constraint, constraints,
}
use sysml_federation.Model.Eval.Ending.{eval-Ends}
use sysml_federation.Model.Eval.Keys.{key_at, part_slot-Mem}
use sysml_federation.Model.Eval.{scope_keys}
use sysml_federation.Model.Link.{with_part, indices}
use sysml_federation.Model.Nodes.{
  Attribute, Requirement, ReqNode, Limit, Slot, PartNode, Scope, Quantity, Counts, Memo, Building,
  of_part, Arithmetic,
}
use sysml_federation.Model.Outcome.Holds.{Holds, returns, Holds-bind, Holds-option}
use sysml_federation.Model.Outcome.{Source}
use sysml_federation.Model.Resolve.Ending.{or_crash-Holds, text_at-Ends}
use sysml_federation.Model.Resolve.{node_at}
use sysml_federation.Syntax.Token.{Span}
use sysml_federation.Syntax.Ast.{Expr, literal, feature_chain, binary}

-- The ids of all elements.
abbrev pub all_ids : {F : Type 0} → Scope F → List Bytes
all_ids sc = (part_ids sc.parts ++ req_ids sc.reqs) ++ vc_ids sc.vcs

-- No binding is busy, the ids are those of the scope, and the counts of the literals are exact.
pub record IsFilled {F : Type 0} (sc : Scope F) (b : Building F) : Type 0 where
  pub idle : b.memo.busy ≡ []
  pub ids : all_ids b.scope ≡ all_ids sc
  pub counted : (at : Span) → count_of at b.literals ≡ carriers at b.scope

module _ {F : Type 0} where
  set_limit_of-id : (l : Option (Limit F)) (q : Requirement F) → (set_limit_of l q).id ≡ q.id
  set_limit_of-id none q = refl
  set_limit_of-id (some l) q = elim (Option-cases l.literal_span) [
    | inl e ↦ rw e
    | inr (at, e) ↦ rw e
  ]

  -- A limit counts its literal where it makes the requirement's limit editable.
  count_limit-carrier :
      (l : Option (Limit F)) (q : Requirement F) (counts : Counts) (at : Span)
      → q.limit_editable ≡ false
      → count_of at (count_limit l counts)
        ≡ count_of at counts
          + carrier at (set_limit_of l q).limit_editable (set_limit_of l q).limit_span
  count_limit-carrier none q counts at h = ground (arith, h)
  count_limit-carrier (some l) q counts at h = elim (Option-cases l.literal_span) [
    | inl e ↦ rw e (ground (arith, h))
    | inr (span, e) ↦ rw e (count_of-literal at span counts)
  ]

pub AllFalse-get :
    {A : Type 0} (h : A → Bool) (list : List A) (j : ℕ) {a : A}
    → AllFalse (map h list)
    → get_elem? list j ≡ some a
    → h a ≡ false
AllFalse-get h [] j all e = absurd (ground arith)
AllFalse-get h (b ∷ list) zero {a} all e =
    let here : b ≡ a = ground (arith, e) in subst (λ x. h x ≡ false) here all.0
AllFalse-get h (b ∷ list) (suc j) {a} all e = AllFalse-get h list j {a = a} all.1 e

module _ {F : Type 0} (s : Source) (floats : Arithmetic F) (sc : Scope F) where
  -- No requirement from this index on has an editable limit.
  abbrev AreUnread : ℕ → List (ReqNode F) → Type 0
  AreUnread i reqs =
      (j : ℕ) (r : ReqNode F) → i ≤ j → get_elem? reqs j ≡ some r → r.out.limit_editable ≡ false

  limited :
      (i : ℕ) (b : Building F) (r : ReqNode F) (l : Option (Limit F)) (q : Requirement F)
      (m : Memo F)
      → IsFilled sc b
      → get_elem? b.scope.reqs i ≡ some r
      → r.out.limit_editable ≡ false
      → m.busy ≡ []
      → q.id ≡ r.out.id
      → q.limit_editable ≡ r.out.limit_editable
      → IsFilled sc (record b {
        scope = record b.scope { reqs = update_nth i (put_req (set_limit_of l q)) b.scope.reqs };
        literals = count_limit l b.literals;
        memo = m;
      })
  limited i b r l q m k here unread idle id editable = record {
    idle = idle;
    ids =
        ap (λ x. (part_ids b.scope.parts ++ x) ++ vc_ids b.scope.vcs)
          (map-update_nth_at (λ (n : ReqNode F). n.out.id) i (put_req (set_limit_of l q))
            b.scope.reqs here (set_limit_of-id l q ∙ id))
        ∙ k.ids;
    counted = λ at. omega (
      arith,
      k.counted at,
      count_limit-carrier l q b.literals at (editable ∙ unread),
      sum-update_nth (λ (n : ReqNode F). carrier at n.out.limit_editable n.out.limit_span) i
          (put_req (set_limit_of l q)) b.scope.reqs here,
      unread-carrier r at unread,
    );
  }
    where
      unread-carrier :
          (r : ReqNode F) (at : Span)
          → r.out.limit_editable ≡ false
          → carrier at r.out.limit_editable r.out.limit_span ≡ 0
      unread-carrier r at h = ground (arith, h)

  constraints-IsFilled :
      (i n : ℕ) (b : Building F)
      → IsFilled sc b
      → AreUnread i b.scope.reqs
      → Holds (IsFilled sc) (constraints s floats (indices_from i n) b)
  unfolding constraints constraint indices_from
  constraints-IsFilled i zero b k unread = returns k
  constraints-IsFilled i (suc n) b k unread =
      Holds-bind {P = λ b'. IsFilled sc b' × AreUnread (suc i) b'.scope.reqs}
        (Holds-bind (or_crash-Holds (get_elem? b.scope.reqs i)) (λ r _ here.
          Holds-bind (read_constraint-Ends s b.scope floats i r b.memo here k.idle)
            (λ (l, q, m) _ (idle, id, editable). returns (
              limited i b r l q m k here (unread i r (omega arith) here) idle id editable,
              λ j x later e. unread j x (omega arith) (
                  sym (
                    get_elem?-update_nth_later i j (put_req (set_limit_of l q)) b.scope.reqs
                      (omega arith))
                  ∙ e),
            ))))
        (λ b' _ (k', unread'). constraints-IsFilled (suc i) n b' k' unread')

  projected-counts :
      (name : Bytes) (q : Quantity F) (e : Expr F) (counts : Counts)
      → Holds
          (λ r.
            (at : Span) → count_of at r.1 ≡ count_of at counts + carrier at r.0.editable r.0.span)
          (projected s floats name q e counts)
  unfolding projected
  projected-counts name q (literal l) counts = returns (λ at. count_of-literal at l.span counts)
  projected-counts name q (feature_chain c) counts =
      Holds-bind (text_at-Ends s c.span) (λ text _ _. returns (λ at. omega arith))
  projected-counts name q (binary op l r at) counts =
      Holds-bind (text_at-Ends s at) (λ text _ _. returns (λ at'. omega arith))

  attribute-counts :
      (sc : Scope F) (i : ℕ) (slot : Slot F) (counts : Counts) (m : Memo F)
      → Mem (key_at (of_part i) slot.name) (scope_keys s sc)
      → m.busy ≡ []
      → Holds
          (λ r.
            ((at : Span) → count_of at r.1 ≡ count_of at counts + carrier at r.0.editable r.0.span)
            × (r.2.busy ≡ []))
          (attribute s floats sc i slot counts m)
  unfolding attribute
  attribute-counts sc i slot counts m k idle =
      Holds-option slot.bind (λ _. returns (λ at. omega arith, idle))
        (λ e _.
          Holds-bind (eval-Ends s sc floats (of_part i) slot.name e m k idle) (λ x _ b.
            Holds-bind (projected-counts slot.name x.0 e counts) (λ y _ c. returns (c, b))))

  attributes-counts :
      (sc : Scope F) (i : ℕ) (n : PartNode F) (slots : List (Slot F)) (counts : Counts) (m : Memo F)
      → get_elem? sc.parts i ≡ some n
      → ((slot : Slot F) → Mem slot slots → Mem slot n.attrs)
      → m.busy ≡ []
      → Holds
          (λ r.
            ((at : Span) → count_of at r.1 ≡ count_of at counts + attr_carriers at r.0)
            × (r.2.busy ≡ []))
          (attributes s floats sc i slots counts m)
  unfolding attributes
  attributes-counts sc i n [] counts m here sub idle = returns (λ at. omega arith, idle)
  attributes-counts sc i n (slot ∷ slots) counts m here sub idle =
      Holds-bind
        (attribute-counts sc i slot counts m
          (part_slot-Mem s sc i n slot here (sub slot mem-cons_self)) idle)
        (λ x _ (c, b).
          Holds-bind
            (attributes-counts sc i n slots x.1 x.2 here (λ y k. sub y (mem-cons_of_mem slot k)) b)
            (λ y _ (d, b'). returns (λ at. omega (arith, c at, d at), b')))

  shown :
      (i : ℕ) (b : Building F) (n : PartNode F) (list : List (Attribute F)) (counts : Counts)
      (m : Memo F)
      → IsFilled sc b
      → get_elem? b.scope.parts i ≡ some n
      → ((at : Span) → count_of at counts ≡ count_of at b.literals + attr_carriers at list)
      → m.busy ≡ []
      → IsFilled sc (record {
        scope = with_part i (λ p. record p { attributes = p.attributes ++ list }) b.scope;
        literals = counts;
        memo = m;
      })
  shown i b n list counts m k here c idle = record {
    idle = idle;
    ids =
        ap (λ x. (x ++ req_ids b.scope.reqs) ++ vc_ids b.scope.vcs)
          (map-update_nth (λ (y : PartNode F). y.out.id) i (grown list) b.scope.parts (λ y. refl))
        ∙ k.ids;
    counted = λ at. omega (
      arith,
      k.counted at,
      c at,
      sum-update_nth (λ (y : PartNode F). attr_carriers at y.out.attributes) i (grown list)
          b.scope.parts here,
      ap sum (map-append (λ (a : Attribute F). carrier at a.editable a.span) n.out.attributes list),
      sum-append (map (λ (a : Attribute F). carrier at a.editable a.span) n.out.attributes)
          (map (λ (a : Attribute F). carrier at a.editable a.span) list),
    );
  }
    where
      grown : List (Attribute F) → PartNode F → PartNode F
      grown list y = record y { out = record y.out { attributes = y.out.attributes ++ list } }

  project-IsFilled :
      (is : List ℕ) (b : Building F) → IsFilled sc b → Holds (IsFilled sc) (project s floats is b)
  unfolding project node_at
  project-IsFilled [] b k = returns k
  project-IsFilled (i ∷ is) b k =
      Holds-bind (or_crash-Holds (get_elem? b.scope.parts i)) (λ n _ here.
        Holds-bind
          (attributes-counts b.scope i n n.attrs b.literals b.memo here (λ slot m. m) k.idle)
          (λ (list, counts, m) _ (c, idle).
            project-IsFilled is _ (shown i b n list counts m k here c idle)))

  -- For a scope in which no value is editable before.
  pub fill-IsFilled :
      ((at : Span) → carriers at sc ≡ 0)
      → AllFalse (map (λ n. n.out.limit_editable) sc.reqs)
      → Holds (IsFilled sc) (fill s floats sc)
  unfolding fill count_of
  fill-IsFilled bare unread =
      Holds-bind
        (constraints-IsFilled 0 (length sc.reqs) _
          (record { idle = refl; ids = refl; counted = λ at. sym (bare at) })
          (λ j r _ e. AllFalse-get (λ n. n.out.limit_editable) sc.reqs j unread e))
        (λ b _ k. project-IsFilled (indices b.scope.parts) b k)
