-- ===== src/Syntax/Cursor/Reads.antt =====
-- The rules of Keeps for the functions of the cursor, the loops over names and the loop of a body.
use sysml_federation.Base.{
  ℕ, zero, suc, ◌+◌, ◌≤◌, ◌<◌, ◌≡◌, ◌≢◌, inl, inr, List, [], ◌∷◌, ◌++◌, Bool, false, Option, none,
  some, arith, Bytes, length, Bool-cases,
}
use sysml_federation.Syntax.Cursor.Keeps.{
  get_elem?-lt, IsClosed-next, is_token-kind, Keeps, KeepsAt, Keeps-pure, Keeps-bind, Keeps-weaken,
  Keeps-fail, Keeps-exhausted, rounds-Keeps, peek-Keeps, At-any, ahead-Keeps, next-Keeps, end-Keeps,
  test-Keeps, test-At, when-Keeps, is-Keeps, next_any-Keeps,
}
use sysml_federation.Syntax.Cursor.{
  Input, P, pure, continue, ◌>>=◌, when◌run◌otherwise◌, test◌run◌otherwise◌, at, peek, next,
  fail_expected, is_token, is, is_then, accept, expect, name, is_segment, segments, qualified_name,
  short_name, here, unsupported, once, doc, skip_comment, body_loop, body,
}
use sysml_federation.Syntax.Token.{Kind, kind_eq, Token}

module _ {inp : Input} where
  pub here-Keeps : {lo : ℕ} → Keeps inp lo lo here
  unfolding here
  here-Keeps = peek-Keeps (λ t. At-any (Keeps-pure _ (omega arith)))

  pub fail_expected-Keeps :
      {lo hi : ℕ} {A : Type 0} (what : Bytes) → Keeps inp lo hi (fail_expected {A = A} what)
  unfolding fail_expected
  fail_expected-Keeps what = peek-Keeps (λ t. At-any (Keeps-fail _ _))

  pub unsupported-Keeps :
      {lo hi : ℕ} {A : Type 0} (b : Bytes) → Keeps inp lo hi (unsupported {A = A} b)
  unfolding unsupported
  unsupported-Keeps b =
      peek-Keeps (λ t. At-any (test-Keeps _ _ _ (Keeps-fail _ _) (fail_expected-Keeps _)))

  pub once-Keeps :
      {lo : ℕ} {A : Type 0} (o : Option A) (what b : Bytes) → Keeps inp lo lo (once o what b)
  unfolding once
  once-Keeps none what b = Keeps-pure tt (omega arith)
  once-Keeps (some a) what b = peek-Keeps (λ t. At-any (Keeps-fail _ _))

  next-At : {t : Token} {lo : ℕ} → t.kind ≢ Kind.eof → KeepsAt inp t lo (suc lo) next
  unfolding next
  next-At {t} h = record {
    runs =
        λ c pos p q e. let later = IsClosed-next inp.toks pos t c e h in rw (e, at) (ground arith);
  }

  pub is_only-Keeps : {lo : ℕ} (text : Bytes) → Keeps inp lo lo (is text)
  unfolding is
  is_only-Keeps text = peek-Keeps (λ t. At-any (Keeps-pure _ (omega arith)))

  pub is_then-Keeps : {lo : ℕ} (text then_text : Bytes) → Keeps inp lo lo (is_then text then_text)
  unfolding is_then
  is_then-Keeps text then_text =
      is-Keeps text _ _
        (λ t h. ahead-Keeps (is_token-kind text t h) (λ u. At-any (Keeps-pure _ (omega arith))))
        (Keeps-pure _ (omega arith))

  pub accept-Keeps :
      {lo hi : ℕ} {A : Type 0} (text : Bytes) (x y : P A)
      → Keeps inp (suc lo) hi x
      → Keeps inp lo hi y
      → Keeps inp lo hi (when accept text run x otherwise y)
  unfolding accept is when◌run◌otherwise◌ ◌>>=◌ pure test◌run◌otherwise◌ peek continue next
  accept-Keeps text x y kx ky = record {
    runs = λ c pos p q.
        let (t, e) = get_elem?-lt inp.toks pos q in
        rw (e, at, continue)
          (elim (Bool-cases (is_token text t)) [
            | inl h ↦
                let moved : kind_eq t.kind Kind.eof ≡ false =
                  let k = is_token-kind text t h in ground arith in
                rw (h, e, at, moved, continue)
                  (kx.runs c (suc pos) (omega arith)
                    (IsClosed-next inp.toks pos t c e (is_token-kind text t h)))
            | inr h ↦ rw h (ky.runs c pos p q)
          ]);
  }

  pub accept_only-Keeps : {lo : ℕ} (text : Bytes) → Keeps inp lo lo (accept text)
  unfolding accept
  accept_only-Keeps text =
      is-Keeps text _ _
        (λ t h. next-Keeps (is_token-kind text t h) (λ _. Keeps-pure _ (omega arith)))
        (Keeps-pure _ (omega arith))

  pub expect-Keeps : {lo : ℕ} (text : Bytes) → Keeps inp lo (suc lo) (expect text)
  unfolding expect
  expect-Keeps text =
      is-Keeps text _ _ (λ t h. next-At (is_token-kind text t h))
        (test-Keeps _ _ _ (fail_expected-Keeps _) (fail_expected-Keeps _))

  pub name-Keeps : {lo : ℕ} → Keeps inp lo (suc lo) name
  unfolding name
  name-Keeps = peek-Keeps λ t.
      test-At _ _ _ (λ _. At-any (fail_expected-Keeps _))
        λ h.
          next-Keeps (let g : ¬ (t.kind ≡ Kind.eof) = ground arith in g)
            λ u. Keeps-pure _ (omega arith)

  is_segment-Keeps : {lo : ℕ} → Keeps inp lo lo is_segment
  unfolding is_segment
  is_segment-Keeps =
      is-Keeps _ _ _
        (λ t h. ahead-Keeps (is_token-kind _ t h) (λ u. At-any (Keeps-pure _ (omega arith))))
        (Keeps-pure _ (omega arith))

  segments-Keeps :
      {lo : ℕ} (fuel : ℕ) (parts : List Bytes)
      → length inp.toks < lo + fuel
      → Keeps inp lo lo (segments fuel parts)
  unfolding segments
  segments-Keeps zero parts h = Keeps-exhausted (omega arith)
  segments-Keeps {lo} (suc fuel) parts h =
      when-Keeps _ _ _ is_segment-Keeps
        (Keeps-bind next_any-Keeps λ _. Keeps-bind name-Keeps λ n.
          Keeps-weaken (segments-Keeps {lo = suc lo} fuel (parts ++ n ∷ []) (omega arith))
            (omega arith) (omega arith))
        (Keeps-pure _ (omega arith))

  pub qualified_name-Keeps : {lo : ℕ} → Keeps inp lo (suc lo) qualified_name
  unfolding qualified_name
  qualified_name-Keeps = Keeps-bind name-Keeps λ n. rounds-Keeps λ fuel h.
      Keeps-bind (segments-Keeps fuel (n ∷ []) (omega arith)) λ _. Keeps-pure _ (omega arith)

  pub short_name-Keeps : {lo : ℕ} → Keeps inp lo lo short_name
  unfolding short_name
  short_name-Keeps =
      accept-Keeps _ _ _
        (Keeps-bind name-Keeps λ s. Keeps-bind (expect-Keeps _) λ _. Keeps-pure _ (omega arith))
        (Keeps-pure _ (omega arith))

  pub doc-Keeps : {lo : ℕ} → Keeps inp lo (suc lo) doc
  unfolding doc
  doc-Keeps = Keeps-bind (expect-Keeps _) λ d. peek-Keeps λ t.
      test-At _ _ _ (λ _. At-any (fail_expected-Keeps _))
        λ _. At-any (
          Keeps-bind next_any-Keeps
            λ _. Keeps-bind (end-Keeps _ (omega arith)) λ _. Keeps-pure _ (omega arith))

  -- A comment that is skipped is a token consumed.
  comment-Keeps :
      {lo hi : ℕ} {A : Type 0} (x y : P A)
      → Keeps inp (suc lo) hi x
      → Keeps inp lo hi y
      → Keeps inp lo hi (when skip_comment run x otherwise y)
  unfolding skip_comment when◌run◌otherwise◌ ◌>>=◌ pure test◌run◌otherwise◌ peek continue next
  comment-Keeps x y kx ky = record {
    runs = λ c pos p q.
        let (t, e) = get_elem?-lt inp.toks pos q in
        rw (e, at, continue)
          (elim (Bool-cases (kind_eq t.kind Kind.comment)) [
            | inl h ↦
                let k : ¬ (t.kind ≡ Kind.eof) = ground arith in
                let moved : kind_eq t.kind Kind.eof ≡ false = ground arith in
                rw (h, e, at, moved, continue)
                  (kx.runs c (suc pos) (omega arith) (IsClosed-next inp.toks pos t c e k))
            | inr h ↦ rw h (ky.runs c pos p q)
          ]);
  }

  body_loop-Keeps :
      {S : Type 0} {lo : ℕ} (to_eof : Bool) (member : S → P S)
      → ((k : ℕ) (s : S) → lo ≤ k → Keeps inp k (suc k) (member s))
      → (fuel : ℕ) (s : S) → length inp.toks < lo + fuel
      → Keeps inp lo lo (body_loop to_eof member fuel s)
  unfolding body_loop
  body_loop-Keeps to_eof member km zero s h = Keeps-exhausted (omega arith)
  body_loop-Keeps {lo} to_eof member km (suc fuel) s h =
      when-Keeps _ _ _ (is_only-Keeps _) (Keeps-pure _ (omega arith)) (
        peek-Keeps λ t. At-any (
          test-Keeps _ _ _ (Keeps-pure _ (omega arith)) (
            Keeps-bind (km lo s (omega arith)) λ s'.
              Keeps-weaken
                (body_loop-Keeps {lo = suc lo} to_eof member (λ k r g. km k r (omega arith)) fuel s'
                  (omega arith))
                (omega arith) (omega arith))))

  -- A body whose members consume a token each.
  pub body-Keeps :
      {S : Type 0} {lo : ℕ} (to_eof : Bool) (member : S → P S) (s : S)
      → ((k : ℕ) (s : S) → lo ≤ k → Keeps inp k (suc k) (member s))
      → Keeps inp lo lo (body to_eof member s)
  unfolding body
  body-Keeps to_eof member s km = rounds-Keeps λ fuel h.
      body_loop-Keeps to_eof _ (λ k r g. comment-Keeps _ _ (Keeps-pure _ (omega arith)) (km k r g))
        fuel s (omega arith)
