-- ===== src/Syntax/Cursor/Keeps.antt =====
-- What every part of the parser keeps, by one rule for each way to build a part: from a cursor at
-- `lo` or behind, inside the tokens, it ends inside the tokens at `hi` or behind, or refuses; it
-- never reads a token out of range and never runs out of fuel.
use sysml_federation.Base.{
  ℕ, zero, suc, ◌≤◌, ◌<◌, ◌≡◌, ◌≢◌, refl, inl, inr, List, [], ◌∷◌, Bool, true, false, some, arith,
  Bytes, length, get_elem?, Bool-cases,
}
use sysml_federation.Syntax.Token.{Span, Kind, kind_eq, Token}
use sysml_federation.Syntax.Cursor.{
  Input, Outcome, ok, refused, crash, out_of_fuel, P, pure, continue, ◌>>=◌, exhausted,
  when◌run◌otherwise◌, test◌run◌otherwise◌, at, rounds, peek, ahead, next, fail, is_token, is, end,
}

-- The last token, and it alone, is the end of the file.
abbrev pub IsClosed : List Token → Type 0
IsClosed [] = ⊥
IsClosed (t ∷ []) = t.kind ≡ Kind.eof
IsClosed (t ∷ u ∷ ts) = (t.kind ≢ Kind.eof) × IsClosed (u ∷ ts)

abbrev pub Ends : Input → ℕ → {A : Type 0} → Outcome A → Type 0
Ends inp hi (ok a pos) = (hi ≤ pos) × (pos < length inp.toks)
Ends inp hi (refused e) = Unit
Ends inp hi crash = ⊥
Ends inp hi out_of_fuel = ⊥

pub record Keeps (inp : Input) (lo hi : ℕ) {A : Type 0} (m : P A) : Type 0 where
  pub runs :
      IsClosed inp.toks → (pos : ℕ) → lo ≤ pos → pos < length inp.toks → Ends inp hi (m inp pos)

pub get_elem?-lt {ℓ} :
    {A : Type ℓ} (xs : List A) (i : ℕ) → i < length xs → (x : A) × (get_elem? xs i ≡ some x)
get_elem?-lt [] i h = absurd (omega arith)
get_elem?-lt (x ∷ xs) zero h = (x, refl)
get_elem?-lt (x ∷ xs) (suc i) h = get_elem?-lt xs i (omega arith)

-- A token that is not the end is followed by another.
pub IsClosed-next :
    (ts : List Token) (i : ℕ) (t : Token)
    → IsClosed ts
    → get_elem? ts i ≡ some t
    → t.kind ≢ Kind.eof
    → suc i < length ts
IsClosed-next [] i t c e k = absurd c
IsClosed-next (u ∷ []) zero t c e k = ground arith
IsClosed-next (u ∷ []) (suc i) t c e k = absurd (ground arith)
IsClosed-next (u ∷ v ∷ ts) zero t c e k = omega arith
IsClosed-next (u ∷ v ∷ ts) (suc i) t c e k = omega (arith, IsClosed-next (v ∷ ts) i t c.1 e k)

pub is_token-kind : (text : Bytes) (t : Token) → is_token text t ≡ true → t.kind ≢ Kind.eof
unfolding is_token
is_token-kind text t h e = ground arith

-- The same where the cursor is known to stand at `t`.
pub record KeepsAt (inp : Input) (t : Token) (lo hi : ℕ) {A : Type 0} (m : P A) : Type 0 where
  pub runs :
      IsClosed inp.toks
      → (pos : ℕ) → lo ≤ pos
      → pos < length inp.toks
      → get_elem? inp.toks pos ≡ some t
      → Ends inp hi (m inp pos)

Ends-weaken :
    (inp : Input) {hi hi' : ℕ} {A : Type 0} (o : Outcome A)
    → hi' ≤ hi
    → Ends inp hi o
    → Ends inp hi' o
Ends-weaken inp (ok a pos) g e = omega arith
Ends-weaken inp (refused x) g e = tt
Ends-weaken inp crash g e = e
Ends-weaken inp out_of_fuel g e = e

module _ {inp : Input} where
  continue-Ends :
      {mid hi : ℕ} {A B : Type 0} (o : Outcome A) (f : A → P B)
      → IsClosed inp.toks
      → Ends inp mid o
      → ((a : A) → Keeps inp mid hi (f a))
      → Ends inp hi (continue o f inp)
  unfolding continue
  continue-Ends (ok a pos) f c e k = (k a).runs c pos e.0 e.1
  continue-Ends (refused x) f c e k = tt
  continue-Ends crash f c e k = e
  continue-Ends out_of_fuel f c e k = e

  pub Keeps-pure : {lo hi : ℕ} {A : Type 0} (a : A) → hi ≤ lo → Keeps inp lo hi (pure a)
  unfolding pure
  Keeps-pure a h = record { runs = λ c pos p q. omega arith }

  pub Keeps-bind :
      {lo mid hi : ℕ} {A B : Type 0} {m : P A} {f : A → P B}
      → Keeps inp lo mid m
      → ((a : A) → Keeps inp mid hi (f a))
      → Keeps inp lo hi (m >>= f)
  unfolding ◌>>=◌
  Keeps-bind {m} {f} km kf = record {
    runs = λ c pos p q. continue-Ends (m inp pos) f c (km.runs c pos p q) kf;
  }

  pub Keeps-weaken :
      {lo lo' hi hi' : ℕ} {A : Type 0} {m : P A}
      → Keeps inp lo hi m
      → lo ≤ lo'
      → hi' ≤ hi
      → Keeps inp lo' hi' m
  Keeps-weaken {m} k h g = record {
    runs = λ c pos p q. Ends-weaken inp (m inp pos) g (k.runs c pos (omega arith) q);
  }

  pub Keeps-fail :
      {lo hi : ℕ} {A : Type 0} (span : Span) (msg : Bytes) → Keeps inp lo hi (fail {A = A} span msg)
  unfolding fail
  Keeps-fail span msg = record { runs = λ c pos p q. tt }

  pub Keeps-exhausted :
      {lo hi : ℕ} {A : Type 0} → length inp.toks ≤ lo → Keeps inp lo hi (exhausted {A = A})
  Keeps-exhausted h = record { runs = λ c pos p q. absurd (omega arith) }

  pub rounds-Keeps :
      {lo hi : ℕ} {A : Type 0} {f : ℕ → P A}
      → ((fuel : ℕ) → length inp.toks < fuel → Keeps inp lo hi (f fuel))
      → Keeps inp lo hi (rounds >>= f)
  unfolding ◌>>=◌ rounds
  rounds-Keeps k = record {
    runs = λ c pos p q. (k (suc (length inp.toks)) (omega arith)).runs c pos p q;
  }

  pub peek-Keeps :
      {lo hi : ℕ} {A : Type 0} {f : Token → P A}
      → ((t : Token) → KeepsAt inp t lo hi (f t))
      → Keeps inp lo hi (peek >>= f)
  unfolding ◌>>=◌ peek
  peek-Keeps {f} k = record {
    runs = λ c pos p q.
        let (t, e) = get_elem?-lt inp.toks pos q in rw (e, at) ((k t).runs c pos p q e);
  }

  pub At-any :
      {t : Token} {lo hi : ℕ} {A : Type 0} {m : P A} → Keeps inp lo hi m → KeepsAt inp t lo hi m
  At-any k = record { runs = λ c pos p q e. k.runs c pos p q }

  pub ahead-Keeps :
      {t : Token} {lo hi : ℕ} {A : Type 0} {f : Token → P A}
      → t.kind ≢ Kind.eof
      → ((u : Token) → KeepsAt inp t lo hi (f u))
      → KeepsAt inp t lo hi (ahead >>= f)
  unfolding ◌>>=◌ ahead
  ahead-Keeps {t} h k = record {
    runs = λ c pos p q e.
        let (u, e') = get_elem?-lt inp.toks (suc pos) (IsClosed-next inp.toks pos t c e h) in
        rw (e', at) ((k u).runs c pos p q e);
  }

  pub next-Keeps :
      {t : Token} {lo hi : ℕ} {A : Type 0} {f : Token → P A}
      → t.kind ≢ Kind.eof
      → ((u : Token) → Keeps inp (suc lo) hi (f u))
      → KeepsAt inp t lo hi (next >>= f)
  unfolding ◌>>=◌ next
  next-Keeps {t} h k = record {
    runs = λ c pos p q e.
        let moved : kind_eq t.kind Kind.eof ≡ false = ground arith in
        rw (e, at, moved)
          ((k t).runs c (suc pos) (omega arith) (IsClosed-next inp.toks pos t c e h));
  }

  pub end-Keeps : {lo : ℕ} (start : ℕ) → 0 < lo → Keeps inp lo lo (end start)
  unfolding end
  end-Keeps {lo} start h = record { runs = λ c pos p q. from pos (omega arith) p q }
    where
      from :
          (pos : ℕ) → 0 < pos → lo ≤ pos → pos < length inp.toks → Ends inp lo (end start inp pos)
      from zero z p q = absurd (omega arith)
      from (suc i) z p q =
          let (t, e) = get_elem?-lt inp.toks i (omega arith) in rw (e, at) (omega arith)

  pub test-Keeps :
      {lo hi : ℕ} {A : Type 0} (b : Bool) (x y : P A)
      → Keeps inp lo hi x
      → Keeps inp lo hi y
      → Keeps inp lo hi (test b run x otherwise y)
  unfolding test◌run◌otherwise◌
  test-Keeps true x y kx ky = kx
  test-Keeps false x y kx ky = ky

  pub test-At :
      {t : Token} {lo hi : ℕ} {A : Type 0} (b : Bool) (x y : P A)
      → (b ≡ true → KeepsAt inp t lo hi x)
      → (b ≡ false → KeepsAt inp t lo hi y)
      → KeepsAt inp t lo hi (test b run x otherwise y)
  unfolding test◌run◌otherwise◌
  test-At true x y kx ky = kx refl
  test-At false x y kx ky = ky refl

  pub when-Keeps :
      {lo hi : ℕ} {A : Type 0} (c : P Bool) (x y : P A)
      → Keeps inp lo lo c
      → Keeps inp lo hi x
      → Keeps inp lo hi y
      → Keeps inp lo hi (when c run x otherwise y)
  unfolding when◌run◌otherwise◌
  when-Keeps c x y kc kx ky = Keeps-bind kc (λ b. test-Keeps b _ _ kx ky)

  -- A test of the token under the cursor, and what follows where it holds.
  pub is-Keeps :
      {lo hi : ℕ} {A : Type 0} (text : Bytes) (x y : P A)
      → ((t : Token) → is_token text t ≡ true → KeepsAt inp t lo hi x)
      → Keeps inp lo hi y
      → Keeps inp lo hi (when is text run x otherwise y)
  unfolding is when◌run◌otherwise◌ ◌>>=◌ pure test◌run◌otherwise◌ peek continue
  is-Keeps text x y kx ky = record {
    runs = λ c pos p q.
        let (t, e) = get_elem?-lt inp.toks pos q in
        rw (e, at, continue)
          (elim (Bool-cases (is_token text t)) [
            | inl h ↦ rw h ((kx t h).runs c pos p q e)
            | inr h ↦ rw h (ky.runs c pos p q)
          ]);
  }

  pub next_any-Keeps : {lo : ℕ} → Keeps inp lo lo next
  unfolding next
  next_any-Keeps = record {
    runs = λ c pos p q.
        let (t, e) = get_elem?-lt inp.toks pos q in
        let later : t.kind ≢ Kind.eof → suc pos < length inp.toks =
          IsClosed-next inp.toks pos t c e in
        rw (e, at) (ground arith);
  }
