-- ===== src/Syntax/Lexer/Layout.antt =====
-- What Lex returns, for every source: it ends, and its tokens stand in the source as they are
-- written, in order, closed by the one end token.
use sysml_federation.Base.{
  ℕ, zero, suc, ◌+◌, ◌≤◌, ◌<◌, ◌≡◌, ◌≢◌, refl, sym, ap, ◌∙◌, List, [], ◌∷◌, ◌++◌, arith, Bytes,
  length, take, drop, length-append, length-drop, take-append-drop, length-take_le,
}
use mathlib.Core.List.{append_assoc}
use sysml_federation.Syntax.Position.{error_at}
use sysml_federation.Syntax.Token.{eof, Token, Error}
use sysml_federation.Syntax.Lexer.{
  Round, skip, emit, refuse, Reader, round, Lexed, tokens, refused, out_of_fuel, prepend, lex_loop,
  lex,
}
use sysml_federation.Syntax.Lexer.Rounds.{spelled, Fits, round-Fits}

-- The span of a token holds its text as the kind is spelled.
pub record Stands (src : Bytes) (t : Token) : Type 0 where
  pub before : Bytes
  pub after : Bytes
  pub splits : src ≡ before ++ (spelled t.kind t.text ++ after)
  pub starts : t.span.start ≡ length before
  pub stops : t.span.stop ≡ t.span.start + length (spelled t.kind t.text)
  pub nonempty : t.span.start < t.span.stop

-- Tokens from place i on: each stands in the source at or behind the end of the one before, and
-- the list ends with the first end token, which is empty and at the end of the source.
pub data Laid (src : Bytes) : ℕ → List Token → Type 0 where
  end :
      {i : ℕ} {t : Token}
      → t.kind ≡ eof
      → t.text ≡ []
      → t.span.start ≡ length src
      → t.span.stop ≡ length src
      → i ≤ length src
      → Laid src i (t ∷ [])
  token :
      {i : ℕ} {t : Token} {ts : List Token}
      → t.kind ≢ eof
      → i ≤ t.span.start
      → Stands src t
      → Laid src t.span.stop ts
      → Laid src i (t ∷ ts)

-- A refusal names a place inside the source.
pub record RefusedAt (file src : Bytes) (e : Error) : Type 0 where
  pub at : ℕ
  pub message : Bytes
  pub inside : at < length src
  pub error : e ≡ error_at file src (record { start = at; stop = at }) message

abbrev pub IsLexed : Bytes → Bytes → ℕ → Lexed → Type 0
IsLexed file src i (tokens ts) = Laid src i ts
IsLexed file src i (refused e) = RefusedAt file src e
IsLexed file src i out_of_fuel = ⊥

Laid-mono : {src : Bytes} {i j : ℕ} {ts : List Token} → j ≤ i → Laid src i ts → Laid src j ts
Laid-mono h (end a b c d e) = end a b c d (omega arith)
Laid-mono h (token a b c d) = token a (omega arith) c d

IsLexed-mono :
    (file src : Bytes) {i j : ℕ} (l : Lexed) → j ≤ i → IsLexed file src i l → IsLexed file src j l
IsLexed-mono file src (tokens ts) h p = Laid-mono h p
IsLexed-mono file src (refused e) h p = p
IsLexed-mono file src out_of_fuel h p = p

IsLexed-prepend :
    (file src : Bytes) (i : ℕ) (t : Token) (l : Lexed)
    → t.kind ≢ eof
    → i ≤ t.span.start
    → Stands src t
    → IsLexed file src t.span.stop l
    → IsLexed file src i (prepend t l)
IsLexed-prepend file src i t (tokens ts) k h s p = token k h s p
IsLexed-prepend file src i t (refused e) k h s p = p
IsLexed-prepend file src i t out_of_fuel k h s p = p

-- The place i splits the source, and a round of n bytes splits it further.
advance :
    (src before rest : Bytes) (n : ℕ)
    → src ≡ before ++ rest
    → src ≡ (before ++ take n rest) ++ drop n rest
advance src before rest n e =
    e
    ∙ ap (λ s. before ++ s) (sym (take-append-drop n rest))
    ∙ sym (append_assoc before (take n rest) (drop n rest))

module _ (r : Reader) (file src : Bytes) where
  loop-IsLexed :
      (fuel i : ℕ) (before rest : Bytes)
      → src ≡ before ++ rest
      → i ≡ length before
      → length rest ≤ fuel
      → IsLexed file src i (lex_loop r file src fuel i rest)
  unfolding lex_loop
  loop-IsLexed fuel i before [] e at f =
      let all = ap length e ∙ length-append before [] in
      end refl refl (omega arith) (omega arith) (omega arith)
  loop-IsLexed zero i before (c ∷ cs) e at f = absurd (omega arith)
  loop-IsLexed (suc fuel) i before (c ∷ cs) e at f =
      step (round r c cs) (round-Fits r c cs) refl (loop-IsLexed fuel)
    where
      Below : Type 0
      Below =
          (i : ℕ) (before rest : Bytes)
          → src ≡ before ++ rest
          → i ≡ length before
          → length rest ≤ fuel
          → IsLexed file src i (lex_loop r file src fuel i rest)

      next :
          Below
          → (n : ℕ) → 0 < n
          → n ≤ length (c ∷ cs)
          → IsLexed file src (i + n) (lex_loop r file src fuel (i + n) (drop n (c ∷ cs)))
      next below n pos le =
          below (i + n) (before ++ take n (c ∷ cs)) (drop n (c ∷ cs))
            (advance src before (c ∷ cs) n e)
            (omega (arith, length-append before (take n (c ∷ cs)), length-take_le n (c ∷ cs) le))
            (omega (arith, length-drop n (c ∷ cs)))

      step :
          (d : Round)
          → Fits (c ∷ cs) d
          → round r c cs ≡ d
          → Below
          → IsLexed file src i (lex_loop r file src (suc fuel) i (c ∷ cs))
      step (skip n) fits q below =
          rw (q, lex_loop)
            (IsLexed-mono file src {i = i + n} {j = i} _ (omega arith) (next below n fits.0 fits.1))
      step (emit kind text n) fits q below =
          let (tail, split, len) = fits.2 in
          rw (q, lex_loop)
            (IsLexed-prepend file src i _ _ fits.0 (omega arith)
              (record {
                before = before;
                after = tail;
                splits = e ∙ ap (λ s. before ++ s) split;
                starts = at;
                stops = omega (arith, len);
                nonempty = omega (arith, fits.1);
              })
              (next below n fits.1
                (omega (arith, ap length split, length-append (spelled kind text) tail))))
      step (refuse message) fits q below =
          rw (q, lex_loop)
            (record {
              at = i;
              message = message;
              inside = omega (arith, ap length e, length-append before (c ∷ cs));
              error = refl;
            })

  -- Lex ends: with tokens that stand in the source in order, each spelled there as its kind says,
  -- closed by one empty end token at the end of the source, or with a refusal of a place inside it.
  pub lex-IsLexed : IsLexed file src 0 (lex r file src)
  unfolding lex
  lex-IsLexed = loop-IsLexed (length src) 0 [] src refl refl (omega arith)
