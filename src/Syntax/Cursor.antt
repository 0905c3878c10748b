-- ===== src/Syntax/Cursor.antt =====
-- adapter/syntax/parser.go: the cursor. The receiver is split into what never changes, Input, and
-- the index pos. A panic with a refusal is `refused`, an index out of range is `crash`.
pub mod Keeps
pub mod Reads
use sysml_federation.Base.{
  ℕ, zero, suc, List, [], ◌∷◌, ◌++◌, Bool, true, false, not, ◌&&◌, ◌||◌, Option, none, some,
  if◌then◌else◌, Bytes, bytes, bytes_eq, join, length, get_elem?,
}
use Prim.Native.String.{String}
use sysml_federation.Syntax.Ast.{Doc}
use sysml_federation.Syntax.Docs.{doc_text}
use sysml_federation.Syntax.Position.{error_at}
use sysml_federation.Syntax.Token.{Span, Kind, kind_eq, Token, Error, is_keyword}

pub record Input : Type 0 where
  pub file : Bytes
  pub src : Bytes
  pub toks : List Token

pub data Outcome (A : Type 0) : Type 0 where
  ok : A → ℕ → Outcome A
  refused : Error → Outcome A
  crash : Outcome A
  out_of_fuel : Outcome A

abbrev pub P : Type 0 → Type 0
P A = Input → ℕ → Outcome A

unfoldable pub pure : {A : Type 0} → A → P A
pure a inp pos = ok a pos

unfoldable pub continue : {A B : Type 0} → Outcome A → (A → P B) → Input → Outcome B
continue (ok a pos) f inp = f a inp pos
continue (refused e) f inp = refused e
continue crash f inp = crash
continue out_of_fuel f inp = out_of_fuel

infixl 5 ◌>>=◌ ◌>>◌
unfoldable pub ◌>>=◌ : {A B : Type 0} → P A → (A → P B) → P B
unfolding continue
◌>>=◌ m f inp pos = continue (m inp pos) f inp

abbrev pub ◌>>◌ : {A B : Type 0} → P A → P B → P B
m >> k = m >>= λ _. k

-- if b { x } else { y }
infix 1 test◌run◌otherwise◌
unfoldable pub test◌run◌otherwise◌ : {A : Type 0} → Bool → P A → P A → P A
test true run x otherwise y = x
test false run x otherwise y = y

-- The same, where the condition reads or moves the cursor
infix 1 when◌run◌otherwise◌
unfoldable pub when◌run◌otherwise◌ : {A : Type 0} → P Bool → P A → P A → P A
unfolding ◌>>=◌ test◌run◌otherwise◌
when c run x otherwise y = c >>= λ b. test b run x otherwise y

-- c || d, which makes no call of d where c holds
infixr 30 ◌or_else◌
unfoldable pub ◌or_else◌ : P Bool → P Bool → P Bool
unfolding when◌run◌otherwise◌ pure
c or_else d = when c run pure true otherwise d

-- A loop of the parser consumes a token in each round: the number of tokens bounds its rounds.
unfoldable pub rounds : P ℕ
rounds inp pos = ok (suc (length inp.toks)) pos

unfoldable pub exhausted : {A : Type 0} → P A
exhausted inp pos = out_of_fuel

-- p.toks[i]
abbrev pub at : {A : Type 0} → ℕ → (Token → Outcome A) → Input → Outcome A
at i k inp = elim (get_elem? inp.toks i) [ none ↦ crash | some t ↦ k t ]

unfoldable pub peek : P Token
peek inp pos = at pos (λ t. ok t pos) inp

-- p.toks[p.pos+1]
unfoldable pub ahead : P Token
ahead inp pos = at (suc pos) (λ t. ok t pos) inp

unfoldable pub next : P Token
next inp pos = at pos (λ t. ok t (if kind_eq t.kind Kind.eof then pos else suc pos)) inp

unfoldable pub fail : {A : Type 0} → Span → Bytes → P A
fail span message inp pos = refused (error_at inp.file inp.src span message)

abbrev quoted : String → Bytes → Bytes
quoted what text = bytes what ++ (bytes " '" ++ (text ++ bytes "'"))

unfoldable pub describe : Token → Bytes
describe t = elim t.kind [
  | Kind.eof ↦ bytes "end of file"
  | Kind.keyword ↦ quoted "keyword" t.text
  | Kind.ident ↦ quoted "identifier" t.text
  | Kind.name ↦ quoted "name" t.text
  | Kind.number ↦ quoted "number" t.text
  | Kind.string ↦ bytes "string"
  | Kind.comment ↦ bytes "comment"
  | Kind.punct ↦ bytes "'" ++ (t.text ++ bytes "'")
]

unfoldable pub fail_expected : {A : Type 0} → Bytes → P A
fail_expected what = do
  t ← peek
  fail t.span (bytes "expected " ++ (what ++ (bytes ", found " ++ describe t)))

-- Whether a token is the given keyword or punctuation.
unfoldable pub is_token : Bytes → Token → Bool
is_token text t = (kind_eq t.kind Kind.keyword || kind_eq t.kind Kind.punct) && bytes_eq t.text text

unfoldable pub is : Bytes → P Bool
is text = do t ← peek; pure (is_token text t)

-- p.is(text) && p.toks[p.pos+1].Text == then
unfoldable pub is_then : Bytes → Bytes → P Bool
is_then text then_text =
    when is text run (do t ← ahead; pure (bytes_eq t.text then_text)) otherwise pure false

unfoldable pub accept : Bytes → P Bool
accept text = when is text run (do next; pure true) otherwise pure false

unfoldable pub expect : Bytes → P Token
expect text =
    when is text
    run next
    otherwise (test is_keyword text
        run fail_expected (quoted "keyword" text)
        otherwise fail_expected (bytes "'" ++ (text ++ bytes "'")))

unfoldable pub name : P Bytes
name = do
  t ← peek
  test not (kind_eq t.kind Kind.ident) && not (kind_eq t.kind Kind.name)
      run fail_expected (bytes "a name")
      otherwise (do n ← next; pure n.text)

-- p.is("::") && p.toks[p.pos+1].Kind != Punct
unfoldable pub is_segment : P Bool
is_segment =
    when is (bytes "::")
    run (do t ← ahead; pure (not (kind_eq t.kind Kind.punct)))
    otherwise pure false

unfoldable pub segments : ℕ → List Bytes → P (List Bytes)
segments zero parts = exhausted
segments (suc fuel) parts =
    when is_segment run (do next; n ← name; segments fuel (parts ++ n ∷ [])) otherwise pure parts

unfoldable pub qualified_name : P Bytes
qualified_name = do
  n ← name
  fuel ← rounds
  parts ← segments fuel (n ∷ [])
  pure (join parts (bytes "::"))

unfoldable pub short_name : P Bytes
short_name = when accept (bytes "<") run (do s ← name; expect (bytes ">"); pure s) otherwise pure []

-- The span from start to the end of the token before the cursor, p.toks[p.pos-1].
unfoldable pub end : ℕ → P Span
end start inp zero = crash
end start inp (suc i) = at i (λ t. ok (record { start = start; stop = t.span.stop }) (suc i)) inp

-- p.peek().Span.Start
unfoldable pub here : P ℕ
here = do t ← peek; pure t.span.start

-- The bodies have names that begin with a letter.
unfoldable pub article : Bytes → Bytes
article [] = bytes "a"
article (c ∷ _) =
    if bytes_eq (c ∷ []) (bytes "a")
      || bytes_eq (c ∷ []) (bytes "e")
      || bytes_eq (c ∷ []) (bytes "i")
      || bytes_eq (c ∷ []) (bytes "o")
      || bytes_eq (c ∷ []) (bytes "u")
    then bytes "an"
    else bytes "a"

unfoldable pub unsupported : {A : Type 0} → Bytes → P A
unsupported body = do
  t ← peek
  test kind_eq t.kind Kind.keyword
      run fail t.span (
          quoted "keyword" t.text
          ++ (bytes " is not supported in "
              ++ (article body ++ (bytes " " ++ (body ++ bytes " body")))))
      otherwise fail_expected
          (bytes "a member of " ++ (article body ++ (bytes " " ++ (body ++ bytes " body"))))

-- once, on a member that is there already or not
unfoldable pub once : {A : Type 0} → Option A → Bytes → Bytes → P (Unit {0})
once none what body = pure tt
once (some _) what body = do
  t ← peek
  fail t.span
      (bytes "only one " ++ (what ++ (bytes " is allowed in a " ++ (body ++ bytes " body"))))

unfoldable pub doc : P Doc
doc = do
  d ← expect (bytes "doc")
  t ← peek
  test not (kind_eq t.kind Kind.comment) run fail_expected (bytes "a /* */ comment") otherwise (do
    next
    span ← end d.span.start
    pure (record { text = doc_text t.text; span = span }))

unfoldable pub skip_comment : P Bool
skip_comment = do
  t ← peek
  test kind_eq t.kind Kind.comment run (do next; pure true) otherwise pure false

-- for !p.is("}") { member }, and where `to_eof` holds for !p.is("}") && p.peek().Kind != EOF
unfoldable pub body_loop : {S : Type 0} → Bool → (S → P S) → ℕ → S → P S
body_loop to_eof member zero s = exhausted
body_loop to_eof member (suc fuel) s = when is (bytes "}") run pure s otherwise (do
  t ← peek
  test to_eof && kind_eq t.kind Kind.eof
      run pure s
      otherwise (do s' ← member s; body_loop to_eof member fuel s'))

-- { p.skipComment } and the other members
unfoldable pub body : {S : Type 0} → Bool → (S → P S) → S → P S
body to_eof member s = do
  fuel ← rounds
  body_loop to_eof (λ s. when skip_comment run pure s otherwise member s) fuel s
