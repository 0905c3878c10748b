-- ===== src/Model/Outcome/Holds.antt =====
-- What an outcome promises: a result has the property, and the fuel does not run out.
use sysml_federation.Base.{
  ◌≡◌, refl, subst, Bool, true, false, Bytes, List, [], ◌∷◌, Option, none, some, if◌then◌else◌,
  arith,
}
use sysml_federation.Model.Outcome.{
  Outcome, done, refused, crash, ◌>>=◌, ◌>>◌, Source, fail, refuse_if,
}
use sysml_federation.Syntax.Token.{Span, Error}

pub data Holds {ℓ} {A : Type ℓ} (P : A → Type 0) : Outcome A → Type ℓ where
  returns : {a : A} → P a → Holds P (done a)
  refuses : {e : Error} → Holds P (refused e)
  crashes : Holds P crash

-- The fuel does not run out.
abbrev pub Ends {ℓ} : {A : Type ℓ} → Outcome A → Type ℓ
Ends m = Holds (λ a. Unit {0}) m

pub Holds-bind {ℓ κ} :
    {A : Type ℓ} {B : Type κ} {P : A → Type 0} {Q : B → Type 0} {m : Outcome A} {f : A → Outcome B}
    → Holds P m
    → ((a : A) → m ≡ done a → P a → Holds Q (f a))
    → Holds Q (m >>= f)
Holds-bind (returns {a = a} p) k = k a refl p
Holds-bind refuses k = refuses
Holds-bind crashes k = crashes

pub Holds-fail {ℓ} :
    {A : Type ℓ} {P : A → Type 0} (s : Source) (at : Span) (message : Bytes)
    → Holds P (fail {A = A} s at message)
unfolding fail
Holds-fail s at message = refuses

pub Holds-if {ℓ} :
    {A : Type ℓ} {P : A → Type 0} (b : Bool) {m n : Outcome A}
    → (b ≡ true → Holds P m)
    → (b ≡ false → Holds P n)
    → Holds P (if b then m else n)
Holds-if true h k = h refl
Holds-if false h k = k refl

pub Holds-list {ℓ κ} :
    {A : Type ℓ} {B : Type κ} {P : A → Type 0} (xs : List B) {m : Outcome A}
    {f : B → List B → Outcome A}
    → (xs ≡ [] → Holds P m)
    → ((x : B) (rest : List B) → xs ≡ x ∷ rest → Holds P (f x rest))
    → Holds P (elim xs [ [] ↦ m | x ∷ rest ↦ f x rest ])
Holds-list [] h k = h refl
Holds-list (x ∷ rest) h k = k x rest refl

pub Holds-option {ℓ κ} :
    {A : Type ℓ} {B : Type κ} {P : A → Type 0} (o : Option B) {m : Outcome A} {f : B → Outcome A}
    → (o ≡ none → Holds P m)
    → ((x : B) → o ≡ some x → Holds P (f x))
    → Holds P (elim o [ none ↦ m | some x ↦ f x ])
Holds-option none h k = h refl
Holds-option (some x) h k = k x refl

-- Behind a refusal that is not made, its test is false.
pub Holds-refuse {ℓ} :
    {A : Type ℓ} {P : A → Type 0} (b : Bool) (s : Source) (at : Span) (message : Bytes)
    {m : Outcome A}
    → (b ≡ false → Holds P m)
    → Holds P (refuse_if b s at message >> m)
unfolding refuse_if
Holds-refuse true s at message k = Holds-fail s at message
Holds-refuse false s at message k = k refl

pub Holds-map {ℓ} :
    {A : Type ℓ} {P Q : A → Type 0} {m : Outcome A}
    → Holds P m
    → ((a : A) → m ≡ done a → P a → Q a)
    → Holds Q m
Holds-map (returns {a = a} p) k = returns (k a refl p)
Holds-map refuses k = refuses
Holds-map crashes k = crashes

pub done-injective {ℓ} : {A : Type ℓ} {a b : A} → done a ≡ done b → a ≡ b
done-injective e = ground (arith, e)

-- A result has the property.
pub Holds-done {ℓ} :
    {A : Type ℓ} {P : A → Type 0} {m : Outcome A} {a : A} → Holds P m → m ≡ done a → P a
Holds-done {P} (returns {a = b} p) e = subst P (done-injective e) p
Holds-done refuses e = absurd (ground (arith, e))
Holds-done crashes e = absurd (ground (arith, e))

pub Holds-cases {ℓ} :
    {A : Type ℓ} {P : A → Type 0} (b : Bool) {m n : Outcome A}
    → (b ≡ true → Holds P m)
    → (b ≡ false → Holds P n)
    → Holds P (elim b [ true ↦ m | false ↦ n ])
Holds-cases true h k = h refl
Holds-cases false h k = k refl
