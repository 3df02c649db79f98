-- ===== src/Prelude/Results.antt =====
-- Rust's `Result` and `Option` combinators; `do` is the operator `?`.
use mathlib.Core.Path.{◌≡◌, refl, subst}
use mathlib.Core.Logic.{◌⊎◌, inl, inr}
use mathlib.Core.Bool.{Bool, true, false}
use mathlib.Core.Option.{Option, none, some}

pub data Result {ℓ κ} (A : Type ℓ) (E : Type κ) : Type (ℓ ⊔ κ) where
  ok : A → Result A E
  err : E → Result A E

infixl 5 ◌>>=◌ ◌>>◌
abbrev pub ◌>>=◌ {ℓ κ μ} :
    {A : Type ℓ} {B : Type κ} {E : Type μ} → Result A E → (A → Result B E) → Result B E
err e >>= next = err e
ok a >>= next = next a

-- `if test { return Err(e) }`.
abbrev pub refuse_if {ℓ} : {E : Type ℓ} → Bool → E → Result (Unit {0}) E
refuse_if true e = err e
refuse_if false e = ok tt

abbrev pub ok_or {ℓ κ} : {A : Type ℓ} {E : Type κ} → Option A → E → Result A E
ok_or none e = err e
ok_or (some a) e = ok a

abbrev pub map_err {ℓ κ μ} :
    {A : Type ℓ} {E : Type κ} {F : Type μ} → (E → F) → Result A E → Result A F
map_err f (ok a) = ok a
map_err f (err e) = err (f e)

abbrev pub ◌>>◌ {ℓ κ} : {B : Type ℓ} {E : Type κ} → Result (Unit {0}) E → Result B E → Result B E
first >> second = first >>= λ _. second

-- Inversion of a successful `?`, for proofs where the parts stay shut.
pub >>=-eq-ok {ℓ κ μ} :
    {A : Type ℓ} {B : Type κ} {E : Type μ} (result : Result A E) (next : A → Result B E) {last : B}
    → (result >>= next) ≡ ok last
    → (first : A) × (result ≡ ok first) × (next first ≡ ok last)
>>=-eq-ok (err x) next h = cc
>>=-eq-ok (ok first) next h = (first, refl, h)

pub refuse_if-eq-ok {ℓ} : {E : Type ℓ} (t : Bool) (e : E) → refuse_if t e ≡ ok tt → t ≡ false
refuse_if-eq-ok true e h = cc
refuse_if-eq-ok false e h = refl

-- To split on a computed result and keep the equation.
pub Result-cases {ℓ κ} :
    {A : Type ℓ} {E : Type κ} (r : Result A E) → ((a : A) × (r ≡ ok a)) ⊎ ((e : E) × (r ≡ err e))
Result-cases (ok a) = inl (a, refl)
Result-cases (err e) = inr (e, refl)

abbrev pub is_ok {ℓ κ} : {A : Type ℓ} {E : Type κ} → Result A E → Bool
is_ok (ok a) = true
is_ok (err e) = false

pub eq-ok_of_is_ok {ℓ κ} :
    {A : Type ℓ} {E : Type κ} (r : Result A E) → is_ok r ≡ true → (a : A) × (r ≡ ok a)
eq-ok_of_is_ok (ok a) h = (a, refl)
eq-ok_of_is_ok (err e) h = cc

-- What a result gives where it is `Ok`.
abbrev pub Holds {ℓ κ μ} : {A : Type ℓ} {E : Type κ} → (A → Type μ) → Result A E → Type μ
Holds Q (ok a) = Q a
Holds Q (err e) = Unit

-- A `?`, then the rest.
pub Holds->>= {ℓ κ μ ν} :
    {A : Type ℓ} {B : Type κ} {E : Type μ} (Q : B → Type ν) (result : Result A E)
    (next : A → Result B E)
    → ((a : A) → result ≡ ok a → Holds Q (next a))
    → Holds Q (result >>= next)
Holds->>= Q (ok a) next h = h a refl
Holds->>= Q (err e) next h = tt

-- A check, then the rest.
pub Holds->> {ℓ κ μ} :
    {B : Type ℓ} {E : Type κ} (Q : B → Type μ) (test : Bool) (e : E) (rest : Result B E)
    → (test ≡ false → Holds Q rest)
    → Holds Q (refuse_if test e >> rest)
Holds->> Q true e rest h = tt
Holds->> Q false e rest h = h refl

pub Holds-of {ℓ κ μ} :
    {A : Type ℓ} {E : Type κ} (Q : A → Type μ) (r : Result A E)
    → ((a : A) → r ≡ ok a → Q a)
    → Holds Q r
Holds-of Q (ok a) h = h a refl
Holds-of Q (err e) h = tt

pub Holds-eq_ok {ℓ κ μ} :
    {A : Type ℓ} {E : Type κ} (Q : A → Type μ) (r : Result A E) {a : A} → Holds Q r → r ≡ ok a → Q a
Holds-eq_ok {A} {E} Q (ok b) {a} h e = subst Q (same e) h
  where
    same : ◌≡◌ {A = Result A E} (ok b) (ok a) → b ≡ a
    same e = cc
Holds-eq_ok {A} {E} Q (err x) {a} h e = cc
