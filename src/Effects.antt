-- ===== src/Effects.antt =====
-- Code that reads and writes a state and may fail: a function from the state to the result and the
-- new state. The state that an `Err` leaves behind is kept, as it is in the source.
pub mod Triple
use github_oidc_exchange.Prelude.{
  ℕ, ◌+◌, ◌%◌, ◌^◌, ◌-◌, ◌≡◌, refl, Bool, true, false, Option, none, some, Result, ok, err, ltb,
  if◌then◌else◌,
}
use github_oidc_exchange.Prelude.Int.{ℤ, pos, negsuc}

abbrev pub M : Type 0 → Type 0 → Type 0 → Type 0
M S E A = S → Result A E × S

module _ {S E : Type 0} where
  abbrev pub continue : {A B : Type 0} → (A → M S E B) → Result A E × S → Result B E × S
  continue f (ok a, s) = f a s
  continue f (err e, s) = (err e, s)

  infixl 5 ◌>>=◌ ◌>>◌
  abbrev pub ◌>>=◌ : {A B : Type 0} → M S E A → (A → M S E B) → M S E B
  ◌>>=◌ m f s = continue f (m s)

  abbrev pub ◌>>◌ : {B : Type 0} → M S E (Unit {0}) → M S E B → M S E B
  m >> k = m >>= λ _. k

  abbrev pub return : {A : Type 0} → A → M S E A
  return a s = (ok a, s)

  abbrev pub fail : {A : Type 0} → E → M S E A
  fail e s = (err e, s)

  abbrev pub modify : (S → S) → M S E (Unit {0})
  modify f s = (ok tt, f s)

  abbrev pub from_result : {A : Type 0} → Result A E → M S E A
  from_result r s = (r, s)

  -- `map_err` with a handler that writes the state.
  abbrev pub handle : {A F : Type 0} → (F → M S E A) → Result A F × S → Result A E × S
  handle h (ok a, s) = (ok a, s)
  handle h (err e, s) = h e s

  abbrev pub catch : {A F : Type 0} → M S F A → (F → M S E A) → M S E A
  catch m h s = handle h (m s)

-- `AtomicU64::fetch_add(1)`, and `+` on `u64` as a release build computes it.
unfoldable pub add_u64 : ℕ → ℕ → ℕ
add_u64 a b = (a + b) % 2 ^ 64

abbrev pub bump : ℕ → ℕ
bump n = add_u64 n 1

-- `n as i64` of a `u64`.
unfoldable pub as_i64 : ℕ → ℤ
as_i64 n = if ltb n (2 ^ 63) then pos n else negsuc (2 ^ 64 - 1 - n)

-- Inversion of a step that succeeds.
pub bind-eq-ok :
    {S E A B : Type 0} (m : M S E A) (f : A → M S E B) (s : S) {b : B} {t : S}
    → (m >>= f) s ≡ (ok b, t)
    → (a : A) × (u : S) × (m s ≡ (ok a, u)) × (f a u ≡ (ok b, t))
bind-eq-ok {S} {E} {A} {B} m f s {b} {t} h = split (m s) refl h
  where
    split :
        (r : Result A E × S)
        → m s ≡ r
        → continue f r ≡ (ok b, t)
        → (a : A) × (u : S) × (m s ≡ (ok a, u)) × (f a u ≡ (ok b, t))
    split (ok a, u) e h = (a, u, e, h)
    split (err x, u) e h = cc
