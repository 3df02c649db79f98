-- ===== src/Prelude/Lists.antt =====
-- Rust's iterators, sets and maps over lists. A set is the list of what was inserted; a map is an
-- association list in iteration order.
use Prim.Native.Nat.{◌≤◌, ℕ, suc}
use mathlib.Core.Bool.{Bool, true, false, ◌&&◌, ◌||◌}
use mathlib.Core.Option.{Option, none, some}
use mathlib.Core.List.{List, [], ◌∷◌}
use mathlib.Core.Logic.{inl, inr}
use mathlib.Core.Path.{◌≡◌, refl, ap, subst}
use native.Mathlib.Omega.{arith}
use github_oidc_exchange.Prelude.Tests.{Bool-cases, Eq, eq_iff, ◌==◌, if◌then◌else◌}

module _ {ℓ} {A : Type ℓ} where
  abbrev pub length : List A → ℕ
  length [] = 0
  length (x ∷ xs) = suc (length xs)

  unfoldable pub any : (A → Bool) → List A → Bool
  any p [] = false
  any p (x ∷ xs) = p x || any p xs

  unfoldable pub all : (A → Bool) → List A → Bool
  all p [] = true
  all p (x ∷ xs) = p x && all p xs

  unfoldable pub filter : (A → Bool) → List A → List A
  filter p [] = []
  filter p (x ∷ xs) = if p x then x ∷ filter p xs else filter p xs

  -- `Iterator::find`.
  unfoldable pub find : (A → Bool) → List A → Option A
  find p [] = none
  find p (x ∷ xs) = if p x then some x else find p xs

  -- The first match of an iterator, if there is no second.
  unfoldable pub only : List A → Option A
  only [] = none
  only (x ∷ []) = some x
  only (x ∷ y ∷ xs) = none

  abbrev pub is_empty : List A → Bool
  is_empty [] = true
  is_empty (x ∷ xs) = false

  abbrev pub All {κ} : (A → Type κ) → List A → Type κ
  All P [] = Unit
  All P (x ∷ xs) = P x × All P xs

  -- Membership by position: which entry is meant.
  pub data In (a : A) : List A → Type ℓ where
    here : {xs : List A} → In a (a ∷ xs)
    there : {x : A} {xs : List A} → In a xs → In a (x ∷ xs)

abbrev pub cons_some {ℓ} : {A : Type ℓ} → Option A → List A → List A
cons_some none xs = xs
cons_some (some x) xs = x ∷ xs

module _ {ℓ κ} {A : Type ℓ} {B : Type κ} where
  unfoldable pub filter_map : (A → Option B) → List A → List B
  filter_map f [] = []
  filter_map f (x ∷ xs) = cons_some (f x) (filter_map f xs)

module _ {ℓ} {A : Type ℓ} ⦃e : Eq A⦄ where
  unfoldable pub contains : List A → A → Bool
  contains [] a = false
  contains (x ∷ xs) a = x == a || contains xs a

  -- `collect::<HashSet<_>>`.
  unfoldable pub collect_set : List A → List A
  unfolding contains
  collect_set [] = []
  collect_set (x ∷ xs) = let rest = collect_set xs in if contains rest x then rest else x ∷ rest

  -- Each entry is inserted into an empty `HashSet`, and all insertions are new.
  unfoldable pub all_distinct : List A → Bool
  unfolding contains
  all_distinct [] = true
  all_distinct (x ∷ xs) = if contains xs x then false else all_distinct xs

unequal {ℓ} :
    {A : Type ℓ} ⦃e : Eq A⦄ (i j k : A) → (i == j) ≡ false → (i == k) ≡ true → (j == k) ≡ false
unequal i j k h p = ground (arith, eq_iff i j, eq_iff i k, eq_iff j k)

module _ {ℓ κ} {K : Type ℓ} {V : Type κ} ⦃e : Eq K⦄ where
  unfoldable pub get : List (K × V) → K → Option V
  get [] k = none
  get ((j, v) ∷ m) k = if j == k then some v else get m k

  -- `HashMap::insert`: the new value replaces the old.
  unfoldable pub put : K → V → List (K × V) → List (K × V)
  put k v [] = (k, v) ∷ []
  put k v ((j, w) ∷ m) = if j == k then (k, v) ∷ m else (j, w) ∷ put k v m

  pub get-put :
      (m : List (K × V)) (j k : K) (v : V)
      → get (put j v m) k ≡ (if j == k then some v else get m k)
  unfolding get put
  get-put [] j k v = refl
  get-put ((i, w) ∷ m) j k v = elim (Bool-cases (i == j)) [
    | inr differs ↦ elim (Bool-cases (i == k)) [
      | inr away ↦ rw (differs, away) (get-put m j k v)
      | inl equal ↦ rw (differs, equal, unequal i j k differs equal) refl
    ]
    | inl same ↦ elim (Bool-cases (j == k)) [
      | inl equal ↦ rw (same, equal) refl
      | inr away ↦ rw (same, away, ap (λ t. t == k) ((eq_iff i j).0 same), away) refl
    ]
  ]

module _ {ℓ} {A : Type ℓ} (p : A → Bool) where
  -- The filtered list, if it has one entry.
  pub filter-eq_of_only : (xs : List A) {x : A} → only xs ≡ some x → xs ≡ x ∷ []
  unfolding only
  filter-eq_of_only [] h = cc
  filter-eq_of_only (y ∷ []) h = cc
  filter-eq_of_only (y ∷ z ∷ xs) h = cc

  pub filter-nil : (xs : List A) → any p xs ≡ false → filter p xs ≡ []
  unfolding any filter
  filter-nil [] h = refl
  filter-nil (x ∷ xs) h = ground (arith, filter-nil xs)

  pub any-of_filter : (xs : List A) {x : A} {ys : List A} → filter p xs ≡ x ∷ ys → any p xs ≡ true
  unfolding any filter
  any-of_filter [] h = cc
  any-of_filter (y ∷ xs) {x} {ys} h = ground (arith, any-of_filter xs {x = x} {ys = ys})

  pub filter-head : (xs : List A) {x : A} {ys : List A} → filter p xs ≡ x ∷ ys → p x ≡ true
  unfolding filter
  filter-head [] h = cc
  filter-head (y ∷ xs) {x} {ys} h = ground (arith, filter-head xs {x = x} {ys = ys})

  pub any-filter-cons :
      (xs : List A) → any p xs ≡ true → (x : A) × (ys : List A) × (filter p xs ≡ x ∷ ys)
  unfolding any filter
  any-filter-cons [] h = cc
  any-filter-cons (x ∷ xs) h = elim (Bool-cases (p x)) [
    | inl hit ↦ (x, filter p xs, rw hit)
    | inr miss ↦ let (y, ys, e) = any-filter-cons xs (ground arith) in (y, ys, rw miss e)
  ]

  -- One match at most, and one at least.
  pub only-filter :
      (xs : List A)
      → length (filter p xs) ≤ 1
      → any p xs ≡ true
      → (x : A) × (only (filter p xs) ≡ some x)
  unfolding only
  only-filter xs short h =
      let (x, ys, e) = any-filter-cons xs h in
      (x, rw (e, only-one x ys (subst (λ zs. length zs ≤ 1) e short)))
    where
      only-one : (x : A) (ys : List A) → length (x ∷ ys) ≤ 1 → only (x ∷ ys) ≡ some x
      only-one x [] short = refl
      only-one x (y ∷ ys) short = absurd (omega arith)
