-- ===== src/Effects/Triple.antt =====
-- Triples over code with state and failure: from a state with `P` it ends in a result and state
-- with `Q`.
use github_oidc_exchange.Prelude.{◌≡◌, refl, Bool, true, false, Result, ok, err, if◌then◌else◌}
use github_oidc_exchange.Effects.{M, ◌>>=◌, catch, continue, handle}

module _ {S E : Type 0} where
  abbrev pub Triple : {A : Type 0} → (S → Type 0) → M S E A → (Result A E → S → Type 0) → Type 0
  Triple P m Q = (s : S) → P s → Q (m s).0 (m s).1

  -- A step, then the rest; an error ends both.
  pub bind :
      {A B : Type 0} (P : S → Type 0) (R : Result A E → S → Type 0) (Q : Result B E → S → Type 0)
      (m : M S E A) (f : A → M S E B)
      → Triple P m R
      → ((a : A) → Triple (R (ok a)) (f a) Q)
      → ((x : E) (s : S) → R (err x) s → Q (err x) s)
      → Triple P (m >>= f) Q
  bind {A} {B} P R Q m f hm hf hx s p = go (m s) (hm s p)
    where
      go : (r : Result A E × S) → R r.0 r.1 → Q (continue f r).0 (continue f r).1
      go (ok a, t) h = hf a t h
      go (err x, t) h = hx x t h

  -- A step, and a handler for its error.
  pub caught :
      {A F : Type 0} (P : S → Type 0) (R : Result A F → S → Type 0) (Q : Result A E → S → Type 0)
      (m : M S F A) (f : F → M S E A)
      → ((s : S) → P s → R (m s).0 (m s).1)
      → ((x : F) → Triple (R (err x)) (f x) Q)
      → ((a : A) (s : S) → R (ok a) s → Q (ok a) s)
      → Triple P (catch m f) Q
  caught {A} {F} P R Q m f hm hf ha s p = go (m s) (hm s p)
    where
      go : (r : Result A F × S) → R r.0 r.1 → Q (handle f r).0 (handle f r).1
      go (ok a, t) h = ha a t h
      go (err x, t) h = hf x t h

  pub branch :
      {A : Type 0} (P : S → Type 0) (Q : Result A E → S → Type 0) (b : Bool) (m n : M S E A)
      → (b ≡ true → Triple P m Q)
      → (b ≡ false → Triple P n Q)
      → Triple P (if b then m else n) Q
  branch P Q true m n hm hn = hm refl
  branch P Q false m n hm hn = hn refl
