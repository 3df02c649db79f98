-- ===== src/Tests/Store.antt =====
-- A small Lease API and calendar that satisfy what src/replay.rs relies on.
use github_oidc_exchange.Prelude.{
  ℕ, zero, suc, ◌+◌, ◌*◌, ◌/◌, ◌≡◌, ◌≢◌, refl, sym, ap, ◌∙◌, inl, inr, [], ◌∷◌, Option, none, some,
  ◌==◌, nat_eq, list_eq, eq_iff, Bool-cases, arith, if◌then◌else◌,
}
use github_oidc_exchange.Prelude.Int.{
  ℤ, pos, negsuc, pos_part, ◌+ℤ◌, ◌-ℤ◌, ◌≤ℤ◌, ◌<ℤ◌, +ℤ_parts, -ℤ_parts,
}
use github_oidc_exchange.Text.{Text, text}
use github_oidc_exchange.Replay.{DateTime, nanos, Chrono, ChronoLaws, Lease, LeaseApi}
use github_oidc_exchange.Replay.Ledger.{Environment}
use github_oidc_exchange.Replay.Store.{StoreLaws}

unfoldable pub whole_seconds : ℤ → ℤ
whole_seconds (pos n) = pos (n / 1000000000)
whole_seconds (negsuc n) = negsuc (n / 1000000000)

abbrev print_time : DateTime → Text
print_time (pos n) = 0 ∷ n ∷ []
print_time (negsuc n) = 1 ∷ n ∷ []

abbrev read_time : Text → Option DateTime
read_time (zero ∷ n ∷ []) = some (pos n)
read_time (suc zero ∷ n ∷ []) = some (negsuc n)
read_time _ = none

abbrev pub calendar : Chrono
calendar = record {
  from_timestamp = λ s. some (nanos s);
  timestamp = whole_seconds;
  num_seconds_since = λ t u. pos (pos_part (t -ℤ u) / 1000000000);
  to_rfc3339_micros = print_time;
  parse_from_rfc3339 = read_time;
}

pub calendar_laws : ChronoLaws calendar
unfolding nanos whole_seconds
calendar_laws = record {
  from_timestamp_exact = λ s e. exact e;
  timestamp_floor = floor;
  num_seconds_trunc = trunc;
  rfc3339_round_trip = again;
}
  where
    exact : {a b : DateTime} → some a ≡ some b → b ≡ a
    exact e = cc

    floor :
        (t : DateTime)
        → (nanos (whole_seconds t) ≤ℤ t) × (t <ℤ nanos (whole_seconds t) +ℤ nanos (pos 1))
    floor (pos n) =
        (omega arith, omega (arith, +ℤ_parts (pos (n / 1000000000 * 1000000000)) (pos 1000000000)))
    floor (negsuc n) = (
      omega arith,
      omega (arith, +ℤ_parts (negsuc (n / 1000000000 * 1000000000 + 999999999)) (pos 1000000000)),
    )

    trunc_of :
        (d : ℤ)
        → pos 0 ≤ℤ d
        → (nanos (pos (pos_part d / 1000000000)) ≤ℤ d)
          × (d <ℤ nanos (pos (pos_part d / 1000000000)) +ℤ nanos (pos 1))
    trunc_of (pos n) h =
        (omega arith, omega (arith, +ℤ_parts (pos (n / 1000000000 * 1000000000)) (pos 1000000000)))
    trunc_of (negsuc n) h = absurd (omega arith)

    trunc :
        (t u : DateTime)
        → u ≤ℤ t
        → (nanos (pos (pos_part (t -ℤ u) / 1000000000)) ≤ℤ t -ℤ u)
          × (t -ℤ u <ℤ nanos (pos (pos_part (t -ℤ u) / 1000000000)) +ℤ nanos (pos 1))
    trunc t u h = trunc_of (t -ℤ u) (omega (arith, -ℤ_parts t u))

    again :
        (t : DateTime)
        → (u : DateTime) × (read_time (print_time t) ≡ some u) × (u ≤ℤ t) × (t <ℤ u +ℤ pos 1000)
    again (pos n) = (pos n, refl, omega arith, omega (arith, +ℤ_parts (pos n) (pos 1000)))
    again (negsuc n) = (negsuc n, refl, omega arith, omega (arith, +ℤ_parts (negsuc n) (pos 1000)))

-- The records by name; the item of `name` is at `/name`.
abbrev pub Records : Type 0
Records = Text → Option Lease

unfoldable pub set : Text → Option Lease → Records → Records
set name l s other = if other == name then l else s other

abbrev pub name_of : Text → Text
name_of [] = []
name_of (c ∷ name) = name

abbrev pub found_body : Option Lease → Option (ℕ × Option Lease)
found_body none = some (404, none)
found_body (some l) = some (200, some l)

abbrev posted : Lease → Records → Option Lease → Option ℕ × Records
posted lease s none = (some 201, set lease.metadata.name (some lease) s)
posted lease s (some l) = (some 409, s)

-- GET and LIST leave the records; DELETE finds the version it is given.
abbrev pub records_api : LeaseApi Records
records_api = record {
  credential = λ s. (some (text "token"), s);
  item_url = λ url. some url;
  post = λ token lease s. posted lease s (s lease.metadata.name);
  get = λ token url s. (found_body (s (name_of url)), s);
  put = λ token url lease s. (some 200, set (name_of url) (some lease) s);
  list =
      λ token continue_token s. (some (200, some (record { items = []; continue_token = [] })), s);
  delete = λ token url version s. (some 200, set (name_of url) none s);
}

abbrev pub records : Environment Records
records = record {
  api = records_api;
  chrono = calendar;
  sha256 = λ bytes. bytes;
  collection_url = [];
}

set-same : (name : Text) (l : Option Lease) (s : Records) → set name l s name ≡ l
unfolding set
set-same name l s = rw ((eq_iff name name).1 refl) refl

pub set-other :
    (name other : Text) (l : Option Lease) (s : Records)
    → other ≢ name
    → set name l s other ≡ s other
unfolding set
set-other name other l s apart = elim (Bool-cases (other == name)) [
  | inl same ↦ absurd (apart ((eq_iff other name).0 same))
  | inr f ↦ rw f refl
]

some_injective : {A : Type 0} {a b : A} → some a ≡ some b → a ≡ b
some_injective p = cc

abbrev pub here_now : Records → Text → Option Lease
here_now s = s

pub records_laws : StoreLaws records here_now
records_laws = record {
  credential_keeps = λ s. refl;
  post_fresh = λ token lease s p. fresh lease s (s lease.metadata.name) p;
  post_stores = λ token lease s p. stores lease s (s lease.metadata.name) p;
  post_keeps = λ token lease s name l h. keeps lease s name l h (s lease.metadata.name) refl;
  get_keeps = λ token url s. refl;
  get_found = λ token url name s l e p. ap s (name_eq e) ∙ found (s (name_of url)) p;
  get_missing = λ token url name s body e p. ap s (name_eq e) ∙ missing (s (name_of url)) p;
  put_stores = λ token url name lease s e p. (
    lease,
    ap (λ n. set n (some lease) s name) (sym (name_eq e)) ∙ set-same name (some lease) s,
    refl,
    refl,
  );
  put_others = λ token url name lease s other e apart.
      ap (λ n. set n (some lease) s other) (sym (name_eq e))
      ∙ set-other name other (some lease) s apart;
  list_keeps = λ token continue_token s. refl;
  delete_others = λ token url name version s other e apart.
      ap (λ n. set n none s other) (sym (name_eq e)) ∙ set-other name other none s apart;
}
  where
    name_eq : {name url : Text} → some (b'/' ∷ name) ≡ some url → name ≡ name_of url
    name_eq e = ap name_of (some_injective e)

    fresh :
        (lease : Lease) (s : Records) (o : Option Lease)
        → (posted lease s o).0 ≡ some 201
        → o ≡ none
    fresh lease s none p = refl
    fresh lease s (some l) p = absurd (ground arith)

    stores :
        (lease : Lease) (s : Records) (o : Option Lease)
        → (posted lease s o).0 ≡ some 201
        → (stored : Lease) × ((posted lease s o).1 lease.metadata.name ≡ some stored)
          × (stored.spec ≡ lease.spec)
          × (stored.metadata.labels ≡ lease.metadata.labels)
    stores lease s none p = (lease, set-same lease.metadata.name (some lease) s, refl, refl)
    stores lease s (some l) p = absurd (ground arith)

    clash : {o : Option Lease} {l : Lease} → o ≡ some l → o ≡ none → ⊥
    clash p q = cc

    keeps :
        (lease : Lease) (s : Records) (name : Text) (l : Lease)
        → s name ≡ some l
        → (o : Option Lease) → s lease.metadata.name ≡ o
        → (posted lease s o).1 name ≡ some l
    keeps lease s name l h none e =
        set-other lease.metadata.name name (some lease) s (λ p. clash h (ap s p ∙ e)) ∙ h
    keeps lease s name l h (some k) e = h

    found : (o : Option Lease) {l : Lease} → found_body o ≡ some (200, some l) → o ≡ some l
    found none p = cc
    found (some k) p = cc

    missing : (o : Option Lease) {body : Option Lease} → found_body o ≡ some (404, body) → o ≡ none
    missing none p = refl
    missing (some k) p = absurd (ground arith)
