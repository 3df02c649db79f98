-- ===== src/Workload/Accepted.antt =====
-- src/workload.rs: what a TokenReview that is accepted says.
use github_oidc_exchange.Prelude.{
  ℕ, ◌≡◌, ◌≢◌, refl, inl, inr, List, [], ◌∷◌, Bool, true, false, Option, none, some, ok, arith,
  nat_eq, list_eq, eq_iff, Option-cases,
}
use github_oidc_exchange.Text.{Text}
use github_oidc_exchange.Workload.{TokenReviewResponse, TokenReviewStatus, TokenReviewUser}
use github_oidc_exchange.Workload.Review.{
  exact_audience, is_true, reviewed_username, validate_token_review,
}

-- The answer authenticates a user of that name, for the one audience asked for.
abbrev pub Authenticates : TokenReviewResponse → Text → Text → Type 0
Authenticates response audience username =
    (status : TokenReviewStatus) × (user : TokenReviewUser) × (response.status ≡ some status)
    × (status.authenticated ≡ some true)
    × (status.audiences ≡ some (audience ∷ []))
    × (status.user ≡ some user)
    × (user.username ≡ some username)
    × (username ≢ [])

is_true-some : (o : Option Bool) → is_true o ≡ true → o ≡ some true
is_true-some none h = absurd (ground arith)
is_true-some (some true) h = refl
is_true-some (some false) h = absurd (ground arith)

exact_audience-some :
    (o : Option (List Text)) (audience : Text)
    → exact_audience o audience ≡ true
    → o ≡ some (audience ∷ [])
unfolding exact_audience
exact_audience-some none audience h = absurd (ground arith)
exact_audience-some (some []) audience h = absurd (ground arith)
exact_audience-some (some (reviewed ∷ [])) audience h = rw ((eq_iff reviewed audience).0 h) refl
exact_audience-some (some (reviewed ∷ more ∷ rest)) audience h = absurd (ground arith)

reviewed_username-some :
    (o : Option TokenReviewUser) {username : Text}
    → reviewed_username o ≡ some username
    → (user : TokenReviewUser) × (o ≡ some user) × (user.username ≡ some username) × (username ≢ [])
unfolding reviewed_username
reviewed_username-some none h = absurd (ground arith)
reviewed_username-some (some user) {username} h = elim (Option-cases user.username) [
  | inl missing ↦ absurd (ground arith)
  | inr ([], found) ↦ absurd (ground arith)
  | inr (c ∷ cs, found) ↦ (user, refl, ground arith, nonempty c cs (ground arith))
]
  where
    nonempty :
        (c : ℕ) (cs : Text) → ◌≡◌ {A = Option Text} (some (c ∷ cs)) (some username) → username ≢ []
    nonempty c cs q p = cc

-- A TokenReview that is accepted authenticates a user of that name, for the one audience asked for.
pub validate_token_review-Authenticates :
    (response : TokenReviewResponse) (audience username : Text)
    → validate_token_review response audience ≡ ok username
    → Authenticates response audience username
unfolding validate_token_review
validate_token_review-Authenticates response audience username h =
    elim (Option-cases response.status) [
      | inl missing ↦ absurd (ground arith)
      | inr (status, found) ↦
          let (user, given, named, nonempty) =
            reviewed_username-some status.user {username = username} (ground arith) in
          (
            status,
            user,
            found,
            is_true-some status.authenticated (ground arith),
            exact_audience-some status.audiences audience (ground arith),
            given,
            named,
            nonempty,
          )
    ]
