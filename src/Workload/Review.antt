-- ===== src/Workload/Review.antt =====
-- src/workload.rs: `KubernetesTokenReviewer::review` and `validate_token_review`. The credential file
-- and the request are parameters; `post` answers with a decoded body of a successful status.
use github_oidc_exchange.Prelude.{
  Bool, false, not, ◌||◌, List, [], ◌∷◌, Option, none, some, Result, ◌>>=◌, ◌>>◌, refuse_if, ok_or,
  ltb, ◌==◌, nat_eq, list_eq, if◌then◌else◌, is_empty,
}
use github_oidc_exchange.Text.{Text, len, trim}
use github_oidc_exchange.Workload.{
  ReviewError, TokenReviewResponse, TokenReviewUser, max_assertion_bytes,
}

unfoldable pub exact_audience : Option (List Text) → Text → Bool
exact_audience (some (reviewed ∷ [])) audience = reviewed == audience
exact_audience _ audience = false

abbrev pub is_true : Option Bool → Bool
is_true none = false
is_true (some b) = b

-- `user.and_then(|user| user.username).filter(|username| !username.is_empty())`.
unfoldable pub reviewed_username : Option TokenReviewUser → Option Text
reviewed_username none = none
reviewed_username (some user) = elim user.username [
  | none ↦ none
  | some username ↦ if is_empty username then none else some username
]

unfoldable pub validate_token_review : TokenReviewResponse → Text → Result Text ReviewError
validate_token_review response audience = do
  status ← ok_or response.status ReviewError.invalid
  refuse_if (not (is_true status.authenticated) || not (exact_audience status.audiences audience))
      ReviewError.invalid
  ok_or (reviewed_username status.user) ReviewError.invalid

unfoldable pub review :
    Option Text
    → (Text → Text → Text → Option TokenReviewResponse)
    → Text
    → Text
    → Result Text ReviewError
review credential_file post token audience = do
  refuse_if (is_empty token || ltb max_assertion_bytes (len token) || is_empty audience)
      ReviewError.invalid
  contents ← ok_or credential_file ReviewError.unavailable
  let credential = trim contents
  refuse_if (is_empty credential) ReviewError.unavailable
  response ← ok_or (post credential token audience) ReviewError.unavailable
  validate_token_review response audience
