-- ===== src/Policy/Checks.antt =====
-- src/policy.rs: the checks of single values and of lists of values.
use Prim.Native.String
use github_oidc_exchange.Prelude.{
  List, [], ◌∷◌, Bool, true, false, not, ◌&&◌, ◌||◌, Option, none, some, String, leb, ltb, ◌==◌,
  nat_eq, list_eq, if◌then◌else◌, length, any, all, is_empty, contains, collect_set, Result, ok,
  ◌>>=◌, ◌>>◌, refuse_if, ok_or,
}
use github_oidc_exchange.Text.{
  Text, text, len, bytes, starts_with, ends_with, strip_prefix, contains_text, contains_char,
  split_once, is_ascii_digit, is_ascii_graphic, is_lower_hex, is_whitespace, to_ascii_lowercase,
}
use github_oidc_exchange.Policy.{RepositoryPolicy, Actor, PolicyError, invalid}

abbrev pub Checked : Type 0
Checked = Result (Unit {0}) PolicyError

-- Whether a test holds of the value, if there is one.
abbrev pub is_some_and {ℓ} : {A : Type ℓ} → Option A → (A → Bool) → Bool
is_some_and none p = false
is_some_and (some a) p = p a

abbrev pub is_none_or {ℓ} : {A : Type ℓ} → Option A → (A → Bool) → Bool
is_none_or none p = true
is_none_or (some a) p = p a

unfoldable pub decimal_identifier : Text → Bool
decimal_identifier value = not (is_empty value) && all is_ascii_digit (bytes value)

unfoldable pub numeric_identifier : Text → Bool
unfolding decimal_identifier
numeric_identifier value =
    leb (len value) 20
    && decimal_identifier value
    && not (value == text "0")
    && not (starts_with (text "0") value)

canonical_parts : Text → Option (Text × Text) → Bool
canonical_parts value none = false
canonical_parts value (some (local, domain)) =
    not (is_empty local)
    && not (is_empty domain)
    && not (any is_whitespace value)
    && value == to_ascii_lowercase value

unfoldable pub canonical_email : Text → Bool
unfolding canonical_parts
canonical_email value = canonical_parts value (split_once b'@' value)

unfoldable pub canonical_user_id : Text → Bool
canonical_user_id value =
    is_some_and (strip_prefix (text "usr_") value)
      (λ suffix. len suffix == 32 && all is_lower_hex (bytes suffix))

unfoldable pub require_values : String → List Text → Checked
require_values name values =
    refuse_if
      (is_empty values
        || not (length (collect_set values) == length values)
        || any (λ value. is_empty value) values)
      (invalid (String.◌++◌ name " must contain unique non-empty values"))

unfoldable pub required_selector : String → Option (List Text) → Result (List Text) PolicyError
required_selector name selector = do
  values ← ok_or selector (invalid (String.◌++◌ name " is required by policy v5"))
  require_values name values
  ok values

unfoldable pub validate_repository_ids : RepositoryPolicy → Bool → Checked
validate_repository_ids repository bounded =
    refuse_if (not (valid_numeric repository.owner_id) || not repository_valid)
      (invalid "repository numeric IDs are required")
  where
    valid_numeric : Text → Bool
    valid_numeric value = if bounded then numeric_identifier value else decimal_identifier value

    repository_valid : Bool
    repository_valid =
        valid_numeric repository.repository_id || bounded && repository.repository_id == text "*"

unfoldable pub validate_workflow_refs : List Text → Checked
validate_workflow_refs workflow_refs =
    refuse_if
      (any
        (λ workflow_ref.
          ltb 2048 (len workflow_ref)
          || not (all is_ascii_graphic (bytes workflow_ref))
          || not (contains_text (text "/.github/workflows/") workflow_ref)
          || not (contains_char b'@' workflow_ref))
        workflow_refs)
      (invalid "job_workflow_refs must contain exact GitHub workflow references")

unfoldable pub validate_workflow_shas : List Text → Checked
validate_workflow_shas workflow_shas =
    refuse_if (any (λ sha. not (len sha == 40) || not (all is_lower_hex (bytes sha))) workflow_shas)
      (invalid "job_workflow_shas must contain exact lowercase Git SHA-1 values")

unfoldable pub validate_domains : List Text → Checked
validate_domains domains = do
  require_values "allowed_email_domains" domains
  refuse_if
      (any
        (λ domain.
          starts_with (text ".") domain
          || ends_with (text ".") domain
          || not (contains_char b'.' domain)
          || not (domain == to_ascii_lowercase domain))
        domains)
      (invalid "allowed_email_domains must contain canonical DNS domain names")

unfoldable pub validate_subjects : List Text → Checked
validate_subjects subjects =
    refuse_if
      (any
        (λ subject.
          not (starts_with (text "repo:") subject)
          || ltb 2048 (len subject)
          || not (all is_ascii_graphic (bytes subject)))
        subjects)
      (invalid "subjects must be exact GitHub repo subjects")

-- The condition under which one entry of `actors` is refused.
unfoldable pub actor_refused : Option (List Text) → Bool → Text → Actor → Bool
actor_refused allowed_email_domains bounded_ids actor_id actor =
    not actor_id_valid
    || not actor.verified
    || not (canonical_email actor.email)
    || not (canonical_user_id actor.canonical_user_id)
    || not domain_allowed
  where
    domain_allowed : Bool
    domain_allowed =
        is_none_or allowed_email_domains
          (λ domains. any (λ domain. ends_with (b'@' ∷ domain) actor.email) domains)

    actor_id_valid : Bool
    actor_id_valid =
        if bounded_ids then numeric_identifier actor_id else decimal_identifier actor_id

-- The loop of `validate_actors`, over the canonical user IDs seen so far.
unfoldable pub validate_actors_from :
    Option (List Text) → Bool → List Text → List (Text × Actor) → Checked
validate_actors_from domains bounded_ids seen [] = ok tt
validate_actors_from domains bounded_ids seen ((actor_id, actor) ∷ rest) = do
  refuse_if (actor_refused domains bounded_ids actor_id actor) (
      invalid
        "actor mappings require a numeric ID, verified canonical email, and opaque canonical user ID")
  refuse_if (contains seen actor.canonical_user_id)
      (invalid "canonical user IDs must be unique across actor mappings")
  validate_actors_from domains bounded_ids (actor.canonical_user_id ∷ seen) rest

unfoldable pub validate_actors : List (Text × Actor) → Option (List Text) → Bool → Checked
unfolding validate_actors_from
validate_actors actors allowed_email_domains bounded_ids =
    validate_actors_from allowed_email_domains bounded_ids [] actors

unfoldable pub selector_matches : Option (List Text) → Text → Bool
selector_matches selector wanted = is_some_and selector (λ values. contains values wanted)

unfoldable pub optional_selector_matches : Option (List Text) → Text → Bool
optional_selector_matches selector wanted = is_none_or selector (λ values. contains values wanted)
