-- ===== src/KeyringTool/Runs.antt =====
-- src/bin/keyring-tool.rs: what a run of the tool leaves in the files.
use github_oidc_exchange.Prelude.{
  ℕ, ◌≡◌, ◌≢◌, refl, sym, subst, inl, inr, true, false, Result, ok, err, ◌==◌, nat_eq, list_eq,
  Bool-cases, Option-cases, Result-cases,
}
use github_oidc_exchange.Text.{Text}
use github_oidc_exchange.Effects.Triple.{Triple, bind}
use github_oidc_exchange.Keys.{KeyRingFile}
use github_oidc_exchange.Contract.{keyring_version, rsa_keyring_version}
use github_oidc_exchange.KeyringTool.{Algorithm, ToolError, Contents, Files, Command}
use github_oidc_exchange.KeyringTool.Files.{
  System, exists, metadata_refused, validate_private, validate_private_metadata, loads,
}
use github_oidc_exchange.KeyringTool.Run.{
  contents_of, new_key, generated, exported, export_jwks, added, activated, retired, changed,
  change, generate, run,
}
use github_oidc_exchange.KeyringTool.Safe.{
  Sound, Left, Same, Checked, validate_private-Checked, write_private-Left,
}

-- The file that a command is about.
abbrev pub target : Command → Text
target (Command.export_jwks path) = path
target (Command.validate algorithm path) = path
target (Command.generate algorithm path kid days) = path
target (Command.add algorithm path kid days) = path
target (Command.activate algorithm path kid) = path
target (Command.retire algorithm path kid) = path

exported-loads :
    {K R : Type 0} (sys : System K R) (contents : Contents)
    → exported sys contents ≡ ok tt
    → (algorithm : Algorithm) × (loads sys algorithm contents ≡ ok tt)
exported-loads sys Contents.unreadable = λ h. cc
exported-loads sys (Contents.document algorithm file) =
    elim (Bool-cases (file.version == keyring_version)) [
      | inl es256 ↦ rw es256 (λ h. (Algorithm.es256, h))
      | inr other ↦ elim (Bool-cases (file.version == rsa_keyring_version)) [
        | inl rsa ↦ rw (other, rsa) (λ h. (Algorithm.rsa, h))
        | inr neither ↦ rw (other, neither) (λ h. cc)
      ]
    ]

module _ {K R : Type 0} (sys : System K R) (path other : Text) (apart : path ≢ sys.temp)
    (aside : other ≢ sys.temp) (elsewhere : other ≢ path) where
  change-Left :
      (algorithm : Algorithm) (edit : KeyRingFile → Result KeyRingFile ToolError) (before : Files)
      → Triple
          (Same sys path other apart aside elsewhere before)
          (change sys algorithm path edit)
          (Left sys path other apart aside elsewhere before)
  change-Left algorithm edit before =
      bind (Same sys path other apart aside elsewhere before)
        (Checked sys path other apart aside elsewhere path before)
        (Left sys path other apart aside elsewhere before) (validate_private sys path algorithm)
        (λ _. changed sys algorithm path edit)
        (validate_private-Checked sys path other apart aside elsewhere path algorithm before)
        (λ _ s h. changed-Left s (h.0, h.1)) (λ e s h. h)
    where
      changed-Left :
          Triple
            (Same sys path other apart aside elsewhere before)
            (changed sys algorithm path edit)
            (Left sys path other apart aside elsewhere before)
      changed-Left s h = elim (Result-cases (contents_of algorithm (s path))) [
        | inr (e, unread) ↦ rw unread h
        | inl (file, read) ↦ elim (Result-cases (edit file)) [
          | inr (e, refused) ↦ rw (read, refused) h
          | inl (edited, made) ↦
              rw (read, made)
                (write_private-Left sys path other apart aside elsewhere algorithm edited true
                  before s h)
        ]
      ]

  generate-Left :
      (algorithm : Algorithm) (kid : Text) (days : ℕ) (before : Files)
      → Triple
          (Same sys path other apart aside elsewhere before)
          (generate sys algorithm path kid days)
          (Left sys path other apart aside elsewhere before)
  generate-Left algorithm kid days before s h = elim (Bool-cases (exists (s path))) [
    | inl there ↦ rw there h
    | inr free ↦ elim (Result-cases (new_key sys algorithm kid days)) [
      | inr (e, fails) ↦ rw (free, fails) h
      | inl (key, made) ↦
          rw (free, made)
            (write_private-Left sys path other apart aside elsewhere algorithm
              (generated sys algorithm kid key) false before s h)
    ]
  ]

  export_jwks-Left :
      (before : Files)
      → Triple
          (Same sys path other apart aside elsewhere before)
          (export_jwks sys path)
          (Left sys path other apart aside elsewhere before)
  unfolding export_jwks validate_private_metadata
  export_jwks-Left before s (o, p) = elim (Option-cases (s path)) [
    | inl absent ↦ rw absent (o, p)
    | inr (entry, there) ↦ elim (Bool-cases (metadata_refused entry)) [
      | inl refused ↦ rw (there, refused) (o, p)
      | inr private ↦ elim (Result-cases (exported sys entry.contents)) [
        | inr (e, fails) ↦ rw (there, private, fails) (o, p)
        | inl (_, loaded) ↦
            rw (there, private, loaded)
              (
                o,
                subst (Sound sys path other apart aside elsewhere) (sym there)
                    (private, exported-loads sys entry.contents loaded),
              )
      ]
    ]
  ]

  Left-of_Checked :
      (before : Files) (r : Result (Unit {0}) ToolError) (after : Files)
      → Checked sys path other apart aside elsewhere path before r after
      → Left sys path other apart aside elsewhere before r after
  Left-of_Checked before (ok _) after (o, p, sound) = (o, sound)
  Left-of_Checked before (err e) after h = h

-- Whatever the command: a run that fails leaves its file as it was, and one that succeeds leaves it a
-- private file whose contents load; every other file but the temporary one stays.
pub run-Left :
    {K R : Type 0} (sys : System K R) (command : Command) (other : Text)
    (apart : target command ≢ sys.temp) (aside : other ≢ sys.temp)
    (elsewhere : other ≢ target command) (files : Files)
    → Left sys
        (target command)
        other
        apart
        aside
        elsewhere
        files
        (run sys command files).0
        (run sys command files).1
unfolding run
run-Left sys (Command.export_jwks path) other apart aside elsewhere files =
    export_jwks-Left sys path other apart aside elsewhere files files (refl, refl)
run-Left sys (Command.validate algorithm path) other apart aside elsewhere files =
    Left-of_Checked sys path other apart aside elsewhere files
      (validate_private sys path algorithm files).0 (validate_private sys path algorithm files).1
      (validate_private-Checked sys path other apart aside elsewhere path algorithm files files
        (refl, refl))
run-Left sys (Command.generate algorithm path kid days) other apart aside elsewhere files =
    generate-Left sys path other apart aside elsewhere algorithm kid days files files (refl, refl)
run-Left sys (Command.add algorithm path kid days) other apart aside elsewhere files =
    change-Left sys path other apart aside elsewhere algorithm (added sys algorithm kid days) files
      files (refl, refl)
run-Left sys (Command.activate algorithm path kid) other apart aside elsewhere files =
    change-Left sys path other apart aside elsewhere algorithm (activated sys kid) files files
      (refl, refl)
run-Left sys (Command.retire algorithm path kid) other apart aside elsewhere files =
    change-Left sys path other apart aside elsewhere algorithm (retired sys kid) files files
      (refl, refl)
