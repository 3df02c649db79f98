-- ===== src/KeyringTool/Run.antt =====
-- src/bin/keyring-tool.rs: what the commands do.
use github_oidc_exchange.Prelude.{
  ℕ, ◌*◌, [], ◌∷◌, ◌++◌, Bool, true, false, not, Option, none, some, Result, ok, err, refuse_if,
  any, filter, ◌==◌, nat_eq, list_eq, if◌then◌else◌,
}
use github_oidc_exchange.Prelude.Int.{pos, ◌+ℤ◌, ◌-ℤ◌}
use github_oidc_exchange.Text.{Text}
use github_oidc_exchange.Effects.{◌>>=◌, ◌>>◌, from_result}
use github_oidc_exchange.Contract.{keyring_version, rsa_keyring_version}
use github_oidc_exchange.Replay.{nanos}
use github_oidc_exchange.Keys.{KeySpec, KeyRingFile}
use github_oidc_exchange.KeyringTool.{Algorithm, ToolError, Contents, Entry, Command}
use github_oidc_exchange.KeyringTool.Files.{
  System, T, exists, parsed, validate_private, write_private, validate_private_metadata, loads,
}

abbrev pub version : Algorithm → Text
version Algorithm.es256 = keyring_version
version Algorithm.rsa = rsa_keyring_version

abbrev pub contents_of : Algorithm → Option Entry → Result KeyRingFile ToolError
contents_of algorithm none = err ToolError.io
contents_of algorithm (some entry) = elim (parsed algorithm entry.contents) [
  | ok file ↦ ok file
  | err why ↦ err (ToolError.message why)
]

abbrev pub has_kid : KeyRingFile → Text → Bool
has_kid file kid = any (λ key. key.kid == kid) file.keys

module _ {K R : Type 0} (sys : System K R) where
  -- `Utc::now()`, five minutes before and the days after.
  unfoldable pub new_key : Algorithm → Text → ℕ → Result KeySpec ToolError
  new_key algorithm kid validity_days = elim (sys.random_key algorithm) [
    | none ↦ err ToolError.io
    | some material ↦ ok (record {
      kid = kid;
      material = material;
      not_before = sys.now -ℤ nanos (pos 300);
      not_after = sys.now +ℤ nanos (pos (validity_days * 86400));
    })
  ]

  -- What `add`, `activate` and `retire` make of a document.
  unfoldable pub added : Algorithm → Text → ℕ → KeyRingFile → Result KeyRingFile ToolError
  added algorithm kid days file =
      if has_kid file kid
      then err (ToolError.message "key ID already exists")
      else elim (new_key algorithm kid days) [
        | err e ↦ err e
        | ok key ↦ ok (record file { keys = file.keys ++ (key ∷ []) })
      ]

  unfoldable pub activated : Text → KeyRingFile → Result KeyRingFile ToolError
  activated kid file =
      if not (has_kid file kid)
      then err (ToolError.message "key ID is not present")
      else ok (record file { current_kid = kid })

  unfoldable pub retired : Text → KeyRingFile → Result KeyRingFile ToolError
  retired kid file =
      if file.current_kid == kid
      then err (ToolError.message "cannot retire the current signing key")
      else if not (has_kid file kid)
      then err (ToolError.message "key ID is not present")
      else ok (record file { keys = filter (λ key. not (key.kid == kid)) file.keys })

  -- A keyring is read, changed and written back, and before that validated.
  abbrev pub changed :
      Algorithm → Text → (KeyRingFile → Result KeyRingFile ToolError) → T (Unit {0})
  changed algorithm path edit = do
    file ← (λ files. (contents_of algorithm (files path), files))
    edited ← from_result (edit file)
    write_private sys path algorithm edited true

  abbrev pub change : Algorithm → Text → (KeyRingFile → Result KeyRingFile ToolError) → T (Unit {0})
  change algorithm path edit = validate_private sys path algorithm >> changed algorithm path edit

  abbrev pub generated : Algorithm → Text → KeySpec → KeyRingFile
  generated algorithm kid key = record {
    version = version algorithm;
    current_kid = kid;
    keys = key ∷ [];
  }

  abbrev pub generate : Algorithm → Text → Text → ℕ → T (Unit {0})
  generate algorithm path kid days = do
    (λ files. (
      refuse_if (exists (files path))
          (ToolError.message "target keyring already exists; refusing overwrite"),
      files,
    ))
    key ← from_result (new_key algorithm kid days)
    write_private sys path algorithm (generated algorithm kid key) false

  abbrev pub exported : Contents → Result (Unit {0}) ToolError
  exported Contents.unreadable = err ToolError.io
  exported (Contents.document algorithm file) =
      if file.version == keyring_version
      then loads sys Algorithm.es256 (Contents.document algorithm file)
      else if file.version == rsa_keyring_version
      then loads sys Algorithm.rsa (Contents.document algorithm file)
      else err (ToolError.message "unsupported keyring version")

  -- `export_jwks` without its output.
  unfoldable pub export_jwks : Text → T (Unit {0})
  unfolding validate_private_metadata
  export_jwks path =
      validate_private_metadata path >>= λ entry. from_result (exported entry.contents)

  unfoldable pub run : Command → T (Unit {0})
  run (Command.export_jwks path) = export_jwks path
  run (Command.validate algorithm path) = validate_private sys path algorithm
  run (Command.generate algorithm path kid days) = generate algorithm path kid days
  run (Command.add algorithm path kid days) = change algorithm path (added algorithm kid days)
  run (Command.activate algorithm path kid) = change algorithm path (activated kid)
  run (Command.retire algorithm path kid) = change algorithm path (retired kid)
