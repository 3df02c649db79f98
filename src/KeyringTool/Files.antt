-- ===== src/KeyringTool/Files.antt =====
-- src/bin/keyring-tool.rs: `validate_private` and `write_private`.
use github_oidc_exchange.Prelude.{
  ℕ, ◌%◌, Bool, true, false, not, ◌&&◌, ◌||◌, Option, none, some, String, Result, ok, err,
  refuse_if, ◌==◌, nat_eq, list_eq, if◌then◌else◌,
}
use github_oidc_exchange.Text.{Text}
use github_oidc_exchange.Effects.{M, ◌>>=◌, ◌>>◌, return, fail, modify, from_result}
use github_oidc_exchange.Contract.{keyring_version, rsa_keyring_version}
use github_oidc_exchange.Replay.{DateTime}
use github_oidc_exchange.Keys.{KeyError, KeyRingFile, load}
use github_oidc_exchange.KeyringTool.{Algorithm, ToolError, Contents, Entry, Files}

-- What the surroundings of a run give: the keys' decoders and generator, the clock's readings, the
-- name of the temporary file, and how the system calls end.
pub record System (K R : Type 0) : Type 0 where
  pub decode : Text → Result K String
  pub decode_rsa : Text → Result R String
  pub random_key : Algorithm → Option Text
  pub now : DateTime
  pub temp : Text
  pub parent_is_dir : Text → Bool
  pub created : Bool
  pub created_mode : ℕ
  pub written : Bool
  pub renamed : Bool
  pub removed : Bool

abbrev pub T : Type 0 → Type 0
T A = M Files ToolError A

abbrev pub put_entry : Text → Option Entry → Files → Files
put_entry path entry files other = if other == path then entry else files other

abbrev pub exists : Option Entry → Bool
exists none = false
exists (some entry) = true

abbrev pub metadata_refused : Entry → Bool
metadata_refused entry = not entry.is_file || entry.is_symlink || not (entry.mode % 512 == 384)

-- `symlink_metadata` of a path, and the checks of it.
abbrev pub private_entry : Option Entry → Result Entry ToolError
private_entry none = err ToolError.io
private_entry (some entry) =
    if metadata_refused entry
    then err (ToolError.message "keyring must be a regular mode-0600 file")
    else ok entry

unfoldable pub validate_private_metadata : Text → T Entry
validate_private_metadata path files = (private_entry (files path), files)

-- What `serde_json` makes of a file for an algorithm; the words of its own message are not kept.
abbrev pub parsed : Algorithm → Contents → Result KeyRingFile String
parsed Algorithm.es256 (Contents.document Algorithm.es256 file) = ok file
parsed Algorithm.rsa (Contents.document Algorithm.rsa file) = ok file
parsed _ _ = err "the file is not a keyring"

abbrev pub dropped : {A : Type 0} → Result A KeyError → Result (Unit {0}) ToolError
dropped (ok a) = ok tt
dropped (err e) = err (ToolError.keyring e)

module _ {K R : Type 0} (sys : System K R) where
  -- `KeyRing::load` and `RsaKeyRing::load`, whose threshold is zero.
  abbrev pub loads : Algorithm → Contents → Result (Unit {0}) ToolError
  loads Algorithm.es256 contents =
      dropped (load "" sys.decode keyring_version (parsed Algorithm.es256 contents) sys.now 0)
  loads Algorithm.rsa contents =
      dropped
        (load "RSA " sys.decode_rsa rsa_keyring_version (parsed Algorithm.rsa contents) sys.now 0)

  unfoldable pub validate_private : Text → Algorithm → T (Unit {0})
  unfolding validate_private_metadata
  validate_private path algorithm =
      validate_private_metadata path >>= λ entry. from_result (loads algorithm entry.contents)

  -- The algorithm of a document that is written, by its version.
  abbrev pub written_algorithm : KeyRingFile → Algorithm
  written_algorithm file =
      if file.version == keyring_version then Algorithm.es256 else Algorithm.rsa

  abbrev pub temporary : Contents → Entry
  temporary contents = record {
    is_file = true;
    is_symlink = false;
    mode = sys.created_mode;
    contents = contents;
  }

  abbrev pub step_or_io : Bool → T (Unit {0})
  step_or_io true = return tt
  step_or_io false = fail ToolError.io

  abbrev pub refuse_existing : Bool → String → Text → T (Unit {0})
  refuse_existing replace why path files =
      (refuse_if (not replace && exists (files path)) (ToolError.message why), files)

  -- `rename` puts the temporary file in the target's place.
  abbrev pub rename : Text → T (Unit {0})
  rename path =
      step_or_io sys.renamed
      >> modify (λ files. put_entry sys.temp none (put_entry path (files sys.temp) files))

  -- The closure of `write_private`, in three parts: the file is made, written, and put in place. It
  -- leaves a file that is not a keyring where writing fails.
  unfoldable pub put_in_place : Text → KeyRingFile → Bool → T (Unit {0})
  unfolding validate_private
  put_in_place path file replace = do
    validate_private sys.temp (written_algorithm file)
    refuse_existing replace "target appeared while generating; refusing overwrite" path
    rename path

  unfoldable pub fill : Text → Algorithm → KeyRingFile → Bool → T (Unit {0})
  unfolding put_in_place
  fill path algorithm file replace = do
    step_or_io sys.written
    modify (put_entry sys.temp (some (temporary (Contents.document algorithm file))))
    put_in_place path file replace

  unfoldable pub write_temp : Text → Algorithm → KeyRingFile → Bool → T (Unit {0})
  unfolding fill
  write_temp path algorithm file replace = do
    step_or_io sys.created
    modify (put_entry sys.temp (some (temporary Contents.unreadable)))
    fill path algorithm file replace

  -- `remove_file` of the temporary file, whose own result is ignored.
  abbrev pub remove_temp : Files → Files
  remove_temp files = if sys.removed then put_entry sys.temp none files else files

  abbrev pub cleaned : Result (Unit {0}) ToolError × Files → Result (Unit {0}) ToolError × Files
  cleaned (ok _, files) = (ok tt, files)
  cleaned (err e, files) = (err e, remove_temp files)

  unfoldable pub write_private : Text → Algorithm → KeyRingFile → Bool → T (Unit {0})
  write_private path algorithm file replace = do
    from_result (
        refuse_if (not (sys.parent_is_dir path))
          (ToolError.message "keyring parent directory does not exist"))
    refuse_existing replace "target keyring already exists; refusing overwrite" path
    (λ files. cleaned (write_temp path algorithm file replace files))
