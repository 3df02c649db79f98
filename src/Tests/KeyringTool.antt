-- ===== src/Tests/KeyringTool.antt =====
-- src/bin/keyring-tool.rs at concrete inputs.
use github_oidc_exchange.Prelude.{
  ◌≡◌, ◌≢◌, refl, [], ◌∷◌, none, some, ok, true, false, nat_eq, list_eq, eq_iff, list_beq,
  if◌then◌else◌, ◌==◌, any, put, get, contains,
}
use github_oidc_exchange.Prelude.Int.{pos}
use github_oidc_exchange.Text.{
  Text, text, bytes, len, utf8, rsplit_once, is_ascii_alphanumeric, is_ascii_digit,
  is_ascii_lowercase,
}
use github_oidc_exchange.Prelude.{all}
use github_oidc_exchange.Keys.{load, load_keys}
use github_oidc_exchange.KeyringTool.{Algorithm, Contents, Files, Command, parse_args, validate_kid}
use github_oidc_exchange.KeyringTool.Files.{
  System, validate_private_metadata, validate_private, put_in_place, fill, write_temp,
  write_private,
}
use github_oidc_exchange.KeyringTool.Run.{run, activated}
use github_oidc_exchange.KeyringTool.Safe.{Left}
use github_oidc_exchange.KeyringTool.Runs.{run-Left}
use github_oidc_exchange.Tests.Exchanges.{specs}

abbrev system : System Text Text
system = record {
  decode = λ material. ok material;
  decode_rsa = λ material. ok material;
  random_key = λ algorithm. some (text "s");
  now = pos 1000;
  temp = text "t";
  parent_is_dir = λ path. true;
  created = true;
  created_mode = 384;
  written = true;
  renamed = true;
  removed = true;
}

abbrev files : Files
files path =
    if path == text "k"
    then some (record {
      is_file = true;
      is_symlink = false;
      mode = 384;
      contents = Contents.document Algorithm.es256 specs;
    })
    else none

abbrev command : Command
command = Command.activate Algorithm.es256 (text "k") (text "k")

read : parse_args (text "activate-es256" ∷ text "k" ∷ text "k" ∷ []) ≡ ok command
unfolding parse_args list_beq rsplit_once validate_kid len bytes utf8 all is_ascii_alphanumeric
    is_ascii_digit is_ascii_lowercase
read = refl

runs : (run system command files).0 ≡ ok tt
unfolding run validate_private validate_private_metadata list_beq load load_keys contains put get
    activated any write_private write_temp fill put_in_place
runs = refl

apart : text "k" ≢ text "t"
unfolding list_beq
apart p = let hit = (eq_iff (text "k") (text "t")).1 p in cc

aside : text "o" ≢ text "t"
unfolding list_beq
aside p = let hit = (eq_iff (text "o") (text "t")).1 p in cc

elsewhere : text "o" ≢ text "k"
unfolding list_beq
elsewhere p = let hit = (eq_iff (text "o") (text "k")).1 p in cc

run-Left_example :
    Left system
      (text "k")
      (text "o")
      apart
      aside
      elsewhere
      files
      (run system command files).0
      (run system command files).1
run-Left_example = run-Left system command (text "o") apart aside elsewhere files
