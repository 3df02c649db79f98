-- ===== src/KeyringTool.antt =====
-- src/bin/keyring-tool.rs: the files of the tool, and its command line. The file system is the state;
-- what the system calls answer is an argument.
pub mod Files
pub mod Run
pub mod Safe
pub mod Runs
use github_oidc_exchange.Prelude.{
  ℕ, ◌≡◌, List, [], ◌∷◌, Bool, true, false, not, ◌&&◌, ◌||◌, Option, none, some, String, Result, ok,
  err, ◌>>=◌, ◌>>◌, refuse_if, ok_or, ltb, leb, ◌==◌, nat_eq, list_eq, if◌then◌else◌, all, is_empty,
}
use github_oidc_exchange.Text.{Text, text, len, bytes, rsplit_once, is_ascii_alphanumeric}
use github_oidc_exchange.Keys.{KeyError, KeyRingFile}
use github_oidc_exchange.Config.Values.{parse_u64, keep_if}

pub data Algorithm : Type 0 where
  es256 rsa : Algorithm

pub data ToolError : Type 0 where
  message : String → ToolError
  keyring : KeyError → ToolError
  usage io : ToolError

-- A document in the form of an algorithm, or anything else.
pub data Contents : Type 0 where
  document : Algorithm → KeyRingFile → Contents
  unreadable : Contents

-- What `symlink_metadata` and reading give of a path.
pub record Entry : Type 0 where
  pub is_file : Bool
  pub is_symlink : Bool
  pub mode : ℕ
  pub contents : Contents

abbrev pub Files : Type 0
Files = Text → Option Entry

-- An action of the command line, with its algorithm, file, key and days.
pub data Command : Type 0 where
  export_jwks : Text → Command
  validate : Algorithm → Text → Command
  generate add : Algorithm → Text → Text → ℕ → Command
  activate retire : Algorithm → Text → Text → Command

abbrev pub Parsed : Type 0 → Type 0
Parsed A = Result A ToolError

unfoldable pub validate_kid : Text → Parsed (Unit {0})
validate_kid kid =
    refuse_if
      (is_empty kid
        || ltb 64 (len kid)
        || not (
            all (λ byte. is_ascii_alphanumeric byte || byte == b'.' || byte == b'_' || byte == b'-')
              (bytes kid)))
      (ToolError.message "KID must be 1-64 ASCII letters, digits, dot, underscore, or hyphen")

-- `parse::<u16>` and the range.
unfoldable pub valid_for_days : Text → Parsed ℕ
valid_for_days value =
    ok_or
      (keep_if (λ days. leb 1 days && leb days 3650)
        (keep_if (λ days. ltb days 65536) (parse_u64 value)))
      (ToolError.message "--valid-for-days must be an integer from 1 through 3650")

abbrev pub algorithm_of : Text → Parsed Algorithm
algorithm_of name =
    if name == text "es256"
    then ok Algorithm.es256
    else if name == text "rsa"
    then ok Algorithm.rsa
    else err (ToolError.message "algorithm must be es256 or rsa")

-- The days of `generate` and `add`, from what follows the key.
abbrev pub days_of : List Text → Parsed ℕ
days_of [] = ok 90
days_of (_ ∷ []) = err ToolError.usage
days_of (option ∷ value ∷ []) =
    if option == text "--valid-for-days" then valid_for_days value else err ToolError.usage
days_of (_ ∷ _ ∷ _ ∷ _) = err ToolError.usage

-- A command that makes a key, once its days are read and its key's name is checked.
abbrev pub making : (Text → ℕ → Command) → List Text → Parsed Command
making command [] = err ToolError.usage
making command (kid ∷ rest) = do days ← days_of rest; validate_kid kid; ok (command kid days)

abbrev pub naming : (Text → Command) → List Text → Parsed Command
naming command (kid ∷ []) = do validate_kid kid; ok (command kid)
naming command _ = err ToolError.usage

abbrev pub alone : Command → List Text → Parsed Command
alone command [] = ok command
alone command (_ ∷ _) = err ToolError.usage

abbrev pub command_of : Text → Algorithm → Text → List Text → Parsed Command
command_of action algorithm path rest =
    if action == text "validate"
    then alone (Command.validate algorithm path) rest
    else if action == text "activate"
    then naming (Command.activate algorithm path) rest
    else if action == text "retire"
    then naming (Command.retire algorithm path) rest
    else if action == text "generate"
    then making (Command.generate algorithm path) rest
    else if action == text "add"
    then making (Command.add algorithm path) rest
    else err (ToolError.message "unknown command")

abbrev pub split_command : Option (Text × Text) → Text → List Text → Parsed Command
split_command none path rest = err (ToolError.message "command must end in -es256 or -rsa")
split_command (some (action, name)) path rest =
    algorithm_of name >>= λ algorithm. command_of action algorithm path rest

-- The arguments after the program's name.
unfoldable pub parse_args : List Text → Parsed Command
parse_args [] = err ToolError.usage
parse_args (_ ∷ []) = err ToolError.usage
parse_args (command ∷ path ∷ rest) =
    if command == text "export-jwks"
    then alone (Command.export_jwks path) rest
    else split_command (rsplit_once b'-' command) path rest
