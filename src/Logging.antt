-- ===== src/Logging.antt =====
-- internal/logging/logger.go: the level, and the attributes that are redacted. The writer of JSON
-- records (slog) is not modelled.
pub mod Redaction
use headtotails.Prelude.{
  ℕ, ◌≡◌, refl, Bool, true, false, ◌||◌, List, [], ◌∷◌, ◌++◌, nat_eq, if◌then◌else◌,
}
use headtotails.Text.{Text, codes, ◌==◌}
use headtotails.Text.Space.{trim_space}
use headtotails.Text.Fold.{to_lower}
use headtotails.Text.Affix.{has_suffix}

pub data Level : Type 0 where
  debug info warn error : Level

-- `other` lowers the code points outside ASCII, here and below.
unfoldable pub parse_level : (ℕ → ℕ) → Text → Level
parse_level other raw =
    let s = to_lower other (trim_space raw) in
    if s == codes "debug"
    then debug
    else if s == codes "warn" || s == codes "warning"
    then warn
    else if s == codes "error" || s == codes "err" || s == codes "fatal"
    then error
    else info

-- The replacer: "-", "_", "." and " " are dropped.
abbrev pub is_separator : ℕ → Bool
is_separator c = nat_eq c b'-' || nat_eq c b'_' || nat_eq c b'.' || nat_eq c b' '

unfoldable pub drop_separators : Text → Text
drop_separators [] = []
drop_separators (c ∷ s) = let rest = drop_separators s in if is_separator c then rest else c ∷ rest

unfoldable pub normalize_key : (ℕ → ℕ) → Text → Text
unfolding drop_separators
normalize_key other key = drop_separators (to_lower other (trim_space key))

unfoldable pub is_sensitive_name : Text → Bool
is_sensitive_name s =
    s == codes "authorization"
    || s == codes "cookie"
    || s == codes "setcookie"
    || s == codes "token"
    || s == codes "accesstoken"
    || s == codes "refreshtoken"
    || s == codes "clientsecret"
    || s == codes "apikey"
    || s == codes "xapikey"
    || s == codes "password"
    || s == codes "secret"

unfoldable pub is_sensitive_normalized : Text → Bool
unfolding is_sensitive_name
is_sensitive_normalized s =
    if s == []
    then false
    else is_sensitive_name s
      || has_suffix s (codes "token")
      || has_suffix s (codes "secret")
      || has_suffix s (codes "password")
      || has_suffix s (codes "apikey")

unfoldable pub is_sensitive_key : (ℕ → ℕ) → Text → Bool
unfolding is_sensitive_normalized normalize_key
is_sensitive_key other key = is_sensitive_normalized (normalize_key other key)

-- slog.Attr, with a value of any kind `V` or a text.
pub data Value (V : Type 0) : Type 0 where
  text : Text → Value V
  any : V → Value V

pub record Attr (V : Type 0) : Type 0 where
  pub key : Text
  pub value : Value V

unfoldable pub redact_attr : {V : Type 0} → (ℕ → ℕ) → Attr V → Attr V
unfolding is_sensitive_key
redact_attr other attr =
    if is_sensitive_key other attr.key
    then record { key = attr.key; value = text (codes "[REDACTED]") }
    else attr

-- `Options`, but for the writer, and the logger that `New` builds: its level, whether it adds the
-- source, and the attributes of every record.
pub record Options : Type 0 where
  pub level : Text
  pub add_source : Bool
  pub service : Text
  pub version : Text
  pub env : Text

pub record Logger : Type 0 where
  pub level : Level
  pub add_source : Bool
  pub attrs : List (Text × Text)

-- `if value != "" { attrs = append(attrs, key, value) }`, in front of the rest.
abbrev pub attr_if : Text → Text → List (Text × Text) → List (Text × Text)
attr_if key value rest = if value == [] then rest else (key, value) ∷ rest

-- `New`: the writer of the records is slog's. It does not fail.
unfoldable pub new_logger : (ℕ → ℕ) → Options → Logger
unfolding parse_level
new_logger other opts = record {
  level = parse_level other opts.level;
  add_source = opts.add_source;
  attrs =
      attr_if (codes "service") opts.service
        (attr_if (codes "version") opts.version (attr_if (codes "env") opts.env []));
}

-- `Setup`: the logger of the process from then on.
unfoldable pub setup : (ℕ → ℕ) → Options → Logger
unfolding new_logger
setup = new_logger
