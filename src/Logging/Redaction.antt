-- ===== src/Logging/Redaction.antt =====
-- `RedactAttr` of internal/logging/logger.go on the spellings of a sensitive key.
use headtotails.Prelude.{ℕ, ◌≡◌, refl, true, false, [], ◌∷◌, ◌++◌, arith, All}
use headtotails.Text.{Text, codes, ◌==◌}
use headtotails.Text.Space.{NoSpace, trim_space_of_NoSpace}
use headtotails.Text.Fold.{to_lower}
use headtotails.Text.Affix.{has_suffix-append}
use headtotails.Logging.{
  drop_separators, normalize_key, is_sensitive_key, Attr, Value, text, is_sensitive_normalized,
  redact_attr,
}

drop_separators-append :
    (s t : Text) → drop_separators (s ++ t) ≡ drop_separators s ++ drop_separators t
unfolding drop_separators
drop_separators-append [] t = refl
drop_separators-append (c ∷ s) t = ground (arith, drop_separators-append s t)

to_lower-append :
    (other : ℕ → ℕ) (s t : Text) → to_lower other (s ++ t) ≡ to_lower other s ++ to_lower other t
unfolding to_lower
to_lower-append other [] t = refl
to_lower-append other (c ∷ s) t = ground (arith, to_lower-append other s t)

NoSpace-append : (s t : Text) → All NoSpace s → All NoSpace t → All NoSpace (s ++ t)
NoSpace-append [] t h k = k
NoSpace-append (c ∷ s) t (p, h) k = (p, NoSpace-append s t h k)

normalize_key-append :
    (other : ℕ → ℕ) (s t : Text)
    → All NoSpace s
    → All NoSpace t
    → normalize_key other (s ++ t) ≡ normalize_key other s ++ normalize_key other t
unfolding normalize_key
normalize_key-append other s t h k =
    rw
      (
        trim_space_of_NoSpace (s ++ t) (NoSpace-append s t h k),
        trim_space_of_NoSpace s h,
        trim_space_of_NoSpace t k,
        to_lower-append other s t,
      )
      (drop_separators-append (to_lower other s) (to_lower other t))

-- The words that make a key sensitive where it ends in one of them.
pub data IsSecretWord : Text → Type 0 where
  token : IsSecretWord (codes "token")
  secret : IsSecretWord (codes "secret")
  password : IsSecretWord (codes "password")
  api_key : IsSecretWord (codes "apikey")

nonempty : (a : Text) (c : ℕ) (s : Text) → ((a ++ c ∷ s) == []) ≡ false
unfolding ◌==◌
nonempty [] c s = refl
nonempty (d ∷ a) c s = refl

ends_sensitive :
    {word : Text} → IsSecretWord word → (a : Text) → is_sensitive_normalized (a ++ word) ≡ true
unfolding is_sensitive_normalized
ends_sensitive token a =
    ground (arith, nonempty a b't' (codes "oken"), has_suffix-append a (codes "token"))
ends_sensitive secret a =
    ground (arith, nonempty a b's' (codes "ecret"), has_suffix-append a (codes "secret"))
ends_sensitive password a =
    ground (arith, nonempty a b'p' (codes "assword"), has_suffix-append a (codes "password"))
ends_sensitive api_key a =
    ground (arith, nonempty a b'a' (codes "pikey"), has_suffix-append a (codes "apikey"))

sensitive :
    (other : ℕ → ℕ) {word : Text}
    → IsSecretWord word
    → (prefix spelling : Text) → All NoSpace prefix
    → All NoSpace spelling
    → normalize_key other spelling ≡ word
    → is_sensitive_key other (prefix ++ spelling) ≡ true
unfolding is_sensitive_key
sensitive other w prefix spelling h k e =
    rw (normalize_key-append other prefix spelling h k, e)
      (ends_sensitive w (normalize_key other prefix))

redact-true :
    {V : Type 0} (other : ℕ → ℕ) (attr : Attr V)
    → is_sensitive_key other attr.key ≡ true
    → redact_attr other attr ≡ record { key = attr.key; value = text (codes "[REDACTED]") }
unfolding redact_attr
redact-true other attr h = rw h refl

-- An attribute whose key ends in a spelling of token, secret, password or apikey, in any case and
-- with any separators in it, is logged as "[REDACTED]", whatever stands in front, where no spaces
-- are in the key.
pub redact_attr-suffix :
    {V : Type 0} (other : ℕ → ℕ) {word : Text}
    → IsSecretWord word
    → (prefix spelling : Text) → All NoSpace prefix
    → All NoSpace spelling
    → normalize_key other spelling ≡ word
    → (value : Value V)
    → redact_attr other (record { key = prefix ++ spelling; value = value })
      ≡ record { key = prefix ++ spelling; value = text (codes "[REDACTED]") }
redact_attr-suffix other w prefix spelling h k e value =
    redact-true other (record { key = prefix ++ spelling; value = value })
      (sensitive other w prefix spelling h k e)
