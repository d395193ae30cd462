-- ===== src/Main/Loggers.antt =====
-- The loggers of `main`, by the level and the attributes that they are set up with.
use headtotails.Prelude.{
  ℕ, ◌≡◌, ◌≢◌, ◌⊎◌, refl, inl, inr, Bool, Bool-cases, List, [], ◌∷◌, ◌++◌, ◌||◌, ap, ◌∙◌,
  append-nil, arith,
}
use headtotails.Text.{Text, codes, ◌==◌, eq_iff}
use headtotails.Text.Space.{trim_space}
use headtotails.Text.Fold.{to_lower}
use headtotails.Logging.{Level, debug, info, warn, error, Logger, parse_level, attr_if, setup}

-- The level that a text names, whatever its case and the space around it: info if it names none.
pub data Names (s : Text) : Level → Type 0 where
  names_debug : s ≡ codes "debug" → Names s debug
  names_warn : (s ≡ codes "warn") ⊎ (s ≡ codes "warning") → Names s warn
  names_error : (s ≡ codes "error") ⊎ ((s ≡ codes "err") ⊎ (s ≡ codes "fatal")) → Names s error
  names_none :
      s ≢ codes "debug"
      → s ≢ codes "warn"
      → s ≢ codes "warning"
      → s ≢ codes "error"
      → s ≢ codes "err"
      → s ≢ codes "fatal"
      → Names s info

-- An attribute that a logger has unless its value is empty.
abbrev pub IsAttribute : Text → Text → List (Text × Text) → Type 0
IsAttribute key value attrs =
    ((value ≡ []) × (attrs ≡ [])) ⊎ ((value ≢ []) × (attrs ≡ (key, value) ∷ []))

-- A logger with such a level, source and attributes.
pub record IsLogger (other : ℕ → ℕ) (level : Text) (source : Bool) (version environment : Text)
    (l : Logger) : Type 0 where
  pub at_level : Names (to_lower other (trim_space level)) l.level
  pub with_source : l.add_source ≡ source
  pub with_attributes :
      (v : List (Text × Text)) × (e : List (Text × Text)) × IsAttribute (codes "version") version v
      × IsAttribute (codes "env") environment e
      × (l.attrs ≡ (codes "service", codes "headtotails") ∷ v ++ e)

parse_level-Names :
    (other : ℕ → ℕ) (raw : Text) → Names (to_lower other (trim_space raw)) (parse_level other raw)
unfolding parse_level
parse_level-Names other raw =
    let s = to_lower other (trim_space raw) in
    elim (Bool-cases (s == codes "debug")) [
      | inl d ↦ rw d (names_debug ((eq_iff s (codes "debug")).0 d))
      | inr d ↦ elim (Bool-cases (s == codes "warn" || s == codes "warning")) [
        | inl w ↦
            rw (d, w)
              (names_warn (ground (arith, w, eq_iff s (codes "warn"), eq_iff s (codes "warning"))))
        | inr w ↦ elim (Bool-cases (s == codes "error" || s == codes "err" || s == codes "fatal")) [
          | inl e ↦
              rw (d, w, e)
                (names_error (
                  ground (
                    arith,
                    e,
                    eq_iff s (codes "error"),
                    eq_iff s (codes "err"),
                    eq_iff s (codes "fatal"),
                  )))
          | inr e ↦
              rw (d, w, e)
                (names_none (ground (arith, d, eq_iff s (codes "debug")))
                  (ground (arith, w, eq_iff s (codes "warn")))
                  (ground (arith, w, eq_iff s (codes "warning")))
                  (ground (arith, e, eq_iff s (codes "error")))
                  (ground (arith, e, eq_iff s (codes "err")))
                  (ground (arith, e, eq_iff s (codes "fatal"))))
        ]
      ]
    ]

attr_if-IsAttribute :
    (key value : Text) (rest : List (Text × Text))
    → (a : List (Text × Text)) × IsAttribute key value a × (attr_if key value rest ≡ a ++ rest)
attr_if-IsAttribute key value rest = elim (Bool-cases (value == [])) [
  | inl blank ↦ ([], inl ((eq_iff value []).0 blank, refl), rw blank refl)
  | inr set ↦ ((key, value) ∷ [], inr (ground (arith, set, eq_iff value []), refl), rw set refl)
]

pub setup-IsLogger :
    (other : ℕ → ℕ) (level : Text) (source : Bool) (version environment : Text)
    → IsLogger other level source version environment (
        setup other (record {
          level = level;
          add_source = source;
          service = codes "headtotails";
          version = version;
          env = environment;
        }))
unfolding setup ◌==◌
setup-IsLogger other level source version environment =
    let (v, is_v, at_v) =
      attr_if-IsAttribute (codes "version") version (attr_if (codes "env") environment []) in
    let (e, is_e, at_e) = attr_if-IsAttribute (codes "env") environment [] in
    record {
      at_level = parse_level-Names other level;
      with_source = refl;
      with_attributes = (
        v,
        e,
        is_v,
        is_e,
        ap (λ attrs. (codes "service", codes "headtotails") ∷ attrs)
            (at_v ∙ ap (λ attrs. v ++ attrs) (at_e ∙ append-nil e)),
      );
    }
