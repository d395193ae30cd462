-- ===== src/GenMetricsDocs.antt =====
-- cmd/gen-metrics-docs/main.go: the root of the repository is searched for from the working
-- directory upwards, and the page of the metrics is written there. The directory and the files that
-- exist are parameters.
pub mod Root
use headtotails.Prelude.{
  ℕ, zero, suc, ◌≡◌, Bool, true, false, Option, none, some, List, [], ◌∷◌, ◌++◌, nat_eq, length,
  if◌then◌else◌,
}
use headtotails.Text.{Text, codes, ◌==◌}
use headtotails.Api.Metrics.{render_metrics_markdown}

-- The text before the last '/', if there is one.
abbrev pub cons_or : ℕ → Option Text → Option Text
cons_or c (some p) = some (c ∷ p)
cons_or c none = if nat_eq c b'/' then some [] else none

unfoldable pub before_last_slash : Text → Option Text
before_last_slash [] = none
before_last_slash (c ∷ s) = cons_or c (before_last_slash s)

-- `filepath.Dir`, on a path as filepath.Clean leaves it.
abbrev pub or_root : Option Text → Text
or_root none = codes "."
or_root (some []) = codes "/"
or_root (some (c ∷ p)) = c ∷ p

unfoldable pub dir_of : Text → Text
unfolding before_last_slash
dir_of path = or_root (before_last_slash path)

-- `filepath.Join(dir, name)`, on a clean path and a name without a '/'.
unfoldable pub join_path : Text → Text → Text
unfolding ◌==◌
join_path dir name = if dir == codes "/" then dir ++ name else dir ++ codes "/" ++ name

module _ (exists : Text → Bool) where
  -- `os.Stat(filepath.Join(dir, "go.mod"))` gives no error.
  abbrev pub has_go_mod : Text → Bool
  has_go_mod dir = exists (join_path dir (codes "go.mod"))

  -- The loop of `findRepoRoot`: `none` means that the fuel was used up, `some none` is ErrNotExist.
  unfoldable pub find_from : ℕ → Text → Option (Option Text)
  unfolding dir_of join_path
  find_from zero dir = none
  find_from (suc fuel) dir =
      let rest = find_from fuel (dir_of dir) in
      if has_go_mod dir then some (some dir) else if dir_of dir == dir then some none else rest

  -- A round for each code point of the working directory, and one more.
  unfoldable pub find_repo_root : Option Text → Option (Option Text)
  unfolding find_from
  find_repo_root none = some none
  find_repo_root (some dir) = find_from (suc (length dir)) dir

  -- What `main` writes, and where; `none` is the exit with an error.
  abbrev page_at : Option (Option Text) → Option (Text × Text)
  page_at (some (some root)) =
      some (join_path (join_path root (codes "docs")) (codes "metrics.md"), render_metrics_markdown)
  page_at _ = none

  unfoldable pub generate : Option Text → Option (Text × Text)
  unfolding find_repo_root
  generate working_dir = page_at (find_repo_root working_dir)
