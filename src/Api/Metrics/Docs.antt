-- ===== src/Api/Metrics/Docs.antt =====
-- The look-up in the catalogue of metrics_catalog.go.
use headtotails.Prelude.{
  ◌≡◌, refl, subst, ◌↔◌, inl, inr, false, Bool-cases, some, List, [], ◌∷◌, Among, All, All-among,
  arith,
}
use headtotails.Text.{Text, ◌==◌, eq_iff, eq_refl}
use headtotails.Api.Metrics.{MetricDoc, custom_metric_docs, find_doc, metric_doc_by_name}

abbrev Apart : List MetricDoc → Type 0
Apart [] = Unit
Apart (d ∷ ds) = All (λ e. (d.name == e.name) ≡ false) ds × Apart ds

find_doc-Among :
    (name : Text) (docs : List MetricDoc) (doc : MetricDoc)
    → find_doc name docs ≡ some doc
    → Among doc docs × (doc.name ≡ name)
unfolding find_doc
find_doc-Among name [] doc h = absurd (cc)
find_doc-Among name (d ∷ docs) doc h = elim (Bool-cases (d.name == name)) [
  | inl here ↦ ground (arith, h, here, eq_iff d.name name)
  | inr there ↦ let (a, e) = find_doc-Among name docs doc (ground (arith, h, there)) in (inr a, e)
]

Among-find_doc :
    (docs : List MetricDoc) (doc : MetricDoc)
    → Apart docs
    → Among doc docs
    → find_doc doc.name docs ≡ some doc
unfolding find_doc
Among-find_doc [] doc apart a = absurd a
Among-find_doc (d ∷ docs) doc (apart, rest) (inl e) = rw (e, eq_refl d.name) refl
Among-find_doc (d ∷ docs) doc (apart, rest) (inr a) =
    rw (All-among (λ e. (d.name == e.name) ≡ false) docs apart a) (Among-find_doc docs doc rest a)

custom_metric_docs-Apart : Apart custom_metric_docs
unfolding custom_metric_docs ◌==◌
custom_metric_docs-Apart = ground arith

-- A look-up by name finds every document of the catalogue under its own name, and finds nothing, so
-- that it panics, under any name that no document has.
pub metric_doc_by_name_iff :
    (name : Text) (doc : MetricDoc)
    → (metric_doc_by_name name ≡ some doc) ↔ (Among doc custom_metric_docs × (doc.name ≡ name))
unfolding metric_doc_by_name
metric_doc_by_name_iff name doc = (
  find_doc-Among name custom_metric_docs doc,
  λ (a, e).
      subst (λ n. find_doc n custom_metric_docs ≡ some doc) e
        (Among-find_doc custom_metric_docs doc custom_metric_docs-Apart a),
)
