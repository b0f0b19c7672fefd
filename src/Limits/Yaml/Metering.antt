-- ===== src/Limits/Yaml/Metering.antt =====
-- What the raw meter adds up to over the events of a stream, and when it refuses one.
pub use contract_kit.Limits.Yaml.Observing.{IsBounded, Breaks, Within, Arrives}
use contract_kit.Limits.Yaml.Observing.{Reaches, Observes, add, observe-Observes}
use contract_kit.Prelude.{ℕ, ◌+◌, ◌≤◌, ◌≡◌, refl, sym, ap, List, [], ◌∷◌, arith}
use mathlib.Core.Path.{subst}
use contract_kit.Prelude.Results.{Result, ok, err, ◌>>=◌}
use contract_kit.Path.{CatalogPath}
use contract_kit.Error.{LimitExceeded}
use contract_kit.Limits.Yaml.{
  Event, YamlBudget, RawYamlReport, RawYamlMeter, raw_meter, observe, finish,
}

-- The sums over some events.
abbrev pub sums : List Event → RawYamlReport × ℕ → RawYamlReport × ℕ
sums [] s = s
sums (e ∷ es) s = sums es (add e s)

-- Sums only grow.
record Grows (r r' : RawYamlReport) : Type 0 where
  pub documents_grow : r.documents ≤ r'.documents
  pub depth_grows : r.max_depth ≤ r'.max_depth
  pub nodes_grow : r.nodes ≤ r'.nodes
  pub aliases_grow : r.aliases ≤ r'.aliases
  pub bytes_grow : r.total_scalar_bytes ≤ r'.total_scalar_bytes

Grows-refl : (r : RawYamlReport) → Grows r r
Grows-refl r = ground arith

add-Grows : (e : Event) (s : RawYamlReport × ℕ) → Grows s.0 (add e s).0
add-Grows e s = ground arith

sums-Grows : (es : List Event) (s : RawYamlReport × ℕ) → Grows s.0 (sums es s).0
sums-Grows [] s = Grows-refl s.0
sums-Grows (e ∷ es) s =
    let first = add-Grows e s in let rest = sums-Grows es (add e s) in ground (arith, first, rest)

Within-earlier : (b : YamlBudget) (r r' : RawYamlReport) → Grows r r' → Within b r' → Within b r
Within-earlier b r r' g w = ground (arith, g, w)

-- The events of a stream, one after the other.
abbrev pub observe_all : List Event → RawYamlMeter → Result LimitExceeded RawYamlMeter
observe_all [] m = ok m
observe_all (e ∷ es) m = observe e m >>= observe_all es

observe_all-Reaches :
    (es : List Event) (m : RawYamlMeter)
    → IsBounded m.budget.limits
    → Within m.budget m.report
    → Reaches (sums es (m.report, m.depth)) m (observe_all es m)
observe_all-Reaches [] m bounded w = (refl, refl, refl, w)
observe_all-Reaches (e ∷ es) m bounded w =
    go (observe e m) (observe-Observes m bounded w e) (observe_all-Reaches es)
  where
    go :
        (r : Result LimitExceeded RawYamlMeter)
        → Observes e m r
        → ((m' : RawYamlMeter)
            → IsBounded m'.budget.limits
            → Within m'.budget m'.report
            → Reaches (sums es (m'.report, m'.depth)) m' (observe_all es m'))
        → Reaches (sums es (add e (m.report, m.depth))) m (r >>= observe_all es)
    go (ok m') (same, budget_kept, path_kept, within) ih =
        let here : (b : YamlBudget) → b ≡ m.budget → IsBounded b.limits × Within b m'.report =
          λ b h. rw h (bounded, rw (sym (ap (λ s. s.0) same)) at within) in
        let facts = here m'.budget budget_kept in
        subst (λ s. Arrives (sums es s) m.budget m.path (observe_all es m')) same
          (subst (λ b. Arrives (sums es (m'.report, m'.depth)) b m.path (observe_all es m'))
            budget_kept
            (subst (λ p. Arrives (sums es (m'.report, m'.depth)) m'.budget p (observe_all es m'))
              path_kept (ih m' facts.0 facts.1)))
    go (err x) (misfit, broken) ih = (
      λ v. misfit (Within-earlier m.budget _ _ (sums-Grows es (add e (m.report, m.depth))) v),
      broken,
    )

-- Metering the events of a physical file, under limits below `u64::MAX` and on top of what the
-- budget holds, ends in one of two ways. It succeeds with the exact numbers of documents, nodes,
-- aliases and scalar and tag bytes, with the exact greatest nesting, and these are within the
-- limits together with what the budget holds; or it is refused, the sums over the whole file
-- would not have been within the limits, and the error shows an observation above its limit.
pub observe_all-Arrives :
    (es : List Event) (b : YamlBudget) (path : CatalogPath)
    → IsBounded b.limits
    → b.documents ≤ b.limits.documents
    → b.nodes ≤ b.limits.nodes
    → b.aliases ≤ b.limits.aliases
    → b.materialized_scalar_bytes ≤ b.limits.alias_expansion_bytes
    → Arrives (sums es ((raw_meter b path).report, 0)) b path (observe_all es (raw_meter b path))
observe_all-Arrives es b path bounded hd hn ha hb =
    observe_all-Reaches es (raw_meter b path) bounded (record {
      documents_within = omega arith;
      depth_within = omega arith;
      nodes_within = omega arith;
      aliases_within = omega arith;
      bytes_within = omega arith;
    })

-- The budget holds the sums more than it did, exactly, and they are within its limits.
pub record Holds (b : YamlBudget) (total : RawYamlReport) (b' : YamlBudget) : Type 0 where
  pub documents_held : b'.documents ≡ b.documents + total.documents
  pub nodes_held : b'.nodes ≡ b.nodes + total.nodes
  pub aliases_held : b'.aliases ≡ b.aliases + total.aliases
  pub bytes_held :
      b'.materialized_scalar_bytes ≡ b.materialized_scalar_bytes + total.total_scalar_bytes
  pub limits_kept : b'.limits ≡ b.limits
  pub still_within : Within b total

finish-Holds :
    (m : RawYamlMeter)
    → IsBounded m.budget.limits
    → Within m.budget m.report
    → Holds m.budget m.report (finish m).1
unfolding finish
finish-Holds m bounded w = ground arith

-- When a metered file is finished, under limits below `u64::MAX`, its report has the exact sums
-- over the file, and the budget holds exactly these more and is still within its limits: nothing
-- of the usage is lost to saturation.
pub finish-Holds_sums :
    (es : List Event) (b : YamlBudget) (path : CatalogPath) (m : RawYamlMeter)
    → IsBounded b.limits
    → b.documents ≤ b.limits.documents
    → b.nodes ≤ b.limits.nodes
    → b.aliases ≤ b.limits.aliases
    → b.materialized_scalar_bytes ≤ b.limits.alias_expansion_bytes
    → observe_all es (raw_meter b path) ≡ ok m
    → ((finish m).0 ≡ (sums es ((raw_meter b path).report, 0)).0)
      × Holds b (sums es ((raw_meter b path).report, 0)).0 (finish m).1
unfolding finish
finish-Holds_sums es b path m bounded hd hn ha hb e =
    let (same, budget_kept, path_kept, within) =
      rw e at (observe_all-Arrives es b path bounded hd hn ha hb) in
    let report_is : m.report ≡ (sums es ((raw_meter b path).report, 0)).0 = ap (λ s. s.0) same in
    (
      report_is,
      subst (λ r. Holds b r (finish m).1) report_is
          (subst (λ b'. Holds b' m.report (finish m).1) budget_kept
            (finish-Holds m (rw budget_kept bounded) (rw (budget_kept, report_is) within))),
    )
