-- ===== src/Limits/Yaml/Replay.antt =====
-- What a replay of aliases is charged.
use contract_kit.Prelude.{◌+◌, ◌-◌, ◌≤◌, ◌<◌, ◌≡◌, ◌⊎◌, arith}
use contract_kit.Prelude.Results.{Result, ok, err}
use contract_kit.Path.{CatalogPath}
use contract_kit.Error.{LimitExceeded}
use contract_kit.Limits.{charge}
use contract_kit.Limits.Yaml.{YamlBudget, RawYamlReport, BudgetReport, record_replay_report}
use contract_kit.Limits.Yaml.Metering.{IsBounded, Breaks}

-- How the record of a replay ends: exactly the replayed nodes and bytes are added and fit, or one of
-- the two does not fit.
abbrev pub Records :
    RawYamlReport → BudgetReport → YamlBudget → Result LimitExceeded YamlBudget → Type 0
Records raw report b (ok b') =
    (b' ≡ record b {
      nodes = b.nodes + (report.nodes - raw.nodes);
      materialized_scalar_bytes =
          b.materialized_scalar_bytes + (report.total_scalar_bytes - raw.total_scalar_bytes);
    })
    × (b'.nodes ≤ b.limits.nodes)
    × (b'.materialized_scalar_bytes ≤ b.limits.alias_expansion_bytes)
Records raw report b (err x) =
    Breaks x
    × ((b.limits.nodes < b.nodes + (report.nodes - raw.nodes))
        ⊎ (b.limits.alias_expansion_bytes
            < b.materialized_scalar_bytes + (report.total_scalar_bytes - raw.total_scalar_bytes)))

-- Behind the typed parser, under limits below `u64::MAX`, the budget holds exactly the nodes and the
-- scalar bytes more that aliases replayed on top of the raw events, and both are within their
-- limits; or the replay is refused, one of the two exceeds its limit, and the error shows an
-- observation above its limit.
pub record_replay_report-Records :
    (path : CatalogPath) (raw : RawYamlReport) (report : BudgetReport) (b : YamlBudget)
    → IsBounded b.limits
    → Records raw report b (record_replay_report path raw report b)
unfolding record_replay_report charge
record_replay_report-Records path raw report b bounded = ground arith
