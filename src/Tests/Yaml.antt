-- ===== src/Tests/Yaml.antt =====
-- The YAML meter at concrete events.
use contract_kit.Prelude.{◌≡◌, refl, none, List, [], ◌∷◌, arith}
use contract_kit.Text.{text, byte_len}
use contract_kit.Path.{CatalogPath}
use contract_kit.Limits.{charge}
use contract_kit.Limits.Yaml
use contract_kit.Limits.Yaml.Replay.{Records, record_replay_report-Records}
use contract_kit.Limits.Yaml.{
  BudgetReport, record_replay_report, Event, document_start, document_end, mapping_end, alias,
  scalar, mapping_start, plain, YamlBudget, RawYamlReport, RawYamlMeter, budget, raw_meter, finish,
  observe, charge_meter, open_container, tag_bytes,
}
use contract_kit.Limits.Yaml.Metering.{
  IsBounded, Arrives, Holds, sums, observe_all, observe_all-Arrives, finish-Holds_sums,
}

-- `a: *b`, with an anchor elsewhere.
abbrev events : List Event
events =
    document_start
    ∷ mapping_start none
    ∷ scalar (text "a") plain none
    ∷ alias
    ∷ mapping_end
    ∷ document_end
    ∷ []

abbrev pub fresh : YamlBudget
fresh = budget Yaml.default

abbrev path : CatalogPath
path = record { value = text "a.yaml" }

abbrev pub default_bounded : IsBounded Yaml.default
default_bounded = record {
  documents_bounded = omega arith;
  depth_bounded = omega arith;
  nodes_bounded = omega arith;
  aliases_bounded = omega arith;
  bytes_bounded = omega arith;
}

observe_all-Arrives_example :
    Arrives
      (sums events ((raw_meter fresh path).report, 0))
      fresh
      path
      (observe_all events (raw_meter fresh path))
observe_all-Arrives_example =
    observe_all-Arrives events fresh path default_bounded (omega arith) (omega arith) (omega arith)
      (omega arith)

-- The meter behind the events.
abbrev metered : RawYamlMeter
metered = record {
  budget = fresh;
  path = path;
  report = record { documents = 1; nodes = 2; aliases = 1; max_depth = 1; total_scalar_bytes = 1 };
  depth = 0;
}

finish-Holds_sums_example :
    ((finish metered).0 ≡ (sums events ((raw_meter fresh path).report, 0)).0)
    × Holds fresh (sums events ((raw_meter fresh path).report, 0)).0 (finish metered).1
unfolding observe charge_meter open_container tag_bytes charge byte_len
finish-Holds_sums_example =
    finish-Holds_sums events fresh path metered default_bounded (omega arith) (omega arith)
      (omega arith) (omega arith) refl

-- One alias replayed two nodes and four bytes.
abbrev replayed : BudgetReport
replayed = record { nodes = 4; total_scalar_bytes = 5 }

record_replay_report-Records_example :
    Records metered.report replayed fresh (record_replay_report path metered.report replayed fresh)
record_replay_report-Records_example =
    record_replay_report-Records path metered.report replayed fresh default_bounded
