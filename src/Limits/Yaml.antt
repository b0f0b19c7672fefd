-- ===== src/Limits/Yaml.antt =====
-- conkit-sketch/limits/yaml.rs: the budget of the YAML events of an operation. A physical file is
-- metered raw, event by event, before the typed parser replays its aliases. The parser is not the
-- program's: an event carries what the meter reads of it, and `SemanticError`, `BudgetBreach` and
-- `BudgetReport` are the variants and fields that the source names.
pub mod Observing
pub mod Metering
pub mod Replay
use contract_kit.Prelude.{
  ℕ, ◌+◌, ◌*◌, ◌/◌, Option, none, some, if◌then◌else◌, u64_max, min, saturating_add, saturating_sub,
}
use contract_kit.Prelude.Results.{Result, ok, err, ◌>>=◌}
use contract_kit.Text.{Text, byte_len}
use contract_kit.Path.{CatalogPath}
use contract_kit.Error.{
  LimitResource, LimitExceeded, yaml_document_count, yaml_depth, yaml_node_count, yaml_alias_count,
  yaml_alias_expansion_bytes,
}
use contract_kit.Limits.{LimitCharge, charge, breach}
use contract_kit.Limits.Words.{observed, parser_limit}

pub record Tag : Type 0 where
  pub handle : Text
  pub suffix : Text

pub data ScalarStyle : Type 0 where
  plain other_style : ScalarStyle

pub data Event : Type 0 where
  document_start document_end mapping_end sequence_end alias : Event
  nothing stream_start stream_end comment : Event
  scalar : Text → ScalarStyle → Option Tag → Event
  mapping_start sequence_start : Option Tag → Event

pub record YamlLimits : Type 0 where
  pub documents : ℕ
  pub depth : ℕ
  pub nodes : ℕ
  pub aliases : ℕ
  pub alias_expansion_bytes : ℕ

abbrev pub default : YamlLimits
default = record {
  documents = 1024;
  depth = 128;
  nodes = 1000000;
  aliases = 10000;
  alias_expansion_bytes = 67108864;
}

pub record YamlBudget : Type 0 where
  pub limits : YamlLimits
  pub documents : ℕ
  pub nodes : ℕ
  pub aliases : ℕ
  pub materialized_scalar_bytes : ℕ

-- `YamlLimits::budget`.
abbrev pub budget : YamlLimits → YamlBudget
budget limits = record {
  limits = limits;
  documents = 0;
  nodes = 0;
  aliases = 0;
  materialized_scalar_bytes = 0;
}

pub record RawYamlReport : Type 0 where
  pub documents : ℕ
  pub nodes : ℕ
  pub aliases : ℕ
  pub max_depth : ℕ
  pub total_scalar_bytes : ℕ

pub record RawYamlMeter : Type 0 where
  pub budget : YamlBudget
  pub path : CatalogPath
  pub report : RawYamlReport
  pub depth : ℕ

-- `YamlBudget::raw_meter`.
abbrev pub raw_meter : YamlBudget → CatalogPath → RawYamlMeter
raw_meter b path = record {
  budget = b;
  path = path;
  report = record { documents = 0; nodes = 0; aliases = 0; max_depth = 0; total_scalar_bytes = 0 };
  depth = 0;
}

-- The resources that `charge` has an arm for; it panics at the others, which `observe` never names.
pub data Charged : Type 0 where
  documents depth nodes aliases scalar_bytes : Charged

abbrev pub resource_of : Charged → LimitResource
resource_of documents = yaml_document_count
resource_of depth = yaml_depth
resource_of nodes = yaml_node_count
resource_of aliases = yaml_alias_count
resource_of scalar_bytes = yaml_alias_expansion_bytes

-- The triple that each arm of `charge` picks: what is encountered, the limit, what is accumulated.
abbrev pub encountered : Charged → RawYamlReport → ℕ
encountered documents r = r.documents
encountered depth r = r.max_depth
encountered nodes r = r.nodes
encountered aliases r = r.aliases
encountered scalar_bytes r = r.total_scalar_bytes

abbrev pub limit_of : Charged → YamlLimits → ℕ
limit_of documents l = l.documents
limit_of depth l = l.depth
limit_of nodes l = l.nodes
limit_of aliases l = l.aliases
limit_of scalar_bytes l = l.alias_expansion_bytes

abbrev pub accumulated : Charged → YamlBudget → ℕ
accumulated documents b = b.documents
accumulated depth b = 0
accumulated nodes b = b.nodes
accumulated aliases b = b.aliases
accumulated scalar_bytes b = b.materialized_scalar_bytes

-- `*encountered = ..`.
abbrev pub store : Charged → ℕ → RawYamlReport → RawYamlReport
store documents n r = record r { documents = n }
store depth n r = record r { max_depth = n }
store nodes n r = record r { nodes = n }
store aliases n r = record r { aliases = n }
store scalar_bytes n r = record r { total_scalar_bytes = n }

-- `RawYamlMeter::charge`. An error ends the scan, and the meter with it.
unfoldable pub charge_meter : Charged → ℕ → RawYamlMeter → Result LimitExceeded RawYamlMeter
unfolding charge
charge_meter resource amount meter = do
  let next = saturating_add (encountered resource meter.report) amount
  charge
        (record {
          resource = resource_of resource;
          limit = limit_of resource meter.budget.limits;
          accumulated = accumulated resource meter.budget;
        })
        next meter.path
      >>= λ _. ok (record meter { report = store resource next meter.report })

unfoldable pub tag_bytes : Option Tag → ℕ
tag_bytes none = 0
tag_bytes (some tag) = saturating_add (byte_len tag.handle) (byte_len tag.suffix)

-- The arm of `MappingStart` and `SequenceStart`.
unfoldable pub open_container : Option Tag → RawYamlMeter → Result LimitExceeded RawYamlMeter
unfolding charge_meter tag_bytes
open_container tag meter = do
  counted ← charge_meter nodes 1 meter
  let deeper = record counted { depth = saturating_add counted.depth 1 }
  deepest ← charge_meter depth (saturating_sub deeper.depth deeper.report.max_depth) deeper
  charge_meter scalar_bytes (tag_bytes tag) deepest

-- `RawYamlMeter::observe`.
unfoldable pub observe : Event → RawYamlMeter → Result LimitExceeded RawYamlMeter
unfolding charge_meter tag_bytes open_container
observe document_start meter = charge_meter documents 1 meter
observe (scalar value style tag) meter = do
  counted ← charge_meter nodes 1 meter
  charge_meter scalar_bytes (saturating_add (byte_len value) (tag_bytes tag)) counted
observe (mapping_start tag) meter = open_container tag meter
observe (sequence_start tag) meter = open_container tag meter
observe mapping_end meter = ok (record meter { depth = saturating_sub meter.depth 1 })
observe sequence_end meter = ok (record meter { depth = saturating_sub meter.depth 1 })
observe alias meter = charge_meter aliases 1 meter
observe _ meter = ok meter

-- `RawYamlMeter::finish`, which also updates the budget that it borrows.
unfoldable pub finish : RawYamlMeter → RawYamlReport × YamlBudget
finish meter = (
  meter.report,
  record meter.budget {
    documents = saturating_add meter.budget.documents (observed meter.report.documents);
    nodes = saturating_add meter.budget.nodes (observed meter.report.nodes);
    aliases = saturating_add meter.budget.aliases (observed meter.report.aliases);
    materialized_scalar_bytes =
        saturating_add meter.budget.materialized_scalar_bytes
          (observed meter.report.total_scalar_bytes);
  },
)

-- `YamlLimits::semantic_parser_limit`.
abbrev pub semantic_parser_limit : ℕ → ℕ → ℕ
semantic_parser_limit raw remaining = saturating_add raw (parser_limit remaining)

-- The options of the typed parser that are not unlimited.
pub record SemanticBudget : Type 0 where
  pub max_aliases : ℕ
  pub max_depth : ℕ
  pub max_documents : ℕ
  pub max_nodes : ℕ
  pub max_total_scalar_bytes : ℕ

unfoldable pub semantic_parser_budget : YamlBudget → RawYamlReport → SemanticBudget
semantic_parser_budget b raw = record {
  max_aliases = semantic_parser_limit raw.aliases (saturating_sub b.limits.aliases b.aliases);
  max_depth = parser_limit b.limits.depth;
  max_documents =
      semantic_parser_limit raw.documents (saturating_sub b.limits.documents b.documents);
  max_nodes = semantic_parser_limit raw.nodes (saturating_sub b.limits.nodes b.nodes);
  max_total_scalar_bytes =
      semantic_parser_limit raw.total_scalar_bytes
        (saturating_sub b.limits.alias_expansion_bytes b.materialized_scalar_bytes);
}

pub record AliasLimits : Type 0 where
  pub max_total_replayed_events : ℕ
  pub max_replay_stack_depth : ℕ
  pub max_alias_expansions_per_anchor : ℕ

unfoldable pub semantic_alias_limits : YamlBudget → RawYamlReport → AliasLimits
semantic_alias_limits b raw = record {
  max_total_replayed_events =
      parser_limit (min (saturating_sub b.limits.nodes b.nodes * 2) u64_max);
  max_replay_stack_depth = parser_limit b.limits.depth;
  max_alias_expansions_per_anchor =
      semantic_parser_limit raw.aliases (saturating_sub b.limits.aliases b.aliases);
}

-- What the typed parser reports of a whole stream, raw events and replayed ones.
pub record BudgetReport : Type 0 where
  pub nodes : ℕ
  pub total_scalar_bytes : ℕ

unfoldable pub record_replay_report :
    CatalogPath → RawYamlReport → BudgetReport → YamlBudget → Result LimitExceeded YamlBudget
unfolding charge
record_replay_report path raw semantic b = do
  all_nodes ←
      charge (record { resource = yaml_node_count; limit = b.limits.nodes; accumulated = b.nodes })
        (saturating_sub semantic.nodes raw.nodes) path
  all_bytes ←
      charge
        (record {
          resource = yaml_alias_expansion_bytes;
          limit = b.limits.alias_expansion_bytes;
          accumulated = b.materialized_scalar_bytes;
        })
        (saturating_sub semantic.total_scalar_bytes raw.total_scalar_bytes) path
  ok (record b { nodes = all_nodes; materialized_scalar_bytes = all_bytes })

pub data BudgetBreach : Type 0 where
  breach_aliases breach_depth breach_documents breach_nodes breach_scalar_bytes : ℕ → BudgetBreach
  other_breach : BudgetBreach

-- `error.without_snippet()`: the variants that are told apart, and the others.
pub data SemanticError : Type 0 where
  budget_breach : BudgetBreach → SemanticError
  alias_replay_limit alias_expansion_limit alias_replay_depth : ℕ → SemanticError
  duplicate_mapping_key : Text → SemanticError
  other_error : SemanticError

unfoldable pub limit_for_semantic_breach :
    CatalogPath → RawYamlReport → BudgetBreach → YamlBudget → Option LimitExceeded
unfolding breach
limit_for_semantic_breach path raw (breach_aliases n) b = some (
    breach
      (record { resource = yaml_alias_count; limit = b.limits.aliases; accumulated = b.aliases }) n
      raw.aliases path)
limit_for_semantic_breach path raw (breach_depth n) b =
    some
      (breach (record { resource = yaml_depth; limit = b.limits.depth; accumulated = 0 }) n 0 path)
limit_for_semantic_breach path raw (breach_documents n) b = some (
    breach
      (record {
        resource = yaml_document_count;
        limit = b.limits.documents;
        accumulated = b.documents;
      })
      n raw.documents path)
limit_for_semantic_breach path raw (breach_nodes n) b = some (
    breach (record { resource = yaml_node_count; limit = b.limits.nodes; accumulated = b.nodes }) n
      raw.nodes path)
limit_for_semantic_breach path raw (breach_scalar_bytes n) b = some (
    breach
      (record {
        resource = yaml_alias_expansion_bytes;
        limit = b.limits.alias_expansion_bytes;
        accumulated = b.materialized_scalar_bytes;
      })
      n raw.total_scalar_bytes path)
limit_for_semantic_breach path raw other_breach b = none

-- `div_ceil(2)`.
unfoldable pub observed_nodes_after_replay_events : ℕ → YamlBudget → ℕ
observed_nodes_after_replay_events replayed_events b =
    saturating_add b.nodes (observed ((replayed_events + 1) / 2))

unfoldable pub limit_for_semantic_parser_error :
    CatalogPath → RawYamlReport → SemanticError → YamlBudget → Option LimitExceeded
unfolding limit_for_semantic_breach observed_nodes_after_replay_events
limit_for_semantic_parser_error path raw (budget_breach b') b =
    limit_for_semantic_breach path raw b' b
limit_for_semantic_parser_error path raw (alias_replay_limit events) b = some (record {
  resource = yaml_node_count;
  limit = b.limits.nodes;
  observed_at_least = observed_nodes_after_replay_events events b;
  file = some path;
})
limit_for_semantic_parser_error path raw (alias_expansion_limit expansions) b = some (record {
  resource = yaml_alias_count;
  limit = b.limits.aliases;
  observed_at_least =
      saturating_add (saturating_sub b.aliases (observed raw.aliases)) (observed expansions);
  file = some path;
})
limit_for_semantic_parser_error path raw (alias_replay_depth n) b = some (record {
  resource = yaml_depth;
  limit = b.limits.depth;
  observed_at_least = observed n;
  file = some path;
})
limit_for_semantic_parser_error path raw _ b = none
