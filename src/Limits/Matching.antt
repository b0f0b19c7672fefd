-- ===== src/Limits/Matching.antt =====
-- conkit-sketch/limits/matching.rs: the budgets of one check, and the counters that every source
-- group of the check shares.
use contract_kit.Prelude.{ℕ, Option, some, ltb, if◌then◌else◌, saturating_add}
use contract_kit.Prelude.Results.{Result, ok, err}
use contract_kit.Limits.Words.{observed, parser_limit}
use contract_kit.Path.{CatalogPath}
use contract_kit.Error.{
  LimitResource, LimitExceeded, sketch_count, signature_index_entry_count,
  matching_line_comparisons, occurrence_candidate_count,
}

pub record MatchingLimits : Type 0 where
  pub sketches : ℕ
  pub signature_index_entries : ℕ
  pub sketch_id_bytes : ℕ
  pub snippet_bytes : ℕ
  pub snippet_lines : ℕ
  pub normalized_source_bytes : ℕ
  pub normalized_source_lines : ℕ
  pub line_comparisons : ℕ
  pub occurrence_candidates : ℕ
  pub retained_occurrence_spans : ℕ

abbrev pub default : MatchingLimits
default = record {
  sketches = 500000;
  signature_index_entries = 500000;
  sketch_id_bytes = 256;
  snippet_bytes = 1048576;
  snippet_lines = 100000;
  normalized_source_bytes = 67108864;
  normalized_source_lines = 1000000;
  line_comparisons = 10000000;
  occurrence_candidates = 1000000;
  retained_occurrence_spans = 32;
}

unfoldable pub validate :
    LimitResource → ℕ → ℕ → Option CatalogPath → Result LimitExceeded (Unit {0})
validate resource limit count file =
    if ltb limit (observed count)
    then err (record {
      resource = resource;
      limit = limit;
      observed_at_least = observed count;
      file = file;
    })
    else ok tt

module _ (limits : MatchingLimits) where
  unfoldable pub validate_sketch_count : ℕ → Option CatalogPath → Result LimitExceeded (Unit {0})
  unfolding validate
  validate_sketch_count count file = validate sketch_count limits.sketches count file

  unfoldable pub validate_signature_index_entry_count :
      ℕ → Option CatalogPath → Result LimitExceeded (Unit {0})
  unfolding validate
  validate_signature_index_entry_count count file =
      validate signature_index_entry_count limits.signature_index_entries count file

  abbrev pub sketch_id_maximum : ℕ
  sketch_id_maximum = parser_limit limits.sketch_id_bytes

  abbrev pub retained_span_maximum : ℕ
  retained_span_maximum = parser_limit limits.retained_occurrence_spans

pub record MatchingUsage : Type 0 where
  pub line_comparisons : ℕ
  pub occurrence_candidates : ℕ

abbrev pub usage : MatchingUsage
usage = record { line_comparisons = 0; occurrence_candidates = 0 }

-- The counter is raised first and checked then.
module _ (limits : MatchingLimits) where
  unfoldable pub record_line_comparison :
      CatalogPath → MatchingUsage → Result LimitExceeded MatchingUsage
  record_line_comparison file u =
      let next = saturating_add u.line_comparisons 1 in
      if ltb limits.line_comparisons next
      then err (record {
        resource = matching_line_comparisons;
        limit = limits.line_comparisons;
        observed_at_least = next;
        file = some file;
      })
      else ok (record u { line_comparisons = next })

  unfoldable pub record_occurrence_candidate :
      CatalogPath → MatchingUsage → Result LimitExceeded MatchingUsage
  record_occurrence_candidate file u =
      let next = saturating_add u.occurrence_candidates 1 in
      if ltb limits.occurrence_candidates next
      then err (record {
        resource = occurrence_candidate_count;
        limit = limits.occurrence_candidates;
        observed_at_least = next;
        file = some file;
      })
      else ok (record u { occurrence_candidates = next })
