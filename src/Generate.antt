-- ===== src/Generate.antt =====
-- conkit-sketch/generate.rs and the counts of api.rs: the seeds of a refresh, checked against the
-- contracts that they replace the code of.
pub mod Coverage
use contract_kit.Prelude.{
  ℕ, ◌+◌, Bool, true, false, not, Option, none, some, List, [], ◌∷◌, length, if◌then◌else◌,
}
use contract_kit.Prelude.Order.{Ord}
use contract_kit.Prelude.Results.{Result, ok, err, map_err, fail_if}
use contract_kit.SortedMap.{SortedMap, get, insert, contains_key}
use contract_kit.Text.{Text}
use contract_kit.Path.{CatalogPath, path_ord}
use contract_kit.Error.{
  Error, refresh_seed, conversion_failed, invalid_sketch_id, duplicate_refresh_seed,
  no_linked_sketch, missing_refresh_seed, code_must_not_be_empty,
}
use contract_kit.Limits.Matching.{MatchingLimits, sketch_id_maximum, validate_sketch_count}
use contract_kit.Work.{M, ◌>>=◌, ◌>>◌, pure, lift, raise, limited, checkpoint_at}
use mathlib.Core.Option
use contract_kit.Normalize
use contract_kit.Normalize.{Bytes, exact_lines_v1, normalize_snippet}
use contract_kit.Contract
use contract_kit.Contract.{
  SketchId, id_ord, new_id, SketchContract, SketchContracts, SketchSeed, validate_seed,
}
use contract_kit.Resolve.{refuse_if}

pub data GenerateMode : Type 0 where
  full_refresh partial_refresh : GenerateMode

-- api.rs.
pub record SketchGenerationCounts : Type 0 where
  pub linked_sketch_count : ℕ
  pub refreshed_sketch_count : ℕ
  pub changed_sketch_count : ℕ
  pub changed_document_count : ℕ

pub record GeneratedSketchCode : Type 0 where
  pub value : Bytes

-- `GeneratedSketchCode::new`.
unfoldable pub new_code : Bytes → Text → MatchingLimits → CatalogPath → M GeneratedSketchCode
new_code value sketch_id limits contract_file = do
  normalized ← normalize_snippet exact_lines_v1 value limits contract_file
  refuse_if (Normalize.is_empty normalized) (conversion_failed (code_must_not_be_empty sketch_id))
  pure (record { value = value })

pub record SketchRefreshSeeds : Type 0 where
  pub entries : SortedMap SketchId GeneratedSketchCode
  pub target_files : SortedMap CatalogPath (Unit {0})

-- `let Some(contract) = contracts.get(&id) else ..`.
abbrev pub linked_contract : SketchId → Option SketchContract → Result Error SketchContract
linked_contract id none = err (conversion_failed (no_linked_sketch id.value))
linked_contract id (some contract) = ok contract

module _ (contracts : SketchContracts) (limits : MatchingLimits) where
  -- The loop of `from_input`.
  unfoldable pub add_seeds : ℕ → List SketchSeed → SketchRefreshSeeds → M SketchRefreshSeeds
  add_seeds index [] refresh = pure refresh
  add_seeds index (seed ∷ rest) refresh = do
    checkpoint_at index
    id ← lift (
        map_err (invalid_sketch_id (refresh_seed seed.contract_file seed.document_index))
          (new_id seed.sketch_id (sketch_id_maximum limits)))
    refuse_if (contains_key id refresh.entries)
        (conversion_failed (duplicate_refresh_seed id.value))
    contract ← lift (linked_contract id (Contract.get contracts id))
    lift (validate_seed contract seed id)
    code ← new_code seed.code id.value limits seed.contract_file
    add_seeds (index + 1) rest (record {
      entries = insert id code refresh.entries;
      target_files = insert seed.contract_file tt refresh.target_files;
    })

-- `SketchRefreshSeeds::validate_full_coverage`, from a position of the contracts.
unfoldable pub validate_full_coverage : ℕ → List SketchContract → SketchRefreshSeeds → M (Unit {0})
validate_full_coverage index [] refresh = pure tt
validate_full_coverage index (contract ∷ rest) refresh = do
  checkpoint_at index
  refuse_if (not (contains_key contract.id refresh.entries))
      (conversion_failed (missing_refresh_seed contract.id.value))
  validate_full_coverage (index + 1) rest refresh

abbrev pub validate_mode :
    GenerateMode → SketchContracts → SketchRefreshSeeds → M SketchRefreshSeeds
validate_mode partial_refresh contracts refresh = pure refresh
validate_mode full_refresh contracts refresh = do
  validate_full_coverage 0 contracts.entries refresh
  pure refresh

-- `SketchRefreshSeeds::from_input`.
unfoldable pub refresh_seeds :
    List SketchSeed → SketchContracts → GenerateMode → MatchingLimits → M SketchRefreshSeeds
refresh_seeds seeds contracts mode limits = do
  limited (validate_sketch_count limits (length seeds) none)
  refresh ← add_seeds contracts limits 0 seeds (record { entries = []; target_files = [] })
  validate_mode mode contracts refresh

abbrev pub targets_file : SketchRefreshSeeds → CatalogPath → Bool
targets_file refresh path = contains_key path refresh.target_files

unfoldable pub code_for : SketchRefreshSeeds → Text → Option Bytes
code_for refresh id = Option.map (λ code. code.value) (get (record { value = id }) refresh.entries)

abbrev pub len : SketchRefreshSeeds → ℕ
len refresh = length refresh.entries
