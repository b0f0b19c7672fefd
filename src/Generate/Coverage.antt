-- ===== src/Generate/Coverage.antt =====
-- Which seeds a refresh accepts, and what it keeps of them.
use contract_kit.Prelude.{
  ℕ, ◌+◌, ◌≡◌, refl, ap, ◌∙◌, true, false, not, Option, none, some, List, [], ◌∷◌, length, arith,
  All,
}
use contract_kit.Prelude.Results.{ok, map_err, map_err-ok}
use contract_kit.SortedMap.{get, insert, contains_key, is_some}
use contract_kit.SortedMap.Contents.{
  Entries, Entries-insert, get-insert, get-insert_other, length-insert, contains_key-insert,
  contains_key-false,
}
use contract_kit.Text.{Text}
use contract_kit.Path.{CatalogPath, path_ord}
use contract_kit.Error.{
  refresh_seed, conversion_failed, invalid_sketch_id, duplicate_refresh_seed, missing_refresh_seed,
}
use contract_kit.Limits.Matching.{MatchingLimits, sketch_id_maximum, validate_sketch_count}
use contract_kit.Work.{Work, limited, checkpoint_at}
use contract_kit.Work.Outcome.{
  Yields, Yields-after, Yields-lift, Yields-pure, Yields-bind, Yields-weaken, Yields-refusing,
  Yields-returned, Yields-ok, Returns,
}
use contract_kit.Normalize
use contract_kit.Normalize.{Bytes, exact_lines_v1, normalize_snippet, NormalizedSnippet}
use contract_kit.Contract
use contract_kit.Contract.{
  SketchId, id_ord, new_id, SketchContract, SketchContracts, SketchSeed, validate_seed, find_id,
}
use contract_kit.Contract.Seeding.{validate_seed_iff}
use contract_kit.Resolve.Declared.{new_id-value}
use contract_kit.Generate.{
  GenerateMode, full_refresh, partial_refresh, GeneratedSketchCode, new_code, SketchRefreshSeeds,
  linked_contract, add_seeds, validate_full_coverage, validate_mode, refresh_seeds, len,
}

-- A seed is taken into a refresh: its id is that of a linked sketch, with which it agrees in every
-- field, its code is not empty when it is normalized, and it stands at the id, unchanged.
pub record Accepts (contracts : SketchContracts) (limits : MatchingLimits) (r : SketchRefreshSeeds)
    (s : SketchSeed) : Type 0 where
  pub id : SketchId
  pub same_id : id.value ≡ s.sketch_id
  pub contract : SketchContract
  pub is_linked : find_id id contracts.entries ≡ some contract
  pub same_document : s.contract_file ≡ contract.locator.contract_file
  pub same_index : s.document_index ≡ contract.locator.document_index
  pub same_file : s.file ≡ contract.file
  pub same_type : s.signature_type ≡ contract.signature_type.value
  pub normalized : NormalizedSnippet
  pub is_normalized :
      Returns (normalize_snippet exact_lines_v1 s.code limits s.contract_file) normalized
  pub not_empty : Normalize.is_empty normalized ≡ false
  pub kept : get id r.entries ≡ some (record { value = s.code })
  pub targeted : contains_key s.contract_file r.target_files ≡ true

-- What stands in a refresh stays there.
record Later (r r' : SketchRefreshSeeds) : Type 0 where
  pub entries_stay :
      (id : SketchId) (code : GeneratedSketchCode)
      → get id r.entries ≡ some code
      → get id r'.entries ≡ some code
  pub targets_stay :
      (path : CatalogPath)
      → contains_key path r.target_files ≡ true
      → contains_key path r'.target_files ≡ true

abbrev pub Linked : SketchContracts → SketchId → GeneratedSketchCode → Type 0
Linked contracts id code = is_some (find_id id contracts.entries) ≡ true

record Adds (contracts : SketchContracts) (limits : MatchingLimits) (seeds : List SketchSeed)
    (r r' : SketchRefreshSeeds) : Type 0 where
  pub accepted : All (Accepts contracts limits r') seeds
  pub later : Later r r'
  pub counted : len r' ≡ length seeds + len r
  pub all_linked : Entries (Linked contracts) r'.entries

linked_contract-some :
    (id : SketchId) (found : Option SketchContract) (c : SketchContract)
    → linked_contract id found ≡ ok c
    → found ≡ some c
linked_contract-some id none c h = absurd (ground arith)
linked_contract-some id (some d) c h = ground arith

-- The normalized code of a seed that is accepted.
abbrev CodeIs : SketchSeed → MatchingLimits → GeneratedSketchCode → Type 0
CodeIs s limits code =
    (code ≡ record { value = s.code })
    × (n : NormalizedSnippet) × Returns
        (normalize_snippet exact_lines_v1 s.code limits s.contract_file) n
    × (Normalize.is_empty n ≡ false)

new_code-CodeIs :
    (s : SketchSeed) (id : Text) (limits : MatchingLimits)
    → Yields (CodeIs s limits) (new_code s.code id limits s.contract_file)
unfolding new_code
new_code-CodeIs s id limits =
    Yields-returned (CodeIs s limits)
      (normalize_snippet exact_lines_v1 s.code limits s.contract_file) _
      (λ n is.
        Yields-refusing (CodeIs s limits) (Normalize.is_empty n) _ _
          (λ present. Yields-pure (CodeIs s limits) _ (refl, n, is, present)))

insert-Later :
    (r : SketchRefreshSeeds) (id : SketchId) (code : GeneratedSketchCode) (path : CatalogPath)
    → get id r.entries ≡ none
    → Later r (record {
      entries = insert id code r.entries;
      target_files = insert path tt r.target_files;
    })
insert-Later r id code path new = record {
  entries_stay = λ j c h. get-insert_other j id code r.entries (λ e. cc) ∙ h;
  targets_stay = λ p h. contains_key-insert p path tt r.target_files h;
}

module _ (contracts : SketchContracts) (limits : MatchingLimits) where
  add_seeds-Adds :
      (index : ℕ) (seeds : List SketchSeed) (r : SketchRefreshSeeds)
      → Entries (Linked contracts) r.entries
      → Yields (Adds contracts limits seeds r) (add_seeds contracts limits index seeds r)
  unfolding add_seeds
  add_seeds-Adds index [] r linked = Yields-pure _ r (record {
    accepted = tt;
    later = record { entries_stay = λ _ _ h. h; targets_stay = λ _ h. h };
    counted = omega arith;
    all_linked = linked;
  })
  add_seeds-Adds index (s ∷ rest) r linked =
      let P = Adds contracts limits (s ∷ rest) r in
      Yields-after P (checkpoint_at index) _ (λ _.
        Yields-lift P
          (map_err (invalid_sketch_id (refresh_seed s.contract_file s.document_index))
            (new_id s.sketch_id (sketch_id_maximum limits)))
          _
          (λ id id_is.
            Yields-refusing P (contains_key id r.entries)
              (conversion_failed (duplicate_refresh_seed id.value)) _
              (λ absent. Yields-lift P (linked_contract id (Contract.get contracts id)) _ (λ c c_is.
                Yields-lift P (validate_seed c s id) _ (λ _ agrees.
                  Yields-bind (CodeIs s limits) P (new_code s.code id.value limits s.contract_file)
                    _ (new_code-CodeIs s id.value limits)
                    (λ code code_is.
                      let new = contains_key-false id r.entries absent in
                      let found = linked_contract-some id _ c c_is in
                      let next : SketchRefreshSeeds = record {
                        entries = insert id code r.entries;
                        target_files = insert s.contract_file tt r.target_files;
                      } in
                      let step = insert-Later r id code s.contract_file new in
                      Yields-weaken _ P _
                        (add_seeds-Adds (index + 1) rest next
                          (Entries-insert _ id code r.entries (rw found refl) linked))
                        (λ r' tail.
                          let facts = (validate_seed_iff c s id).0 agrees in
                          record {
                            accepted = (
                              record {
                                id = id;
                                same_id = new_id-value _ _ id (map_err-ok _ _ id id_is);
                                contract = c;
                                is_linked = found;
                                same_document = facts.1;
                                same_index = facts.2;
                                same_file = facts.3;
                                same_type = facts.4;
                                normalized = code_is.1;
                                is_normalized = code_is.2;
                                not_empty = code_is.3;
                                kept =
                                    tail.later.entries_stay id _
                                      (get-insert id code r.entries ∙ ap some code_is.0);
                                targeted =
                                    tail.later.targets_stay s.contract_file
                                      (rw (get-insert s.contract_file tt r.target_files) refl);
                              },
                              tail.accepted,
                            );
                            later = record {
                              entries_stay =
                                  λ j k h. tail.later.entries_stay j k (step.entries_stay j k h);
                              targets_stay =
                                  λ p h. tail.later.targets_stay p (step.targets_stay p h);
                            };
                            counted =
                                omega (arith, tail.counted, length-insert id code r.entries new);
                            all_linked = tail.all_linked;
                          })))))))

-- Every contract has a seed.
abbrev pub Covered : SketchRefreshSeeds → List SketchContract → Type 0
Covered r cs = All (λ c. contains_key c.id r.entries ≡ true) cs

validate_full_coverage-Covered :
    (index : ℕ) (cs : List SketchContract) (r : SketchRefreshSeeds)
    → Yields (λ _. Covered r cs) (validate_full_coverage index cs r)
unfolding validate_full_coverage
validate_full_coverage-Covered index [] r = Yields-pure _ tt tt
validate_full_coverage-Covered index (c ∷ cs) r =
    let P : Unit {0} → Type 0 = λ _. Covered r (c ∷ cs) in
    Yields-after P (checkpoint_at index) _ (λ _.
      Yields-refusing P (not (contains_key c.id r.entries))
        (conversion_failed (missing_refresh_seed c.id.value)) _
        (λ there.
          Yields-weaken (λ _. Covered r cs) P _ (validate_full_coverage-Covered (index + 1) cs r)
            (λ _ rest. (ground arith, rest))))

-- What a refresh that is accepted holds of its seeds.
pub record Refreshes (contracts : SketchContracts) (limits : MatchingLimits)
    (seeds : List SketchSeed) (mode : GenerateMode) (r : SketchRefreshSeeds) : Type 0 where
  pub accepted : All (Accepts contracts limits r) seeds
  pub one_each : len r ≡ length seeds
  pub all_linked : Entries (Linked contracts) r.entries
  pub covered : mode ≡ full_refresh → Covered r contracts.entries

refresh_seeds-Yields :
    (seeds : List SketchSeed) (contracts : SketchContracts) (mode : GenerateMode)
    (limits : MatchingLimits)
    → Yields (Refreshes contracts limits seeds mode) (refresh_seeds seeds contracts mode limits)
unfolding refresh_seeds
refresh_seeds-Yields seeds contracts mode limits =
    let P = Refreshes contracts limits seeds mode in
    Yields-after P (limited (validate_sketch_count limits (length seeds) none)) _ (λ _.
      Yields-bind _ P
        (add_seeds contracts limits 0 seeds (record { entries = []; target_files = [] })) _
        (add_seeds-Adds contracts limits 0 seeds (record { entries = []; target_files = [] }) tt)
        (λ r adds. by_mode mode r adds))
  where
    by_mode :
        (mode : GenerateMode) (r : SketchRefreshSeeds)
        → Adds contracts limits seeds (record { entries = []; target_files = [] }) r
        → Yields (Refreshes contracts limits seeds mode) (validate_mode mode contracts r)
    by_mode partial_refresh r adds = Yields-pure _ r (record {
      accepted = adds.accepted;
      one_each = omega (arith, adds.counted);
      all_linked = adds.all_linked;
      covered = λ e. absurd (ground arith);
    })
    by_mode full_refresh r adds =
        Yields-bind _ _ (validate_full_coverage 0 contracts.entries r) _
          (validate_full_coverage-Covered 0 contracts.entries r)
          (λ _ covered. Yields-pure _ r (record {
            accepted = adds.accepted;
            one_each = omega (arith, adds.counted);
            all_linked = adds.all_linked;
            covered = λ e. covered;
          }))

-- When the seeds of a refresh are accepted, each of them is for a linked sketch with which it
-- agrees in contract file, document index, source file and signature type, has code that is not
-- empty when it is normalized, and is kept under its id with its code unchanged and its file among
-- the targets. Nothing else is kept: there are as many entries as seeds, so that no id is there
-- twice, and each is for a linked sketch. A full refresh has a seed for every contract.
pub refresh_seeds-Refreshes :
    (seeds : List SketchSeed) (contracts : SketchContracts) (mode : GenerateMode)
    (limits : MatchingLimits) (w w' : Work) (r : SketchRefreshSeeds)
    → refresh_seeds seeds contracts mode limits w ≡ ok (r, w')
    → Refreshes contracts limits seeds mode r
refresh_seeds-Refreshes seeds contracts mode limits w w' r h =
    Yields-ok _ (refresh_seeds seeds contracts mode limits) w w' r
      (refresh_seeds-Yields seeds contracts mode limits) h
