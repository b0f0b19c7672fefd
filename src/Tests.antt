-- ===== src/Tests.antt =====
-- The theorems at concrete inputs.
mod Resolving
mod Documents
mod Jobs
mod Yaml
mod Buffers
use mathlib.Core.List.{Perm}
use contract_kit.Inventory.Keys.{AllAscend, new_comparison-AllAscend}
use contract_kit.Prelude.{
  All, ◌+◌, ◌*◌, ◌≤◌, ◌≡◌, ◌↔◌, refl, true, false, none, some, List, [], ◌∷◌, arith, length, take,
  min, ltb, ◌⊎◌,
}
use contract_kit.Prelude.Results.{ok, err}
use contract_kit.Prelude.Order.{cmp_list}
use contract_kit.Text.{starts_with, split, Text, text, is_empty, trim, byte_len}
use contract_kit.Path
use contract_kit.Path.Grammar.{IsName, Without, new-IsName}
use contract_kit.Path.{CatalogPath}
use contract_kit.Limits.Matching.{
  MatchingLimits, record_line_comparison, record_occurrence_candidate,
}
use contract_kit.Limits.Matching
use contract_kit.Work.{Work, uncancelled, checkpoint_at, checkpoint, is_cancelled}
use contract_kit.Work.Outcome.{Ensures, Interrupted, Polled}
use contract_kit.Normalize.{
  Bytes, NormalizedSnippet, line_count, lines, source, exact_lines_v1, normalize_source,
  normalize_snippet, equal_lines, from_bytes, scan_bytes, visit, push_byte, store_byte, first_line,
  validate_line, validate_bytes, validate,
}
use contract_kit.Normalize.Reference.{canonical, fold_crlf, drop_final_newline, split_lines}
use contract_kit.Normalize.Rounds.{Fails}
use contract_kit.Normalize.Total.{Normal}
use contract_kit.Normalize.Entry.{normalize_source_outcome, normalize_snippet_total}
use contract_kit.Normalize.Equality.{normalize_source-equal_lines, crlf-equals_lf}
use contract_kit.Error.{limit_error, snippet_bytes}
use contract_kit.Contract.{
  exactly_one, at_least_one, SketchContract, SketchContracts, SketchSeed, SketchId, validate_seed,
  new_id, find_id,
}
use contract_kit.Contract.Seeding.{validate_seed_iff}
use contract_kit.Contract.Identity.{Printable, new_id_iff}
use contract_kit.Inventory.{
  SketchDiagnostic, missing_file, bytes, SketchInventoryComparison, new_comparison, sort,
}
use contract_kit.SortedMap.{get, insert}
use contract_kit.Matcher.{
  SourceCatalog, location, check, group, poll_groups, check_groups, append_diagnostics,
  check_sketches, report,
}
use contract_kit.Matcher.Counting.{Accounted, check_counts}
use contract_kit.Diff.{diff_against}
use contract_kit.Diff.Digest.{contract_digest_of}
use contract_kit.Evidence.{new, escape_default}
use contract_kit.Evidence.Measured.{escapes, quotes, measure_and_write, measure-materialize}
use contract_kit.Diff.Framing.{write_normalized-injective}
use contract_kit.Diff.{SketchDigestEncoder, write_normalized, write_lines, write_count, write_field}
use contract_kit.Diff.Merge.{entry_at, difference, diff_entries}
use contract_kit.Catalog
use contract_kit.Catalog.{FileCatalog, record_catalog}
use contract_kit.Catalog.Meter.{CatalogFits, content_bytes, record_catalog_outcome}
use contract_kit.Limits.Output
use contract_kit.Limits.Output.{
  Json, DiagnosticReservation, reserve, preflight_count, write_comma, write_pieces, write,
}
use contract_kit.Limits.Output.Accounting.{comma, sum, reserve_charges}
use contract_kit.Matching.{evaluate, evaluate_from, matches_at, compare_window, best_candidate}
use contract_kit.Matching.Cost.{Spent, Exceeds}
use contract_kit.Matching.Reference.{occurrences, occurs_at, is_prefix}
use contract_kit.Matching.Search.{judge}
use contract_kit.Matching.Nearest.{Nearest}
use contract_kit.Matching.Candidate.{best_candidate_outcome}
use contract_kit.Matching.Outcome.{starts, evaluate_outcome, evaluate_total}

abbrev file : CatalogPath
file = record { value = text "src/lib.rs" }

abbrev limits : MatchingLimits
limits = Matching.default

abbrev idle : Work
idle = record { cancellation = uncancelled; usage = Matching.usage }

-- The line `a`, and the lines `a`, `b`, `a`.
abbrev one_line : NormalizedSnippet
one_line = record { bytes = text "a"; lines = (record { start = 0; end = 1 }) ∷ [] }

abbrev three_lines : NormalizedSnippet
three_lines = record {
  bytes = text "a\nb\na";
  lines =
      (record { start = 0; end = 1 })
      ∷ (record { start = 2; end = 3 })
      ∷ (record { start = 4; end = 5 })
      ∷ [];
}

evaluate_outcome_example :
    Ensures
      (Exceeds limits file
        (line_count three_lines * line_count one_line)
        (length (starts one_line three_lines))
        idle)
      (λ r w'.
        (r ≡ judge exactly_one (line_count one_line) 32 (starts one_line three_lines))
        × Spent limits file
            (line_count three_lines * line_count one_line)
            (length (starts one_line three_lines))
            idle
            w')
      (evaluate limits one_line three_lines file exactly_one 32 idle)
evaluate_outcome_example =
    evaluate_outcome limits one_line three_lines file exactly_one 32 idle
      (record { comparisons_bounded = omega arith; candidates_bounded = omega arith })
      (record { comparisons_within = omega arith; candidates_within = omega arith })

evaluate_total_example :
    (w' : Work) × (evaluate limits one_line three_lines file at_least_one 32 idle
      ≡ ok (judge at_least_one (line_count one_line) 32 (starts one_line three_lines), w'))
unfolding occurrences occurs_at is_prefix cmp_list
evaluate_total_example =
    evaluate_total limits one_line three_lines file at_least_one 32 idle
      (record { comparisons_bounded = omega arith; candidates_bounded = omega arith }) refl
      (omega arith) (omega arith)

-- A snippet that differs from each line of the source.
abbrev other_line : NormalizedSnippet
other_line = record { bytes = text "c"; lines = (record { start = 0; end = 1 }) ∷ [] }

best_candidate_outcome_example :
    Ensures
      (Exceeds limits file (line_count three_lines * line_count other_line) 0 idle)
      (λ position w'.
        Nearest limits other_line three_lines file position
        × Spent limits file (line_count three_lines * line_count other_line) 0 idle w')
      (best_candidate limits other_line three_lines file idle)
best_candidate_outcome_example =
    best_candidate_outcome limits other_line three_lines file idle
      (record { comparisons_bounded = omega arith; candidates_bounded = omega arith })
      (record { comparisons_within = omega arith; candidates_within = omega arith })

normalize_source_outcome_example :
    Ensures
      (Fails (source limits file) (canonical (text "a\r\nb\n")) idle)
      (Normal (text "a\r\nb\n") idle)
      (normalize_source exact_lines_v1 (text "a\r\nb\n") limits file idle)
normalize_source_outcome_example =
    normalize_source_outcome limits file (text "a\r\nb\n") idle
      (record { bytes_bounded = omega arith; lines_bounded = omega arith })

normalize_snippet_total_example :
    (n : NormalizedSnippet) × (w' : Work) × (normalize_snippet exact_lines_v1
        (text "a\r\nb\n")
        limits
        file
        idle
      ≡ ok (n, w'))
    × Normal (text "a\r\nb\n") idle n w'
unfolding canonical fold_crlf drop_final_newline split_lines
normalize_snippet_total_example =
    normalize_snippet_total limits file (text "a\r\nb\n") idle
      (record { bytes_bounded = omega arith; lines_bounded = omega arith }) refl (omega arith)
      (omega arith)

-- The two lines `a` and `b`, as they are stored.
abbrev two_lines : NormalizedSnippet
two_lines = record {
  bytes = text "a\nb";
  lines = (record { start = 0; end = 1 }) ∷ (record { start = 2; end = 3 }) ∷ [];
}

normalize_source-equal_lines_example :
    (equal_lines two_lines two_lines ≡ true)
    ↔ (canonical (text "a\r\nb\r\n") ≡ canonical (text "a\nb"))
unfolding normalize_source from_bytes scan_bytes visit push_byte store_byte first_line validate_line
    validate_bytes validate checkpoint_at checkpoint is_cancelled
normalize_source-equal_lines_example =
    normalize_source-equal_lines limits file (text "a\r\nb\r\n") (text "a\nb") idle idle idle idle
      two_lines two_lines (record { bytes_bounded = omega arith; lines_bounded = omega arith }) refl
      refl

crlf-equals_lf_example : equal_lines two_lines two_lines ≡ true
unfolding normalize_source from_bytes scan_bytes visit push_byte store_byte first_line validate_line
    validate_bytes validate checkpoint_at checkpoint is_cancelled
crlf-equals_lf_example =
    crlf-equals_lf limits file (text "a") (text "b" ∷ []) idle idle idle idle two_lines two_lines
      (record { bytes_bounded = omega arith; lines_bounded = omega arith })
      (((refl, refl), tt), (((refl, refl), tt), tt)) refl refl

abbrev contract : Text → NormalizedSnippet → SketchContract
contract id code = record {
  id = record { value = id };
  locator = record { contract_file = record { value = text "a.yaml" }; document_index = 0 };
  file = file;
  linked_signature = record { value = text "f" };
  signature_type = record { value = text "fn" };
  policy = record { normalization = exact_lines_v1; occurrence = at_least_one };
  snippet = record { normalized = code };
}

abbrev contracts : List SketchContract → SketchContracts
contracts entries = record { entries = entries; contract_document_count = length entries }

-- A serializer that writes one piece of ten bytes.
abbrev ten_bytes : Json SketchDiagnostic
ten_bytes = record { pieces = λ d. 10 ∷ []; failure = λ d. none }

abbrev sources : SourceCatalog
sources = record {
  files = (file, text "a\nb") ∷ [];
  source_catalog_entry_count = 1;
  referenced_source_file_count = 1;
}

-- What a check of one sketch that matches counts.
abbrev one_matched : SketchInventoryComparison
one_matched = record {
  counts = record {
    source_catalog_entry_count = 1;
    referenced_source_file_count = 1;
    present_referenced_source_file_count = 1;
    contract_document_count = 1;
    sketch_count = 1;
    matched_sketch_count = 1;
    failed_sketch_count = 0;
  };
  diagnostics = [];
}

check_counts_example :
    Accounted Output.default limits sources.files
      (contracts (contract (text "x") one_line ∷ []))
      one_matched
unfolding check group poll_groups check_groups append_diagnostics check_sketches report evaluate
    evaluate_from matches_at compare_window record_line_comparison record_occurrence_candidate
    normalize_source from_bytes scan_bytes visit push_byte store_byte first_line validate_line
    validate_bytes validate checkpoint_at checkpoint is_cancelled cmp_list get insert new_comparison
    sort Output.new
check_counts_example =
    check_counts ten_bytes Output.default limits sources
      (contracts (contract (text "x") one_line ∷ [])) idle
      (record {
        cancellation = uncancelled;
        usage = record { line_comparisons = 1; occurrence_candidates = 1 };
      })
      one_matched refl

abbrev no_hash : Bytes → Bytes
no_hash input = []

abbrev current_x : SketchContracts
current_x = contracts (contract (text "x") one_line ∷ [])

abbrev previous_none : SketchContracts
previous_none = contracts []

diff_entries_example :
    Ensures
      (Interrupted idle)
      (λ r w'.
        ((r.contract_digest ≡ contract_digest_of no_hash current_x)
          × ((id : SketchId)
              → entry_at id r.entries
                ≡ difference no_hash
                    (find_id id current_x.entries)
                    (find_id id previous_none.entries)))
        × Polled idle w')
      (diff_against no_hash current_x previous_none idle)
diff_entries_example = diff_entries no_hash current_x previous_none idle (tt, tt) tt

abbrev two_files : FileCatalog
two_files = record {
  files = (record { value = text "a" }, text "12") ∷ (record { value = text "b" }, text "3") ∷ [];
}

record_catalog_outcome_example :
    Ensures
      (λ e. Interrupted idle e ⊎ ¬ CatalogFits Catalog.default two_files Catalog.usage)
      (λ v _.
        (v.entries ≡ 0 + length two_files.files)
        × (v.total_bytes ≡ 0 + content_bytes two_files.files)
        × CatalogFits Catalog.default two_files Catalog.usage)
      (record_catalog Catalog.default two_files Catalog.usage idle)
record_catalog_outcome_example =
    record_catalog_outcome Catalog.default two_files Catalog.usage idle
      (record {
        entries_bounded = omega arith;
        total_bounded = omega arith;
        file_bounded = omega arith;
      })
      (omega arith)

abbrev reserved : DiagnosticReservation
reserved = record { previous_count = 1; previous_bytes = 12; next_count = 2; next_bytes = 26 }

abbrev missing_x : SketchDiagnostic
missing_x = missing_file (location file (contract (text "x") one_line))

reserve_charges_example :
    (reserved.next_count ≡ 1 + 1)
    × (reserved.next_bytes ≡ 12 + comma 1 + sum (ten_bytes.pieces missing_x) + 3)
    × reserved.next_count ≤ 10000
    × reserved.next_bytes ≤ 16777216
unfolding reserve preflight_count write_comma write_pieces write
reserve_charges_example =
    reserve_charges ten_bytes missing_x 3 Output.default (some file)
      (record { count = 1; total = 12 }) reserved (omega arith) (omega arith) (omega arith) refl

-- Two diagnostics in the wrong order.
abbrev missing_w : SketchDiagnostic
missing_w = missing_file (location file (contract (text "w") one_line))

abbrev seed : SketchSeed
seed = record {
  contract_file = record { value = text "a.yaml" };
  document_index = 0;
  sketch_id = text "x";
  signature_type = text "fn ";
  file = file;
  code = text "a";
}

validate_seed_iff_example :
    (validate_seed (contract (text "x") one_line) seed (record { value = text "x" }) ≡ ok tt) ↔ (
      is_empty (trim (text "fn ")) ≡ false
      × seed.contract_file ≡ (contract (text "x") one_line).locator.contract_file
      × seed.document_index ≡ (contract (text "x") one_line).locator.document_index
      × file ≡ file
      × text "fn " ≡ text "fn")
validate_seed_iff_example =
    validate_seed_iff (contract (text "x") one_line) seed (record { value = text "x" })

new_id_iff_example : (new_id (text "x y") 3 ≡ ok (record { value = text "x y" })) ↔ (
    is_empty (text "x y") ≡ false
    × trim (text "x y") ≡ text "x y"
    × byte_len (text "x y") ≤ 3
    × Printable (text "x y"))
new_id_iff_example = new_id_iff (text "x y") 3

-- The encoder behind the code of one line `a`.
abbrev code_a : SketchDigestEncoder
code_a = record {
  written =
      0 ∷ 0 ∷ 0 ∷ 0 ∷ 0 ∷ 0 ∷ 0 ∷ 8 ∷ 0 ∷ 0 ∷ 0 ∷ 0 ∷ 0 ∷ 0 ∷ 0 ∷ 1 ∷ 0 ∷ 0 ∷ 0 ∷ 0 ∷ 0 ∷ 0 ∷ 0 ∷ 1
      ∷ b'a' ∷ [];
}

write_normalized-injective_example : lines one_line ≡ lines one_line
unfolding write_normalized write_lines write_count write_field checkpoint_at checkpoint is_cancelled
write_normalized-injective_example =
    write_normalized-injective one_line one_line (record { written = [] }) code_a code_a idle idle
      idle (omega arith, tt) (omega arith, tt) refl refl refl

measure-materialize_example :
    Ensures
      (Interrupted idle)
      (λ r w'.
        ((r.1 ≡ bytes (escapes (take (min 3 2) (text "a\"b"))) (ltb 2 3))
          × (r.0.escaped_bytes ≡ length (escapes (take (min 3 2) (text "a\"b"))))
          × (r.0.additional_json_bytes
              ≡ length (escapes (take (min 3 2) (text "a\"b")))
                + quotes (escapes (take (min 3 2) (text "a\"b")))))
        × Polled idle w')
      (measure_and_write (new (some (text "a\"b")) 2) idle)
unfolding escape_default
measure-materialize_example = measure-materialize (text "a\"b") 2 idle (omega arith)

abbrev unsorted : List SketchDiagnostic
unsorted = missing_x ∷ missing_w ∷ []

new_comparison-AllAscend_example :
    Perm (new_comparison 1 1 1 1 2 0 unsorted).diagnostics unsorted
    × AllAscend (new_comparison 1 1 1 1 2 0 unsorted).diagnostics
new_comparison-AllAscend_example = new_comparison-AllAscend 1 1 1 1 2 0 unsorted

new-IsName_example : (Path.new (text "src/lib.rs") ≡ ok file) ↔ (
    is_empty (text "src/lib.rs") ≡ false
    × starts_with b'/' (text "src/lib.rs") ≡ false
    × Without b'\\' (text "src/lib.rs")
    × Without b':' (text "src/lib.rs")
    × Without 0 (text "src/lib.rs")
    × All IsName (split b'/' (text "src/lib.rs")))
new-IsName_example = new-IsName (text "src/lib.rs")
