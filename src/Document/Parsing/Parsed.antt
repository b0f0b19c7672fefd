-- ===== src/Document/Parsing/Parsed.antt =====
-- What the parsed contract files of a catalog are.
use contract_kit.Prelude.{
  ℕ, ◌+◌, ◌-◌, ◌≡◌, ◌≤◌, refl, true, false, not, ◌&&◌, Option, none, some, List, [], ◌∷◌, arith,
  length, ◌==◌, ==_iff,
}
use contract_kit.Prelude.Results.{ok, map_err, map_err-ok}
use contract_kit.SortedMap.{SortedMap}
use contract_kit.Text.{Text}
use contract_kit.Path.{CatalogPath, path_ord}
use contract_kit.Error.{Location, document, limit_error, parse_failed, in_file, invalid_utf8}
use contract_kit.Limits.{charge}
use contract_kit.Limits.Yaml.{
  YamlBudget, RawYamlReport, BudgetReport, record_replay_report, semantic_parser_budget,
  semantic_alias_limits,
}
use contract_kit.Limits.Yaml.Metering.{IsBounded, Holds}
use contract_kit.Work.{checkpoint, checkpoint_at}
use contract_kit.Work.Outcome.{
  Yields, Yields-after, Yields-lift, Yields-pure, Yields-bind, Yields-refusing,
}
use contract_kit.Normalize.{Bytes}
use contract_kit.Document.{
  SketchSignatureInput, SketchYamlDocumentInput, SketchSemanticSignature, SketchContractDocument,
  SketchContractFile, signature_from_entry, signatures_from_entries, document_from_input,
  documents_from_inputs, same_version, is_none, is_nil,
}
use contract_kit.Document.Stream.{DocumentStream, inspect}
use contract_kit.Document.Stream.Accepted.{Accepts, inspect-Yields}
use contract_kit.Document.Parsing.{
  YamlLibrary, parse_file, parse_inspected, typed_error, required_report,
}

-- The one signature of each entry, with its name.
abbrev pub Names :
    List (SortedMap Text SketchSignatureInput) → List SketchSemanticSignature → Type 0
Names [] [] = Unit
Names (((label, input) ∷ []) ∷ entries) (s ∷ ss) =
    (s ≡ record {
      label = label;
      file = input.file;
      signature_type = input.signature_type;
      sketch = input.sketch;
    })
    × Names entries ss
Names _ _ = ⊥

-- What a document is read from.
pub record Reads (index : ℕ) (input : SketchYamlDocumentInput) (d : SketchContractDocument)
    : Type 0 where
  pub at_index : d.index ≡ index
  pub version : input.contract_version ≡ some 2
  pub extracted : is_nil input.signatures ≡ false → is_none input.extraction ≡ false
  pub same_root : d.semantic.root ≡ input.root
  pub same_files : d.semantic.files ≡ input.files
  pub same_sketches : d.semantic.sketches ≡ input.sketches
  pub named : Names input.signatures d.semantic.signatures

-- Document by document, with their indices.
abbrev pub ReadsAll : ℕ → List SketchYamlDocumentInput → List SketchContractDocument → Type 0
ReadsAll index [] [] = Unit
ReadsAll index (input ∷ inputs) (d ∷ ds) = Reads index input d × ReadsAll (index + 1) inputs ds
ReadsAll index _ _ = ⊥

signature_from_entry-Names :
    (entry : SortedMap Text SketchSignatureInput) (location : Location)
    (s : SketchSemanticSignature) (entries : List (SortedMap Text SketchSignatureInput))
    (ss : List SketchSemanticSignature)
    → signature_from_entry entry location ≡ ok s
    → Names entries ss
    → Names (entry ∷ entries) (s ∷ ss)
unfolding signature_from_entry
signature_from_entry-Names [] location s entries ss h n = absurd (ground arith)
signature_from_entry-Names ((label, input) ∷ []) location s entries ss h n = (ground arith, n)
signature_from_entry-Names (e ∷ f ∷ more) location s entries ss h n = absurd (ground arith)

signatures_from_entries-Names :
    (index : ℕ) (entries : List (SortedMap Text SketchSignatureInput)) (location : Location)
    → Yields (Names entries) (signatures_from_entries index entries location)
unfolding signatures_from_entries
signatures_from_entries-Names index [] location = Yields-pure (Names []) [] tt
signatures_from_entries-Names index (entry ∷ rest) location =
    let P = Names (entry ∷ rest) in
    Yields-after P (checkpoint_at index) _ (λ _.
      Yields-lift P (signature_from_entry entry location) _ (λ s is.
        Yields-bind (Names rest) P (signatures_from_entries (index + 1) rest location) _
          (signatures_from_entries-Names (index + 1) rest location)
          (λ ss named.
            Yields-pure P (s ∷ ss) (signature_from_entry-Names entry location s rest ss is named))))

same_version-eq : (v : Option ℕ) → same_version v ≡ true → v ≡ some 2
same_version-eq none h = absurd (ground arith)
same_version-eq (some n) h = let e = (==_iff n 2).0 h in rw e refl

document_from_input-Reads :
    (input : SketchYamlDocumentInput) (path : CatalogPath) (index : ℕ)
    → Yields (Reads index input) (document_from_input input path index)
unfolding document_from_input
document_from_input-Reads input path index =
    let P = Reads index input in
    Yields-after P (checkpoint_at index) _ (λ _.
      Yields-refusing P (not (same_version input.contract_version)) _ _ (λ version.
        Yields-refusing P (not (is_nil input.signatures) && is_none input.extraction) _ _
          (λ extracted.
            Yields-bind (Names input.signatures) P
              (signatures_from_entries 0 input.signatures (document path index)) _
              (signatures_from_entries-Names 0 input.signatures (document path index))
              (λ ss named. Yields-pure P _ (record {
                at_index = refl;
                version = same_version-eq input.contract_version (ground arith);
                extracted = λ h. ground arith;
                same_root = refl;
                same_files = refl;
                same_sketches = refl;
                named = named;
              })))))

documents_from_inputs-ReadsAll :
    (index : ℕ) (inputs : List SketchYamlDocumentInput) (path : CatalogPath)
    → Yields (ReadsAll index inputs) (documents_from_inputs index inputs path)
unfolding documents_from_inputs
documents_from_inputs-ReadsAll index [] path = Yields-pure (ReadsAll index []) [] tt
documents_from_inputs-ReadsAll index (input ∷ rest) path =
    let P = ReadsAll index (input ∷ rest) in
    Yields-after P (checkpoint_at index) _ (λ _.
      Yields-bind (Reads index input) P (document_from_input input path index) _
        (document_from_input-Reads input path index)
        (λ d reads.
          Yields-bind (ReadsAll (index + 1) rest) P (documents_from_inputs (index + 1) rest path) _
            (documents_from_inputs-ReadsAll (index + 1) rest path)
            (λ ds more. Yields-pure P (d ∷ ds) (reads, more))))

-- A budget within its limits, which saturation does not reach.
pub record Fits (b : YamlBudget) : Type 0 where
  pub bounded : IsBounded b.limits
  pub documents_fit : b.documents ≤ b.limits.documents
  pub nodes_fit : b.nodes ≤ b.limits.nodes
  pub aliases_fit : b.aliases ≤ b.limits.aliases
  pub bytes_fit : b.materialized_scalar_bytes ≤ b.limits.alias_expansion_bytes

Holds-Fits : (b b' : YamlBudget) (total : RawYamlReport) → Fits b → Holds b total b' → Fits b'
Holds-Fits b b' total f h =
    let limits = h.limits_kept in
    let w = h.still_within in
    record {
      bounded = rw limits f.bounded;
      documents_fit = rw limits (omega (arith, h.documents_held, w.documents_within));
      nodes_fit = rw limits (omega (arith, h.nodes_held, w.nodes_within));
      aliases_fit = rw limits (omega (arith, h.aliases_held, w.aliases_within));
      bytes_fit = rw limits (omega (arith, h.bytes_held, w.bytes_within));
    }

replay-Fits :
    (path : CatalogPath) (raw : RawYamlReport) (report : BudgetReport) (b b' : YamlBudget)
    → Fits b
    → record_replay_report path raw report b ≡ ok b'
    → Fits b' × (b'.nodes ≡ b.nodes + (report.nodes - raw.nodes))
unfolding record_replay_report charge
replay-Fits path raw report b b' f h = ground arith

-- What one contract file is parsed from, and with which budgets before and behind it.
pub record Parses (y : YamlLibrary) (path : CatalogPath) (bytes : Bytes) (b : YamlBudget)
    (file : SketchContractFile) (b' : YamlBudget) : Type 0 where
  pub same_name : file.catalog_name ≡ path
  pub same_bytes : file.original_bytes ≡ bytes
  pub source : Text
  pub is_utf8 : y.from_utf8 bytes ≡ ok source
  pub stream : DocumentStream
  pub metered : YamlBudget
  pub inspected : Accepts y.core_suffix path (y.events source) b stream metered
  pub inputs : List SketchYamlDocumentInput
  pub typed :
      y.from_multiple source
        (semantic_parser_budget metered stream.raw_report)
        (semantic_alias_limits metered stream.raw_report)
      ≡ ok inputs
  pub as_many : length inputs ≡ stream.document_count
  pub read : ReadsAll 0 inputs file.documents
  pub fits : Fits b'

-- The part of `parse` behind the inspection.
behind :
    (y : YamlLibrary) (path : CatalogPath) (bytes : Bytes) (b : YamlBudget)
    → Fits b
    → (source : Text) → y.from_utf8 bytes ≡ ok source
    → (stream : DocumentStream) (metered : YamlBudget)
    → Accepts y.core_suffix path (y.events source) b stream metered
    → Yields
        (λ r. Parses y path bytes b r.0 r.1)
        (parse_inspected y path bytes source stream metered)
unfolding parse_inspected
behind y path bytes b f source decoded stream metered accepted =
    let P : SketchContractFile × YamlBudget → Type 0 = λ r. Parses y path bytes b r.0 r.1 in
    let options = semantic_parser_budget metered stream.raw_report in
    let alias_limits = semantic_alias_limits metered stream.raw_report in
    Yields-after P checkpoint _ (λ _.
      Yields-lift P
        (map_err (typed_error path stream metered) (y.from_multiple source options alias_limits)) _
        (λ inputs parsed. Yields-after P checkpoint _ (λ _.
          Yields-lift P (required_report (y.budget_report source options alias_limits)) _
            (λ report _.
              Yields-lift P
                (map_err limit_error (record_replay_report path stream.raw_report report metered)) _
                (λ replayed recorded.
                  Yields-refusing P (not (length inputs == stream.document_count)) _ _ (λ same.
                    Yields-bind (ReadsAll 0 inputs) P (documents_from_inputs 0 inputs path) _
                      (documents_from_inputs-ReadsAll 0 inputs path)
                      (λ documents reads. Yields-pure P _ (record {
                        same_name = refl;
                        same_bytes = refl;
                        source = source;
                        is_utf8 = decoded;
                        stream = stream;
                        metered = metered;
                        inspected = accepted;
                        inputs = inputs;
                        typed = map_err-ok _ _ inputs parsed;
                        as_many = (==_iff _ _).0 (ground arith);
                        read = reads;
                        fits =
                            (replay-Fits path stream.raw_report report metered replayed
                              (Holds-Fits b metered _ f accepted.held)
                              (map_err-ok limit_error _ replayed recorded)).0;
                      }))))))))

pub parse_file-Parses :
    (y : YamlLibrary) (path : CatalogPath) (bytes : Bytes) (b : YamlBudget)
    → Fits b
    → Yields (λ r. Parses y path bytes b r.0 r.1) (parse_file y path bytes b)
unfolding parse_file
parse_file-Parses y path bytes b f =
    let P : SketchContractFile × YamlBudget → Type 0 = λ r. Parses y path bytes b r.0 r.1 in
    Yields-after P checkpoint _ (λ _.
      Yields-lift P
        (map_err (λ e. parse_failed (in_file path) (invalid_utf8 e)) (y.from_utf8 bytes)) _
        (λ source decoded. Yields-after P checkpoint _ (λ _.
          Yields-bind (λ r. Accepts y.core_suffix path (y.events source) b r.0 r.1) P
            (inspect y.core_suffix path (y.events source) b) _
            (inspect-Yields y.core_suffix path (y.events source) b f.bounded f.documents_fit
              f.nodes_fit f.aliases_fit f.bytes_fit)
            (λ r accepted.
              behind y path bytes b f source (map_err-ok _ _ source decoded) r.0 r.1 accepted))))
