-- ===== src/Resolve/Declared.antt =====
-- What one sketch or one signature of a document is read as.
use contract_kit.Prelude.{ℕ, ◌≡◌, refl, not, Option, none, some, arith}
use contract_kit.Prelude.Results.{Result, ok, err, map_err, Result-cases, map_err-ok}
use contract_kit.Prelude.Results as Results
use contract_kit.SortedMap.{contains_key}
use contract_kit.Text.{Text, trim}
use contract_kit.Path
use contract_kit.Path.{CatalogPath, path_ord, FileCatalogError}
use contract_kit.Error.{
  Location, Subject, invalid_sketch_id, sketch_declaration, signature_link, parse_failed,
  invalid_file, of_sketch, of_signature, references_unlisted_file,
}
use contract_kit.Limits.Matching.{MatchingLimits, sketch_id_maximum}
use contract_kit.Work.{checkpoint}
use contract_kit.Work.Outcome.{
  Yields, Yields-after, Yields-lift, Yields-pure, Yields-returned, Returns,
}
use contract_kit.Contract.{
  SketchId, new_id, no_control, ContractDocumentLocator, SignatureLabel, new_label, SignatureType,
  new_type, new_snippet,
}
use contract_kit.Diff.{as_bytes}
use contract_kit.Document.{SketchYamlInput, SketchSemanticSignature}
use contract_kit.Resolve.{
  ContractFiles, SignatureIndexEntry, SketchDeclaration, index_signature, declare_sketch, linked_id,
  refuse_if,
}

new_label-value :
    (value : Text) (location : Location) (label : SignatureLabel)
    → new_label value location ≡ ok label
    → label.value ≡ trim value
unfolding new_label
new_label-value value location label h = ground arith

new_type-value :
    (value : Text) (location : Location) (subject : Subject) (t : SignatureType)
    → new_type value location subject ≡ ok t
    → t.value ≡ trim value
unfolding new_type
new_type-value value location subject t h = ground arith

no_control-value :
    (value : Text) (o : Option ℕ) (id : SketchId) → no_control value o ≡ ok id → id.value ≡ value
no_control-value value none id h = ground arith
no_control-value value (some n) id h = absurd (ground arith)

pub new_id-value :
    (value : Text) (maximum : ℕ) (id : SketchId) → new_id value maximum ≡ ok id → id.value ≡ value
unfolding new_id
new_id-value value maximum id h = ground (arith, no_control-value value)

new-value : (value : Text) (path : CatalogPath) → Path.new value ≡ ok path → path.value ≡ value
unfolding Path.new
new-value value path h = go (Path.validate value) h
  where
    go :
        (r : Result FileCatalogError (Unit {0}))
        → (Results.◌>>=◌ r λ _. ok (record { value = value })) ≡ ok path
        → path.value ≡ value
    go (ok t) e = ground arith
    go (err x) e = absurd (ground arith)

-- What a declared sketch is read as: its texts, trimmed where the source trims them, and the
-- snippet that normalizing its code returned.
pub record Declares (limits : MatchingLimits) (at : ContractDocumentLocator × SketchYamlInput)
    (d : SketchDeclaration) : Type 0 where
  pub same_id : d.id.value ≡ at.1.id
  pub same_locator : d.locator ≡ at.0
  pub same_file : d.file.value ≡ at.1.file
  pub same_signature : d.signature.value ≡ trim at.1.signature
  pub same_type : d.signature_type.value ≡ trim at.1.signature_type
  pub same_policy : d.policy ≡ at.1.matching
  pub normalized_code :
      Returns
        (new_snippet (as_bytes at.1.code) at.1.matching.normalization at.0 d.id.value limits)
        d.snippet

pub declare_sketch-Declares :
    (value : SketchYamlInput) (locator : ContractDocumentLocator) (location : Location)
    (files : ContractFiles) (limits : MatchingLimits)
    → Yields (Declares limits (locator, value)) (declare_sketch value locator location files limits)
unfolding declare_sketch
declare_sketch-Declares value locator location files limits =
    let P = Declares limits (locator, value) in
    let maximum = sketch_id_maximum limits in
    Yields-after P checkpoint _ (λ _.
      Yields-lift P
        (map_err
          (invalid_sketch_id (sketch_declaration locator.contract_file locator.document_index))
          (new_id value.id maximum))
        _
        (λ id id_is. Yields-after P checkpoint _ (λ _.
          Yields-lift P
            (map_err (λ e. parse_failed location (invalid_file (of_sketch id.value) e))
              (Path.new value.file))
            _
            (λ file file_is.
              Yields-after P
                (refuse_if (not (contains_key file files))
                  (parse_failed location (references_unlisted_file (of_sketch id.value) file)))
                _
                (λ _. Yields-after P checkpoint _ (λ _.
                  Yields-lift P (new_label value.signature location) _ (λ label label_is.
                    Yields-lift P (new_type value.signature_type location (of_sketch id.value)) _
                      (λ type type_is. Yields-after P checkpoint _ (λ _.
                        Yields-returned P
                          (new_snippet (as_bytes value.code) value.matching.normalization locator
                            id.value limits)
                          _
                          (λ snippet snippet_is. Yields-pure P _ (record {
                            same_id = new_id-value _ _ id (map_err-ok _ _ id id_is);
                            same_locator = refl;
                            same_file = new-value _ file (map_err-ok _ _ file file_is);
                            same_signature = new_label-value _ _ label label_is;
                            same_type = new_type-value _ _ _ type type_is;
                            same_policy = refl;
                            normalized_code = snippet_is;
                          })))))))))))

-- The id that is read is the text that is there.
abbrev pub SameId : Option Text → Option SketchId → Type 0
SameId none none = Unit
SameId none (some id) = ⊥
SameId (some value) none = ⊥
SameId (some value) (some id) = id.value ≡ value

linked_id-SameId :
    (value : Option Text) (maximum : ℕ) (location : Location) (id : Option SketchId)
    → linked_id value maximum location ≡ ok id
    → SameId value id
unfolding linked_id
linked_id-SameId none maximum location none h = tt
linked_id-SameId none maximum location (some id) h = absurd (ground arith)
linked_id-SameId (some value) maximum location none h = absurd (ground arith)
linked_id-SameId (some value) maximum location (some id) h =
    new_id-value value maximum id (ground arith)

pub record Indexes (v : SketchSemanticSignature) (e : SignatureIndexEntry) : Type 0 where
  pub same_label : e.label.value ≡ trim v.label
  pub same_file : e.file.value ≡ v.file
  pub same_type : e.signature_type.value ≡ trim v.signature_type
  pub same_link : SameId v.sketch e.sketch_id

pub index_signature-Indexes :
    (value : SketchSemanticSignature) (name : CatalogPath) (location : Location)
    (files : ContractFiles) (limits : MatchingLimits)
    → Yields (Indexes value) (index_signature value name location files limits)
unfolding index_signature
index_signature-Indexes value name location files limits =
    let P = Indexes value in
    Yields-after P checkpoint _ (λ _.
      Yields-lift P (new_label value.label location) _ (λ label label_is.
        Yields-after P checkpoint _ (λ _.
          Yields-lift P
            (map_err (λ e. parse_failed location (invalid_file (of_signature label.value) e))
              (Path.new value.file))
            _
            (λ file file_is.
              Yields-after P
                (refuse_if (not (contains_key file files)) (
                  parse_failed location (references_unlisted_file (of_signature label.value) file)))
                _
                (λ _.
                  Yields-lift P (new_type value.signature_type location (of_signature label.value))
                    _
                    (λ type type_is. Yields-after P checkpoint _ (λ _.
                      Yields-lift P
                        (linked_id value.sketch (sketch_id_maximum limits)
                          (signature_link name label.value))
                        _
                        (λ id id_is. Yields-pure P _ (record {
                          same_label = new_label-value _ _ label label_is;
                          same_file = new-value _ file (map_err-ok _ _ file file_is);
                          same_type = new_type-value _ _ _ type type_is;
                          same_link = linked_id-SameId value.sketch _ _ id id_is;
                        })))))))))
