-- ===== src/Resolve/Collecting.antt =====
-- What the loops over the documents collect: every sketch once, and every signature that links.
use mathlib.Core.List.{Perm, append_assoc}
use mathlib.Core.List.Perm
use contract_kit.Prelude.{
  ℕ, ◌+◌, ◌≡◌, refl, ap, ◌∙◌, Option, none, some, List, [], ◌∷◌, ◌++◌, All, All-append, Pointwise,
  Pointwise-append, append-nil, length, saturating_add,
}
use contract_kit.SortedMap.{SortedMap, get, insert, or_empty, contains_key}
use contract_kit.SortedMap.Contents.{
  values, members, Entries, IsSorted, insert-IsSorted, Entries-insert, Entries-get, values-insert,
  members-push_at, exchange,
}
use contract_kit.Text.{Text}
use contract_kit.Path.{CatalogPath, path_ord}
use contract_kit.Limits.Matching.{
  MatchingLimits, validate_sketch_count, validate_signature_index_entry_count,
}
use contract_kit.Error.{Location, parse_failed, duplicate_signature_label}
use contract_kit.Work.{M, ◌>>=◌, lift, limited, checkpoint, checkpoint_at}
use contract_kit.Work.Outcome.{Yields, Yields-after, Yields-pure, Yields-bind, Yields-weaken}
use contract_kit.Contract.{SketchId, id_ord, ContractDocumentLocator, shown, SignatureLabel}
use contract_kit.Document.{
  SketchYamlInput, SketchSemanticSignature, SketchContractDocument, SketchContractFile,
}
use contract_kit.Resolve.{
  ContractFiles, SignatureIndexEntry, SignatureLink, SketchDeclaration, Collected, into_link,
  add_link, collect_signatures, collect_sketches, collect_documents, collect_files, refuse_if,
  refuse_duplicate, declare_sketch, index_signature, contract_files, validate_root, label_ord,
}
use contract_kit.Resolve.Placed.{
  Placed, place, if_linking, linking, locator_of, sketches_of_documents, links_of_documents,
  sketches_of, links_of, LinksAs,
}
use contract_kit.Resolve.Declared.{
  Declares, declare_sketch-Declares, Indexes, index_signature-Indexes, SameId,
}

-- Sketches and links stand at the ids that they are of.
pub record IsKeyed (c : Collected) : Type 0 where
  pub sorted : IsSorted c.sketches
  pub sketches_keyed : Entries (λ k d. d.id ≡ k) c.sketches
  pub links_keyed : Entries (λ k ls. All (λ l. l.sketch_id ≡ k) ls) c.links

-- From one state to a later one, these sketches and links were read and added, and no others.
pub record Collects (limits : MatchingLimits) (sketches : List (Placed SketchYamlInput))
    (signatures : List (Placed SketchSemanticSignature)) (c c' : Collected) : Type 0 where
  pub declarations : List SketchDeclaration
  pub links : List SignatureLink
  pub declared : Pointwise (Declares limits) sketches declarations
  pub linked : Pointwise LinksAs signatures links
  pub more_sketches : Perm (values c'.sketches) (declarations ++ values c.sketches)
  pub more_links : Perm (members c'.links) (links ++ members c.links)
  pub keyed : IsKeyed c'

Perm-later {ℓ} :
    {A : Type ℓ} (xs ys a b c : List A)
    → Perm b (xs ++ a)
    → Perm c (ys ++ b)
    → Perm c ((xs ++ ys) ++ a)
Perm-later xs ys a b c p q = Perm.trans q (
    Perm.trans (Perm.append_left ys p)
      (Perm.trans (exchange ys xs a) (rw (append_assoc xs ys a) (Perm.refl _))))

found_keyed :
    (k : SketchId) (links : SortedMap SketchId (List SignatureLink))
    → Entries (λ j ls. All (λ l. l.sketch_id ≡ j) ls) links
    → All (λ l. l.sketch_id ≡ k) (or_empty (get k links))
found_keyed k links h = go (get k links) (λ ls e. Entries-get _ k ls links h e)
  where
    go :
        (found : Option (List SignatureLink))
        → ((ls : List SignatureLink) → found ≡ some ls → All (λ l. l.sketch_id ≡ k) ls)
        → All (λ l. l.sketch_id ≡ k) (or_empty found)
    go none f = tt
    go (some ls) f = f ls refl

module _ {limits : MatchingLimits} where
  Collects-nil : (c : Collected) → IsKeyed c → Collects limits [] [] c c
  Collects-nil c k = record {
    declarations = [];
    links = [];
    declared = tt;
    linked = tt;
    more_sketches = Perm.refl _;
    more_links = Perm.refl _;
    keyed = k;
  }

  Collects-append :
      (s s' : List (Placed SketchYamlInput)) (g g' : List (Placed SketchSemanticSignature))
      (a b c : Collected)
      → Collects limits s g a b
      → Collects limits s' g' b c
      → Collects limits (s ++ s') (g ++ g') a c
  Collects-append s s' g g' a b c h k = record {
    declarations = h.declarations ++ k.declarations;
    links = h.links ++ k.links;
    declared = Pointwise-append _ s s' _ _ h.declared k.declared;
    linked = Pointwise-append _ g g' _ _ h.linked k.linked;
    more_sketches = Perm-later _ _ _ _ _ h.more_sketches k.more_sketches;
    more_links = Perm-later _ _ _ _ _ h.more_links k.more_links;
    keyed = k.keyed;
  }

  -- One more sketch, at a new id.
  add_sketch :
      (at : Placed SketchYamlInput) (d : SketchDeclaration) (c : Collected)
      → IsKeyed c
      → Declares limits at d
      → get d.id c.sketches ≡ none
      → Collects limits (at ∷ []) [] c (record c { sketches = insert d.id d c.sketches })
  add_sketch at d c k h new = record {
    declarations = d ∷ [];
    links = [];
    declared = (h, tt);
    linked = tt;
    more_sketches = values-insert d.id d c.sketches new;
    more_links = Perm.refl _;
    keyed = record {
      sorted = insert-IsSorted d.id d c.sketches k.sorted;
      sketches_keyed = Entries-insert _ d.id d c.sketches refl k.sketches_keyed;
      links_keyed = k.links_keyed;
    };
  }

  -- One more signature, with its link if it has one.
  add_signature :
      (locator : ContractDocumentLocator) (v : SketchSemanticSignature) (e : SignatureIndexEntry)
      (c : Collected) (count : ℕ)
      → IsKeyed c
      → Indexes v e
      → Collects limits [] (if_linking locator v v.sketch) c (record c {
        links = add_link (into_link e e.sketch_id locator) c.links;
        signature_count = count;
      })
  add_signature locator v e c count k h = go v.sketch e.sketch_id h.same_link refl
    where
      go :
          (vs : Option Text) (es : Option SketchId)
          → SameId vs es
          → vs ≡ v.sketch
          → Collects limits [] (if_linking locator v vs) c (record c {
            links = add_link (into_link e es locator) c.links;
            signature_count = count;
          })
      go none none same is = record {
        declarations = [];
        links = [];
        declared = tt;
        linked = tt;
        more_sketches = Perm.refl _;
        more_links = Perm.refl _;
        keyed = record {
          sorted = k.sorted;
          sketches_keyed = k.sketches_keyed;
          links_keyed = k.links_keyed;
        };
      }
      go none (some id) same is = absurd same
      go (some t) none same is = absurd same
      go (some t) (some id) same is =
          let link : SignatureLink = record {
            label = e.label;
            locator = locator;
            file = e.file;
            signature_type = e.signature_type;
            sketch_id = id;
          } in
          record {
            declarations = [];
            links = link ∷ [];
            declared = tt;
            linked = (
              record {
                same_label = h.same_label;
                same_place = refl;
                same_file = h.same_file;
                same_type = h.same_type;
                same_sketch = ap some same ∙ is;
              },
              tt,
            );
            more_sketches = Perm.refl _;
            more_links = members-push_at id link c.links;
            keyed = record {
              sorted = k.sorted;
              sketches_keyed = k.sketches_keyed;
              links_keyed =
                  Entries-insert _ id _ c.links
                    (All-append _ (or_empty (get id c.links)) (link ∷ [])
                      (found_keyed id c.links k.links_keyed) (refl, tt))
                    k.links_keyed;
            };
          }

-- The step that refuses an id that is taken.
Yields-new :
    {B : Type 0} (limits : MatchingLimits) (Q : B → Type 0) (id : SketchId) (location : Location)
    (found : Option SketchDeclaration) (k : M B)
    → (found ≡ none → Yields Q k)
    → Yields Q (refuse_duplicate limits id location found >>= λ _. k)
unfolding Yields
Yields-new limits Q id location none k h w = h refl w
Yields-new limits Q id location (some previous) k h w = tt

module _ (limits : MatchingLimits) where
  collect_signatures-Collects :
      (locator : ContractDocumentLocator) (files : ContractFiles) (index : ℕ)
      (vs : List SketchSemanticSignature) (labels : SortedMap SignatureLabel (Unit {0}))
      (c : Collected)
      → IsKeyed c
      → Yields
          (Collects limits [] (linking locator vs) c)
          (collect_signatures limits locator files index vs labels c)
  unfolding collect_signatures
  collect_signatures-Collects locator files index [] labels c k = Yields-pure _ c (Collects-nil c k)
  collect_signatures-Collects locator files index (v ∷ vs) labels c k =
      let P = Collects limits [] (linking locator (v ∷ vs)) c in
      let count = saturating_add c.signature_count 1 in
      Yields-after P (checkpoint_at index) _ (λ _.
        Yields-after P
          (limited (validate_signature_index_entry_count limits count (some locator.contract_file)))
          _
          (λ _.
            Yields-bind (Indexes v) P
              (index_signature v locator.contract_file (shown locator) files limits) _
              (index_signature-Indexes v locator.contract_file (shown locator) files limits)
              (λ e h.
                Yields-after P
                  (refuse_if (contains_key e.label labels)
                    (parse_failed (shown locator) (duplicate_signature_label e.label.value)))
                  _
                  (λ _.
                    let first = add_signature locator v e c count k h in
                    Yields-weaken _ P _
                      (collect_signatures-Collects locator files (index + 1) vs
                        (insert e.label tt labels) _ first.keyed)
                      (λ c' rest. Collects-append [] [] _ _ c _ c' first rest)))))

  collect_sketches-Collects :
      (locator : ContractDocumentLocator) (files : ContractFiles) (index : ℕ)
      (vs : List SketchYamlInput) (c : Collected)
      → IsKeyed c
      → Yields
          (Collects limits (place locator vs) [] c)
          (collect_sketches limits locator files index vs c)
  unfolding collect_sketches
  collect_sketches-Collects locator files index [] c k = Yields-pure _ c (Collects-nil c k)
  collect_sketches-Collects locator files index (v ∷ vs) c k =
      let P = Collects limits (place locator (v ∷ vs)) [] c in
      Yields-after P (checkpoint_at index) _ (λ _.
        Yields-bind (Declares limits (locator, v)) P
          (declare_sketch v locator (shown locator) files limits) _
          (declare_sketch-Declares v locator (shown locator) files limits)
          (λ d h. Yields-new limits P d.id (shown locator) (get d.id c.sketches) _ (λ new.
            Yields-after P
              (limited (
                validate_sketch_count limits (length (insert d.id d c.sketches))
                  (some locator.contract_file)))
              _
              (λ _.
                let first = add_sketch (locator, v) d c k h new in
                Yields-weaken _ P _
                  (collect_sketches-Collects locator files (index + 1) vs _ first.keyed)
                  (λ c' rest. Collects-append ((locator, v) ∷ []) _ [] [] c _ c' first rest)))))

  collect_documents-Collects :
      (name : CatalogPath) (ds : List SketchContractDocument) (c : Collected)
      → IsKeyed c
      → Yields
          (Collects limits (sketches_of_documents name ds) (links_of_documents name ds) c)
          (collect_documents limits name ds c)
  unfolding collect_documents
  collect_documents-Collects name [] c k = Yields-pure _ c (Collects-nil c k)
  collect_documents-Collects name (d ∷ ds) c k =
      let P =
        Collects limits (sketches_of_documents name (d ∷ ds)) (links_of_documents name (d ∷ ds))
          c in
      let at = locator_of name d in
      Yields-after P checkpoint _ (λ _.
        Yields-after P (lift (validate_root d.semantic (shown at))) _ (λ _.
          Yields-after P (contract_files 0 d.semantic.files (shown at) []) _ (λ files.
            Yields-bind _ P (collect_signatures limits at files 0 d.semantic.signatures [] c) _
              (collect_signatures-Collects at files 0 d.semantic.signatures [] c k)
              (λ c' signatures.
                Yields-bind _ P (collect_sketches limits at files 0 d.semantic.sketches c') _
                  (collect_sketches-Collects at files 0 d.semantic.sketches c' signatures.keyed)
                  (λ c'' sketches.
                    Yields-weaken _ P _ (collect_documents-Collects name ds c'' sketches.keyed)
                      (λ end rest.
                        Collects-append _ _ _ _ c c'' end
                          (rw (append-nil _) at
                            (Collects-append [] _ _ [] c c' c'' signatures sketches))
                          rest))))))

  pub collect_files-Collects :
      (files : SortedMap CatalogPath SketchContractFile) (c : Collected)
      → IsKeyed c
      → Yields
          (Collects limits (sketches_of files) (links_of files) c)
          (collect_files limits files c)
  unfolding collect_files
  collect_files-Collects [] c k = Yields-pure _ c (Collects-nil c k)
  collect_files-Collects ((name, file) ∷ rest) c k =
      let P =
        Collects limits (sketches_of ((name, file) ∷ rest)) (links_of ((name, file) ∷ rest)) c in
      Yields-bind _ P (collect_documents limits name file.documents c) _
        (collect_documents-Collects name file.documents c k)
        (λ c' first.
          Yields-weaken _ P _ (collect_files-Collects rest c' first.keyed)
            (λ end later. Collects-append _ _ _ _ c c' end first later))
