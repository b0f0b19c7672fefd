-- ===== src/Resolve/Linking.antt =====
-- Resolution of the contract files pairs every sketch with the one signature that names it.
use mathlib.Core.List.{Perm}
use mathlib.Core.List.Perm
use contract_kit.Prelude.{
  ℕ, ◌+◌, ◌≡◌, refl, ap, Option, none, some, List, [], ◌∷◌, ◌++◌, arith, All, Pointwise, true,
  append-nil,
}
use contract_kit.Prelude.Order.{===_iff, list_ord, nat_ord}
use contract_kit.Prelude.Results.{ok}
use contract_kit.SortedMap.{SortedMap, get, remove}
use contract_kit.SortedMap.Contents.{
  values, members, Entries, Front, IsSorted, Entries-get, Entries-remove, members-remove,
}
use contract_kit.Path.{CatalogPath, path_ord}
use contract_kit.Limits.Matching.{MatchingLimits}
use contract_kit.Work.{Work, checkpoint_at}
use contract_kit.Work.Outcome.{
  Yields, Yields-after, Yields-lift, Yields-pure, Yields-bind, Yields-ok,
}
use contract_kit.Contract.{
  SketchId, id_ord, ContractDocumentLocator, SketchContract, SketchContracts,
}
use contract_kit.Document.{SketchContractFile}
use contract_kit.Diff.Merge.{Above, Ascending}
use contract_kit.Resolve.{
  SignatureLink, SketchDeclaration, Collected, from_link, same_locator, check_link, link_sketch,
  link_sketches, refuse_remaining, document_count, resolve, collect_files,
}
use contract_kit.Resolve.Declared.{Declares}
use contract_kit.Resolve.Placed.{LinksAs, sketches_of, links_of}
use contract_kit.Resolve.Collecting.{collect_files-Collects}

-- A sketch, its link and their contract.
pub record Pairs (d : SketchDeclaration) (l : SignatureLink) (e : SketchContract) : Type 0 where
  pub from_both : e ≡ from_link d l
  pub same_sketch : l.sketch_id ≡ d.id
  pub same_document : l.locator ≡ d.locator
  pub same_file : l.file ≡ d.file
  pub same_label : l.label.value ≡ d.signature.value
  pub same_type : l.signature_type.value ≡ d.signature_type.value

-- The sketches, their links and their contracts, one by one.
abbrev pub Paired : List SketchDeclaration → List SignatureLink → List SketchContract → Type 0
Paired [] [] [] = Unit
Paired (d ∷ ds) (l ∷ ls) (e ∷ es) = Pairs d l e × Paired ds ls es
Paired _ _ _ = ⊥

pub same_locator-eq : (a b : ContractDocumentLocator) → same_locator a b ≡ true → a ≡ b
same_locator-eq a b h =
    let file = ===_iff a.contract_file b.contract_file in
    let index = ===_iff a.document_index b.document_index in ground (arith, file, index)

check_link-Pairs :
    (d : SketchDeclaration) (l : SignatureLink) (e : SketchContract)
    → l.sketch_id ≡ d.id
    → check_link d l ≡ ok e
    → Pairs d l e
unfolding check_link
check_link-Pairs d l e same h =
    let place = same_locator-eq l.locator d.locator in
    let file = ===_iff l.file d.file in
    let label = ===_iff l.label.value d.signature.value in
    let type = ===_iff l.signature_type.value d.signature_type.value in
    ground (arith, place, file, label, type)

link_sketch-Pairs :
    (d : SketchDeclaration) (found : Option (List SignatureLink)) (e : SketchContract)
    → ((ls : List SignatureLink) → found ≡ some ls → All (λ l. l.sketch_id ≡ d.id) ls)
    → link_sketch d found ≡ ok e
    → (l : SignatureLink) × (found ≡ some (l ∷ [])) × Pairs d l e
unfolding link_sketch
link_sketch-Pairs d none e keyed h = absurd (ground arith)
link_sketch-Pairs d (some []) e keyed h = absurd (ground arith)
link_sketch-Pairs d (some (l ∷ [])) e keyed h =
    (l, refl, check_link-Pairs d l e (keyed (l ∷ []) refl).0 h)
link_sketch-Pairs d (some (l ∷ m ∷ ls)) e keyed h = absurd (ground arith)

-- Some of the links are taken, one by each sketch, and the others remain.
abbrev Takes :
    SortedMap SketchId SketchDeclaration
    → SortedMap SketchId (List SignatureLink)
    → List SketchContract × SortedMap SketchId (List SignatureLink)
    → Type 0
Takes sketches links r =
    (taken : List SignatureLink) × Paired (values sketches) taken r.0
    × Perm (members links) (taken ++ members r.1)

link_sketches-Takes :
    (index : ℕ) (sketches : SortedMap SketchId SketchDeclaration)
    (links : SortedMap SketchId (List SignatureLink))
    → Entries (λ k d. d.id ≡ k) sketches
    → Entries (λ k ls. All (λ l. l.sketch_id ≡ k) ls) links
    → Yields (Takes sketches links) (link_sketches index sketches links)
unfolding link_sketches
link_sketches-Takes index [] links sk lk = Yields-pure _ ([], links) ([], tt, Perm.refl _)
link_sketches-Takes index ((k, d) ∷ rest) links sk lk =
    let P = Takes ((k, d) ∷ rest) links in
    Yields-after P (checkpoint_at index) _ (λ _.
      Yields-lift P (link_sketch d (get k links)) _ (λ e linked.
        let (l, found, pair) =
          link_sketch-Pairs d (get k links) e (λ ls is. rw sk.0 (Entries-get _ k ls links lk is))
            linked in
        Yields-bind _ P (link_sketches (index + 1) rest (remove k links)) _
          (link_sketches-Takes (index + 1) rest (remove k links) sk.1 (Entries-remove _ k links lk))
          (λ r later. Yields-pure P _ (
            l ∷ later.0,
            (pair, later.1),
            Perm.trans (members-remove k (l ∷ []) links found) (Perm.cons l later.2),
          ))))

refuse_remaining-nil :
    (links : SortedMap SketchId (List SignatureLink)) → refuse_remaining links ≡ ok tt → links ≡ []
unfolding refuse_remaining
refuse_remaining-nil [] h = refl
refuse_remaining-nil ((k, []) ∷ rest) h = absurd (ground arith)
refuse_remaining-nil ((k, l ∷ ls) ∷ rest) h = absurd (ground arith)

-- Contracts in the order of the map that their sketches stand in.
Paired-Above :
    (k : SketchId) (m : SortedMap SketchId SketchDeclaration) (ls : List SignatureLink)
    (es : List SketchContract)
    → Entries (λ j d. d.id ≡ j) m
    → Paired (values m) ls es
    → Front k m
    → Above k es
Paired-Above k [] [] [] keyed p f = tt
Paired-Above k [] [] (e ∷ es) keyed p f = absurd p
Paired-Above k [] (l ∷ ls) es keyed p f = absurd p
Paired-Above k ((j, d) ∷ m) [] es keyed p f = absurd p
Paired-Above k ((j, d) ∷ m) (l ∷ ls) [] keyed p f = absurd p
Paired-Above k ((j, d) ∷ m) (l ∷ ls) (e ∷ es) keyed p f =
    (rw (ap (λ c. c.id) p.0.from_both, keyed.0) f.0, Paired-Above k m ls es keyed.1 p.1 f.1)

Paired-Ascending :
    (m : SortedMap SketchId SketchDeclaration) (ls : List SignatureLink) (es : List SketchContract)
    → Entries (λ j d. d.id ≡ j) m
    → IsSorted m
    → Paired (values m) ls es
    → Ascending es
Paired-Ascending [] [] [] keyed s p = tt
Paired-Ascending [] [] (e ∷ es) keyed s p = absurd p
Paired-Ascending [] (l ∷ ls) es keyed s p = absurd p
Paired-Ascending ((j, d) ∷ m) [] es keyed s p = absurd p
Paired-Ascending ((j, d) ∷ m) (l ∷ ls) [] keyed s p = absurd p
Paired-Ascending ((j, d) ∷ m) (l ∷ ls) (e ∷ es) keyed s p = (
  rw (ap (λ c. c.id) p.0.from_both, keyed.0) (Paired-Above j m ls es keyed.1 p.1 s.0),
  Paired-Ascending m ls es keyed.1 s.1 p.1,
)

-- What the contract files resolve to.
pub record Resolves (limits : MatchingLimits) (files : SortedMap CatalogPath SketchContractFile)
    (r : SketchContracts) : Type 0 where
  -- The sketches of the files and the signatures that name one, as they are read, in file order.
  pub declarations : List SketchDeclaration
  pub declared : Pointwise (Declares limits) (sketches_of files) declarations
  pub links : List SignatureLink
  pub linked : Pointwise LinksAs (links_of files) links
  -- Both rearranged, so that the contracts are their pairs.
  pub paired_sketches : List SketchDeclaration
  pub paired_links : List SignatureLink
  pub all_sketches : Perm paired_sketches declarations
  pub all_links : Perm links paired_links
  pub paired : Paired paired_sketches paired_links r.entries
  pub ascending : Ascending r.entries
  pub counted : r.contract_document_count ≡ document_count files

pub resolve-Yields :
    (files : SortedMap CatalogPath SketchContractFile) (limits : MatchingLimits)
    → Yields (Resolves limits files) (resolve files limits)
unfolding resolve
resolve-Yields files limits =
    let P = Resolves limits files in
    let none_yet : Collected = record { sketches = []; links = []; signature_count = 0 } in
    Yields-bind _ P (collect_files limits files none_yet) _
      (collect_files-Collects limits files none_yet
        (record { sorted = tt; sketches_keyed = tt; links_keyed = tt }))
      (λ c all.
        Yields-bind _ P (link_sketches 0 c.sketches c.links) _
          (link_sketches-Takes 0 c.sketches c.links all.keyed.sketches_keyed all.keyed.links_keyed)
          (λ r takes. Yields-lift P (refuse_remaining r.1) _ (λ t none_left.
            let nothing = refuse_remaining-nil r.1 none_left in
            let links_perm : Perm all.links takes.0 =
              Perm.trans (Perm.symm (rw (append-nil all.links) at all.more_links))
                (rw (append-nil takes.0) at (rw nothing at takes.2)) in
            Yields-pure P _ (record {
              declarations = all.declarations;
              declared = all.declared;
              links = all.links;
              linked = all.linked;
              paired_sketches = values c.sketches;
              paired_links = takes.0;
              all_sketches = rw (append-nil all.declarations) at all.more_sketches;
              all_links = links_perm;
              paired = takes.1;
              ascending =
                  Paired-Ascending c.sketches takes.0 r.0 all.keyed.sketches_keyed all.keyed.sorted
                    takes.1;
              counted = refl;
            }))))

-- Whenever resolution returns, its contracts stand for pairs of a sketch and a signature: every
-- sketch of the contract files is in exactly one pair, and so is every signature that names a
-- sketch. The two of a pair have the same id and stand in the same document, with the same file
-- and, trimmed, the same label and signature type; the contract has the snippet of the sketch's
-- code. The contracts ascend in their ids, so that no id is there twice, and the documents are
-- counted.
pub resolve-Resolves :
    (files : SortedMap CatalogPath SketchContractFile) (limits : MatchingLimits) (w w' : Work)
    (r : SketchContracts)
    → resolve files limits w ≡ ok (r, w')
    → Resolves limits files r
resolve-Resolves files limits w w' r h =
    Yields-ok _ (resolve files limits) w w' r (resolve-Yields files limits) h
