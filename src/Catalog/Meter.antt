-- ===== src/Catalog/Meter.antt =====
-- What a metered catalog adds up to, and when it is refused.
use contract_kit.Prelude.{
  ℕ, ◌+◌, ◌≤◌, ◌<◌, ◌≡◌, sym, ◌∙◌, [], ◌∷◌, ltb, arith, length, u64_max, saturating_add, ◌⊎◌, inl,
  inr, Bool-cases,
}
use contract_kit.Prelude.Results.{ok, err, Result-cases}
use contract_kit.SortedMap.{SortedMap}
use contract_kit.Path.{CatalogPath}
use contract_kit.Error.{Error}
use contract_kit.Work.{Work, checkpoint}
use contract_kit.Work.Outcome.{
  Ensures, Ensures-bind, Ensures-weaken, Interrupted, Polled, checkpoint_outcome,
}
use contract_kit.Normalize.{Bytes}
use contract_kit.Limits.Words.{observed}
use contract_kit.Catalog.{
  FileCatalog, CatalogLimits, CatalogUsage, record_file, record_files, record_catalog,
}

-- The bytes of all files.
abbrev pub content_bytes : SortedMap CatalogPath Bytes → ℕ
content_bytes [] = 0
content_bytes ((path, bytes) ∷ files) = length bytes + content_bytes files

-- Each file is within a maximum.
abbrev pub EachWithin : ℕ → SortedMap CatalogPath Bytes → Type 0
EachWithin maximum [] = Unit
EachWithin maximum ((path, bytes) ∷ files) = length bytes ≤ maximum × EachWithin maximum files

module _ (limits : CatalogLimits) where
  -- Limits that saturation does not reach.
  pub record IsBounded : Type 0 where
    pub entries_bounded : limits.entry_count < u64_max
    pub total_bounded : limits.total_bytes < u64_max
    pub file_bounded : limits.per_file_bytes < u64_max

  -- The files fit on top of a total.
  abbrev pub Fit : SortedMap CatalogPath Bytes → ℕ → Type 0
  Fit files total =
      EachWithin limits.per_file_bytes files × total + content_bytes files ≤ limits.total_bytes

  -- Why a metered step ends in an error.
  abbrev Refused : Work → Type 0 → Error → Type 0
  Refused w P e = Interrupted w e ⊎ ¬ P

  record_file_ok :
      IsBounded
      → (path : CatalogPath) (bytes : Bytes) (total next : ℕ)
      → record_file limits path bytes total ≡ ok next
      → (next ≡ total + length bytes)
        × length bytes ≤ limits.per_file_bytes
        × next ≤ limits.total_bytes
  unfolding record_file
  record_file_ok bounded path bytes total next e =
      let a = bounded.total_bounded in let b = bounded.file_bounded in ground arith

  record_file_err :
      (path : CatalogPath) (bytes : Bytes) (total : ℕ) (e : Error)
      → record_file limits path bytes total ≡ err e
      → length bytes ≤ limits.per_file_bytes
      → total + length bytes ≤ limits.total_bytes
      → ⊥
  unfolding record_file
  record_file_err path bytes total e h a b = ground arith

  refused :
      (w w' : Work)
      → Polled w w'
      → (path : CatalogPath) (bytes : Bytes) (files : SortedMap CatalogPath Bytes) (total next : ℕ)
      → next ≡ total + length bytes
      → (e : Error) → Refused w' (Fit files next) e
      → Refused w (Fit ((path, bytes) ∷ files) total) e
  refused w w' p path bytes files total next sum e (inl (x, y)) = inl (x, sym p.same_thread ∙ y)
  refused w w' p path bytes files total next sum e (inr misfit) =
      inr (λ fit. misfit (fit.0.1, omega (arith, fit.1)))

  record_files_outcome :
      IsBounded
      → (files : SortedMap CatalogPath Bytes) (total : ℕ) → total ≤ limits.total_bytes
      → (w : Work)
      → Ensures
          (Refused w (Fit files total))
          (λ t _. (t ≡ total + content_bytes files) × Fit files total)
          (record_files limits files total w)
  unfolding record_files
  record_files_outcome bounded [] total h w = (omega arith, (tt, omega arith))
  record_files_outcome bounded ((path, bytes) ∷ files) total h w =
      let E = Refused w (Fit ((path, bytes) ∷ files) total) in
      let Q : ℕ → Work → Type 0 = λ t _.
        (t ≡ total + (length bytes + content_bytes files)) × Fit ((path, bytes) ∷ files) total in
      Ensures-bind E (λ _ w'. Polled w w') Q checkpoint _ w
        (Ensures-weaken (Interrupted w) E (λ _ w'. Polled w w') (λ _ w'. Polled w w') (checkpoint w)
          (checkpoint_outcome w) (λ _ w' p. p) (λ e i. inl i))
        (λ _ w' p. elim (Result-cases (record_file limits path bytes total)) [
          | inl (next, ok_next) ↦
              let (sum, small, within) = record_file_ok bounded path bytes total next ok_next in
              rw ok_next (
                Ensures-weaken (Refused w' (Fit files next)) E
                  (λ t _. (t ≡ next + content_bytes files) × Fit files next) Q
                  (record_files limits files next w')
                  (record_files_outcome bounded files next within w')
                  (λ t w'' (same, fit). (omega arith, ((small, fit.0), omega (arith, fit.1))))
                  (λ e why. refused w w' p path bytes files total next sum e why))
          | inr (x, refused_x) ↦ rw refused_x (
              inr (λ fit.
                record_file_err path bytes total x refused_x fit.0.0 (omega (arith, fit.1))))
        ])

  -- The whole catalog fits the limits on top of what is charged already.
  abbrev pub CatalogFits : FileCatalog → CatalogUsage → Type 0
  CatalogFits catalog u =
      u.entries + length catalog.files ≤ limits.entry_count × Fit catalog.files u.total_bytes

  catalog-Refused :
      (catalog : FileCatalog) (u : CatalogUsage) (w w' : Work)
      → Polled w w'
      → (e : Error) → Refused w' (Fit catalog.files u.total_bytes) e
      → Refused w (CatalogFits catalog u) e
  catalog-Refused catalog u w w' p e (inl (x, y)) = inl (x, sym p.same_thread ∙ y)
  catalog-Refused catalog u w w' p e (inr misfit) = inr (λ fit. misfit fit.1)

-- Under limits below `u64::MAX`, and from a meter within the limit on all bytes: charging a
-- catalog returns the exact sums of entries and bytes, which the catalog then fits, or ends in an
-- error, and then another thread has cancelled or the catalog does not fit the limits.
pub record_catalog_outcome :
    (limits : CatalogLimits) (catalog : FileCatalog) (u : CatalogUsage) (w : Work)
    → IsBounded limits
    → u.total_bytes ≤ limits.total_bytes
    → Ensures
        (λ e. Interrupted w e ⊎ ¬ CatalogFits limits catalog u)
        (λ v _.
          (v.entries ≡ u.entries + length catalog.files)
          × (v.total_bytes ≡ u.total_bytes + content_bytes catalog.files)
          × CatalogFits limits catalog u)
        (record_catalog limits catalog u w)
unfolding record_catalog
record_catalog_outcome limits catalog u w bounded h =
    let E : Error → Type 0 = λ e. Interrupted w e ⊎ ¬ CatalogFits limits catalog u in
    let Q : CatalogUsage → Work → Type 0 = λ v _.
      (v.entries ≡ u.entries + length catalog.files)
      × (v.total_bytes ≡ u.total_bytes + content_bytes catalog.files)
      × CatalogFits limits catalog u in
    let next = saturating_add u.entries (observed (length catalog.files)) in
    Ensures-bind E (λ _ w'. Polled w w') Q checkpoint _ w
      (Ensures-weaken (Interrupted w) E (λ _ w'. Polled w w') (λ _ w'. Polled w w') (checkpoint w)
        (checkpoint_outcome w) (λ _ w' p. p) (λ e i. inl i))
      (λ _ w' p. elim (Bool-cases (ltb limits.entry_count next)) [
        | inl beyond_limit ↦
            let entries_bounded = bounded.entries_bounded in
            let over : u.entries + length catalog.files ≤ limits.entry_count → ⊥ =
              λ fit. ground arith in
            rw beyond_limit (inr (λ fit. over fit.0))
        | inr within_limit ↦
            let entries_bounded = bounded.entries_bounded in
            let fits : u.entries + length catalog.files ≤ limits.entry_count = ground arith in
            let exact : next ≡ u.entries + length catalog.files = ground arith in
            let P : ℕ → Work → Type 0 = λ t _.
              (t ≡ u.total_bytes + content_bytes catalog.files)
              × Fit limits catalog.files u.total_bytes in
            rw within_limit (
              Ensures-bind E P Q (record_files limits catalog.files u.total_bytes) _ w'
                (Ensures-weaken (Refused limits w' (Fit limits catalog.files u.total_bytes)) E P P
                  (record_files limits catalog.files u.total_bytes w')
                  (record_files_outcome limits bounded catalog.files u.total_bytes h w')
                  (λ t w'' q. q) (λ e why. catalog-Refused limits catalog u w w' p e why))
                (λ t w'' q. (exact, q.0, (fits, q.1))))
      ])
