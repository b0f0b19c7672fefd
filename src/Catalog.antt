-- ===== src/Catalog.antt =====
-- conkit-sketch/files.rs, `FileCatalog`, and limits/catalog.rs: the catalogs of a request and the
-- meter that all of them are charged to.
pub mod Meter
use contract_kit.Prelude.{
  ℕ, ◌+◌, Bool, true, false, Option, none, some, List, [], ◌∷◌, ltb, if◌then◌else◌, length,
  saturating_add,
}
use contract_kit.Prelude.Order.{cmp_list}
use contract_kit.Prelude.Results.{Result, ok, err}
use contract_kit.SortedMap.{SortedMap, get, insert, contains_key}
use contract_kit.Path.{CatalogPath, path_ord, FileCatalogError, duplicate_path}
use contract_kit.Error.{
  Error, LimitResource, limit_error, catalog_entry_count, catalog_total_bytes, catalog_file_bytes,
}
use contract_kit.Limits.Words.{observed}
use contract_kit.Work.{M, ◌>>=◌, ◌>>◌, pure, lift, raise, checkpoint}
use contract_kit.Normalize.{Bytes}

pub record FileCatalog : Type 0 where
  pub files : SortedMap CatalogPath Bytes

abbrev pub new : FileCatalog
new = record { files = [] }

-- `FileCatalog::insert`, which keeps the entry that is there.
unfoldable pub insert_file : CatalogPath → Bytes → FileCatalog → Result FileCatalogError FileCatalog
insert_file path contents catalog =
    if contains_key path catalog.files
    then err (duplicate_path path)
    else ok (record { files = insert path contents catalog.files })

abbrev pub len : FileCatalog → ℕ
len catalog = length catalog.files

pub record CatalogLimits : Type 0 where
  pub entry_count : ℕ
  pub total_bytes : ℕ
  pub per_file_bytes : ℕ

abbrev pub default : CatalogLimits
default = record { entry_count = 10000; total_bytes = 536870912; per_file_bytes = 67108864 }

pub record CatalogUsage : Type 0 where
  pub entries : ℕ
  pub total_bytes : ℕ

abbrev pub usage : CatalogUsage
usage = record { entries = 0; total_bytes = 0 }

abbrev pub beyond : LimitResource → ℕ → ℕ → Option CatalogPath → Error
beyond resource limit count file =
    limit_error
      (record { resource = resource; limit = limit; observed_at_least = count; file = file })

module _ (limits : CatalogLimits) where
  -- One entry of the loop of `record`: the aggregate with the entry's bytes.
  unfoldable pub record_file : CatalogPath → Bytes → ℕ → Result Error ℕ
  record_file path bytes total =
      let file_bytes = observed (length bytes) in
      let next_total_bytes = saturating_add total file_bytes in
      if ltb limits.per_file_bytes file_bytes
      then err (beyond catalog_file_bytes limits.per_file_bytes file_bytes (some path))
      else if ltb limits.total_bytes next_total_bytes
      then err (beyond catalog_total_bytes limits.total_bytes next_total_bytes (some path))
      else ok next_total_bytes

  unfoldable pub record_files : SortedMap CatalogPath Bytes → ℕ → M ℕ
  unfolding record_file
  record_files [] total = pure total
  record_files ((path, bytes) ∷ rest) total = do
    checkpoint
    next ← lift (record_file path bytes total)
    record_files rest next

  -- `CatalogUsage::record`: a whole catalog.
  unfoldable pub record_catalog : FileCatalog → CatalogUsage → M CatalogUsage
  unfolding record_files
  record_catalog catalog u = do
    checkpoint
    let next_entries = saturating_add u.entries (observed (len catalog))
    if ltb limits.entry_count next_entries
        then raise (beyond catalog_entry_count limits.entry_count next_entries none)
        else do
          total ← record_files catalog.files u.total_bytes
          pure (record { entries = next_entries; total_bytes = total })
