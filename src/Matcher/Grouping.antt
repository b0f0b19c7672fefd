-- ===== src/Matcher/Grouping.antt =====
-- The groups hold each contract once, under the source file that it names.
use mathlib.Core.List.{Perm, perm_middle}
use mathlib.Core.List.Perm
use contract_kit.Prelude.{
  ◌≡◌, refl, Option, none, some, List, [], ◌∷◌, ◌++◌, All, All-append, append-nil,
}
use contract_kit.SortedMap.{SortedMap, get, push_at, or_empty}
use contract_kit.SortedMap.Contents.{Entries, Entries-insert, Entries-get, members, members-push_at}
use contract_kit.Path.{CatalogPath, path_ord}
use contract_kit.Work.{checkpoint}
use contract_kit.Work.Outcome.{Yields, Yields-weaken, Yields-pure, Yields-after}
use contract_kit.Contract.{SketchContract}
use contract_kit.Matcher.{group}

-- The contracts of a group name its file.
abbrev pub Names : CatalogPath → List SketchContract → Type 0
Names file contracts = All (λ c. c.file ≡ file) contracts

Names-get :
    (file : CatalogPath) (grouped : SortedMap CatalogPath (List SketchContract))
    → Entries Names grouped
    → Names file (or_empty (get file grouped))
Names-get file grouped h = go (get file grouped) refl
  where
    go :
        (found : Option (List SketchContract))
        → get file grouped ≡ found
        → Names file (or_empty found)
    go none e = tt
    go (some contracts) e = Entries-get Names file contracts grouped h e

Names-push_at :
    (c : SketchContract) (grouped : SortedMap CatalogPath (List SketchContract))
    → Entries Names grouped
    → Entries Names (push_at c.file c grouped)
Names-push_at c grouped h =
    Entries-insert Names c.file (or_empty (get c.file grouped) ++ c ∷ []) grouped
      (All-append (λ x. x.file ≡ c.file) (or_empty (get c.file grouped)) (c ∷ [])
        (Names-get c.file grouped h) (refl, tt))
      h

abbrev Grouped :
    List SketchContract
    → SortedMap CatalogPath (List SketchContract)
    → SortedMap CatalogPath (List SketchContract)
    → Type 0
Grouped contracts before after =
    Perm (members after) (contracts ++ members before) × Entries Names after

group-Grouped :
    (contracts : List SketchContract) (grouped : SortedMap CatalogPath (List SketchContract))
    → Entries Names grouped
    → Yields (Grouped contracts grouped) (group contracts grouped)
unfolding group
group-Grouped [] grouped h =
    Yields-pure (Grouped [] grouped) grouped (Perm.refl (members grouped), h)
group-Grouped (c ∷ rest) grouped h = Yields-after (Grouped (c ∷ rest) grouped) checkpoint _ (λ _.
    Yields-weaken (Grouped rest (push_at c.file c grouped)) (Grouped (c ∷ rest) grouped) _
      (group-Grouped rest (push_at c.file c grouped) (Names-push_at c grouped h))
      (λ m (same, named). (
        Perm.trans same (
            Perm.trans (Perm.append_left rest (members-push_at c.file c grouped))
              (perm_middle rest (members grouped))),
        named,
      )))

pub group-holds_each :
    (contracts : List SketchContract)
    → Yields (λ m. Perm (members m) contracts × Entries Names m) (group contracts [])
group-holds_each contracts =
    Yields-weaken _ _ _ (group-Grouped contracts [] tt) (λ m h. rw (append-nil contracts) at h)
