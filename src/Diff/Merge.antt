-- ===== src/Diff/Merge.antt =====
-- The merge of two sorted catalogs, against a lookup of each id on both sides.
use Prim.Native.Nat.Ordering.{lt, eq, gt}
use contract_kit.Prelude.{
  ℕ, zero, suc, ◌+◌, ◌≤◌, true, false, ◌≡◌, refl, sym, ap, ◌∙◌, Option, none, some, List, [], ◌∷◌,
  ◌++◌, if◌then◌else◌, arith, length, Ordering, All, saturating_add, append-nil, append_assoc,
  Bool-cases, inl, inr,
}
use contract_kit.Prelude.Order.{◌===◌}
use contract_kit.Work.{Work, M, ◌>>=◌}
use contract_kit.Work.Outcome.{
  Ensures, Interrupted, Polled, Polls, Polls-bind, Polls-checkpoint_at, Polls-pure, Polls-weaken,
}
use contract_kit.Normalize.{Bytes}
use contract_kit.Contract.{SketchId, SketchContract, SketchContracts, id_ord, find_id, len}
use contract_kit.Diff.Digest.{
  snapshot_of, snapshot-Polls, contract_digest_of, contract_digest-Polls,
}
use contract_kit.Diff.{
  SketchField, DiffEntry, added, removed, changed, DiffResponse, changed_fields, snapshot,
  push_added, push_removed, push_fields, push_changed, merge, diff_against, contract_digest,
}

-- The id is in front of all these contracts.
abbrev pub Above : SketchId → List SketchContract → Type 0
Above id contracts = All (λ c. id_ord.cmp id c.id ≡ lt) contracts

-- The order of a resolved catalog: each id is less than the later ones.
abbrev pub Ascending : List SketchContract → Type 0
Ascending [] = Unit
Ascending (c ∷ cs) = Above c.id cs × Ascending cs

Above-lt :
    (a b : SketchId) (contracts : List SketchContract)
    → id_ord.cmp a b ≡ lt
    → Above b contracts
    → Above a contracts
Above-lt a b [] h above = tt
Above-lt a b (c ∷ cs) h above = (id_ord.lt_trans a b c.id h above.0, Above-lt a b cs h above.1)

not_lt : (a b : SketchId) → id_ord.cmp a b ≡ lt → (b === a) ≡ false
not_lt a b h = rw (id_ord.gt_of_lt a b h) refl

find_id-Above :
    (id : SketchId) (contracts : List SketchContract)
    → Above id contracts
    → find_id id contracts ≡ none
unfolding find_id
find_id-Above id [] above = refl
find_id-Above id (c ∷ cs) above = rw (not_lt id c.id above.0) (find_id-Above id cs above.1)

-- The id of the sketch that an entry is about.
abbrev pub key : DiffEntry → SketchId
key (added current) = record { value = current.sketch_id }
key (removed previous) = record { value = previous.sketch_id }
key (changed previous current fields) = record { value = current.sketch_id }

-- The first entry about an id.
abbrev pub entry_at : SketchId → List DiffEntry → Option DiffEntry
entry_at id [] = none
entry_at id (e ∷ es) = if key e === id then some e else entry_at id es

module _ (sha256 : Bytes → Bytes) where
  abbrev pub changed_entry : List SketchField → SketchContract → SketchContract → Option DiffEntry
  changed_entry [] current previous = none
  changed_entry (field ∷ fields) current previous =
      some (changed (snapshot_of sha256 previous) (snapshot_of sha256 current) (field ∷ fields))

  -- What a diff has to say about one id, from the sketches with that id.
  abbrev pub difference : Option SketchContract → Option SketchContract → Option DiffEntry
  difference none none = none
  difference (some current) none = some (added (snapshot_of sha256 current))
  difference none (some previous) = some (removed (snapshot_of sha256 previous))
  difference (some current) (some previous) =
      changed_entry (changed_fields current previous) current previous

  -- The entries behind the earlier ones tell each id's difference.
  abbrev Merged :
      List DiffEntry → List SketchContract → List SketchContract → List DiffEntry → Type 0
  Merged before cs ps entries =
      (new : List DiffEntry) × (entries ≡ before ++ new)
      × ((id : SketchId) → entry_at id new ≡ difference (find_id id cs) (find_id id ps))

  -- One entry in front, for an id that has no other.
  abbrev Step :
      Option DiffEntry
      → List SketchContract
      → List SketchContract
      → List SketchContract
      → List SketchContract
      → Type 0
  Step e cs ps cs' ps' =
      (new : List DiffEntry)
      → ((id : SketchId) → entry_at id new ≡ difference (find_id id cs') (find_id id ps'))
      → (id : SketchId)
      → entry_at id (elim e [ none ↦ new | some x ↦ x ∷ new ])
        ≡ difference (find_id id cs) (find_id id ps)

  added-Step :
      (c : SketchContract) (cs ps : List SketchContract)
      → Above c.id ps
      → Step (some (added (snapshot_of sha256 c))) (c ∷ cs) ps cs ps
  unfolding find_id
  added-Step c cs ps above new ih id = elim (Bool-cases (c.id === id)) [
    | inl same ↦
        let here : c.id ≡ id = id_ord.eq_of_cmp c.id id (ground arith) in
        rw (same, sym here, find_id-Above c.id ps above) refl
    | inr other ↦ rw other (ih id)
  ]

  removed-Step :
      (p : SketchContract) (cs ps : List SketchContract)
      → Above p.id cs
      → Step (some (removed (snapshot_of sha256 p))) cs (p ∷ ps) cs ps
  unfolding find_id
  removed-Step p cs ps above new ih id = elim (Bool-cases (p.id === id)) [
    | inl same ↦
        let here : p.id ≡ id = id_ord.eq_of_cmp p.id id (ground arith) in
        rw (same, sym here, find_id-Above p.id cs above) refl
    | inr other ↦ rw other (ih id)
  ]

  changed-Step :
      (fields : List SketchField) (c p : SketchContract) (cs ps : List SketchContract)
      → fields ≡ changed_fields c p
      → c.id ≡ p.id
      → Above c.id cs
      → Above p.id ps
      → Step (changed_entry fields c p) (c ∷ cs) (p ∷ ps) cs ps
  unfolding find_id
  changed-Step [] c p cs ps e ids ac ap' new ih id = elim (Bool-cases (p.id === id)) [
    | inl same ↦
        let here : p.id ≡ id = id_ord.eq_of_cmp p.id id (ground arith) in
        let both : (c.id === id) ≡ true = rw ids same in
        let no_current : find_id id cs ≡ none = rw here at (find_id-Above p.id cs (rw ids at ac)) in
        let no_previous : find_id id ps ≡ none = rw here at (find_id-Above p.id ps ap') in
        rw (both, same, sym e) (rw (no_current, no_previous) at (ih id))
    | inr other ↦ let both : (c.id === id) ≡ false = rw ids other in rw (both, other) (ih id)
  ]
  changed-Step (f ∷ fs) c p cs ps e ids ac ap' new ih id = elim (Bool-cases (p.id === id)) [
    | inl same ↦ let both : (c.id === id) ≡ true = rw ids same in rw (both, same, sym e) refl
    | inr other ↦ let both : (c.id === id) ≡ false = rw ids other in rw (both, other) (ih id)
  ]

  -- The entries that an optional entry adds.
  abbrev one : Option DiffEntry → List DiffEntry
  one none = []
  one (some x) = x ∷ []

  Merged-Step :
      (e : Option DiffEntry) (before entries : List DiffEntry) (cs ps cs' ps' : List SketchContract)
      → Step e cs ps cs' ps'
      → Merged (before ++ one e) cs' ps' entries
      → Merged before cs ps entries
  Merged-Step none before entries cs ps cs' ps' step (new, same, tell) =
      (new, same ∙ ap (λ l. l ++ new) (append-nil before), step new tell)
  Merged-Step (some x) before entries cs ps cs' ps' step (new, same, tell) =
      (x ∷ new, same ∙ append_assoc before (x ∷ []) new, step new tell)

  -- A round that pushes an optional entry, in front of the rounds on what is left.
  round :
      (e : Option DiffEntry) (before : List DiffEntry) (cs ps cs' ps' : List SketchContract)
      (push : M (List DiffEntry)) (rest : List DiffEntry → M (List DiffEntry))
      → Step e cs ps cs' ps'
      → Polls (λ es. es ≡ before ++ one e) push
      → ((pushed : List DiffEntry) → Polls (Merged pushed cs' ps') (rest pushed))
      → Polls (Merged before cs ps) (push >>= rest)
  round e before cs ps cs' ps' push rest step pushes later =
      Polls-bind (λ es. es ≡ before ++ one e) (Merged before cs ps) push rest pushes
        (λ pushed h.
          Polls-weaken (Merged pushed cs' ps') (Merged before cs ps) (rest pushed) (later pushed)
            (λ entries m. Merged-Step e before entries cs ps cs' ps' step (rw h at m)))

  push_added-Polls :
      (c : SketchContract) (before : List DiffEntry)
      → Polls (λ es. es ≡ before ++ added (snapshot_of sha256 c) ∷ []) (push_added sha256 c before)
  unfolding push_added
  push_added-Polls c before =
      Polls-bind (λ s. s ≡ snapshot_of sha256 c)
        (λ es. es ≡ before ++ added (snapshot_of sha256 c) ∷ []) (snapshot sha256 c) _
        (snapshot-Polls sha256 c)
        (λ s h.
          Polls-pure (λ es. es ≡ before ++ added (snapshot_of sha256 c) ∷ [])
            (before ++ added s ∷ []) (rw h refl))

  push_removed-Polls :
      (p : SketchContract) (before : List DiffEntry)
      → Polls
          (λ es. es ≡ before ++ removed (snapshot_of sha256 p) ∷ [])
          (push_removed sha256 p before)
  unfolding push_removed
  push_removed-Polls p before =
      Polls-bind (λ s. s ≡ snapshot_of sha256 p)
        (λ es. es ≡ before ++ removed (snapshot_of sha256 p) ∷ []) (snapshot sha256 p) _
        (snapshot-Polls sha256 p)
        (λ s h.
          Polls-pure (λ es. es ≡ before ++ removed (snapshot_of sha256 p) ∷ [])
            (before ++ removed s ∷ []) (rw h refl))

  push_fields-Polls :
      (fields : List SketchField) (c p : SketchContract) (before : List DiffEntry)
      → Polls
          (λ es. es ≡ before ++ one (changed_entry fields c p))
          (push_fields sha256 fields c p before)
  push_fields-Polls [] c p before =
      Polls-pure (λ es. es ≡ before ++ []) before (sym (append-nil before))
  push_fields-Polls (f ∷ fs) c p before =
      let entry = changed (snapshot_of sha256 p) (snapshot_of sha256 c) (f ∷ fs) in
      Polls-bind (λ s. s ≡ snapshot_of sha256 p) (λ es. es ≡ before ++ entry ∷ [])
        (snapshot sha256 p) _ (snapshot-Polls sha256 p)
        (λ old h.
          Polls-bind (λ s. s ≡ snapshot_of sha256 c) (λ es. es ≡ before ++ entry ∷ [])
            (snapshot sha256 c) _ (snapshot-Polls sha256 c)
            (λ new k.
              Polls-pure (λ es. es ≡ before ++ entry ∷ []) (before ++ changed old new (f ∷ fs) ∷ [])
                (rw (h, k) refl)))

  Above-trans_gt :
      (c p : SketchContract) (cs : List SketchContract)
      → id_ord.cmp c.id p.id ≡ gt
      → Above c.id cs
      → Above p.id (c ∷ cs)
  Above-trans_gt c p cs h above =
      let less : id_ord.cmp p.id c.id ≡ lt = id_ord.lt_of_gt c.id p.id h in
      (less, Above-lt p.id c.id cs less above)

  -- The three arms on the first contracts of both sides.
  arms :
      (o : Ordering) (rounds processed : ℕ) (c p : SketchContract) (cs ps : List SketchContract)
      (before : List DiffEntry)
      → id_ord.cmp c.id p.id ≡ o
      → Above c.id cs
      → Above p.id ps
      → ((es : List DiffEntry)
          → Polls (Merged es cs (p ∷ ps)) (merge sha256 rounds processed cs (p ∷ ps) es))
      → ((es : List DiffEntry) → Polls (Merged es cs ps) (merge sha256 rounds processed cs ps es))
      → ((es : List DiffEntry)
          → Polls (Merged es (c ∷ cs) ps) (merge sha256 rounds processed (c ∷ cs) ps es))
      → Polls (Merged before (c ∷ cs) (p ∷ ps)) (elim o [
        | lt ↦ push_added sha256 c before >>= merge sha256 rounds processed cs (p ∷ ps)
        | eq ↦ push_changed sha256 c p before >>= merge sha256 rounds processed cs ps
        | gt ↦ push_removed sha256 p before >>= merge sha256 rounds processed (c ∷ cs) ps
      ])
  unfolding push_changed
  arms lt rounds processed c p cs ps before h ac above_p less same more =
      round (some (added (snapshot_of sha256 c))) before (c ∷ cs) (p ∷ ps) cs (p ∷ ps)
        (push_added sha256 c before) (merge sha256 rounds processed cs (p ∷ ps))
        (added-Step c cs (p ∷ ps) (h, Above-lt c.id p.id ps h above_p)) (push_added-Polls c before)
        less
  arms eq rounds processed c p cs ps before h ac above_p less same more =
      round (changed_entry (changed_fields c p) c p) before (c ∷ cs) (p ∷ ps) cs ps
        (push_fields sha256 (changed_fields c p) c p before) (merge sha256 rounds processed cs ps)
        (changed-Step (changed_fields c p) c p cs ps refl (id_ord.eq_of_cmp c.id p.id h) ac above_p)
        (push_fields-Polls (changed_fields c p) c p before) same
  arms gt rounds processed c p cs ps before h ac above_p less same more =
      round (some (removed (snapshot_of sha256 p))) before (c ∷ cs) (p ∷ ps) (c ∷ cs) ps
        (push_removed sha256 p before) (merge sha256 rounds processed (c ∷ cs) ps)
        (removed-Step p (c ∷ cs) ps (Above-trans_gt c p cs h ac)) (push_removed-Polls p before) more

  merge-Merged :
      (rounds processed : ℕ) (cs ps : List SketchContract) (before : List DiffEntry)
      → length cs + length ps ≤ rounds
      → Ascending cs
      → Ascending ps
      → Polls (Merged before cs ps) (merge sha256 rounds processed cs ps before)
  unfolding merge find_id
  merge-Merged rounds processed [] [] before h ac above_p =
      Polls-pure (Merged before [] []) before ([], sym (append-nil before), λ id. refl)
  merge-Merged zero processed (c ∷ cs) ps before h ac above_p = absurd (omega arith)
  merge-Merged zero processed [] (p ∷ ps) before h ac above_p = absurd (omega arith)
  merge-Merged (suc rounds) processed (c ∷ cs) [] before h ac above_p =
      Polls-checkpoint_at (Merged before (c ∷ cs) []) processed _ (
        round (some (added (snapshot_of sha256 c))) before (c ∷ cs) [] cs []
          (push_added sha256 c before) (merge sha256 rounds (saturating_add processed 1) cs [])
          (added-Step c cs [] tt) (push_added-Polls c before)
          (λ es. merge-Merged rounds (saturating_add processed 1) cs [] es (omega arith) ac.1 tt))
  merge-Merged (suc rounds) processed [] (p ∷ ps) before h ac above_p =
      Polls-checkpoint_at (Merged before [] (p ∷ ps)) processed _ (
        round (some (removed (snapshot_of sha256 p))) before [] (p ∷ ps) [] ps
          (push_removed sha256 p before) (merge sha256 rounds (saturating_add processed 1) [] ps)
          (removed-Step p [] ps tt) (push_removed-Polls p before)
          (λ es.
            merge-Merged rounds (saturating_add processed 1) [] ps es (omega arith) tt above_p.1))
  merge-Merged (suc rounds) processed (c ∷ cs) (p ∷ ps) before h ac above_p =
      let next = saturating_add processed 1 in
      Polls-checkpoint_at (Merged before (c ∷ cs) (p ∷ ps)) processed _ (
        arms (id_ord.cmp c.id p.id) rounds next c p cs ps before refl ac.0 above_p.0
          (λ es. merge-Merged rounds next cs (p ∷ ps) es (omega arith) ac.1 above_p)
          (λ es. merge-Merged rounds next cs ps es (omega arith) ac.1 above_p.1)
          (λ es. merge-Merged rounds next (c ∷ cs) ps es (omega arith) ac above_p.1))

-- What a diff is to return.
abbrev pub Tells : (Bytes → Bytes) → SketchContracts → SketchContracts → DiffResponse → Type 0
Tells sha256 current previous r =
    (r.contract_digest ≡ contract_digest_of sha256 current)
    × ((id : SketchId)
        → entry_at id r.entries
          ≡ difference sha256 (find_id id current.entries) (find_id id previous.entries))

pub diff_against-Tells :
    (sha256 : Bytes → Bytes) (current previous : SketchContracts)
    → Ascending current.entries
    → Ascending previous.entries
    → Polls (Tells sha256 current previous) (diff_against sha256 current previous)
unfolding diff_against
diff_against-Tells sha256 current previous ac above_p =
    Polls-bind (Merged sha256 [] current.entries previous.entries) (Tells sha256 current previous)
      (merge sha256 (len current + len previous) 0 current.entries previous.entries []) _
      (merge-Merged sha256 (len current + len previous) 0 current.entries previous.entries []
        (omega arith) ac above_p)
      (λ entries m.
        Polls-bind (λ d. d ≡ contract_digest_of sha256 current) (Tells sha256 current previous)
          (contract_digest sha256 current) _ (contract_digest-Polls sha256 current)
          (λ digest h.
            Polls-pure (Tells sha256 current previous)
              (record { contract_digest = digest; digest_version = 2; entries = entries })
              (h, λ id. rw m.1 (m.2 id))))

-- The diff of two catalogs in the strict order of their ids returns, unless another thread
-- cancels it. The entry about an id in its result is what the lookups of that id on both sides
-- tell: an addition when only the current side has it, a removal when only the previous side has
-- it, a change with the fields that differ when both have it and some field differs, and none
-- otherwise. The digest is that of the framed fields of the current contracts in their order.
pub diff_entries :
    (sha256 : Bytes → Bytes) (current previous : SketchContracts) (w : Work)
    → Ascending current.entries
    → Ascending previous.entries
    → Ensures
        (Interrupted w)
        (λ r w'.
          ((r.contract_digest ≡ contract_digest_of sha256 current)
            × ((id : SketchId)
                → entry_at id r.entries
                  ≡ difference sha256 (find_id id current.entries) (find_id id previous.entries)))
          × Polled w w')
        (diff_against sha256 current previous w)
unfolding Polls
diff_entries sha256 current previous w ac above_p =
    diff_against-Tells sha256 current previous ac above_p w
