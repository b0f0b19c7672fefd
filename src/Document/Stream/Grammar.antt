-- ===== src/Document/Stream/Grammar.antt =====
-- The events of whole documents, and how one event continues them.
use contract_kit.Prelude.{
  ℕ, ◌+◌, ◌≡◌, refl, ap, Bool, true, false, not, ◌||◌, Option, none, some, List, [], ◌∷◌, ◌++◌,
  arith, All, length, append_assoc, if◌then◌else◌,
}
use contract_kit.Text.{Text}
use contract_kit.Path.{CatalogPath}
use contract_kit.Limits.Words.{observed}
use contract_kit.Limits.Yaml.{
  Tag, Event, document_start, document_end, mapping_end, sequence_end, alias, nothing, stream_start,
  stream_end, comment, scalar, mapping_start, sequence_start,
}
use contract_kit.SortedMap.{is_some}
use contract_kit.Document.Stream.{
  Scan, is_null_scalar, note, note_unless_failed, set_data, note_start, note_end, note_scalar,
  unwrap_or_false,
}

module _ (core_suffix : Tag → Option Text) where
  abbrev pub is_boundary : Event → Bool
  is_boundary document_start = true
  is_boundary document_end = true
  is_boundary _ = false

  -- The events that give a document content: a node that is not null.
  abbrev pub has_content : Event → Bool
  has_content alias = true
  has_content (sequence_start tag) = true
  has_content (mapping_start tag) = true
  has_content (scalar value style tag) = not (is_null_scalar core_suffix value style tag)
  has_content _ = false

  abbrev pub any_content : List (Event × ℕ) → Bool
  any_content [] = false
  any_content ((e, line) ∷ es) = has_content e || any_content es

  -- Nothing starts or ends in these events.
  abbrev pub Inside : List (Event × ℕ) → Type 0
  Inside es = All (λ e. is_boundary e.0 ≡ false) es

  -- Whole documents, one behind the other, with something in each; their lines, and no others.
  pub data IsStream : List (Event × ℕ) → List ℕ → Type 0 where
    no_more : (after : List (Event × ℕ)) → Inside after → IsStream after []
    one_more :
        (before body rest : List (Event × ℕ)) (lines : List ℕ) (start end : ℕ)
        → Inside before
        → Inside body
        → any_content body ≡ true
        → IsStream rest lines
        → IsStream
            (before ++ (document_start, start) ∷ (body ++ (document_end, end) ∷ rest))
            (observed start ∷ lines)

  -- What is to come outside of a document, or inside of one with or without content.
  abbrev pub Rest : Option Bool → List (Event × ℕ) → List ℕ → Type 0
  Rest none es lines = IsStream es lines
  Rest (some has_data) es lines =
      (body : List (Event × ℕ)) × (rest : List (Event × ℕ)) × (end : ℕ) × (es
        ≡ body ++ (document_end, end) ∷ rest)
      × Inside body
      × ((has_data || any_content body) ≡ true)
      × IsStream rest lines

  -- The documents that are open, none or one.
  abbrev pub opened : Option Bool → ℕ
  opened none = 0
  opened (some has_data) = 1

  abbrev advance : Bool → Option Bool → Option Bool
  advance false state = state
  advance true state = set_data state

  opened-advance : (c : Bool) (state : Option Bool) → opened (advance c state) ≡ opened state
  opened-advance false state = refl
  opened-advance true none = refl
  opened-advance true (some b) = refl

  outside_one :
      (e : Event) (line : ℕ) (es : List (Event × ℕ)) (lines : List ℕ)
      → is_boundary e ≡ false
      → IsStream es lines
      → IsStream ((e, line) ∷ es) lines
  outside_one e line _ _ b (no_more after inside) = no_more ((e, line) ∷ after) (b, inside)
  outside_one e line _ _ b (one_more before body rest lines start end x y z w) =
      one_more ((e, line) ∷ before) body rest lines start end (b, x) y z w

  inside_one :
      (e : Event) (line : ℕ) (state : Option Bool) (es : List (Event × ℕ)) (lines : List ℕ)
      → is_boundary e ≡ false
      → Rest (advance (has_content e) state) es lines
      → Rest state ((e, line) ∷ es) lines
  inside_one e line state es lines b r = go (has_content e) refl state r
    where
      go :
          (c : Bool)
          → has_content e ≡ c
          → (state : Option Bool) → Rest (advance c state) es lines
          → Rest state ((e, line) ∷ es) lines
      go false is none r = outside_one e line es lines b r
      go true is none r = outside_one e line es lines b r
      go false is (some has_data) (body, rest, end, e', inside, content, later) = (
        (e, line) ∷ body,
        rest,
        end,
        ap (λ t. (e, line) ∷ t) e',
        (b, inside),
        rw is content,
        later,
      )
      go true is (some has_data) (body, rest, end, e', inside, content, later) = (
        (e, line) ∷ body,
        rest,
        end,
        ap (λ t. (e, line) ∷ t) e',
        (b, inside),
        rw is (ground arith),
        later,
      )

  note_inside :
      (path : CatalogPath) (e : Event) (line : ℕ) (s : Scan)
      → is_boundary e ≡ false
      → note core_suffix path e line s
        ≡ record s { document_has_data = advance (has_content e) s.document_has_data }
  unfolding note
  note_inside path document_start line s b = absurd (ground arith)
  note_inside path document_end line s b = absurd (ground arith)
  note_inside path alias line s b = refl
  note_inside path (sequence_start tag) line s b = refl
  note_inside path (mapping_start tag) line s b = refl
  note_inside path (scalar value style tag) line s b =
      elim (is_null_scalar core_suffix value style tag)
        as (λ n.
          note_scalar n s ≡ record s { document_has_data = advance (not n) s.document_has_data }) [
            | true ↦ refl
            | false ↦ refl
          ]
  note_inside path mapping_end line s b = refl
  note_inside path sequence_end line s b = refl
  note_inside path nothing line s b = refl
  note_inside path stream_start line s b = refl
  note_inside path stream_end line s b = refl
  note_inside path comment line s b = refl

  -- One event that leaves no error, seen from what is to come.
  unfoldable pub Steps : Event → ℕ → Scan → Scan → Type 0
  Steps e line s t =
      (es : List (Event × ℕ)) (lines : List ℕ)
      → Rest t.document_has_data es lines
      → (all : List ℕ) × (t.document_start_lines ++ lines ≡ s.document_start_lines ++ all)
        × (t.document_count + opened t.document_has_data + length lines
            ≡ s.document_count + opened s.document_has_data + length all)
        × Rest s.document_has_data ((e, line) ∷ es) all

  inside-Steps :
      (path : CatalogPath) (e : Event) (line : ℕ) (s : Scan)
      → is_boundary e ≡ false
      → Steps e line s (note core_suffix path e line s)
  unfolding Steps
  inside-Steps path e line s b = rw (note_inside path e line s b) (λ es lines r.
      let same = opened-advance (has_content e) s.document_has_data in
      (lines, refl, omega (arith, same), inside_one e line s.document_has_data es lines b r))

  start-Steps :
      (path : CatalogPath) (line : ℕ) (s : Scan) (state : Option Bool)
      → s.document_has_data ≡ state
      → is_some (note_start path line state s).metadata_error ≡ false
      → Steps document_start line s (note_start path line state s)
  unfolding Steps
  start-Steps path line s (some b) is fine = absurd (ground arith)
  start-Steps path line s none is fine = λ es lines r.
      let (body, rest, end, split, inside, content, later) = r in
      (
        observed line ∷ lines,
        append_assoc s.document_start_lines (observed line ∷ []) lines,
        rw is (omega arith),
        rw (is, split) (one_more [] body rest lines line end tt inside content later),
      )

  end-Steps :
      (path : CatalogPath) (line : ℕ) (s : Scan) (state : Option Bool)
      → s.document_has_data ≡ state
      → is_some (note_end path (unwrap_or_false state) s).metadata_error ≡ false
      → Steps document_end line s (note_end path (unwrap_or_false state) s)
  unfolding Steps
  end-Steps path line s none is fine = absurd (ground arith)
  end-Steps path line s (some false) is fine = absurd (ground arith)
  end-Steps path line s (some true) is fine =
      λ es lines r. (lines, refl, rw is (omega arith), rw is ([], es, line, refl, tt, refl, r))

  note-Steps :
      (path : CatalogPath) (e : Event) (line : ℕ) (s : Scan)
      → is_some (note core_suffix path e line s).metadata_error ≡ false
      → Steps e line s (note core_suffix path e line s)
  unfolding note
  note-Steps path document_start line s fine = start-Steps path line s s.document_has_data refl fine
  note-Steps path document_end line s fine = end-Steps path line s s.document_has_data refl fine
  note-Steps path e line s fine = inside-Steps path e line s refl

  pub unless_failed-Steps :
      (path : CatalogPath) (e : Event) (line : ℕ) (s : Scan)
      → is_some (note_unless_failed core_suffix path e line s).metadata_error ≡ false
      → (is_some s.metadata_error ≡ false)
        × Steps e line s (note_unless_failed core_suffix path e line s)
  unfolding note_unless_failed
  unless_failed-Steps path e line s fine = go (is_some s.metadata_error) refl fine
    where
      go :
          (failed : Bool)
          → is_some s.metadata_error ≡ failed
          → is_some
              (if◌then◌else◌ {A = Scan} failed s (note core_suffix path e line s)).metadata_error
            ≡ false
          → (failed ≡ false)
            × Steps e line s (if◌then◌else◌ {A = Scan} failed s (note core_suffix path e line s))
      go true is fine = absurd (ground arith)
      go false is fine = (refl, note-Steps path e line s fine)
