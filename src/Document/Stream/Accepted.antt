-- ===== src/Document/Stream/Accepted.antt =====
-- Which streams of events are accepted, as a grammar of whole documents.
use contract_kit.Document.Stream.Grammar.{
  IsStream, no_more, Rest, opened, Steps, unless_failed-Steps,
}
use contract_kit.Prelude.{
  ℕ, ◌+◌, ◌≡◌, refl, sym, ap, ◌∙◌, false, Option, none, some, List, [], ◌∷◌, ◌++◌, arith, length,
  map, ◌<◌, ◌≤◌, append-nil,
}
use contract_kit.Prelude.Results.{ok, err, map_err, map_err-ok}
use contract_kit.Text.{Text}
use contract_kit.Path.{CatalogPath}
use contract_kit.Limits.Yaml.{Tag, Event, YamlBudget, RawYamlMeter, raw_meter, observe}
use contract_kit.Error.{Error, limit_error}
use contract_kit.Limits.Yaml.Metering.{IsBounded, Holds, sums, observe_all, finish-Holds_sums}
use contract_kit.Work.{Work, M, ◌>>=◌, checkpoint, checkpoint_at}
use contract_kit.Work.Outcome.{
  Yields, Yields-after, Yields-lift, Yields-pure, Yields-bind, Yields-weaken, Yields-ok,
  Yields-raise,
}
use contract_kit.SortedMap.{is_some}
use contract_kit.Document.Stream.{
  Item, DocumentStream, Scan, no_scan, note_unless_failed, inspect_events, check_end, inspect,
  raise_some, first_error,
}

-- The step that raises an error, if there is one.
Yields-raise_some :
    {B : Type 0} (Q : B → Type 0) (e : Option Error) (k : M B)
    → (e ≡ none → Yields Q k)
    → Yields Q (raise_some e >>= λ _. k)
unfolding Yields
Yields-raise_some Q none k h w = h refl w
Yields-raise_some Q (some e) k h w = tt

module _ (core_suffix : Tag → Option Text) where
  -- How the loop ends: it has read events only, the meter has observed them all, and without an
  -- error and with no document open the events made whole documents.
  Ends : List Item → RawYamlMeter → Scan → RawYamlMeter × Scan → Type 0
  Ends items m s r =
      (es : List (Event × ℕ)) × (items ≡ map ok es)
      × (observe_all (map (λ e. e.0) es) m ≡ ok r.0)
      × (is_some r.1.metadata_error ≡ false
          → r.1.document_has_data ≡ none
          → (is_some s.metadata_error ≡ false)
            × (lines : List ℕ) × (r.1.document_start_lines ≡ s.document_start_lines ++ lines)
            × (r.1.document_count
                ≡ s.document_count + opened core_suffix s.document_has_data + length lines)
            × Rest core_suffix s.document_has_data es lines)

  Ends-nil : (m : RawYamlMeter) (s : Scan) → Ends [] m s (m, s)
  unfolding Ends
  Ends-nil m s = (
    [],
    refl,
    refl,
    λ fine closed. (
      fine,
      [],
      sym (append-nil s.document_start_lines),
      rw closed (omega arith),
      rw closed (no_more [] tt),
    ),
  )

  Ends-cons :
      (path : CatalogPath) (e : Event) (line : ℕ) (rest : List Item) (m m' : RawYamlMeter)
      (s : Scan) (r : RawYamlMeter × Scan)
      → observe e m ≡ ok m'
      → Ends rest m' (note_unless_failed core_suffix path e line s) r
      → Ends (ok (e, line) ∷ rest) m s r
  unfolding Ends Steps
  Ends-cons path e line rest m m' s r seen (es, all_events, metered, later) = (
    (e, line) ∷ es,
    ap (λ t. ok (e, line) ∷ t) all_events,
    rw seen metered,
    λ fine closed.
        let (fine', lines, is_lines, counted, whole) = later fine closed in
        let (fine'', step) = unless_failed-Steps core_suffix path e line s fine' in
        let (all, same_lines, same_count, reads) = step es lines whole in
        (fine'', all, is_lines ∙ same_lines, counted ∙ same_count, reads),
  )

  inspect_events-Ends :
      (path : CatalogPath) (index : ℕ) (items : List Item) (m : RawYamlMeter) (s : Scan)
      → Yields (Ends items m s) (inspect_events core_suffix path index items m s)
  unfolding inspect_events
  inspect_events-Ends path index [] m s = Yields-pure _ (m, s) (Ends-nil m s)
  inspect_events-Ends path index (err message ∷ rest) m s =
      Yields-after _ (checkpoint_at index) _
        (λ _. Yields-raise _ (first_error s.metadata_error path message))
  inspect_events-Ends path index (ok (e, line) ∷ rest) m s =
      let P = Ends (ok (e, line) ∷ rest) m s in
      Yields-after P (checkpoint_at index) _ (λ _.
        Yields-lift P (map_err limit_error (observe e m)) _ (λ m' seen.
          Yields-weaken _ P _
            (inspect_events-Ends path (index + 1) rest m'
              (note_unless_failed core_suffix path e line s))
            (λ r later.
              Ends-cons path e line rest m m' s r (map_err-ok limit_error (observe e m) m' seen)
                later)))

  check_end-none :
      (path : CatalogPath) (s : Scan)
      → check_end path s ≡ none
      → (is_some s.metadata_error ≡ false) × (s.document_has_data ≡ none) × (0 < s.document_count)
  unfolding check_end
  check_end-none path s h = ground arith

  -- A stream that is accepted: only events, no error of the parser; whole documents that each have
  -- content; the lines at which they start and their number, which is not zero; the sums over all
  -- the events, which the budget holds more.
  pub record Accepts (path : CatalogPath) (items : List Item) (b : YamlBudget)
      (stream : DocumentStream) (b' : YamlBudget) : Type 0 where
    pub events : List (Event × ℕ)
    pub only_events : items ≡ map ok events
    pub whole : IsStream core_suffix events stream.document_start_lines
    pub counted : stream.document_count ≡ length stream.document_start_lines
    pub not_empty : 0 < stream.document_count
    pub summed : stream.raw_report ≡ (sums (map (λ e. e.0) events) ((raw_meter b path).report, 0)).0
    pub held : Holds b (sums (map (λ e. e.0) events) ((raw_meter b path).report, 0)).0 b'

  pub inspect-Yields :
      (path : CatalogPath) (items : List Item) (b : YamlBudget)
      → IsBounded b.limits
      → b.documents ≤ b.limits.documents
      → b.nodes ≤ b.limits.nodes
      → b.aliases ≤ b.limits.aliases
      → b.materialized_scalar_bytes ≤ b.limits.alias_expansion_bytes
      → Yields (λ r. Accepts path items b r.0 r.1) (inspect core_suffix path items b)
  unfolding inspect Ends
  inspect-Yields path items b bounded hd hn ha hb =
      let P : DocumentStream × YamlBudget → Type 0 = λ r. Accepts path items b r.0 r.1 in
      Yields-after P checkpoint _ (λ _.
        Yields-bind (Ends items (raw_meter b path) no_scan) P
          (inspect_events core_suffix path 0 items (raw_meter b path) no_scan) _
          (inspect_events-Ends path 0 items (raw_meter b path) no_scan)
          (λ r ends.
            let (es, only, metered, later) = ends in
            Yields-raise_some P (check_end path r.1) _ (λ passed.
              let (fine, closed, some_document) = check_end-none path r.1 passed in
              let (fine', lines, is_lines, counted, reads) = later fine closed in
              let totals =
                finish-Holds_sums (map (λ e. e.0) es) b path r.0 bounded hd hn ha hb metered in
              Yields-pure P _ (record {
                events = es;
                only_events = only;
                whole = rw is_lines reads;
                counted = rw is_lines (omega (arith, counted));
                not_empty = some_document;
                summed = totals.0;
                held = totals.1;
              }))))

  -- When the inspection of a physical file returns, under limits below `u64::MAX` that the budget
  -- does not exceed yet, the parser yielded no error; its events are whole documents, one behind
  -- the other and at least one, each with a node that is not null; their number and the lines of
  -- their starts are those of the result; the report has the exact sums over the events, and the
  -- budget holds exactly these more, within its limits.
  pub inspect-Accepts :
      (path : CatalogPath) (items : List Item) (b b' : YamlBudget) (stream : DocumentStream)
      (w w' : Work)
      → IsBounded b.limits
      → b.documents ≤ b.limits.documents
      → b.nodes ≤ b.limits.nodes
      → b.aliases ≤ b.limits.aliases
      → b.materialized_scalar_bytes ≤ b.limits.alias_expansion_bytes
      → inspect core_suffix path items b w ≡ ok ((stream, b'), w')
      → Accepts path items b stream b'
  inspect-Accepts path items b b' stream w w' bounded hd hn ha hb h =
      Yields-ok _ (inspect core_suffix path items b) w w' (stream, b')
        (inspect-Yields path items b bounded hd hn ha hb) h
