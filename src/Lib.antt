-- ===== src/Lib.antt =====
-- The sketch side of Contract Kit (conkit-sketch): the check of code snippets ("sketches") in
-- contract documents against the source files that they name, and the semantic diff of contracts.
--
-- A check reads catalogs of files, metered by `Catalog` (files.rs, limits/catalog.rs) and keyed by
-- the validated paths of `Path` (files.rs). `Document.Parsing` (contract/document.rs) sorts the
-- contract files out; each is inspected event by event by `Document.Stream` on the budget of
-- `Limits.Yaml` (limits/yaml.rs), parsed, and read as the documents of `Document`. `Resolve`
-- (contract/resolve.rs) resolves these to the contracts of `Contract` (id.rs, contract/model.rs),
-- and `Generate` (generate.rs) checks the seeds of a refresh against them. `Normalize`
-- (normalize.rs) turns a snippet or a source file into a canonical text with line ranges;
-- `Matching` (normalize.rs, matcher.rs) searches the one in the other under the budgets of
-- `Limits.Matching` (limits/matching.rs) and finds the nearest candidate of a snippet that is
-- missing; `Evidence` (matcher.rs) measures and writes its excerpts; `Matcher` (matcher.rs) runs
-- the check over all groups of source files and reserves each diagnostic in the budget of
-- `Limits.Output` (limits/output.rs); `Inventory` (inventory.rs) holds diagnostics, their order
-- and the counts. `Limits.Generated` (limits/output.rs) has the scratch buffers and the returned
-- output of a refresh. `Diff` (contract/diff.rs) merges two catalogs and encodes the digests;
-- `Api` (api.rs) runs a request for a diff from its catalogs. `Error` (error.rs, limits.rs, id.rs)
-- has the errors, `Work` (work.rs) the cancellation probe, and `Pool` (work.rs) the admission of
-- operations and their permits. All paths are below conkit-sketch/.
--
-- State: what the source passes as `&mut` is one record, `Work`, which holds the probe and the
-- matching counters; an operation is a function from it to a result with the next state, `M`.
-- Another thread may set the flag of the probe at any time: the probe counts the loads until then.
-- Machine integers are native numbers with the saturating operations of the source; `usize` has 64
-- bits. Text is the list of its Unicode scalar values. Maps are sorted association lists.
-- The stable `sort_by` of the standard library stands as an insertion sort.
--
-- The worker pool is a step relation: callers, executor and workers act on jobs in any order.
--
-- Loops run on the rounds that are left or on the bytes and lines that are left. The merge of the
-- diff runs on fuel, the number of contracts on both sides: each round takes one at least; the
-- chunks of a returned file run on as many rounds as there are bytes, and take one byte at least.
--
-- Not modelled: allocation failure (but for output buffers) and capacities, serde and message
-- texts, the editing of YAML text, reports, and the other two crates (conkit-signature, conkit).
-- SHA-256, the JSON writer, the YAML parsers, the allocator and the UTF-8 decoder are parameters.
pub mod Prelude
pub mod Text
pub mod SortedMap
pub mod Path
pub mod Error
pub mod Limits
pub mod Work
pub mod Normalize
pub mod Contract
pub mod Inventory
pub mod Catalog
pub mod Matching
pub mod Evidence
pub mod Matcher
pub mod Diff
pub mod Tests
pub mod Document
pub mod Resolve
pub mod Generate
pub mod Api
pub mod Pool
