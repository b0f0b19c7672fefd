-- ===== src/Normalize.antt =====
-- conkit-sketch/normalize.rs: the budgeted normalization of a snippet or a source file into
-- lines, and the comparison of two normalized texts. A `Range<usize>` into the bytes is kept as
-- such, and a slice out of range, on which the source panics, is cut at the end of the bytes.
pub mod Reference
pub mod Scanning
pub mod Rounds
pub mod Total
pub mod Entry
pub mod Comparison
pub mod Equality
use Prim.Native.Nat.{◌%◌}
use contract_kit.Prelude.{
  ℕ, zero, suc, ◌+◌, ◌-◌, Bool, true, false, ◌&&◌, ◌||◌, not, Option, none, some, List, [], ◌∷◌,
  ◌++◌, map, ltb, leb, ◌==◌, if◌then◌else◌, length, get_elem?, take, drop, saturating_add,
  saturating_sub,
}
use contract_kit.Prelude.Order.{Ord, nat_ord, list_ord, cmp_list, ◌===◌}
use contract_kit.Prelude.Results
use contract_kit.Prelude.Results.{Result, ok, err}
use contract_kit.Path.{CatalogPath}
use contract_kit.Error.{
  Error, LimitResource, LimitExceeded, snippet_bytes, snippet_lines, normalized_source_bytes,
  normalized_source_lines,
}
use contract_kit.Limits.Words.{observed}
use contract_kit.Limits.Matching.{MatchingLimits}
use contract_kit.Work.{M, ◌>>=◌, ◌>>◌, pure, limited, checkpoint, checkpoint_at}

abbrev pub Bytes : Type 0
Bytes = List ℕ

pub record NormalizationBudget : Type 0 where
  pub byte_limit : ℕ
  pub line_limit : ℕ
  pub byte_resource : LimitResource
  pub line_resource : LimitResource
  pub file : CatalogPath

abbrev pub snippet : MatchingLimits → CatalogPath → NormalizationBudget
snippet limits file = record {
  byte_limit = limits.snippet_bytes;
  line_limit = limits.snippet_lines;
  byte_resource = snippet_bytes;
  line_resource = snippet_lines;
  file = file;
}

abbrev pub source : MatchingLimits → CatalogPath → NormalizationBudget
source limits file = record {
  byte_limit = limits.normalized_source_bytes;
  line_limit = limits.normalized_source_lines;
  byte_resource = normalized_source_bytes;
  line_resource = normalized_source_lines;
  file = file;
}

-- `NormalizationBudget::validate`.
unfoldable pub validate : CatalogPath → LimitResource → ℕ → ℕ → Result LimitExceeded (Unit {0})
validate file resource limit count =
    if ltb limit (observed count)
    then err (record {
      resource = resource;
      limit = limit;
      observed_at_least = observed count;
      file = some file;
    })
    else ok tt

unfoldable pub validate_bytes : NormalizationBudget → ℕ → Result LimitExceeded (Unit {0})
unfolding validate
validate_bytes budget bytes = validate budget.file budget.byte_resource budget.byte_limit bytes

unfoldable pub validate_line : NormalizationBudget → ℕ → Result LimitExceeded (Unit {0})
unfolding validate
validate_line budget lines = validate budget.file budget.line_resource budget.line_limit lines

-- `Range<usize>`.
pub record Range : Type 0 where
  pub start : ℕ
  pub end : ℕ

pub record NormalizedSnippet : Type 0 where
  pub bytes : Bytes
  pub lines : List Range

-- `&self.bytes[range]`.
abbrev pub slice : Bytes → Range → Bytes
slice bytes range = take (range.end - range.start) (drop range.start bytes)

-- The variables of the loop of `from_bytes`, without `index`: the loop runs on `bytes[index..]`.
pub record Scan : Type 0 where
  pub normalized : Bytes
  pub lines : List Range
  pub line_count : ℕ
  pub line_start : ℕ
  pub processed : ℕ

-- `if line_count == 0`.
unfoldable pub first_line : NormalizationBudget → Scan → Result LimitExceeded Scan
unfolding validate_line
first_line budget s =
    if s.line_count == 0
    then Results.◌>>=◌ (validate_line budget 1) (λ _. ok (record s { line_count = 1 }))
    else ok s

-- `if byte == b'\n'`, and its `else`.
unfoldable pub store_byte : NormalizationBudget → ℕ → Scan → Result LimitExceeded Scan
unfolding validate_line
store_byte budget byte s =
    if byte == b'\n'
    then Results.◌>>=◌ (validate_line budget (saturating_add s.line_count 1)) (λ _. ok (record s {
      normalized = s.normalized ++ byte ∷ [];
      lines = s.lines ++ (record { start = s.line_start; end = length s.normalized }) ∷ [];
      line_count = saturating_add s.line_count 1;
      line_start = length (s.normalized ++ byte ∷ []);
    }))
    else ok (record s { normalized = s.normalized ++ byte ∷ [] })

unfoldable pub push_byte : NormalizationBudget → ℕ → Scan → Result LimitExceeded Scan
unfolding validate_bytes first_line store_byte
push_byte budget byte s =
    Results.◌>>=◌ (validate_bytes budget (saturating_add (length s.normalized) 1))
      (λ _. Results.◌>>=◌ (first_line budget s) (store_byte budget byte))

-- How one round of the loop ends: by `break`, or with the state of the next round.
pub data Flow : Type 0 where
  broken : Scan → Flow
  running : Scan → Flow

-- One round, at the byte that the source reads and whether it is the last of the input.
unfoldable pub visit : NormalizationBudget → ℕ → Bool → Scan → M Flow
visit budget byte last s = do
  checkpoint_at s.processed
  let counted = record s { processed = saturating_add s.processed 1 }
  if byte == b'\n' && last
      then pure (broken counted)
      else do stored ← limited (push_byte budget byte counted); pure (running stored)

abbrev pub is_nil : Bytes → Bool
is_nil [] = true
is_nil (b ∷ bs) = false

-- `while index < bytes.len()`, on the bytes from `index` on.
unfoldable pub scan_bytes : NormalizationBudget → Bytes → Scan → M Scan
scan_bytes budget [] s = pure s
scan_bytes budget (b ∷ []) s =
    visit budget b true s >>= λ flow. elim flow [ broken t ↦ pure t | running t ↦ pure t ]
scan_bytes budget (b ∷ c ∷ rest) s = elim (b == b'\r' && c == b'\n') [
  | true ↦ visit budget b'\n' (is_nil rest) s >>= λ flow. elim flow [
    | broken t ↦ pure t
    | running t ↦ scan_bytes budget rest t
  ]
  | false ↦ visit budget b false s >>= λ flow. elim flow [
    | broken t ↦ pure t
    | running t ↦ scan_bytes budget (c ∷ rest) t
  ]
]

abbrev pub scan_start : Scan
scan_start = record { normalized = []; lines = []; line_count = 0; line_start = 0; processed = 0 }

-- `lines.push(line_start..normalized.len())` behind the loop.
abbrev pub close : Scan → NormalizedSnippet
close s = record {
  bytes = s.normalized;
  lines = s.lines ++ (record { start = s.line_start; end = length s.normalized }) ∷ [];
}

unfoldable pub from_bytes : Bytes → NormalizationBudget → M NormalizedSnippet
unfolding scan_bytes visit push_byte checkpoint_at checkpoint
from_bytes bytes budget = do s ← scan_bytes budget bytes scan_start; checkpoint; pure (close s)

pub data SketchNormalization : Type 0 where
  exact_lines_v1 : SketchNormalization

unfoldable pub normalize_snippet :
    SketchNormalization → Bytes → MatchingLimits → CatalogPath → M NormalizedSnippet
unfolding validate_bytes from_bytes
normalize_snippet exact_lines_v1 bytes limits file = do
  limited (validate_bytes (snippet limits file) (length bytes))
  from_bytes bytes (snippet limits file)

unfoldable pub normalize_source :
    SketchNormalization → Bytes → MatchingLimits → CatalogPath → M NormalizedSnippet
unfolding from_bytes
normalize_source exact_lines_v1 bytes limits file = from_bytes bytes (source limits file)

-- `self.lines.len() == 1 && self.line(&self.lines[0]).is_empty()`.
abbrev pub one_empty_line : Bytes → List Range → Bool
one_empty_line bytes (range ∷ []) = is_nil (slice bytes range)
one_empty_line bytes _ = false

abbrev pub is_empty : NormalizedSnippet → Bool
is_empty n = one_empty_line n.bytes n.lines

abbrev pub line_count : NormalizedSnippet → ℕ
line_count n = if is_empty n then 0 else length n.lines

abbrev pub slice_option : Bytes → Option Range → Option Bytes
slice_option bytes none = none
slice_option bytes (some range) = some (slice bytes range)

abbrev pub line_at : NormalizedSnippet → ℕ → Option Bytes
line_at n index = slice_option n.bytes (get_elem? n.lines index)

abbrev pub lines : NormalizedSnippet → List Bytes
lines n = map (slice n.bytes) (take (line_count n) n.lines)

-- `==` of two `Option<&[u8]>`.
abbrev pub same_line : Option Bytes → Option Bytes → Bool
same_line none none = true
same_line (some a) (some b) = a === b
same_line _ _ = false

-- `zip(..).all(..)` behind the test of the lengths.
abbrev pub all_same : List Bytes → List Bytes → Bool
all_same (a ∷ as') (b ∷ bs) = a === b && all_same as' bs
all_same _ _ = true

-- `matches_lines`, and so the `PartialEq` of two normalized texts.
unfoldable pub equal_lines : NormalizedSnippet → NormalizedSnippet → Bool
unfolding cmp_list
equal_lines a b =
    length a.lines == length b.lines
    && all_same (map (slice a.bytes) a.lines) (map (slice b.bytes) b.lines)
