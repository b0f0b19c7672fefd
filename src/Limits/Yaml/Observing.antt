-- ===== src/Limits/Yaml/Observing.antt =====
-- What one event does to the raw meter, against the sums that it stands for.
use contract_kit.Prelude.{
  ℕ, ◌+◌, ◌-◌, ◌≤◌, ◌<◌, ◌≡◌, refl, max, Option, none, some, arith, u64_max, min, saturating_add,
  saturating_sub,
}
use contract_kit.Prelude.Results.{Result, ok, err, ◌>>=◌}
use contract_kit.Text.{Text, byte_len}
use contract_kit.Path.{CatalogPath}
use contract_kit.Error.{LimitExceeded}
use contract_kit.Limits.{charge}
use contract_kit.Limits.Yaml.{
  Tag, ScalarStyle, Event, document_start, document_end, mapping_end, sequence_end, alias, nothing,
  stream_start, stream_end, comment, scalar, mapping_start, sequence_start, YamlLimits, YamlBudget,
  RawYamlReport, RawYamlMeter, Charged, documents, depth, nodes, aliases, scalar_bytes, encountered,
  limit_of, accumulated, store, charge_meter, tag_bytes, open_container, observe,
}

-- Limits that saturation does not reach.
pub record IsBounded (limits : YamlLimits) : Type 0 where
  pub documents_bounded : limits.documents < u64_max
  pub depth_bounded : limits.depth < u64_max
  pub nodes_bounded : limits.nodes < u64_max
  pub aliases_bounded : limits.aliases < u64_max
  pub bytes_bounded : limits.alias_expansion_bytes < u64_max

limit_bounded :
    (limits : YamlLimits) → IsBounded limits → (r : Charged) → limit_of r limits < u64_max
limit_bounded limits b documents = b.documents_bounded
limit_bounded limits b depth = b.depth_bounded
limit_bounded limits b nodes = b.nodes_bounded
limit_bounded limits b aliases = b.aliases_bounded
limit_bounded limits b scalar_bytes = b.bytes_bounded

-- An error shows an observation above its limit.
abbrev pub Breaks : LimitExceeded → Type 0
Breaks x = x.limit < x.observed_at_least

-- How a charge ends.
abbrev Charges : Charged → ℕ → RawYamlMeter → Result LimitExceeded RawYamlMeter → Type 0
Charges r amount m (ok m') =
    (m' ≡ record m { report = store r (encountered r m.report + amount) m.report })
    × (accumulated r m.budget + (encountered r m.report + amount) ≤ limit_of r m.budget.limits)
Charges r amount m (err x) =
    (limit_of r m.budget.limits < accumulated r m.budget + (encountered r m.report + amount))
    × Breaks x

charge_meter-Charges :
    (r : Charged) (amount : ℕ) (m : RawYamlMeter)
    → limit_of r m.budget.limits < u64_max
    → Charges r amount m (charge_meter r amount m)
unfolding charge_meter charge
charge_meter-Charges r amount m h = ground arith

-- A charge that fits goes on with the exact sum, and one that does not ends in an error.
charge_then :
    (P : Result LimitExceeded RawYamlMeter → Type 0) (r : Charged) (amount : ℕ) (m : RawYamlMeter)
    (k : RawYamlMeter → Result LimitExceeded RawYamlMeter)
    → limit_of r m.budget.limits < u64_max
    → (accumulated r m.budget + (encountered r m.report + amount) ≤ limit_of r m.budget.limits
        → P (k (record m { report = store r (encountered r m.report + amount) m.report })))
    → ((x : LimitExceeded)
        → limit_of r m.budget.limits < accumulated r m.budget + (encountered r m.report + amount)
        → Breaks x
        → P (err x))
    → P (charge_meter r amount m >>= k)
charge_then P r amount m k h fits breaks =
    go (charge_meter r amount m) (charge_meter-Charges r amount m h)
  where
    go : (c : Result LimitExceeded RawYamlMeter) → Charges r amount m c → P (c >>= k)
    go (ok m') (same, within) = rw same (fits within)
    go (err x) (over, broken) = breaks x over broken

-- The bytes of a tag.
abbrev pub tag_length : Option Tag → ℕ
tag_length none = 0
tag_length (some tag) = byte_len tag.handle + byte_len tag.suffix

-- One container more is open.
abbrev pub open_one : ℕ → RawYamlReport × ℕ → RawYamlReport × ℕ
open_one bytes (r, open_now) = (
  record r {
    nodes = r.nodes + 1;
    max_depth = max r.max_depth (open_now + 1);
    total_scalar_bytes = r.total_scalar_bytes + bytes;
  },
  open_now + 1,
)

-- What an event adds to the sums and to the containers that are open.
abbrev pub add : Event → RawYamlReport × ℕ → RawYamlReport × ℕ
add document_start (r, open_now) = (record r { documents = r.documents + 1 }, open_now)
add (scalar value style tag) (r, open_now) = (
  record r {
    nodes = r.nodes + 1;
    total_scalar_bytes = r.total_scalar_bytes + (byte_len value + tag_length tag);
  },
  open_now,
)
add (mapping_start tag) sums = open_one (tag_length tag) sums
add (sequence_start tag) sums = open_one (tag_length tag) sums
add mapping_end (r, open_now) = (r, open_now - 1)
add sequence_end (r, open_now) = (r, open_now - 1)
add alias (r, open_now) = (record r { aliases = r.aliases + 1 }, open_now)
add document_end sums = sums
add nothing sums = sums
add stream_start sums = sums
add stream_end sums = sums
add comment sums = sums

-- On top of what the budget holds already, the sums are within its limits.
pub record Within (b : YamlBudget) (r : RawYamlReport) : Type 0 where
  pub documents_within : b.documents + r.documents ≤ b.limits.documents
  pub depth_within : r.max_depth ≤ b.limits.depth
  pub nodes_within : b.nodes + r.nodes ≤ b.limits.nodes
  pub aliases_within : b.aliases + r.aliases ≤ b.limits.aliases
  pub bytes_within :
      b.materialized_scalar_bytes + r.total_scalar_bytes ≤ b.limits.alias_expansion_bytes

-- The meter gets to these sums, or refuses them.
abbrev pub Arrives :
    RawYamlReport × ℕ → YamlBudget → CatalogPath → Result LimitExceeded RawYamlMeter → Type 0
Arrives sums budget path (ok m') =
    ((m'.report, m'.depth) ≡ sums) × (m'.budget ≡ budget) × (m'.path ≡ path) × Within budget sums.0
Arrives sums budget path (err x) = ¬ Within budget sums.0 × Breaks x

abbrev pub Reaches : RawYamlReport × ℕ → RawYamlMeter → Result LimitExceeded RawYamlMeter → Type 0
Reaches sums m = Arrives sums m.budget m.path

abbrev pub Observes : Event → RawYamlMeter → Result LimitExceeded RawYamlMeter → Type 0
Observes e m = Reaches (add e (m.report, m.depth)) m

tag_bytes_lem : (tag : Option Tag) → tag_bytes tag ≡ min (tag_length tag) u64_max
unfolding tag_bytes
tag_bytes_lem none = omega arith
tag_bytes_lem (some tag) = omega arith

charge_last :
    (P : Result LimitExceeded RawYamlMeter → Type 0) (r : Charged) (amount : ℕ) (m : RawYamlMeter)
    → limit_of r m.budget.limits < u64_max
    → (accumulated r m.budget + (encountered r m.report + amount) ≤ limit_of r m.budget.limits
        → P (ok (record m { report = store r (encountered r m.report + amount) m.report })))
    → ((x : LimitExceeded)
        → limit_of r m.budget.limits < accumulated r m.budget + (encountered r m.report + amount)
        → Breaks x
        → P (err x))
    → P (charge_meter r amount m)
charge_last P r amount m h fits breaks =
    go (charge_meter r amount m) (charge_meter-Charges r amount m h)
  where
    go : (c : Result LimitExceeded RawYamlMeter) → Charges r amount m c → P c
    go (ok m') (same, within) = rw same (fits within)
    go (err x) (over, broken) = breaks x over broken

module _ (m : RawYamlMeter) (bounded : IsBounded m.budget.limits)
    (w : Within m.budget m.report) where
  document_start-Observes : Observes document_start m (observe document_start m)
  unfolding observe
  document_start-Observes =
      charge_last (Observes document_start m) documents 1 m bounded.documents_bounded
        (λ fits. (refl, refl, refl, ground (arith, fits)))
        (λ x over broken. (λ v. omega (arith, v.documents_within), broken))

  alias-Observes : Observes alias m (observe alias m)
  unfolding observe
  alias-Observes =
      charge_last (Observes alias m) aliases 1 m bounded.aliases_bounded
        (λ fits. (refl, refl, refl, ground (arith, fits)))
        (λ x over broken. (λ v. omega (arith, v.aliases_within), broken))

  scalar-Observes :
      (value : Text) (style : ScalarStyle) (tag : Option Tag)
      → Observes (scalar value style tag) m (observe (scalar value style tag) m)
  unfolding observe
  scalar-Observes value style tag =
      let e = scalar value style tag in
      let amount = saturating_add (byte_len value) (tag_bytes tag) in
      let bytes = tag_bytes_lem tag in
      let limit = bounded.bytes_bounded in
      charge_then (Observes e m) nodes 1 m (charge_meter scalar_bytes amount) bounded.nodes_bounded
        (λ node_fits.
          charge_last (Observes e m) scalar_bytes amount
            (record m { report = record m.report { nodes = m.report.nodes + 1 } })
            bounded.bytes_bounded
            (λ fits.
              let exact : amount ≡ byte_len value + tag_length tag = omega arith in
              rw exact (refl, refl, refl, ground (arith, node_fits, exact)))
            (λ x over broken. (λ v. omega (arith, v.bytes_within), broken)))
        (λ x over broken. (λ v. omega (arith, v.nodes_within), broken))

  open_container-Reaches :
      (tag : Option Tag)
      → Reaches (open_one (tag_length tag) (m.report, m.depth)) m (open_container tag m)
  unfolding open_container
  open_container-Reaches tag =
      let P = Reaches (open_one (tag_length tag) (m.report, m.depth)) m in
      let bytes = tag_bytes_lem tag in
      let limit = bounded.bytes_bounded in
      let depth_limit = bounded.depth_bounded in
      charge_then P nodes 1 m _ bounded.nodes_bounded
        (λ node_fits.
          charge_then P depth (saturating_sub (saturating_add m.depth 1) m.report.max_depth)
            (record m {
              report = record m.report { nodes = m.report.nodes + 1 };
              depth = saturating_add m.depth 1;
            })
            (charge_meter scalar_bytes (tag_bytes tag)) bounded.depth_bounded
            (λ depth_fits.
              charge_last P scalar_bytes (tag_bytes tag) _ bounded.bytes_bounded
                (λ fits.
                  let deeper : saturating_add m.depth 1 ≡ m.depth + 1 = omega arith in
                  let deepest : m.report.max_depth + (m.depth + 1 - m.report.max_depth)
                      ≡ max m.report.max_depth (m.depth + 1) =
                    omega arith in
                  let exact : tag_bytes tag ≡ tag_length tag = omega arith in
                  let shallow : max m.report.max_depth (m.depth + 1) ≤ m.budget.limits.depth =
                    omega arith in
                  let few : m.budget.materialized_scalar_bytes
                        + (m.report.total_scalar_bytes + tag_length tag)
                      ≤ m.budget.limits.alias_expansion_bytes =
                    rw exact at fits in
                  rw (deeper, deepest, exact)
                    (
                      refl,
                      refl,
                      refl,
                      record {
                        documents_within = w.documents_within;
                        depth_within = shallow;
                        nodes_within = node_fits;
                        aliases_within = w.aliases_within;
                        bytes_within = few;
                      },
                    ))
                (λ x over broken. (λ v. omega (arith, v.bytes_within), broken)))
            (λ x over broken. (λ v. omega (arith, v.depth_within), broken)))
        (λ x over broken. (λ v. omega (arith, v.nodes_within), broken))

  pub observe-Observes : (e : Event) → Observes e m (observe e m)
  unfolding observe
  observe-Observes document_start = document_start-Observes
  observe-Observes (scalar value style tag) = scalar-Observes value style tag
  observe-Observes (mapping_start tag) = open_container-Reaches tag
  observe-Observes (sequence_start tag) = open_container-Reaches tag
  observe-Observes mapping_end = (refl, refl, refl, w)
  observe-Observes sequence_end = (refl, refl, refl, w)
  observe-Observes alias = alias-Observes
  observe-Observes document_end = (refl, refl, refl, w)
  observe-Observes nothing = (refl, refl, refl, w)
  observe-Observes stream_start = (refl, refl, refl, w)
  observe-Observes stream_end = (refl, refl, refl, w)
  observe-Observes comment = (refl, refl, refl, w)
