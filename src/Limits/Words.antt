-- ===== src/Limits/Words.antt =====
-- conkit-sketch/limits.rs: the conversions between `usize` and `u64`, which keep every machine
-- word on a 64-bit target.
use contract_kit.Prelude.{ℕ, leb, if◌then◌else◌, u64_max}

-- `u64::try_from(value).unwrap_or(u64::MAX)`.
abbrev pub observed : ℕ → ℕ
observed value = if leb value u64_max then value else u64_max

-- `usize::try_from(value).unwrap_or(usize::MAX)`.
abbrev pub parser_limit : ℕ → ℕ
parser_limit value = if leb value u64_max then value else u64_max
