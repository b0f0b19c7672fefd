-- ===== src/Limits.antt =====
-- conkit-sketch/limits.rs: the charge of one resource.
pub mod Words
pub mod Matching
pub mod Output
pub mod Generated
pub mod Yaml
use contract_kit.Prelude.{ℕ, some, ltb, if◌then◌else◌, saturating_add, saturating_sub}
use contract_kit.Prelude.Results.{Result, ok, err}
use contract_kit.Limits.Words.{observed}
use contract_kit.Path.{CatalogPath}
use contract_kit.Error.{LimitResource, LimitExceeded}

pub record LimitCharge : Type 0 where
  pub resource : LimitResource
  pub limit : ℕ
  pub accumulated : ℕ

unfoldable pub charge : LimitCharge → ℕ → CatalogPath → Result LimitExceeded ℕ
charge c encountered file =
    let total = saturating_add c.accumulated (observed encountered) in
    if ltb c.limit total
    then err (record {
      resource = c.resource;
      limit = c.limit;
      observed_at_least = total;
      file = some file;
    })
    else ok total

unfoldable pub breach : LimitCharge → ℕ → ℕ → CatalogPath → LimitExceeded
breach c encountered already_recorded file = record {
  resource = c.resource;
  limit = c.limit;
  observed_at_least =
      saturating_add c.accumulated (observed (saturating_sub encountered already_recorded));
  file = some file;
}
