-- ===== src/Path.antt =====
-- conkit-sketch/files.rs: logical catalog paths and their validation.
pub mod Grammar
use contract_kit.Prelude.{Bool, false, ◌||◌, ap, List, [], ◌∷◌}
use contract_kit.Prelude.Results.{Result, ok, ◌>>◌, fail_if}
use contract_kit.Prelude.Order.{
  Ord, list_ord, nat_ord, cmp_list, cmp_list_refl, eq_of_cmp_list, gt_of_lt_list, lt_of_gt_list,
  lt_trans_list, ◌===◌,
}
use contract_kit.Text.{Text, text, is_empty, contains, starts_with, split}

pub record CatalogPath : Type 0 where
  pub value : Text

pub data FileCatalogError : Type 0 where
  invalid_path : Text → FileCatalogError
  duplicate_path : CatalogPath → FileCatalogError

-- `component.is_empty() || component == "." || component == ".."`.
pub is_bad_component : Text → Bool
is_bad_component component = is_empty component || component === text "." || component === text ".."

-- `Iterator::any` over the components.
pub any_bad : List Text → Bool
unfolding is_bad_component
any_bad [] = false
any_bad (component ∷ rest) = is_bad_component component || any_bad rest

pub validate : Text → Result FileCatalogError (Unit {0})
unfolding contains split any_bad cmp_list
validate value = do
  fail_if
      (is_empty value
        || starts_with b'/' value
        || contains b'\\' value
        || contains b':' value
        || contains 0 value)
      (invalid_path value)
  fail_if (any_bad (split b'/' value)) (invalid_path value)

unfoldable pub new : Text → Result FileCatalogError CatalogPath
unfolding validate
new value = do validate value; ok (record { value = value })

instance abbrev pub path_ord : Ord CatalogPath
path_ord = record {
  cmp = λ a b. cmp_list a.value b.value;
  cmp_refl = λ a. cmp_list_refl a.value;
  eq_of_cmp = λ a b h. ap (λ v. record { value = v }) (eq_of_cmp_list a.value b.value h);
  gt_of_lt = λ a b. gt_of_lt_list a.value b.value;
  lt_of_gt = λ a b. lt_of_gt_list a.value b.value;
  lt_trans = λ a b c. lt_trans_list a.value b.value c.value;
}
