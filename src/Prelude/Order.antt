-- ===== src/Prelude/Order.antt =====
-- Rust's `Ord` as an interface, with the laws that the trait asks of `cmp`; `Eq` as a Boolean
-- test; the lexicographic order of `Vec`, `String` and tuples.
use Prim.Native.Nat.{ℕ, compare, Ordering}
use Prim.Native.Nat.Ordering.{lt, eq, gt}
use mathlib.Core.Path.{◌≡◌, refl}
use mathlib.Core.Logic.{◌↔◌}
use mathlib.Core.Bool.{Bool, true, false}
use mathlib.Core.List.{List, [], ◌∷◌}
use native.Mathlib.Omega.{arith}

pub record Ord {ℓ} (K : Type ℓ) : Type ℓ where
  pub cmp : K → K → Ordering
  pub cmp_refl : (a : K) → cmp a a ≡ eq
  pub eq_of_cmp : (a b : K) → cmp a b ≡ eq → a ≡ b
  pub gt_of_lt : (a b : K) → cmp a b ≡ lt → cmp b a ≡ gt
  pub lt_of_gt : (a b : K) → cmp a b ≡ gt → cmp b a ≡ lt
  pub lt_trans : (a b c : K) → cmp a b ≡ lt → cmp b c ≡ lt → cmp a c ≡ lt

abbrev pub is_eq : Ordering → Bool
is_eq eq = true
is_eq _ = false

-- The derived `==` of a type that is ordered.
infix 50 ◌===◌
abbrev pub ◌===◌ {ℓ} : {K : Type ℓ} ⦃o : Ord K⦄ → K → K → Bool
◌===◌ ⦃o⦄ a b = is_eq (o.cmp a b)

pub ===_iff {ℓ} : {K : Type ℓ} ⦃o : Ord K⦄ (a b : K) → ((a === b) ≡ true) ↔ (a ≡ b)
===_iff ⦃o⦄ a b = (λ h. o.eq_of_cmp a b (ground arith), λ h. rw h (rw (o.cmp_refl b) refl))

pub compare_refl : (a : ℕ) → compare a a ≡ eq
compare_refl a = ground arith

pub eq_of_compare : (a b : ℕ) → compare a b ≡ eq → a ≡ b
eq_of_compare a b h = ground arith

pub gt_of_lt-compare : (a b : ℕ) → compare a b ≡ lt → compare b a ≡ gt
gt_of_lt-compare a b h = ground arith

pub lt_of_gt-compare : (a b : ℕ) → compare a b ≡ gt → compare b a ≡ lt
lt_of_gt-compare a b h = ground arith

pub lt_trans_compare : (a b c : ℕ) → compare a b ≡ lt → compare b c ≡ lt → compare a c ≡ lt
lt_trans_compare a b c h k = ground arith

instance abbrev pub nat_ord : Ord ℕ
nat_ord = record {
  cmp = compare;
  cmp_refl = compare_refl;
  eq_of_cmp = eq_of_compare;
  gt_of_lt = gt_of_lt-compare;
  lt_of_gt = lt_of_gt-compare;
  lt_trans = lt_trans_compare;
}

-- `Ordering::then_with`.
abbrev pub then_with : Ordering → Ordering → Ordering
then_with eq second = second
then_with lt second = lt
then_with gt second = gt

module _ {ℓ} {K : Type ℓ} ⦃o : Ord K⦄ where
  unfoldable pub cmp_list : List K → List K → Ordering
  cmp_list [] [] = eq
  cmp_list [] (y ∷ ys) = lt
  cmp_list (x ∷ xs) [] = gt
  cmp_list (x ∷ xs) (y ∷ ys) = then_with (o.cmp x y) (cmp_list xs ys)

  pub cmp_list_refl : (xs : List K) → cmp_list xs xs ≡ eq
  unfolding cmp_list
  cmp_list_refl [] = refl
  cmp_list_refl (x ∷ xs) = rw (o.cmp_refl x) (cmp_list_refl xs)

  pub eq_of_cmp_list : (xs ys : List K) → cmp_list xs ys ≡ eq → xs ≡ ys
  unfolding cmp_list
  eq_of_cmp_list [] [] h = refl
  eq_of_cmp_list [] (y ∷ ys) h = ground arith
  eq_of_cmp_list (x ∷ xs) [] h = ground arith
  eq_of_cmp_list (x ∷ xs) (y ∷ ys) h = ground (arith, o.eq_of_cmp x y, eq_of_cmp_list xs ys)

  pub gt_of_lt_list : (xs ys : List K) → cmp_list xs ys ≡ lt → cmp_list ys xs ≡ gt
  unfolding cmp_list
  gt_of_lt_list [] [] h = ground arith
  gt_of_lt_list [] (y ∷ ys) h = refl
  gt_of_lt_list (x ∷ xs) [] h = ground arith
  gt_of_lt_list (x ∷ xs) (y ∷ ys) h =
      ground (arith, o.eq_of_cmp x y, o.gt_of_lt x y, o.cmp_refl y, gt_of_lt_list xs ys)

  pub lt_of_gt_list : (xs ys : List K) → cmp_list xs ys ≡ gt → cmp_list ys xs ≡ lt
  unfolding cmp_list
  lt_of_gt_list [] [] h = ground arith
  lt_of_gt_list [] (y ∷ ys) h = ground arith
  lt_of_gt_list (x ∷ xs) [] h = refl
  lt_of_gt_list (x ∷ xs) (y ∷ ys) h =
      ground (arith, o.eq_of_cmp x y, o.lt_of_gt x y, o.cmp_refl y, lt_of_gt_list xs ys)

  pub lt_trans_list :
      (xs ys zs : List K) → cmp_list xs ys ≡ lt → cmp_list ys zs ≡ lt → cmp_list xs zs ≡ lt
  unfolding cmp_list
  lt_trans_list [] ys [] h k =
      elim (ys) as (λ l. cmp_list l [] ≡ lt → ◌≡◌ {A = Ordering} eq lt) [
        | [] ↦ λ e. e
        | y ∷ r ↦ λ e. ground arith
      ]
        k
  lt_trans_list [] ys (z ∷ zs) h k = refl
  lt_trans_list (x ∷ xs) [] zs h k = ground arith
  lt_trans_list (x ∷ xs) (y ∷ ys) [] h k = ground arith
  lt_trans_list (x ∷ xs) (y ∷ ys) (z ∷ zs) h k = ground (
    arith,
    o.eq_of_cmp x y,
    o.eq_of_cmp y z,
    o.lt_trans x y z,
    o.cmp_refl y,
    lt_trans_list xs ys zs,
  )

instance abbrev pub list_ord {ℓ} : {K : Type ℓ} ⦃o : Ord K⦄ → Ord (List K)
list_ord = record {
  cmp = cmp_list;
  cmp_refl = cmp_list_refl;
  eq_of_cmp = eq_of_cmp_list;
  gt_of_lt = gt_of_lt_list;
  lt_of_gt = lt_of_gt_list;
  lt_trans = lt_trans_list;
}
