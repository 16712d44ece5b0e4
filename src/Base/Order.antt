-- ===== src/Base/Order.antt =====
-- Total orders as an interface: what `Ord` promises of `cmp`.
use Prim.Native.Nat.{ℕ, compare, Ordering}
use mathlib.Core.Path.{◌≡◌}
use mathlib.Core.Bool.{Bool, true, false}
use native.Mathlib.Omega.{arith}

pub record Ord (K : Type 0) : Type 0 where
  pub cmp : K → K → Ordering
  pub cmp_self : (a : K) → cmp a a ≡ Ordering.eq
  pub eq_of_cmp : (a b : K) → cmp a b ≡ Ordering.eq → a ≡ b
  pub lt_of_gt : (a b : K) → cmp a b ≡ Ordering.gt → cmp b a ≡ Ordering.lt
  pub gt_of_lt : (a b : K) → cmp a b ≡ Ordering.lt → cmp b a ≡ Ordering.gt
  pub lt_trans : (a b c : K) → cmp a b ≡ Ordering.lt → cmp b c ≡ Ordering.lt → cmp a c ≡ Ordering.lt

abbrev pub same : {K : Type 0} ⦃o : Ord K⦄ → K → K → Bool
same ⦃o⦄ a b = elim (o.cmp a b) [ Ordering.eq ↦ true | _ ↦ false ]

-- `a < b`.
abbrev pub before : {K : Type 0} ⦃o : Ord K⦄ → K → K → Bool
before ⦃o⦄ a b = elim (o.cmp a b) [ Ordering.lt ↦ true | _ ↦ false ]

pub compare_self : (a : ℕ) → compare a a ≡ Ordering.eq
compare_self a = ground arith

pub compare_eq : (a b : ℕ) → compare a b ≡ Ordering.eq → a ≡ b
compare_eq a b h = ground arith

pub compare_gt : (a b : ℕ) → compare a b ≡ Ordering.gt → compare b a ≡ Ordering.lt
compare_gt a b h = ground arith

pub compare_lt : (a b : ℕ) → compare a b ≡ Ordering.lt → compare b a ≡ Ordering.gt
compare_lt a b h = ground arith

pub compare_trans :
    (a b c : ℕ) → compare a b ≡ Ordering.lt → compare b c ≡ Ordering.lt → compare a c ≡ Ordering.lt
compare_trans a b c h k = ground arith

instance abbrev pub nat_ord : Ord ℕ
nat_ord = record {
  cmp = compare;
  cmp_self = λ a. compare_self a;
  eq_of_cmp = λ a b h. compare_eq a b h;
  lt_of_gt = λ a b h. compare_gt a b h;
  gt_of_lt = λ a b h. compare_lt a b h;
  lt_trans = λ a b c h k. compare_trans a b c h k;
}
