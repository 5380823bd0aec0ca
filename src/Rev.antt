-- ===== src/Rev.antt =====
-- src/rev.rs: `Rev` turns an order round. `PartialEq` and `PartialOrd` are written by hand and swap
-- their arguments; `Ord` is derived, and compares the fields as they stand.
use floki.Prelude.{ℕ, ◌≡◌, ◌≢◌, Bool, arith, sym, ◌∙◌, ◌<◌, dec_lt, compare, Ordering, ◌==◌}

pub record Rev : Type 0 where
  pub value : ℕ

abbrev pub eq : Rev → Rev → Bool
eq a b = b.value == a.value

unfoldable pub partial_cmp : Rev → Rev → Ordering
partial_cmp a b = compare b.value a.value

pub cmp : Rev → Rev → Ordering
cmp a b = compare a.value b.value

compare_lt : (a b : ℕ) → a < b → compare a b ≡ Ordering.lt
compare_lt a b h = ground arith

compare_gt : (a b : ℕ) → b < a → compare a b ≡ Ordering.gt
compare_gt a b h = ground arith

-- On any two different values the derived `cmp` of `Rev` differs from its `partial_cmp`.
pub cmp-ne-partial_cmp : (a b : Rev) → a.value ≢ b.value → cmp a b ≢ partial_cmp a b
unfolding cmp partial_cmp
cmp-ne-partial_cmp a b h same = elim (dec_lt a.value b.value) [
  | yes below ↦ cc (sym (compare_lt _ _ below) ∙ same ∙ compare_gt _ _ below)
  | no not_below ↦
      let above : b.value < a.value = omega arith in
      cc (sym (compare_lt _ _ above) ∙ sym same ∙ compare_gt _ _ above)
]
