-- ===== src/Api/Search/Order.antt =====
-- The order of texts by code points.
use Prim.Native.Char.{code}
use Prim.Native.String.{String, compare, then}
use Prim.Native.String.compare
use Prim.Native.Nat.{ℕ, Ordering, compare as compare_nat}
use auto_sentinel.Prelude.{◌≡◌, refl, Bool, true, false, ◌⊎◌, inl, inr, arith}

-- `s <= t`
unfoldable pub text_leb : String → String → Bool
text_leb s t = elim (compare s t) [ Ordering.gt ↦ false | other ↦ true ]

order_test : (text_leb "ab" "b" ≡ true) × ((text_leb "b" "ab" ≡ false) × (text_leb "a" "ab" ≡ true))
unfolding text_leb
order_test = (refl, (refl, refl))

abbrev not_gt : Ordering → Bool
not_gt Ordering.gt = false
not_gt other = true

-- Comparing the other way round, digit by digit.
then_total :
    (m n : ℕ) (o p : Ordering)
    → (not_gt o ≡ true) ⊎ (not_gt p ≡ true)
    → (not_gt (then (compare_nat m n) o) ≡ true) ⊎ (not_gt (then (compare_nat n m) p) ≡ true)
then_total m n o p h = ground arith

compare_total : (s t : String) → (not_gt (compare s t) ≡ true) ⊎ (not_gt (compare t s) ≡ true)
compare_total String.[] String.[] = inl refl
compare_total String.[] (String.◌∷◌ d t) = inl (rw (compare.nil-cons d t) refl)
compare_total (String.◌∷◌ c s) String.[] = inr (rw (compare.nil-cons c s) refl)
compare_total (String.◌∷◌ c s) (String.◌∷◌ d t) =
    rw (compare.cons-cons c d s t, compare.cons-cons d c t s)
      (then_total (code c) (code d) (compare s t) (compare t s) (compare_total s t))

pub text_leb_total : (s t : String) → (text_leb s t ≡ true) ⊎ (text_leb t s ≡ true)
unfolding text_leb
text_leb_total s t = ground (arith, compare_total s t)
