-- ===== src/Benchmark/Summary/Categories.antt =====
-- The distribution over categories of scripts/run_benchmark.py.
use auto_sentinel.Prelude.{
  ℕ, ◌+◌, String, ◌≡◌, refl, ◌⊎◌, inl, inr, List, [], ◌∷◌, if◌then◌else◌, arith, length,
}
use auto_sentinel.Prelude.Strings.{◌==◌}
use auto_sentinel.Benchmark.{BenchmarkScenario}
use auto_sentinel.Benchmark.Summary.{category_count}

-- The words of the field `category`.
abbrev pub IsCategory : String → Type 0
IsCategory c = (c ≡ "CODE") ⊎ (c ≡ "INFRA") ⊎ (c ≡ "SECURITY") ⊎ (c ≡ "CONFIG")

abbrev pub AllLabelled : List BenchmarkScenario → Type 0
AllLabelled [] = Unit
AllLabelled (x ∷ xs) = IsCategory x.category × AllLabelled xs

abbrev one : (c key : String) → ℕ
one c key = if c == key then 1 else 0

counted_once :
    (c : String)
    → IsCategory c
    → one c "CODE" + one c "INFRA" + one c "SECURITY" + one c "CONFIG" ≡ 1
counted_once c (inl e) = rw e refl
counted_once c (inr (inl e)) = rw e refl
counted_once c (inr (inr (inl e))) = rw e refl
counted_once c (inr (inr (inr e))) = rw e refl

-- The four counts of the distribution add up to the number of scenarios, since the category of a
-- scenario is one of the four words.
pub category_count-length :
    (xs : List BenchmarkScenario)
    → AllLabelled xs
    → category_count "CODE" xs
        + category_count "INFRA" xs
        + category_count "SECURITY" xs
        + category_count "CONFIG" xs
      ≡ length xs
category_count-length [] h = omega arith
category_count-length (x ∷ xs) (c, h) =
    omega (arith, counted_once x.category c, category_count-length xs h)
