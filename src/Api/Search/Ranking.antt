-- ===== src/Api/Search/Ranking.antt =====
-- What the search of autosentinel/api/results.py returns.
use auto_sentinel.Prelude.{◌≤◌, String, ◌≡◌, true, List, [], ◌∷◌, length, take, arith}
use auto_sentinel.Prelude.Int.{ℤ, pos, negsuc}
use mathlib.Core.List.{Perm}
use mathlib.Core.List.Perm
use auto_sentinel.Effects.{Result, ok, err}
use auto_sentinel.Python.{Python}
use auto_sentinel.Api.Results.{Store}
use auto_sentinel.Api.Search.{Incident, Scored, clamp, goes_first, incidents_of}

pub clamp_bounds : (limit : ℤ) → (1 ≤ clamp limit) × (clamp limit ≤ 50)
unfolding clamp
clamp_bounds (pos n) = ground arith
clamp_bounds (negsuc n) = ground arith

-- Each entry goes before the next.
abbrev pub IsAfter : Scored → List Scored → Type 0
IsAfter x [] = Unit
IsAfter x (y ∷ ys) = goes_first x y ≡ true

abbrev pub IsRanked : List Scored → Type 0
IsRanked [] = Unit
IsRanked (x ∷ xs) = IsAfter x xs × IsRanked xs

abbrev pub ArePositive : List Scored → Type 0
ArePositive [] = Unit
ArePositive (x ∷ xs) = (1 ≤ x.score) × ArePositive xs

abbrev Positive : Result (List Scored) → Type 0
Positive (ok xs) = ArePositive xs
Positive (err e) = Unit

-- A call whose entries, if it returns, all have a score.
record Counted {S : Type 0} (p : Result (List Scored) × S) : Type 0 where
  counted : Positive p.0

module _ {S : Type 0} (py : Python) (split : String → List String) (store : Store S) where
  -- What a search returns: the best of a ranking of the entries that the loop has found.
  abbrev pub IsBest : ℤ → Result (List Scored) → Result (List Incident) → Type 0
  IsBest limit (err e) (ok found) = ⊥
  IsBest limit q (err e) = q ≡ err e
  IsBest limit (ok entries) (ok found) =
      (length found ≤ 50)
      × ArePositive entries
      × ((ranked : List Scored) × Perm ranked entries
          × IsRanked ranked
          × (found ≡ take (clamp limit) (incidents_of ranked)))
