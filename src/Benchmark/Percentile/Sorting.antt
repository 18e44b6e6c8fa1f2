-- ===== src/Benchmark/Percentile/Sorting.antt =====
-- The `sorted` list of scripts/run_benchmark.py, `_percentile`, and which value stands at an index of it.
use auto_sentinel.Prelude.{
  ℕ, zero, suc, ◌+◌, ◌≤◌, ◌<◌, ◌≡◌, refl, inl, inr, Bool-cases, List, [], ◌∷◌, if◌then◌else◌,
  length, leb, leb→le, arith,
}
use auto_sentinel.Effects.{other_error, ok, err}
use auto_sentinel.Benchmark.Percentile.{insert, sorted, item}

-- How many values are less than `a`, and how many are `a` at most.
abbrev pub below : ℕ → List ℕ → ℕ
below a [] = 0
below a (x ∷ xs) = (if leb a x then 0 else 1) + below a xs

abbrev pub up_to : ℕ → List ℕ → ℕ
up_to a [] = 0
up_to a (x ∷ xs) = (if leb x a then 1 else 0) + up_to a xs

-- In ascending order, `a` stands at the index `i`.
abbrev pub StandsAt : ℕ → ℕ → List ℕ → Type 0
StandsAt a i xs = (below a xs ≤ i) × (i < up_to a xs)

below-insert : (a x : ℕ) (ys : List ℕ) → below a (insert x ys) ≡ below a (x ∷ ys)
below-insert a x [] = refl
below-insert a x (y ∷ ys) = elim (Bool-cases (leb x y)) [
  | inl first ↦ rw first refl
  | inr later ↦ rw later (omega (arith, below-insert a x ys))
]

up_to-insert : (a x : ℕ) (ys : List ℕ) → up_to a (insert x ys) ≡ up_to a (x ∷ ys)
up_to-insert a x [] = refl
up_to-insert a x (y ∷ ys) = elim (Bool-cases (leb x y)) [
  | inl first ↦ rw first refl
  | inr later ↦ rw later (omega (arith, up_to-insert a x ys))
]

length-insert : (x : ℕ) (ys : List ℕ) → length (insert x ys) ≡ suc (length ys)
length-insert x [] = refl
length-insert x (y ∷ ys) = elim (Bool-cases (leb x y)) [
  | inl first ↦ rw first refl
  | inr later ↦ rw later (omega (arith, length-insert x ys))
]

pub below-sorted : (a : ℕ) (xs : List ℕ) → below a (sorted xs) ≡ below a xs
below-sorted a [] = refl
below-sorted a (x ∷ xs) = omega (arith, below-insert a x (sorted xs), below-sorted a xs)

pub up_to-sorted : (a : ℕ) (xs : List ℕ) → up_to a (sorted xs) ≡ up_to a xs
up_to-sorted a [] = refl
up_to-sorted a (x ∷ xs) = omega (arith, up_to-insert a x (sorted xs), up_to-sorted a xs)

pub length-sorted : (xs : List ℕ) → length (sorted xs) ≡ length xs
length-sorted [] = refl
length-sorted (x ∷ xs) = omega (arith, length-insert x (sorted xs), length-sorted xs)

abbrev pub IsLeast : ℕ → List ℕ → Type 0
IsLeast x [] = Unit
IsLeast x (y ∷ ys) = (x ≤ y) × IsLeast x ys

abbrev pub IsSorted : List ℕ → Type 0
IsSorted [] = Unit
IsSorted (x ∷ xs) = IsLeast x xs × IsSorted xs

IsLeast-weaken : (x y : ℕ) (zs : List ℕ) → x ≤ y → IsLeast y zs → IsLeast x zs
IsLeast-weaken x y [] h k = tt
IsLeast-weaken x y (z ∷ zs) h (k, ks) = (omega (arith, h, k), IsLeast-weaken x y zs h ks)

IsLeast-insert : (a x : ℕ) (ys : List ℕ) → a ≤ x → IsLeast a ys → IsLeast a (insert x ys)
IsLeast-insert a x [] h k = (h, tt)
IsLeast-insert a x (y ∷ ys) h (k, ks) = elim (Bool-cases (leb x y)) [
  | inl first ↦ rw first (h, (k, ks))
  | inr later ↦ rw later (k, IsLeast-insert a x ys h ks)
]

IsSorted-insert : (x : ℕ) (ys : List ℕ) → IsSorted ys → IsSorted (insert x ys)
IsSorted-insert x [] h = (tt, tt)
IsSorted-insert x (y ∷ ys) (h, hs) = elim (Bool-cases (leb x y)) [
  | inl first ↦ rw first ((leb→le x y first, IsLeast-weaken x y ys (leb→le x y first) h), (h, hs))
  | inr later ↦ rw later (IsLeast-insert y x ys (ground arith) h, IsSorted-insert x ys hs)
]

pub IsSorted-sorted : (xs : List ℕ) → IsSorted (sorted xs)
IsSorted-sorted [] = tt
IsSorted-sorted (x ∷ xs) = IsSorted-insert x (sorted xs) (IsSorted-sorted xs)

below-IsLeast : (x : ℕ) (ys : List ℕ) → IsLeast x ys → below x ys ≡ 0
below-IsLeast x [] h = refl
below-IsLeast x (y ∷ ys) (h, hs) = ground (arith, below-IsLeast x ys hs)

pub least_stands : (x : ℕ) (xs : List ℕ) → IsLeast x xs → StandsAt x 0 (x ∷ xs)
least_stands x xs h = (ground (arith, below-IsLeast x xs h), ground arith)

later_stands : (x a i : ℕ) (xs : List ℕ) → x ≤ a → StandsAt a i xs → StandsAt a (suc i) (x ∷ xs)
later_stands x a i xs h (b, u) = (ground arith, ground arith)

-- An item of a sorted list, which every least value is at most.
pub item-StandsAt :
    (s : List ℕ) (i : ℕ)
    → IsSorted s
    → i < length s
    → (a : ℕ) × (item s i ≡ ok a) × StandsAt a i s × ((x : ℕ) → IsLeast x s → x ≤ a)
item-StandsAt [] i h l = absurd (omega (arith, l))
item-StandsAt (x ∷ xs) zero (h, hs) l = (x, refl, least_stands x xs h, λ y k. k.0)
item-StandsAt (x ∷ xs) (suc i) (h, hs) l =
    let (a, e, stands, least) = item-StandsAt xs i hs (omega (arith, l)) in
    (a, e, later_stands x a i xs (least x h) stands, λ y k. least y k.1)

pub item-outside :
    (s : List ℕ) (i : ℕ) → length s ≤ i → item s i ≡ err (other_error "list index out of range")
item-outside [] i h = refl
item-outside (x ∷ xs) zero h = absurd (omega (arith, h))
item-outside (x ∷ xs) (suc i) h = item-outside xs i (omega (arith, h))
