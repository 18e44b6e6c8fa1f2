-- ===== src/Prelude/Strings.antt =====
-- The operations of Python's `str` that the program uses, on native strings taken apart by their
-- constructors.
pub mod Laws
pub mod Append
pub mod Lines
pub mod Affixes
pub mod Strip
pub mod Members
use auto_sentinel.Prelude.Tests.{leb, nat_eq, if◌then◌else◌}
use Prim.Native.Char.{Char, code}
use Prim.Native.Nat.{ℕ, zero, suc}
use Prim.Native.String.{String}
use mathlib.Core.Path.{◌≡◌, refl}
use mathlib.Core.Bool.{Bool, true, false, not, ◌&&◌, ◌||◌}
use mathlib.Core.List.{List, [], ◌∷◌}
pub use text.Mathlib.Text.{◌==◌}
pub use text.Mathlib.TextEquality.{eq_iff}
pub use text.Mathlib.TextPositions.{eq_refl}

infixr 65 ◌+++◌
-- `s + t`
unfoldable pub ◌+++◌ : String → String → String
String.[] +++ t = t
(String.◌∷◌ c s) +++ t = String.◌∷◌ c (s +++ t)

-- `bool(s)`
abbrev pub nonempty : String → Bool
nonempty String.[] = false
nonempty (String.◌∷◌ c s) = true

-- `s.startswith(prefix)`, the prefix first.
unfoldable pub starts : String → String → Bool
starts String.[] s = true
starts (String.◌∷◌ c p) String.[] = false
starts (String.◌∷◌ c p) (String.◌∷◌ d s) = nat_eq (code c) (code d) && starts p s

-- `needle in s`
unfoldable pub contains : String → String → Bool
unfolding starts
contains needle String.[] = starts needle ""
contains needle (String.◌∷◌ c s) = starts needle (String.◌∷◌ c s) || contains needle s

-- `s.endswith(suffix)`, the suffix first.
unfoldable pub ends : String → String → Bool
ends suffix String.[] = suffix == ""
ends suffix (String.◌∷◌ c s) = (suffix == String.◌∷◌ c s) || ends suffix s

-- `s[:n]`
abbrev pub prefix : ℕ → String → String
prefix zero s = String.[]
prefix (suc n) String.[] = String.[]
prefix (suc n) (String.◌∷◌ c s) = String.◌∷◌ c (prefix n s)

-- `s[n:]`
abbrev pub drop : ℕ → String → String
drop zero s = s
drop (suc n) String.[] = String.[]
drop (suc n) (String.◌∷◌ c s) = drop n s

-- `str.isspace` of one character.
abbrev pub is_space : Char → Bool
is_space c =
    let n = code c in
    (leb 9 n && leb n 13)
    || (leb 28 n && leb n 32)
    || nat_eq n 133
    || nat_eq n 160
    || nat_eq n 5760
    || (leb 8192 n && leb n 8202)
    || nat_eq n 8232
    || nat_eq n 8233
    || nat_eq n 8239
    || nat_eq n 8287
    || nat_eq n 12288

-- `s.lstrip()`
unfoldable pub lstrip : String → String
lstrip String.[] = ""
lstrip (String.◌∷◌ c s) = if is_space c then lstrip s else String.◌∷◌ c s

-- `s.rstrip()`: a character stays if it is no space or if something after it stays.
unfoldable pub rstrip : String → String
rstrip String.[] = ""
rstrip (String.◌∷◌ c s) =
    let rest = rstrip s in if is_space c && not (nonempty rest) then "" else String.◌∷◌ c rest

-- `s.strip()`
unfoldable pub strip : String → String
unfolding lstrip rstrip
strip s = rstrip (lstrip s)

-- `sep.join(parts)`
unfoldable pub join : String → List String → String
unfolding ◌+++◌
join sep [] = ""
join sep (x ∷ []) = x
join sep (x ∷ y ∷ rest) = x +++ sep +++ join sep (y ∷ rest)

-- `s in {…}` for a set of texts.
unfoldable pub is_one_of : String → List String → Bool
is_one_of s [] = false
is_one_of s (x ∷ xs) = (s == x) || is_one_of s xs

strip_test : strip "  a b\n " ≡ "a b"
unfolding strip
strip_test = refl

contains_test : (contains "mkfs" "sudo mkfs /" ≡ true) × (contains "b" "aaa" ≡ false)
unfolding contains
contains_test = (refl, refl)

-- `len(s)`: a text's characters.
abbrev pub size : String → ℕ
size String.[] = 0
size (String.◌∷◌ c s) = suc (size s)

abbrev pub all_chars : (Char → Bool) → String → Bool
all_chars test String.[] = true
all_chars test (String.◌∷◌ c s) = test c && all_chars test s
