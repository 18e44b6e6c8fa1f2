-- ===== src/Prelude/Strings/Lines.antt =====
-- `str.splitlines`.
use auto_sentinel.Prelude.Tests.{leb, nat_eq, if◌then◌else◌}
use auto_sentinel.Prelude.Strings.{starts}
use Prim.Native.Char.{Char, code}
use Prim.Native.String.{String}
use mathlib.Core.Path.{◌≡◌, refl}
use mathlib.Core.Bool.{Bool, ◌||◌, ◌&&◌}
use mathlib.Core.List.{List, [], ◌∷◌}

-- A character that ends a line.
abbrev pub is_break : Char → Bool
is_break c =
    let n = code c in
    (leb 10 n && leb n 13)
    || (leb 28 n && leb n 30)
    || nat_eq n 133
    || nat_eq n 8232
    || nat_eq n 8233

abbrev begin : Char → List String → List String
begin c [] = String.◌∷◌ c "" ∷ []
begin c (l ∷ ls) = String.◌∷◌ c l ∷ ls

abbrev tail : List String → List String
tail [] = []
tail (l ∷ ls) = ls

-- `s.splitlines()`: a carriage return and the line feed behind it end one line.
unfoldable pub splitlines : String → List String
splitlines String.[] = []
splitlines (String.◌∷◌ c s) =
    let rest = splitlines s in
    if is_break c
    then "" ∷ (if nat_eq (code c) b'\r' && starts "\n" s then tail rest else rest)
    else begin c rest

splitlines_test : splitlines "a\r\nb\n\nc" ≡ "a" ∷ "b" ∷ "" ∷ "c" ∷ []
unfolding splitlines starts
splitlines_test = refl
