-- ===== src/Prelude/Strings/Append.antt =====
-- Laws of `s + t`: what two equal texts share.
use auto_sentinel.Prelude.Strings.{◌+++◌, size}
use Prim.Native.Nat.{◌+◌}
use Prim.Native.Char.{Char}
use Prim.Native.String.{String}
use mathlib.Core.Path.{◌≡◌, refl, ap}
use mathlib.Core.Option.{Option, none, some}
use native.Mathlib.Omega.{arith}

abbrev head : String → Option Char
head String.[] = none
head (String.◌∷◌ c s) = some c

abbrev tail : String → String
tail String.[] = ""
tail (String.◌∷◌ c s) = s

pub size-append : (s t : String) → size (s +++ t) ≡ size s + size t
unfolding ◌+++◌
size-append String.[] t = omega arith
size-append (String.◌∷◌ c s) t = omega (arith, size-append s t)

pub append_cancel_right : (a b t : String) → a +++ t ≡ b +++ t → a ≡ b
unfolding ◌+++◌
append_cancel_right String.[] String.[] t h = refl
append_cancel_right String.[] (String.◌∷◌ c b) t h =
    absurd (omega (arith, ap size h, size-append b t))
append_cancel_right (String.◌∷◌ c a) String.[] t h =
    absurd (omega (arith, ap size h, size-append a t))
append_cancel_right (String.◌∷◌ c a) (String.◌∷◌ d b) t h =
    let e : some c ≡ some d = ap head h in
    let f : a +++ t ≡ b +++ t = ap tail h in let g : a ≡ b = append_cancel_right a b t f in cc

pub append_cancel_left : (p a b : String) → p +++ a ≡ p +++ b → a ≡ b
unfolding ◌+++◌
append_cancel_left String.[] a b h = h
append_cancel_left (String.◌∷◌ c p) a b h = append_cancel_left p a b (ap tail h)

-- The last character of a text, or the one given.
abbrev pub last : Char → String → Char
last d String.[] = d
last d (String.◌∷◌ c s) = last c s

pub last-append :
    (d : Char) (s : String) (c : Char) (t : String) → last d (s +++ String.◌∷◌ c t) ≡ last c t
unfolding ◌+++◌
last-append d String.[] c t = refl
last-append d (String.◌∷◌ e s) c t = last-append e s c t
