-- ===== src/Agents/Parsing.antt =====
-- autosentinel/agents/_parsing.py: the surrounding fence of a reply.
pub mod RoundTrip
use Prim.Native.Char.{Char, code}
use auto_sentinel.Prelude.{
  String, ◌≡◌, refl, Bool, ◌||◌, ◌&&◌, Option, none, some, if◌then◌else◌, leb, nat_eq,
}
use auto_sentinel.Prelude.Strings.{◌==◌, strip}

-- `[A-Za-z0-9_+\-]`
abbrev pub is_tag : Char → Bool
is_tag c =
    let n = code c in
    (leb b'A' n && leb n b'Z')
    || (leb b'a' n && leb n b'z')
    || (leb b'0' n && leb n b'9')
    || nat_eq n b'_'
    || nat_eq n b'+'
    || nat_eq n b'-'

-- The rest behind the language tag and its line's end.
unfoldable pub after_tag : String → Option String
after_tag String.[] = none
after_tag (String.◌∷◌ c s) =
    if is_tag c then after_tag s else if nat_eq (code c) b'\n' then some s else none

abbrev pub open_fence : String → Option String
open_fence (String.◌∷◌ a (String.◌∷◌ b (String.◌∷◌ c s))) =
    if nat_eq (code a) b'`' && nat_eq (code b) b'`' && nat_eq (code c) b'`'
    then after_tag s
    else none
open_fence s = none

abbrev pub prepend : Char → Option String → Option String
prepend c none = none
prepend c (some s) = some (String.◌∷◌ c s)

-- The shortest text before a closing fence that ends the reply; one line end before the fence
-- belongs to the fence.
unfoldable pub before_close : String → Option String
before_close String.[] = none
before_close (String.◌∷◌ c s) =
    let rest = before_close s in
    if (String.◌∷◌ c s == "\n```") || (String.◌∷◌ c s == "```") then some "" else prepend c rest

abbrev pub fenced : Option String → Option String
fenced none = none
fenced (some s) = before_close s

-- `_FENCE_RE.match(s)`, its first group.
unfoldable pub match_fence : String → Option String
unfolding after_tag before_close
match_fence s = fenced (open_fence s)

abbrev pub inner : String → Option String → String
inner stripped none = stripped
inner stripped (some payload) = strip payload

unfoldable pub strip_markdown_fence : String → String
unfolding match_fence strip
strip_markdown_fence text = inner (strip text) (match_fence (strip text))

fenced_script : strip_markdown_fence " ```python\nprint(1)\n```\n" ≡ "print(1)"
unfolding strip_markdown_fence
fenced_script = refl

bare_script : strip_markdown_fence "print(1)\n" ≡ "print(1)"
unfolding strip_markdown_fence
bare_script = refl

nested_fence : strip_markdown_fence "```\na\n```\nb\n```" ≡ "a\n```\nb"
unfolding strip_markdown_fence
nested_fence = refl
