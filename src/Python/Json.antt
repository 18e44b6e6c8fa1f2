-- ===== src/Python/Json.antt =====
-- Values of `json.loads`, as a Python program sees them.
use auto_sentinel.Prelude.{
  String, Bool, true, false, Option, none, some, List, if◌then◌else◌, not, nat_eq,
}
use auto_sentinel.Prelude.Int.{ℤ, pos, negsuc}
use auto_sentinel.Prelude.Strings.{◌==◌, nonempty, is_one_of}
use auto_sentinel.Effects.{attribute_error, type_error, Result, ok, err}

-- A float is kept by its text and by whether it is zero.
mutual
  pub data Value : Type 0 where
    null : Value
    boolean : Bool → Value
    integer : ℤ → Value
    real : String → Bool → Value
    text : String → Value
    array : Items → Value
    object : Fields → Value

  pub data Items : Type 0 where
    nil : Items
    cons : Value → Items → Items

  pub data Fields : Type 0 where
    end : Fields
    field : String → Value → Fields → Fields

abbrev pub is_zero : ℤ → Bool
is_zero (pos n) = nat_eq n 0
is_zero (negsuc n) = false

-- `bool(v)`
abbrev pub truthy : Value → Bool
truthy null = false
truthy (boolean b) = b
truthy (integer n) = not (is_zero n)
truthy (real s zero_valued) = not zero_valued
truthy (text s) = nonempty s
truthy (array nil) = false
truthy (array (cons v vs)) = true
truthy (object end) = false
truthy (object (field k v fs)) = true

unfoldable pub lookup : String → Fields → Option Value
lookup k end = none
lookup k (field j v fs) = if j == k then some v else lookup k fs

abbrev pub value_or : Value → Option Value → Value
value_or d none = d
value_or d (some v) = v

-- `v.get(k, d)`: only a dict has the method.
unfoldable pub get : Value → String → Value → Result Value
get (object fs) k d = ok (value_or d (lookup k fs))
get null k d = err (attribute_error "'NoneType' object has no attribute 'get'")
get (boolean b) k d = err (attribute_error "'bool' object has no attribute 'get'")
get (integer n) k d = err (attribute_error "'int' object has no attribute 'get'")
get (real s z) k d = err (attribute_error "'float' object has no attribute 'get'")
get (text s) k d = err (attribute_error "'str' object has no attribute 'get'")
get (array vs) k d = err (attribute_error "'list' object has no attribute 'get'")

-- `v in names` for a set of texts, with the member: a list or a dict cannot be hashed.
unfoldable pub find_text : Value → List String → Result (Option String)
find_text (text s) names = ok (if is_one_of s names then some s else none)
find_text (array vs) names = err (type_error "unhashable type: 'list'")
find_text (object fs) names = err (type_error "unhashable type: 'dict'")
find_text null names = ok none
find_text (boolean b) names = ok none
find_text (integer n) names = ok none
find_text (real s z) names = ok none
