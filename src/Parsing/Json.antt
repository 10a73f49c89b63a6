-- ===== src/Parsing/Json.antt =====
-- What `json.loads` returns, and what Python's built-in functions make of it.
use Prim.Native.Nat.{◌^◌}
use text.Mathlib.Text.{◌==◌ as str_eq}
use rubric_grading_engine.Prelude.{
  ℕ, zero, suc, ◌+◌, ◌*◌, ◌/◌, String, Bool, true, false, not, Option, none, some, ◌==◌,
  if◌then◌else◌,
}
use rubric_grading_engine.Prelude.Int.{ℤ, pos, negsuc, eq_ℤ}
use rubric_grading_engine.Parsing.Text.{is_empty}

-- A double: exactly a number times a power of two, or one of the values that `json.loads` reads
-- from NaN, Infinity, -Infinity and from literals that are too large.
pub data Float : Type 0 where
  nan : Float
  infinite : Bool → Float
  dyadic : Bool → ℕ → ℤ → Float  -- sign, mantissa, exponent

mutual
  pub data Json : Type 0 where
    null : Json
    bool : Bool → Json
    int : ℤ → Json
    float : Float → Json
    str : String → Json
    arr : Items → Json
    obj : Fields → Json

  pub data Items : Type 0 where
    nil : Items
    cons : Json → Items → Items

  pub data Fields : Type 0 where
    end : Fields
    field : String → Json → Fields → Fields

-- What the parsers take from Python's text conversions: `json.loads`, whose failure is a
-- JSONDecodeError, `str` of a value that is no text, and `int` of a text, whose failure is a
-- ValueError.
pub record Runtime : Type 0 where
  pub loads : String → Option Json
  pub repr : Json → String
  pub int_of_text : String → Option ℤ

-- `dict.get`
unfoldable pub lookup : String → Fields → Option Json
lookup k end = none
lookup k (field j v rest) = let later = lookup k rest in if str_eq j k then some v else later

-- `bool(value)`
unfoldable pub is_truthy : Json → Bool
is_truthy null = false
is_truthy (bool b) = b
is_truthy (int n) = not (eq_ℤ n (pos 0))
is_truthy (float nan) = true
is_truthy (float (infinite negative)) = true
is_truthy (float (dyadic negative m e)) = not (m == 0)
is_truthy (str s) = not (is_empty s)
is_truthy (arr nil) = false
is_truthy (arr (cons v rest)) = true
is_truthy (obj end) = false
is_truthy (obj (field k v rest)) = true

-- `int(value)`: a number, a TypeError or ValueError, or an OverflowError.
pub data Conversion : Type 0 where
  number : ℤ → Conversion
  refused : Conversion
  overflow : Conversion

abbrev pub signed : Bool → ℕ → ℤ
signed false m = pos m
signed true zero = pos 0
signed true (suc m) = negsuc m

-- Truncation towards zero.
unfoldable pub truncate : Bool → ℕ → ℤ → ℤ
truncate negative m (pos e) = signed negative (m * 2 ^ e)
truncate negative m (negsuc e) = signed negative (m / 2 ^ (e + 1))

abbrev of_option : Option ℤ → Conversion
of_option none = refused
of_option (some n) = number n

-- `isinstance(value, (int, float, str))`, then `int(value)`; a `bool` is an `int`.
unfoldable pub to_int : Runtime → Option Json → Conversion
unfolding truncate
to_int py none = refused
to_int py (some null) = refused
to_int py (some (bool b)) = number (if b then pos 1 else pos 0)
to_int py (some (int n)) = number n
to_int py (some (float nan)) = refused
to_int py (some (float (infinite negative))) = overflow
to_int py (some (float (dyadic negative m e))) = number (truncate negative m e)
to_int py (some (str s)) = of_option (py.int_of_text s)
to_int py (some (arr xs)) = refused
to_int py (some (obj fs)) = refused

-- `str(value)`
unfoldable pub to_text : Runtime → Json → String
to_text py (str s) = s
to_text py v = py.repr v

-- `str(value) if value else ""`, of a value that may be missing.
unfoldable pub text_or_empty : Runtime → Option Json → String
unfolding is_truthy to_text
text_or_empty py none = ""
text_or_empty py (some v) = if is_truthy v then to_text py v else ""
