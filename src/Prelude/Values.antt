-- ===== src/Prelude/Values.antt =====
-- Values of unknown type, as `JSON.parse` or a caller's configuration gives them, and JavaScript
-- numbers as far as the program tells them apart. Text is a list of UTF-16 code units.
use Prim.Native.Nat.{ℕ}
use mathlib.Core.Bool.{Bool}
use halengine.Prelude.Strings.{Text}

-- `minus n` is -(n + 1), `between n` a fraction between n and n + 1, and `below n` a fraction
-- between -(n + 1) and -n; the fractions of one interval are not told apart.
pub data Number : Type 0 where
  whole : ℕ → Number
  minus : ℕ → Number
  between : ℕ → Number
  below : ℕ → Number
  not_finite : Number

mutual
  pub data Json : Type 0 where
    undefined : Json
    null : Json
    boolean : Bool → Json
    number : Number → Json
    str : Text → Json
    array : Elements → Json
    object : Fields → Json

  pub data Elements : Type 0 where
    end : Elements
    element : Json → Elements → Elements

  pub data Fields : Type 0 where
    empty : Fields
    field : Text → Json → Fields → Fields
