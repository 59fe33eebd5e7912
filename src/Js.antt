-- ===== src/Js.antt =====
-- What a JavaScript value is where the program inspects one: the result of `JSON.parse`.
use pty_relay.Base.{
  ℕ, String, Bool, true, false, ◌&&◌, Option, none, some, str_eq, leb, if◌then◌else◌,
}

-- A `number`: a natural number, -(n + 1), or any other double (a fraction, NaN, an infinity).
pub data Number : Type 0 where
  nat : ℕ → Number
  neg : ℕ → Number
  other : ℕ → Number

mutual
  pub data Json : Type 0 where
    null : Json
    bool : Bool → Json
    num : Number → Json
    str : String → Json
    arr : Items → Json
    obj : Fields → Json

  pub data Items : Type 0 where
    nil : Items
    item : Json → Items → Items

  -- The own properties of an object, in order.
  pub data Fields : Type 0 where
    end : Fields
    field : String → Json → Fields → Fields

-- `o[key]`; `none` is `undefined`.
unfoldable pub prop : String → Fields → Option Json
prop key end = none
prop key (field k v fs) = if str_eq k key then some v else prop key fs

-- `Number.isInteger(v) && v >= lo && v <= hi`
unfoldable pub int_between : ℕ → ℕ → Number → Bool
int_between lo hi (nat n) = leb lo n && leb n hi
int_between lo hi (neg n) = false
int_between lo hi (other d) = false

-- The truth value of a property; `JSON.parse` gives no NaN, so only 0 is a false number.
unfoldable pub truthy : Option Json → Bool
truthy none = false
truthy (some null) = false
truthy (some (bool b)) = b
truthy (some (num (nat n))) = if leb n 0 then false else true
truthy (some (num _)) = true
truthy (some (str s)) = if str_eq s "" then false else true
truthy (some (arr xs)) = true
truthy (some (obj o)) = true

-- A property if it is a string.
abbrev string_of : Option Json → Option String
string_of (some (str s)) = some s
string_of _ = none

unfoldable pub string_at : String → Fields → Option String
string_at key o = string_of (prop key o)
