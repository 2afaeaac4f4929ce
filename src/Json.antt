-- ===== src/Json.antt =====
-- The values that `JSON.parse` yields, with the tests that packages/protocol/src/envelope.ts and
-- apps/server/src/agents/container-listed.parser.ts make on a value of type `unknown`.
use docksight.Base.{
  ℕ, String, ◌≡◌, arith, Bool, true, false, not, ◌||◌, List, [], ◌∷◌, Option, none, some, ◌==◌,
  if◌then◌else◌,
}

-- A JavaScript number is a 64-bit float, which the model takes as a parameter: a type with the
-- tests and conversions that the program uses.
pub record Numbers : Type 1 where
  pub Num : Type 0
  -- a numeric literal
  pub of_ℕ : ℕ → Num
  -- Number.isFinite(x)
  pub is_finite : Num → Bool
  -- x === 0
  pub is_zero : Num → Bool
  -- Number.isNaN(x)
  pub is_nan : Num → Bool
  -- String(x)
  pub to_text : Num → String

mutual
  pub data Json (Num : Type 0) : Type 0 where
    null : Json Num
    bool : Bool → Json Num
    num : Num → Json Num
    str : String → Json Num
    arr : Items Num → Json Num
    obj : Fields Num → Json Num

  pub data Items (Num : Type 0) : Type 0 where
    nil : Items Num
    cons : Json Num → Items Num → Items Num

  pub data Fields (Num : Type 0) : Type 0 where
    end : Fields Num
    field : String → Json Num → Fields Num → Fields Num

module _ {Num : Type 0} where
  abbrev pub items : Items Num → List (Json Num)
  items nil = []
  items (cons v vs) = v ∷ items vs

  -- `value.key`, where `none` is `undefined`.
  abbrev pub prop : String → Fields Num → Option (Json Num)
  prop key end = none
  prop key (field k v fs) = if k == key then some v else prop key fs

  -- `isRecord(value)`, `isJsonObject(value)`, with the value so narrowed.
  abbrev pub as_record : Json Num → Option (Fields Num)
  as_record (obj fs) = some fs
  as_record _ = none

  -- `isString(value)`.
  abbrev pub as_text : Option (Json Num) → Option String
  as_text (some (str s)) = some s
  as_text _ = none

  -- `Array.isArray(value)`.
  abbrev pub as_array : Option (Json Num) → Option (Items Num)
  as_array (some (arr vs)) = some vs
  as_array _ = none

  -- `value ?? fallback`, of a property that may be missing.
  abbrev pub or_default : Option (Json Num) → Json Num → Json Num
  or_default none d = d
  or_default (some null) d = d
  or_default (some v) d = v

-- A text that is missing or empty is falsy; `filled` keeps a truthy one.
abbrev pub filled : Option String → Option String
filled none = none
filled (some s) = if s == "" then none else some s

pub filled-eq-some : (o : Option String) {s : String} → filled o ≡ some s → (s == "") ≡ false
filled-eq-some none h = cc
filled-eq-some (some t) h = ground arith

module _ (n : Numbers) where
  open n use {Num, is_finite, is_zero, is_nan}

  -- `isFiniteNumber(value)`.
  abbrev pub as_finite : Option (Json Num) → Option Num
  as_finite (some (num x)) = if is_finite x then some x else none
  as_finite _ = none

  -- `Boolean(value)`.
  abbrev pub truthy : Option (Json Num) → Bool
  truthy none = false
  truthy (some null) = false
  truthy (some (bool b)) = b
  truthy (some (num x)) = not (is_zero x || is_nan x)
  truthy (some (str s)) = not (s == "")
  truthy (some (arr vs)) = true
  truthy (some (obj fs)) = true
