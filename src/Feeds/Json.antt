-- ===== src/Feeds/Json.antt =====
-- The values in the feeds' replies, and how src/providers/nse_scraper.py reads numbers from them.
-- Decimals are integers in a fixed unit. What the standard library reads (`Decimal` of a text, `int`)
-- is the argument `Reading`.
use bharat_ticker.Common.{
  suc, ◌+◌, ltb, ◌==◌, Bool, false, ◌||◌, Option, none, some, [], ◌∷◌, if◌then◌else◌,
}
use bharat_ticker.Common.Text.{Text, codes, text_eq}
use bharat_ticker.Common.Dict.{Dict, lookup}
use bharat_ticker.Common.Integers.{ℤ, difference}
use bharat_ticker.Common.Symbols.{strip}

-- A boolean, a list or an object is `other`: `Decimal` reads none of them.
pub data Json : Type 0 where
  null : Json
  number : ℤ → Json
  text : Text → Json
  other : Json

-- `decimal` is `Decimal` of a text, none if it raises; `whole` is `int(value or 0)`, none if it
-- raises.
pub record Reading : Type 0 where
  pub decimal : Text → Option ℤ
  pub whole : Json → Option ℤ

-- `value.replace(",", "")`
unfoldable pub without_commas : Text → Text
without_commas [] = []
without_commas (c ∷ s) = if c == b',' then without_commas s else c ∷ without_commas s

abbrev pub zero_if_none : Option ℤ → ℤ
zero_if_none none = ℤ.pos 0
zero_if_none (some d) = d

-- `_safe_decimal` of a text.
unfoldable pub decimal_of_text : Reading → Text → ℤ
unfolding without_commas strip
decimal_of_text r s =
    let value = strip (without_commas s) in
    if text_eq value [] || text_eq value (codes "-")
    then ℤ.pos 0
    else zero_if_none (r.decimal value)

-- `_safe_decimal`
unfoldable pub safe_decimal : Reading → Json → ℤ
unfolding decimal_of_text
safe_decimal r Json.null = ℤ.pos 0
safe_decimal r (Json.number d) = d
safe_decimal r (Json.text s) = decimal_of_text r s
safe_decimal r Json.other = ℤ.pos 0

-- `d.get(key, default)`, for a default that reads as zero.
unfoldable pub get_json : Text → Dict Json → Json
unfolding lookup
get_json key d = elim (lookup key d) [ none ↦ Json.null | some v ↦ v ]

-- `high if high > 0 else other`
abbrev pub positive_or : ℤ → ℤ → ℤ
positive_or (ℤ.pos n) alternative = if n == 0 then alternative else ℤ.pos n
positive_or (ℤ.negsuc n) alternative = alternative

-- `a - b`
abbrev pub subtract : ℤ → ℤ → ℤ
subtract (ℤ.pos a) (ℤ.pos b) = difference a b
subtract (ℤ.pos a) (ℤ.negsuc b) = ℤ.pos (a + suc b)
subtract (ℤ.negsuc a) (ℤ.pos b) = ℤ.negsuc (a + b)
subtract (ℤ.negsuc a) (ℤ.negsuc b) = difference b a

-- `value > 0`
abbrev pub is_positive : ℤ → Bool
is_positive (ℤ.pos n) = ltb 0 n
is_positive (ℤ.negsuc n) = false

abbrev pub when_positive : ℤ → Option ℤ
when_positive d = if is_positive d then some d else none
