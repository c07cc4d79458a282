-- ===== src/Feeds/BseChange.antt =====
-- The change of price in a quote of src/providers/bse_scraper.py, and the curve of a day.
use bharat_ticker.Common.{
  ℕ, suc, ◌≡◌, refl, sym, ap, ◌∙◌, Bool, true, false, ◌||◌, Option, none, some, arith,
  if◌then◌else◌,
}
use mathlib.Core.Option.{some-injective}
use bharat_ticker.Common.Text.{Text, codes}
use bharat_ticker.Common.Integers.{ℤ, difference}
use bharat_ticker.Models.Tick.{Tick}
use bharat_ticker.Models.Validation.{at_least_zero, tick_data}
use bharat_ticker.Models.Checked.{tick_data-IsTakenOver}
use bharat_ticker.Feeds.Json.{Reading, get_json, positive_or, subtract, is_positive}
use bharat_ticker.Feeds.Bse.{
  BseReply, BsePrices, isin_of, bse_prices, filled_change, bse_draft, made_with, parse,
}

if_some : (b : Bool) (m : Option Tick) (t : Tick) → (if b then m else none) ≡ some t → m ≡ some t
if_some true m t h = h
if_some false m t h = absurd (ground (arith, h))

difference-zero : (n : ℕ) → difference 0 (suc n) ≡ ℤ.negsuc n
difference-zero n = ground arith

module _ (r : Reading) (percent : ℤ → ℤ → ℤ) (truncate : ℤ → ℤ) where
  made_with-draft :
      (now symbol : Text) (latency : ℕ) (p : BsePrices) (isin : Option (Option Text)) (t : Tick)
      → made_with r percent truncate now symbol latency p isin ≡ some t
      → (o : Option Text) × (tick_data (bse_draft r percent truncate now symbol latency o p)
          ≡ some t)
  made_with-draft now symbol latency p none t h = absurd (ground (arith, h))
  made_with-draft now symbol latency p (some isin) t h = (isin, h)

  parse-draft :
      (now symbol : Text) (latency : ℕ) (reply : BseReply) (t : Tick)
      → parse r percent truncate now symbol latency reply ≡ some t
      → (o : Option Text) × (tick_data (
            bse_draft r percent truncate now symbol latency o (bse_prices r percent truncate reply))
          ≡ some t)
  unfolding parse
  parse-draft now symbol latency reply t h =
      let p = bse_prices r percent truncate reply in
      let isin = isin_of (get_json (codes "ISIN") reply.header) in
      made_with-draft now symbol latency p isin t (
        if_some (is_positive p.ltp || is_positive p.prev_close)
          (made_with r percent truncate now symbol latency p isin) t h)

  -- A reply with a previous close: its price, and the change that it gives.
  abbrev pub HasPrices : BseReply → ℤ → ℤ → ℕ → Type 0
  HasPrices reply ltp change n =
      let p = bse_prices r percent truncate reply in
      (p.ltp ≡ ltp) × (p.change ≡ change) × (p.prev_close ≡ ℤ.pos (suc n))

  served-change :
      (now symbol : Text) (latency : ℕ) (reply : BseReply) (t : Tick) (ltp : ℤ) (n : ℕ)
      → HasPrices reply ltp (ℤ.pos 0) n
      → parse r percent truncate now symbol latency reply ≡ some t
      → (at_least_zero (positive_or ltp (ℤ.pos (suc n))) ≡ some t.ltp)
        × (t.close ≡ suc n)
        × (subtract ltp (ℤ.pos (suc n)) ≡ t.change)
  unfolding bse_draft filled_change
  served-change now symbol latency reply t ltp n prices h =
      let p = bse_prices r percent truncate reply in
      let (o, made) = parse-draft now symbol latency reply t h in
      let d = bse_draft r percent truncate now symbol latency o p in
      let taken = tick_data-IsTakenOver d t made in
      let price : d.ltp ≡ positive_or ltp (ℤ.pos (suc n)) = rw (prices.0, prices.2) refl in
      let change : d.change ≡ subtract ltp (ℤ.pos (suc n)) =
        rw (filled_change, prices.0, prices.1, prices.2) (ground arith) in
      (
        ap at_least_zero (sym price) ∙ taken.2,
        some-injective _ _ (sym taken.7 ∙ ap at_least_zero prices.2),
        some-injective _ _ (ap some (sym change) ∙ taken.8),
      )

  -- A quote whose reply has a price and a previous close, but no change, gives the difference of the
  -- two as the change.
  pub parse-change :
      (now symbol : Text) (latency : ℕ) (reply : BseReply) (t : Tick) (m n : ℕ)
      → HasPrices reply (ℤ.pos (suc m)) (ℤ.pos 0) n
      → parse r percent truncate now symbol latency reply ≡ some t
      → (t.ltp ≡ suc m) × (t.close ≡ suc n) × (t.change ≡ difference t.ltp t.close)
  parse-change now symbol latency reply t m n prices h =
      let (price, close, change) =
        served-change now symbol latency reply t (ℤ.pos (suc m)) n prices h in
      let ltp : t.ltp ≡ suc m = ground (arith, price) in (ltp, close, rw (ltp, close) (sym change))

  -- A quote whose reply has a previous close, but neither a price nor a change, has the close as its
  -- price, and a change of minus the whole of it.
  pub parse-no_price :
      (now symbol : Text) (latency : ℕ) (reply : BseReply) (t : Tick) (n : ℕ)
      → HasPrices reply (ℤ.pos 0) (ℤ.pos 0) n
      → parse r percent truncate now symbol latency reply ≡ some t
      → (t.ltp ≡ suc n) × (t.close ≡ suc n) × (t.change ≡ ℤ.negsuc n)
  parse-no_price now symbol latency reply t n prices h =
      let (price, close, change) = served-change now symbol latency reply t (ℤ.pos 0) n prices h in
      (ground (arith, price), close, sym change ∙ difference-zero n)
