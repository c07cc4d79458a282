-- ===== src/Feeds/NseWeek.antt =====
-- The 52-week low that src/providers/nse_scraper.py makes of a reply without one, and what
-- src/api/endpoints/superbrain.py serves then.
use bharat_ticker.Common.{ℕ, ◌≡◌, refl, sym, ap, ◌∙◌, Bool, Option, none, some, arith}
use mathlib.Core.Option.{some-injective}
use bharat_ticker.Common.Text.{Text, codes}
use bharat_ticker.Common.Dict.{Dict, lookup}
use bharat_ticker.Common.Integers.{ℤ}
use bharat_ticker.Models.Tick.{Tick}
use bharat_ticker.Models.Validation.{Draft, none_or_at_least_zero, tick_data}
use bharat_ticker.Models.Checked.{>>=-eq-some, tick_data-IsTakenOver}
use bharat_ticker.Quotes.Shape.{Meta, sb_quote, clamp}
use bharat_ticker.Feeds.Json.{Json, Reading, safe_decimal, get_json}
use bharat_ticker.Feeds.NseQuote.{
  NseReply, Section, entries, parse_market_depth, text_or, nse_draft, parse_nse_quote,
}

-- The arguments from which a parsed tick was made.
IsMadeOf : Reading → Text → Text → ℕ → NseReply → Draft → Type 0
unfolding nse_draft
IsMadeOf r now symbol latency reply d =
    (d.symbol ≡ symbol)
    × (d.exchange ≡ codes "NSE")
    × ((day : Dict Json) × (entries reply.intra_day_high_low ≡ some day))
    × ((week : Dict Json) × (entries reply.week_high_low ≡ some week)
        × (d.week_52_low ≡ some (safe_decimal r (get_json (codes "min") week))))

parse-IsMadeOf :
    (r : Reading) (now symbol : Text) (latency : ℕ) (reply : NseReply) (t : Tick)
    → parse_nse_quote r now symbol latency reply ≡ some t
    → (d : Draft) × IsMadeOf r now symbol latency reply d × (tick_data d ≡ some t)
unfolding parse_nse_quote IsMadeOf nse_draft
parse-IsMadeOf r now symbol latency reply t h =
    let (info, h1, k1) = >>=-eq-some (entries reply.info) _ h in
    let (price_info, h2, k2) = >>=-eq-some (entries reply.price_info) _ k1 in
    let (security_info, h3, k3) = >>=-eq-some (entries reply.security_info) _ k2 in
    let (depth, h4, k4) = >>=-eq-some (parse_market_depth r reply.order_book) _ k3 in
    let (day, h5, k5) = >>=-eq-some (entries reply.intra_day_high_low) _ k4 in
    let (volume, h6, k6) =
      >>=-eq-some (r.whole (get_json (codes "tradedVolume") security_info)) _ k5 in
    let (week, h7, k7) = >>=-eq-some (entries reply.week_high_low) _ k6 in
    let (isin, h8, k8) = >>=-eq-some (text_or none (lookup (codes "isin") info)) _ k7 in
    let (series, h9, k9) =
      >>=-eq-some (text_or (some (codes "EQ")) (lookup (codes "series") info)) _ k8 in
    let value = safe_decimal r (get_json (codes "totalTradedValue") security_info) in
    let d = nse_draft r symbol now latency price_info day week isin series volume value depth in
    (d, (refl, refl, (day, h5), (week, h7, refl)), k9)

-- A part of the reply without a `min`, or with null for it.
abbrev pub HasNoMin : Section → Type 0
HasNoMin Section.missing = Unit
HasNoMin (Section.object d) = get_json (codes "min") d ≡ Json.null
HasNoMin Section.malformed = Unit

no_min :
    (s : Section) (d : Dict Json)
    → HasNoMin s
    → entries s ≡ some d
    → get_json (codes "min") d ≡ Json.null
unfolding get_json lookup
no_min Section.missing d h e = ap (get_json (codes "min")) (sym (some-injective _ _ e))
no_min (Section.object d') d h e = ap (get_json (codes "min")) (sym (some-injective _ _ e)) ∙ h
no_min Section.malformed d h e = absurd (ground (arith, e))

-- When the reply has no 52-week low, the quote that is served from it gives the 52-week low as zero,
-- whatever the day's low and the price are.
pub no_week_low-served :
    (r : Reading) (now symbol : Text) (latency : ℕ) (reply : NseReply) (t : Tick)
    (metas : Dict Meta) (is_open : Bool) (lag : Text → Option ℤ) (at : Text) (round : ℕ → ℕ)
    → HasNoMin reply.week_high_low
    → parse_nse_quote r now symbol latency reply ≡ some t
    → (sb_quote metas is_open lag at round t).week_52_low ≡ some 0
unfolding sb_quote clamp IsMadeOf safe_decimal
no_week_low-served r now symbol latency reply t metas is_open lag at round missing h =
    let (d, of, made) = parse-IsMadeOf r now symbol latency reply t h in
    let (week, e, low) = of.3 in
    let zero_low : d.week_52_low ≡ some (ℤ.pos 0) =
      low ∙ ap (λ j. some (safe_decimal r j)) (no_min reply.week_high_low week missing e) in
    let taken = (tick_data-IsTakenOver d t made).6 in
    let tick_low : t.week_52_low ≡ some 0 =
      some-injective _ _ (sym taken ∙ ap none_or_at_least_zero zero_low) in
    rw (sb_quote, clamp, tick_low) (ap some (omega arith))
