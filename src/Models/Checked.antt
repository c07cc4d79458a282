-- ===== src/Models/Checked.antt =====
-- What `TickData` (src/models/tick.py) takes over from the arguments that it accepts.
use bharat_ticker.Common.{◌≡◌, refl, ap, ◌∙◌, Option, none, some, arith}
use mathlib.Core.Option.{some-injective}
use bharat_ticker.Models.Tick.{Tick}
use bharat_ticker.Models.Validation.{
  Draft, ◌>>=◌, at_least_zero, none_or_at_least_zero, checked_isin, checked_symbol,
  checked_exchange, tick_data,
}

pub >>=-eq-some :
    {A B : Type 0} (m : Option A) (f : A → Option B) {b : B}
    → (m >>= f) ≡ some b
    → (a : A) × (m ≡ some a) × (f a ≡ some b)
>>=-eq-some none f h = absurd (ground (arith, h))
>>=-eq-some (some a) f h = (a, refl, h)

same_field :
    {X : Type 0} {u t : Tick} {o : Option X} (field : Tick → X)
    → some u ≡ some t
    → o ≡ some (field u)
    → o ≡ some (field t)
same_field field e h = h ∙ ap some (ap field (some-injective _ _ e))

-- The fields of a tick that was made, by the arguments.
abbrev pub IsTakenOver : Draft → Tick → Type 0
IsTakenOver d t =
    (checked_symbol d.symbol ≡ some t.symbol)
    × (checked_isin d.isin ≡ some t.isin)
    × (at_least_zero d.ltp ≡ some t.ltp)
    × (at_least_zero d.high ≡ some t.high)
    × (at_least_zero d.low ≡ some t.low)
    × (none_or_at_least_zero d.week_52_high ≡ some t.week_52_high)
    × (none_or_at_least_zero d.week_52_low ≡ some t.week_52_low)
    × (at_least_zero d.close ≡ some t.close)
    × (some d.change ≡ some t.change)

pub tick_data-IsTakenOver : (d : Draft) (t : Tick) → tick_data d ≡ some t → IsTakenOver d t
unfolding tick_data
tick_data-IsTakenOver d t h =
    let (symbol, h1, k1) = >>=-eq-some (checked_symbol d.symbol) _ h in
    let (isin, h2, k2) = >>=-eq-some (checked_isin d.isin) _ k1 in
    let (exchange, h3, k3) = >>=-eq-some (checked_exchange d.exchange) _ k2 in
    let (ltp, h4, k4) = >>=-eq-some (at_least_zero d.ltp) _ k3 in
    let (open_price, h5, k5) = >>=-eq-some (at_least_zero d.open_price) _ k4 in
    let (high, h6, k6) = >>=-eq-some (at_least_zero d.high) _ k5 in
    let (low, h7, k7) = >>=-eq-some (at_least_zero d.low) _ k6 in
    let (close, h8, k8) = >>=-eq-some (at_least_zero d.close) _ k7 in
    let (volume, h9, k9) = >>=-eq-some (at_least_zero d.volume) _ k8 in
    let (value, h10, k10) = >>=-eq-some (none_or_at_least_zero d.value) _ k9 in
    let (vwap, h11, k11) = >>=-eq-some (none_or_at_least_zero d.vwap) _ k10 in
    let (upper, h12, k12) = >>=-eq-some (none_or_at_least_zero d.upper_circuit) _ k11 in
    let (lower, h13, k13) = >>=-eq-some (none_or_at_least_zero d.lower_circuit) _ k12 in
    let (week_high, h14, k14) = >>=-eq-some (none_or_at_least_zero d.week_52_high) _ k13 in
    let (week_low, h15, k15) = >>=-eq-some (none_or_at_least_zero d.week_52_low) _ k14 in
    (
      same_field (λ u. u.symbol) k15 h1,
      same_field (λ u. u.isin) k15 h2,
      same_field (λ u. u.ltp) k15 h4,
      same_field (λ u. u.high) k15 h6,
      same_field (λ u. u.low) k15 h7,
      same_field (λ u. u.week_52_high) k15 h14,
      same_field (λ u. u.week_52_low) k15 h15,
      same_field (λ u. u.close) k15 h8,
      same_field (λ u. u.change) k15 refl,
    )
