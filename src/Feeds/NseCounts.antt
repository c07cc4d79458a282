-- ===== src/Feeds/NseCounts.antt =====
-- What a quote costs `NSEScraper` (src/providers/nse_scraper.py): its requests, and the counters.
use bharat_ticker.Common.{
  ℕ, ◌+◌, ◌≤◌, ◌==◌, ltb, ◌≡◌, refl, ◌∙◌, Bool, true, false, Option, none, some, List, [], ◌∷◌,
  length, length-append, ap, arith, if◌then◌else◌,
}
use bharat_ticker.Common.Text.{Text}
use bharat_ticker.Models.Tick.{Tick}
use bharat_ticker.Failover.Provider.{record_success, record_error}
use bharat_ticker.Proxies.{current, rotate}
use bharat_ticker.Feeds.NseSession.{
  NseScraper, Browser, Home, playwright_cookie_fallback, load_home, refresh_cookies,
  ensure_fresh_cookies, connected_if, open_session, connect, rotate_session,
}
use bharat_ticker.Feeds.NseFetch.{
  Answer, Failure, Fetched, Feed, fail, count_error, send, take_tick, take_body, finish, use_third,
}

-- Nothing was counted, and no quote requested.
abbrev pub IsSilent : NseScraper → NseScraper → Type 0
IsSilent s s' =
    (s'.base.total_requests ≡ s.base.total_requests)
    × (s'.base.error_count ≡ s.base.error_count)
    × (s'.sent ≡ s.sent)

load_home-IsSilent : (home : Home) (s : NseScraper) → IsSilent s (load_home home s).0
unfolding load_home playwright_cookie_fallback
load_home-IsSilent (Home.home_ok new now) s = (refl, refl, refl)
load_home-IsSilent (Home.home_forbidden (Browser.extracted new now)) s = (refl, refl, refl)
load_home-IsSilent (Home.home_forbidden (Browser.gave_up new)) s = (refl, refl, refl)
load_home-IsSilent Home.home_unexpected s = (refl, refl, refl)
load_home-IsSilent Home.home_raised s = (refl, refl, refl)

connected_if-IsSilent : (ok : Bool) (s : NseScraper) → IsSilent s (connected_if ok s).0
connected_if-IsSilent true s = (refl, refl, refl)
connected_if-IsSilent false s = (refl, refl, refl)

if_IsSilent :
    (b : Bool) (s : NseScraper) (x y : NseScraper × Bool)
    → IsSilent s x.0
    → IsSilent s y.0
    → IsSilent s (if b then x else y).0
if_IsSilent true s x y h k = h
if_IsSilent false s x y h k = k

module _ (interval : ℕ) where
  pub refresh-IsSilent :
      (now : ℕ) (home : Home) (s : NseScraper) → IsSilent s (refresh_cookies interval now home s).0
  unfolding refresh_cookies
  refresh-IsSilent now home s =
      if_IsSilent (ltb now (s.last_cookie_refresh + interval)) s (s, true) (load_home home s)
        (refl, refl, refl) (load_home-IsSilent home s)

  pub ensure-IsSilent :
      (checked now : ℕ) (home : Home) (s : NseScraper)
      → IsSilent s (ensure_fresh_cookies interval checked now home s).0
  unfolding ensure_fresh_cookies
  ensure-IsSilent checked now home s =
      if_IsSilent (ltb (s.last_cookie_refresh + interval) checked) s
        (refresh_cookies interval now home s) (s, true) (refresh-IsSilent now home s)
        (refl, refl, refl)

  open-IsSilent :
      (choice : Text → List Text → Text) (chosen now : ℕ) (home : Home) (s : NseScraper)
      → IsSilent s (open_session interval choice chosen now home s).0
  unfolding open_session
  open-IsSilent choice chosen now home s =
      let s' = record s {
        proxy = (current choice chosen s.pool).1;
        pool = (current choice chosen s.pool).0;
      } in
      let opened = refresh_cookies interval now home s' in
      let quiet = refresh-IsSilent now home s' in
      let flagged = connected_if-IsSilent opened.1 opened.0 in
      (flagged.0 ∙ quiet.0, flagged.1 ∙ quiet.1, flagged.2 ∙ quiet.2)

  pub connect-IsSilent :
      (choice : Text → List Text → Text) (chosen now : ℕ) (home : Home) (s : NseScraper)
      → IsSilent s (connect interval choice chosen now home s).0
  unfolding connect
  connect-IsSilent choice chosen now home s =
      if_IsSilent s.base.is_connected s (s, true) (open_session interval choice chosen now home s)
        (refl, refl, refl) (open-IsSilent choice chosen now home s)

  pub rotate-IsSilent :
      (choice : Text → List Text → Text) (chosen now : ℕ) (home : Home) (s : NseScraper)
      → IsSilent s (rotate_session interval choice chosen now home s).0
  unfolding rotate_session
  rotate-IsSilent choice chosen now home s =
      let s' = record s {
        base = record s.base { is_connected = false };
        cookies = [];
        last_cookie_refresh = 0;
        pool = (rotate choice s.proxy chosen chosen s.pool).0;
      } in
      open-IsSilent choice chosen now home s'

abbrev pub gain : Fetched → ℕ
gain (Fetched.got tick) = 1
gain (Fetched.failed why) = 0

-- From `s` on, at most so many requests were sent and so many errors counted, and one success for a
-- quote that was fetched, but none otherwise.
abbrev pub IsCharged : ℕ → ℕ → NseScraper → NseScraper × Fetched → Type 0
IsCharged requests errors s x =
    (length x.0.sent ≤ length s.sent + requests)
    × (x.0.base.error_count ≤ s.base.error_count + errors)
    × (x.0.base.total_requests + s.base.error_count
        ≡ s.base.total_requests + x.0.base.error_count + gain x.1)

pub if_IsCharged :
    (b : Bool) (n e : ℕ) (s : NseScraper) (x y : NseScraper × Fetched)
    → IsCharged n e s x
    → IsCharged n e s y
    → IsCharged n e s (if b then x else y)
if_IsCharged true n e s x y h k = h
if_IsCharged false n e s x y h k = k

-- A step that counts nothing comes before.
pub IsCharged-after :
    (n e : ℕ) (s s' : NseScraper) (x : NseScraper × Fetched)
    → IsSilent s s'
    → IsCharged n e s' x
    → IsCharged n e s x
IsCharged-after n e s s' x quiet h =
    let sent : length s'.sent ≡ length s.sent = ap length quiet.2 in
    (omega (arith, sent, h.0), omega (arith, quiet.1, h.1), omega (arith, quiet.0, quiet.1, h.2))

-- One more request.
pub IsCharged-send :
    (n e : ℕ) (s : NseScraper) (x : NseScraper × Fetched)
    → IsCharged n e (send s) x
    → IsCharged (n + 1) e s x
IsCharged-send n e s x h =
    let sent = length-append s.sent (s.cookies ∷ []) in (omega (arith, sent, h.0), h.1, h.2)

-- One more error.
pub IsCharged-error :
    (n e : ℕ) (s : NseScraper) (x : NseScraper × Fetched)
    → IsCharged n e (count_error s) x
    → IsCharged n (e + 1) s x
unfolding record_error
IsCharged-error n e s x h = (h.0, omega (arith, h.1), omega (arith, h.2))

pub IsCharged-weaken :
    (n n' e e' : ℕ) (s : NseScraper) (x : NseScraper × Fetched)
    → n ≤ n'
    → e ≤ e'
    → IsCharged n e s x
    → IsCharged n' e' s x
IsCharged-weaken n n' e e' s x le le' h = (omega (arith, le, h.0), omega (arith, le', h.1), h.2)

pub fail-IsCharged : (why : Failure) (s : NseScraper) → IsCharged 0 0 s (fail why s)
fail-IsCharged why s = (omega arith, omega arith, omega arith)

-- A call that stops after a silent step stays within any budget.
pub stopped-IsCharged :
    (n e : ℕ) (s s' : NseScraper) → IsSilent s s' → IsCharged n e s (fail Failure.provider_error s')
stopped-IsCharged n e s s' quiet =
    let x = fail Failure.provider_error s' in
    IsCharged-after n e s s' x quiet (
      IsCharged-weaken 0 n 0 e s' x (omega arith) (omega arith)
        (fail-IsCharged Failure.provider_error s'))

pub error-IsCharged : (why : Failure) (s : NseScraper) → IsCharged 0 1 s (fail why (count_error s))
error-IsCharged why s =
    IsCharged-error 0 0 s (fail why (count_error s)) (fail-IsCharged why (count_error s))

module _ {D : Type 0} (parse : ℕ → D → Option Tick) (interval : ℕ)
    (choice : Text → List Text → Text) where
  take_tick-IsCharged :
      (latency : ℕ) (tick : Option Tick) (s : NseScraper)
      → IsCharged 0 1 s (take_tick parse interval choice latency tick s)
  unfolding take_tick record_success
  take_tick-IsCharged latency none s = (omega arith, omega arith, omega arith)
  take_tick-IsCharged latency (some tick) s = (omega arith, omega arith, omega arith)

  pub finish-IsCharged :
      (latency status : ℕ) (body : Option D) (s : NseScraper)
      → IsCharged 0 1 s (finish parse interval choice latency status body s)
  unfolding finish take_body
  finish-IsCharged latency status none s =
      let x = fail Failure.provider_error (count_error s) in
      let h = error-IsCharged Failure.provider_error s in if_IsCharged (status == 200) 0 1 s x x h h
  finish-IsCharged latency status (some d) s =
      let x = fail Failure.provider_error (count_error s) in
      if_IsCharged (status == 200) 0 1 s
        (take_tick parse interval choice latency (parse latency d) s) x
        (take_tick-IsCharged latency (parse latency d) s) (error-IsCharged Failure.provider_error s)

  pub use_third-IsCharged :
      (w : Feed D) (answer : Answer D) (s : NseScraper)
      → IsCharged 0 1 s (use_third parse interval choice w answer s)
  unfolding use_third
  use_third-IsCharged w Answer.answer_raised s = error-IsCharged Failure.provider_error s
  use_third-IsCharged w (Answer.answered status body) s =
      let x = fail Failure.blocked_error s in
      if_IsCharged (status == 403) 0 1 s x (finish parse interval choice w.latency status body s)
        (IsCharged-weaken 0 0 0 1 s x (omega arith) (omega arith)
          (fail-IsCharged Failure.blocked_error s))
        (finish-IsCharged w.latency status body s)
