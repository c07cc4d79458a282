-- ===== src/Feeds/NseFetch.antt =====
-- `NSEScraper.fetch_quote`, `fetch_bulk` and `health_check` (src/providers/nse_scraper.py). What a
-- request brings is an input; `parse` is `_parse_nse_quote` of a reply.
use bharat_ticker.Common.{
  ℕ, ◌==◌, ltb, Bool, true, false, Option, none, some, List, [], ◌∷◌, ◌++◌, length, if◌then◌else◌,
}
use bharat_ticker.Common.Text.{Text}
use bharat_ticker.Models.Tick.{Tick}
use bharat_ticker.Failover.Provider.{record_success, record_error}
use bharat_ticker.Feeds.NseSession.{
  NseScraper, Home, refresh_cookies, ensure_fresh_cookies, connect, rotate_session,
}

-- How a request ends: it raises, or it has a status and what its body reads as, if it is JSON.
pub data Answer (D : Type 0) : Type 0 where
  answer_raised : Answer D
  answered : ℕ → Option D → Answer D

pub data Failure : Type 0 where
  provider_error blocked_error schema_error : Failure

pub data Fetched : Type 0 where
  got : Tick → Fetched
  failed : Failure → Fetched

-- What the outside does during one call: at the connection, before the first request, after a first
-- answer 403, and after a second one.
pub record Feed (D : Type 0) : Type 0 where
  pub connect_at : ℕ
  pub connect_home : Home
  pub checked : ℕ
  pub ensure_home : Home
  pub first : Answer D
  pub refused_at : ℕ
  pub refresh_home : Home
  pub second : Answer D
  pub rotate_at : ℕ
  pub rotate_home : Home
  pub rechecked : ℕ
  pub reensure_home : Home
  pub third : Answer D
  pub latency : ℕ

abbrev pub fail : Failure → NseScraper → NseScraper × Fetched
fail why s = (s, Fetched.failed why)

abbrev pub count_error : NseScraper → NseScraper
count_error s = record s { base = record_error s.base }

abbrev pub count_success : ℕ → NseScraper → NseScraper
count_success latency s = record s { base = record_success latency s.base }

-- The log of the requests.
abbrev pub send : NseScraper → NseScraper
send s = record s { sent = s.sent ++ (s.cookies ∷ []) }

abbrev pub add_tick : Fetched → List Tick → List Tick
add_tick (Fetched.got tick) results = tick ∷ results
add_tick (Fetched.failed why) results = results

abbrev pub is_ok : {D : Type 0} → Answer D → Bool
is_ok Answer.answer_raised = false
is_ok (Answer.answered status body) = status == 200

abbrev pub healthy : {D : Type 0} → Answer D → NseScraper × Bool → NseScraper × Bool
healthy answer (s, false) = (s, false)
healthy answer (s, true) = (s, is_ok answer)

module _ {D : Type 0} (parse : ℕ → D → Option Tick) (interval : ℕ)
    (choice : Text → List Text → Text) where
  -- A parsed reply is counted, one that cannot be parsed is not.
  unfoldable pub take_tick : ℕ → Option Tick → NseScraper → NseScraper × Fetched
  unfolding record_success
  take_tick latency none s = fail Failure.schema_error s
  take_tick latency (some tick) s = (count_success latency s, Fetched.got tick)

  unfoldable pub take_body : ℕ → Option D → NseScraper → NseScraper × Fetched
  unfolding take_tick record_error
  take_body latency none s = fail Failure.provider_error (count_error s)
  take_body latency (some d) s = take_tick latency (parse latency d) s

  -- From `if resp.status_code != 200` on.
  unfoldable pub finish : ℕ → ℕ → Option D → NseScraper → NseScraper × Fetched
  unfolding take_body
  finish latency status body s =
      let taken = take_body latency body s in
      if status == 200 then taken else fail Failure.provider_error (count_error s)

  -- The third answer.
  unfoldable pub use_third : Feed D → Answer D → NseScraper → NseScraper × Fetched
  unfolding finish
  use_third w Answer.answer_raised s = fail Failure.provider_error (count_error s)
  use_third w (Answer.answered status body) s =
      let rest = finish w.latency status body s in
      if status == 403 then fail Failure.blocked_error s else rest

  abbrev pub ask_third : Feed D → NseScraper × Bool → NseScraper × Fetched
  ask_third w (s, false) = fail Failure.provider_error s
  ask_third w (s, true) = use_third w w.third (send s)

  abbrev pub recheck : Feed D → NseScraper × Bool → NseScraper × Fetched
  recheck w (s, false) = fail Failure.provider_error s
  recheck w (s, true) =
      ask_third w (ensure_fresh_cookies interval w.rechecked w.rechecked w.reensure_home s)

  -- The second answer was 403.
  unfoldable pub refused_twice : Feed D → NseScraper → NseScraper × Fetched
  unfolding use_third ensure_fresh_cookies rotate_session
  refused_twice w s =
      let rotated =
        recheck w (rotate_session interval choice w.rotate_at w.rotate_at w.rotate_home s) in
      if ltb 1 (length s.pool.proxies) then rotated else fail Failure.blocked_error s

  unfoldable pub use_second : Feed D → Answer D → NseScraper → NseScraper × Fetched
  unfolding refused_twice finish
  use_second w Answer.answer_raised s = fail Failure.provider_error (count_error s)
  use_second w (Answer.answered status body) s =
      let rotated = refused_twice w s in
      let rest = finish w.latency status body s in if status == 403 then rotated else rest

  abbrev pub ask_second : Feed D → NseScraper × Bool → NseScraper × Fetched
  ask_second w (s, false) = fail Failure.provider_error s
  ask_second w (s, true) = use_second w w.second (send s)

  -- The first answer was 403.
  unfoldable pub refused_once : Feed D → NseScraper → NseScraper × Fetched
  unfolding use_second refresh_cookies
  refused_once w s =
      ask_second w (refresh_cookies interval w.refused_at w.refresh_home (count_error s))

  unfoldable pub use_first : Feed D → Answer D → NseScraper → NseScraper × Fetched
  unfolding refused_once finish
  use_first w Answer.answer_raised s = fail Failure.provider_error (count_error s)
  use_first w (Answer.answered status body) s =
      let again = refused_once w s in
      let rest = finish w.latency status body s in if status == 403 then again else rest

  abbrev pub ask_first : Feed D → NseScraper × Bool → NseScraper × Fetched
  ask_first w (s, false) = fail Failure.provider_error s
  ask_first w (s, true) = use_first w w.first (send s)

  abbrev pub check_first : Feed D → NseScraper × Bool → NseScraper × Fetched
  check_first w (s, false) = fail Failure.provider_error s
  check_first w (s, true) =
      ask_first w (ensure_fresh_cookies interval w.checked w.checked w.ensure_home s)

  -- `fetch_quote`
  unfoldable pub fetch_quote : Feed D → NseScraper → NseScraper × Fetched
  unfolding use_first ensure_fresh_cookies connect
  fetch_quote w s =
      check_first w (connect interval choice w.connect_at w.connect_at w.connect_home s)

  -- `fetch_bulk`, with what the outside does for each symbol; its tasks run one after the other here.
  unfoldable pub fetch_bulk : List (Feed D) → NseScraper → NseScraper × List Tick
  unfolding fetch_quote
  fetch_bulk [] s = (s, [])
  fetch_bulk (w ∷ feeds) s =
      let (s', fetched) = fetch_quote w s in
      let (s'', results) = fetch_bulk feeds s' in (s'', add_tick fetched results)

  -- `health_check`
  unfoldable pub health_check : ℕ → Home → Answer D → NseScraper → NseScraper × Bool
  unfolding ensure_fresh_cookies
  health_check now home answer s =
      let checked = healthy answer (ensure_fresh_cookies interval now now home s) in
      if s.base.is_connected then checked else (s, false)
