-- ===== src/Feeds/NseBudget.antt =====
-- The requests and the counts of a whole `fetch_quote` of src/providers/nse_scraper.py, and the cookies
-- of its second request.
use bharat_ticker.Common.{ℕ, ◌==◌, ltb, Bool, true, false, Option, List, length, arith}
use bharat_ticker.Common.Text.{Text}
use bharat_ticker.Models.Tick.{Tick}
use bharat_ticker.Feeds.NseSession.{
  NseScraper, refresh_cookies, ensure_fresh_cookies, connect, rotate_session,
}
use bharat_ticker.Feeds.NseFetch.{
  Answer, Failure, Feed, fail, count_error, send, finish, ask_third, recheck, refused_twice,
  use_second, ask_second, refused_once, use_first, ask_first, check_first, fetch_quote,
}
use bharat_ticker.Feeds.NseCounts.{
  IsSilent, IsCharged, if_IsCharged, IsCharged-after, IsCharged-send, IsCharged-error,
  IsCharged-weaken, stopped-IsCharged, fail-IsCharged, error-IsCharged, finish-IsCharged,
  use_third-IsCharged, refresh-IsSilent, ensure-IsSilent, connect-IsSilent, rotate-IsSilent,
}

module _ {D : Type 0} (parse : ℕ → D → Option Tick) (interval : ℕ)
    (choice : Text → List Text → Text) where
  ask_third-IsCharged :
      (w : Feed D) (s : NseScraper) (x : NseScraper × Bool)
      → IsSilent s x.0
      → IsCharged 1 1 s (ask_third parse interval choice w x)
  ask_third-IsCharged w s (s', false) quiet = stopped-IsCharged 1 1 s s' quiet
  ask_third-IsCharged w s (s', true) quiet =
      let x = ask_third parse interval choice w (s', true) in
      IsCharged-after 1 1 s s' x quiet
        (IsCharged-send 0 1 s' x (use_third-IsCharged parse interval choice w w.third (send s')))

  recheck-IsCharged :
      (w : Feed D) (s : NseScraper) (x : NseScraper × Bool)
      → IsSilent s x.0
      → IsCharged 1 1 s (recheck parse interval choice w x)
  recheck-IsCharged w s (s', false) quiet = stopped-IsCharged 1 1 s s' quiet
  recheck-IsCharged w s (s', true) quiet =
      let e = ensure_fresh_cookies interval w.rechecked w.rechecked w.reensure_home s' in
      IsCharged-after 1 1 s s' (ask_third parse interval choice w e) quiet (
        ask_third-IsCharged w s' e
          (ensure-IsSilent interval w.rechecked w.rechecked w.reensure_home s'))

  refused_twice-IsCharged :
      (w : Feed D) (s : NseScraper) → IsCharged 1 1 s (refused_twice parse interval choice w s)
  unfolding refused_twice
  refused_twice-IsCharged w s =
      let r = rotate_session interval choice w.rotate_at w.rotate_at w.rotate_home s in
      let x = fail Failure.blocked_error s in
      if_IsCharged (ltb 1 (length s.pool.proxies)) 1 1 s (recheck parse interval choice w r) x
        (recheck-IsCharged w s r
          (rotate-IsSilent interval choice w.rotate_at w.rotate_at w.rotate_home s))
        (IsCharged-weaken 0 1 0 1 s x (omega arith) (omega arith)
          (fail-IsCharged Failure.blocked_error s))

  use_second-IsCharged :
      (w : Feed D) (answer : Answer D) (s : NseScraper)
      → IsCharged 1 1 s (use_second parse interval choice w answer s)
  unfolding use_second
  use_second-IsCharged w Answer.answer_raised s =
      IsCharged-weaken 0 1 1 1 s (fail Failure.provider_error (count_error s)) (omega arith)
        (omega arith) (error-IsCharged Failure.provider_error s)
  use_second-IsCharged w (Answer.answered status body) s =
      let y = finish parse interval choice w.latency status body s in
      if_IsCharged (status == 403) 1 1 s (refused_twice parse interval choice w s) y
        (refused_twice-IsCharged w s)
        (IsCharged-weaken 0 1 1 1 s y (omega arith) (omega arith)
          (finish-IsCharged parse interval choice w.latency status body s))

  ask_second-IsCharged :
      (w : Feed D) (s : NseScraper) (x : NseScraper × Bool)
      → IsSilent s x.0
      → IsCharged 2 1 s (ask_second parse interval choice w x)
  ask_second-IsCharged w s (s', false) quiet = stopped-IsCharged 2 1 s s' quiet
  ask_second-IsCharged w s (s', true) quiet =
      let x = ask_second parse interval choice w (s', true) in
      IsCharged-after 2 1 s s' x quiet
        (IsCharged-send 1 1 s' x (use_second-IsCharged w w.second (send s')))

  refused_once-IsCharged :
      (w : Feed D) (s : NseScraper) → IsCharged 2 2 s (refused_once parse interval choice w s)
  unfolding refused_once
  refused_once-IsCharged w s =
      let s' = count_error s in
      let r = refresh_cookies interval w.refused_at w.refresh_home s' in
      let quiet = refresh-IsSilent interval w.refused_at w.refresh_home s' in
      IsCharged-error 2 1 s (ask_second parse interval choice w r)
        (ask_second-IsCharged w s' r quiet)

  use_first-IsCharged :
      (w : Feed D) (answer : Answer D) (s : NseScraper)
      → IsCharged 2 2 s (use_first parse interval choice w answer s)
  unfolding use_first
  use_first-IsCharged w Answer.answer_raised s =
      IsCharged-weaken 0 2 1 2 s (fail Failure.provider_error (count_error s)) (omega arith)
        (omega arith) (error-IsCharged Failure.provider_error s)
  use_first-IsCharged w (Answer.answered status body) s =
      let y = finish parse interval choice w.latency status body s in
      if_IsCharged (status == 403) 2 2 s (refused_once parse interval choice w s) y
        (refused_once-IsCharged w s)
        (IsCharged-weaken 0 2 1 2 s y (omega arith) (omega arith)
          (finish-IsCharged parse interval choice w.latency status body s))

  ask_first-IsCharged :
      (w : Feed D) (s : NseScraper) (x : NseScraper × Bool)
      → IsSilent s x.0
      → IsCharged 3 2 s (ask_first parse interval choice w x)
  ask_first-IsCharged w s (s', false) quiet = stopped-IsCharged 3 2 s s' quiet
  ask_first-IsCharged w s (s', true) quiet =
      let x = ask_first parse interval choice w (s', true) in
      IsCharged-after 3 2 s s' x quiet
        (IsCharged-send 2 2 s' x (use_first-IsCharged w w.first (send s')))

  check_first-IsCharged :
      (w : Feed D) (s : NseScraper) (x : NseScraper × Bool)
      → IsSilent s x.0
      → IsCharged 3 2 s (check_first parse interval choice w x)
  check_first-IsCharged w s (s', false) quiet = stopped-IsCharged 3 2 s s' quiet
  check_first-IsCharged w s (s', true) quiet =
      let e = ensure_fresh_cookies interval w.checked w.checked w.ensure_home s' in
      IsCharged-after 3 2 s s' (ask_first parse interval choice w e) quiet
        (ask_first-IsCharged w s' e (ensure-IsSilent interval w.checked w.checked w.ensure_home s'))

  -- A quote takes three requests at most, counts two errors at most, and counts a success exactly if
  -- it is fetched, however the requests and the sessions end.
  pub fetch_quote-IsCharged :
      (w : Feed D) (s : NseScraper) → IsCharged 3 2 s (fetch_quote parse interval choice w s)
  unfolding fetch_quote
  fetch_quote-IsCharged w s =
      let c = connect interval choice w.connect_at w.connect_at w.connect_home s in
      check_first-IsCharged w s c
        (connect-IsSilent interval choice w.connect_at w.connect_at w.connect_home s)
