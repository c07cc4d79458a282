-- ===== src/Feeds/NseResend.antt =====
-- What `NSEScraper.fetch_quote` (src/providers/nse_scraper.py) does on a reply 403 while its cookies
-- are fresh, and on a reply that cannot be parsed.
use bharat_ticker.Common.{
  ℕ, ◌+◌, ◌==◌, ltb, ◌≡◌, refl, sym, ap, ◌∙◌, length, Bool, true, false, Option, none, some, List,
  [], ◌∷◌, ◌++◌, Bool-cases, inl, inr,
}
use bharat_ticker.Common.Text.{Text}
use bharat_ticker.Common.Dict.{Dict}
use bharat_ticker.Models.Tick.{Tick}
use bharat_ticker.Feeds.NseSession.{
  NseScraper, refresh_cookies, ensure_fresh_cookies, connect, rotate_session,
}
use bharat_ticker.Feeds.NseFetch.{
  Answer, Failure, Feed, fail, count_error, send, take_tick, take_body, finish, use_third,
  ask_third, recheck, refused_twice, use_second, refused_once, use_first, fetch_quote,
}
use bharat_ticker.Feeds.NseCounts.{ensure-IsSilent, rotate-IsSilent}

append_nil : {A : Type 0} (xs : List A) → xs ++ [] ≡ xs
append_nil [] = refl
append_nil (x ∷ xs) = ap (λ l. x ∷ l) (append_nil xs)

-- Further requests may have been sent, after those before.
abbrev pub IsExtended : NseScraper → NseScraper → Type 0
IsExtended s s' = (rest : List (Dict Text)) × (s'.sent ≡ s.sent ++ rest)

IsExtended-same : (s s' : NseScraper) → s'.sent ≡ s.sent → IsExtended s s'
IsExtended-same s s' h = ([], h ∙ sym (append_nil s.sent))

module _ {D : Type 0} (parse : ℕ → D → Option Tick) (interval : ℕ)
    (choice : Text → List Text → Text) where
  -- With a connection and fresh cookies the first request goes out at once.
  fetch_quote-first :
      (w : Feed D) (s : NseScraper)
      → s.base.is_connected ≡ true
      → ltb (s.last_cookie_refresh + interval) w.checked ≡ false
      → fetch_quote parse interval choice w s ≡ use_first parse interval choice w w.first (send s)
  unfolding fetch_quote connect ensure_fresh_cookies
  fetch_quote-first w s c f = rw (fetch_quote, connect, c, ensure_fresh_cookies, f) refl

  refresh-fresh :
      (w : Feed D) (s : NseScraper)
      → ltb w.refused_at (s.last_cookie_refresh + interval) ≡ true
      → refresh_cookies interval w.refused_at w.refresh_home s ≡ (s, true)
  unfolding refresh_cookies
  refresh-fresh w s f = rw (refresh_cookies, f) refl

  take_tick-sent :
      (latency : ℕ) (tick : Option Tick) (s : NseScraper)
      → (take_tick parse interval choice latency tick s).0.sent ≡ s.sent
  unfolding take_tick
  take_tick-sent latency none s = refl
  take_tick-sent latency (some tick) s = refl

  finish-sent :
      (latency status : ℕ) (body : Option D) (s : NseScraper)
      → (finish parse interval choice latency status body s).0.sent ≡ s.sent
  unfolding finish take_body
  finish-sent latency status none s = elim (Bool-cases (status == 200)) [
    | inl e ↦ rw e refl
    | inr e ↦ rw e refl
  ]
  finish-sent latency status (some d) s = elim (Bool-cases (status == 200)) [
    | inl e ↦ rw e (take_tick-sent latency (parse latency d) s)
    | inr e ↦ rw e refl
  ]

  use_third-sent :
      (w : Feed D) (answer : Answer D) (s : NseScraper)
      → (use_third parse interval choice w answer s).0.sent ≡ s.sent
  unfolding use_third
  use_third-sent w Answer.answer_raised s = refl
  use_third-sent w (Answer.answered status body) s = elim (Bool-cases (status == 403)) [
    | inl e ↦ rw e refl
    | inr e ↦ rw e (finish-sent w.latency status body s)
  ]

  ask_third-IsExtended :
      (w : Feed D) (s : NseScraper) (x : NseScraper × Bool)
      → x.0.sent ≡ s.sent
      → IsExtended s (ask_third parse interval choice w x).0
  ask_third-IsExtended w s (s', false) h = IsExtended-same s s' h
  ask_third-IsExtended w s (s', true) h =
      (s'.cookies ∷ [], use_third-sent w w.third (send s') ∙ ap (λ l. l ++ (s'.cookies ∷ [])) h)

  recheck-IsExtended :
      (w : Feed D) (s : NseScraper) (x : NseScraper × Bool)
      → x.0.sent ≡ s.sent
      → IsExtended s (recheck parse interval choice w x).0
  recheck-IsExtended w s (s', false) h = IsExtended-same s s' h
  recheck-IsExtended w s (s', true) h =
      let quiet = ensure-IsSilent interval w.rechecked w.rechecked w.reensure_home s' in
      ask_third-IsExtended w s
        (ensure_fresh_cookies interval w.rechecked w.rechecked w.reensure_home s') (quiet.2 ∙ h)

  refused_twice-IsExtended :
      (w : Feed D) (s : NseScraper) → IsExtended s (refused_twice parse interval choice w s).0
  unfolding refused_twice
  refused_twice-IsExtended w s = elim (Bool-cases (ltb 1 (length s.pool.proxies))) [
    | inl e ↦
        let quiet = rotate-IsSilent interval choice w.rotate_at w.rotate_at w.rotate_home s in
        rw e (
          recheck-IsExtended w s
            (rotate_session interval choice w.rotate_at w.rotate_at w.rotate_home s) quiet.2)
    | inr e ↦ rw e (IsExtended-same s s refl)
  ]

  use_second-IsExtended :
      (w : Feed D) (answer : Answer D) (s : NseScraper)
      → IsExtended s (use_second parse interval choice w answer s).0
  unfolding use_second
  use_second-IsExtended w Answer.answer_raised s = IsExtended-same s (count_error s) refl
  use_second-IsExtended w (Answer.answered status body) s = elim (Bool-cases (status == 403)) [
    | inl e ↦ rw e (refused_twice-IsExtended w s)
    | inr e ↦ rw e (
        IsExtended-same s (finish parse interval choice w.latency status body s).0
          (finish-sent w.latency status body s))
  ]

  -- When a connected scraper with fresh cookies is answered 403, and the cookies are still fresh then,
  -- the homepage is not asked again: the second request goes out with the same cookies as the first,
  -- however it ends and whatever comes after it.
  pub fetch_quote-resends :
      (w : Feed D) (s : NseScraper) (body : Option D)
      → s.base.is_connected ≡ true
      → ltb (s.last_cookie_refresh + interval) w.checked ≡ false
      → ltb w.refused_at (s.last_cookie_refresh + interval) ≡ true
      → w.first ≡ Answer.answered 403 body
      → (rest : List (Dict Text)) × ((fetch_quote parse interval choice w s).0.sent
          ≡ ((s.sent ++ (s.cookies ∷ [])) ++ (s.cookies ∷ [])) ++ rest)
  unfolding use_first refused_once
  fetch_quote-resends w s body c f fresh e =
      rw
        (
          fetch_quote-first w s c f,
          e,
          use_first,
          refused_once,
          refresh-fresh w (count_error (send s)) fresh,
        )
        (use_second-IsExtended w w.second (send (count_error (send s))))

  -- An answer 200 that cannot be parsed is an error that the provider does not count.
  pub fetch_quote-unparsed :
      (w : Feed D) (s : NseScraper) (d : D)
      → s.base.is_connected ≡ true
      → ltb (s.last_cookie_refresh + interval) w.checked ≡ false
      → w.first ≡ Answer.answered 200 (some d)
      → parse w.latency d ≡ none
      → fetch_quote parse interval choice w s ≡ fail Failure.schema_error (send s)
  unfolding use_first finish take_body take_tick
  fetch_quote-unparsed w s d c f e no_tick =
      rw (fetch_quote-first w s c f, e, use_first, finish, take_body, no_tick, take_tick) refl
