-- ===== src/Feeds/NseSession.antt =====
-- The session of `NSEScraper` (src/providers/nse_scraper.py): its cookies, and a quote's requests.
-- Times are whole seconds. The session object is outside the model; `interval` is
-- `session_refresh_interval_seconds`.
use bharat_ticker.Common.{ℕ, ◌+◌, ltb, Bool, true, false, Option, List, [], ◌∷◌, if◌then◌else◌}
use bharat_ticker.Common.Text.{Text}
use bharat_ticker.Common.Dict.{Dict, insert}
use bharat_ticker.Failover.Provider.{Provider}
use bharat_ticker.Proxies.{ProxyPool, current, rotate}

-- `sent` has the cookies of each request for a quote, in order.
pub record NseScraper : Type 0 where
  pub base : Provider
  pub proxy : Option Text
  pub cookies : Dict Text
  pub last_cookie_refresh : ℕ
  pub pool : ProxyPool
  pub sent : List (Dict Text)

-- How `_playwright_cookie_fallback` ends: when it has its cookies, or with those that it had taken.
pub data Browser : Type 0 where
  extracted : List (Text × Text) → ℕ → Browser
  gave_up : List (Text × Text) → Browser

-- How the request for the homepage ends: its cookies and the time; 403, with the browser; another
-- status; or it raises.
pub data Home : Type 0 where
  home_ok : List (Text × Text) → ℕ → Home
  home_forbidden : Browser → Home
  home_unexpected : Home
  home_raised : Home

unfoldable pub add_cookies : List (Text × Text) → Dict Text → Dict Text
add_cookies [] cookies = cookies
add_cookies ((name, value) ∷ new) cookies = add_cookies new (insert name value cookies)

unfoldable pub playwright_cookie_fallback : Browser → NseScraper → NseScraper
unfolding add_cookies
playwright_cookie_fallback (Browser.extracted new now) s = record s {
  cookies = add_cookies new s.cookies;
  last_cookie_refresh = now;
}
playwright_cookie_fallback (Browser.gave_up new) s = record s {
  cookies = add_cookies new s.cookies;
}

-- The request of `_refresh_cookies`; false is a `ProviderError`.
unfoldable pub load_home : Home → NseScraper → NseScraper × Bool
unfolding add_cookies playwright_cookie_fallback
load_home (Home.home_ok new now) s =
    (record s { cookies = add_cookies new s.cookies; last_cookie_refresh = now }, true)
load_home (Home.home_forbidden browser) s = (playwright_cookie_fallback browser s, true)
load_home Home.home_unexpected s = (s, true)
load_home Home.home_raised s = (s, false)

abbrev pub connected_if : Bool → NseScraper → NseScraper × Bool
connected_if true s = (record s { base = record s.base { is_connected = true } }, true)
connected_if false s = (s, false)

module _ (interval : ℕ) where
  -- `_refresh_cookies`
  unfoldable pub refresh_cookies : ℕ → Home → NseScraper → NseScraper × Bool
  unfolding load_home
  refresh_cookies now home s =
      if ltb now (s.last_cookie_refresh + interval) then (s, true) else load_home home s

  -- `_ensure_fresh_cookies`: the clock is read here and in `_refresh_cookies`.
  unfoldable pub ensure_fresh_cookies : ℕ → ℕ → Home → NseScraper → NseScraper × Bool
  unfolding refresh_cookies
  ensure_fresh_cookies checked now home s =
      if ltb (s.last_cookie_refresh + interval) checked
      then refresh_cookies now home s
      else (s, true)

  -- `connect` of a scraper that is not connected.
  unfoldable pub open_session :
      (Text → List Text → Text) → ℕ → ℕ → Home → NseScraper → NseScraper × Bool
  unfolding refresh_cookies current
  open_session choice chosen now home s =
      let (pool', proxy) = current choice chosen s.pool in
      let (s', ok) = refresh_cookies now home (record s { proxy = proxy; pool = pool' }) in
      connected_if ok s'

  -- `connect`
  unfoldable pub connect : (Text → List Text → Text) → ℕ → ℕ → Home → NseScraper → NseScraper × Bool
  unfolding open_session
  connect choice chosen now home s =
      let opened = open_session choice chosen now home s in
      if s.base.is_connected then (s, true) else opened

  -- `_rotate_session`
  unfoldable pub rotate_session :
      (Text → List Text → Text) → ℕ → ℕ → Home → NseScraper → NseScraper × Bool
  unfolding open_session rotate
  rotate_session choice chosen now home s =
      let (pool', next) = rotate choice s.proxy chosen chosen s.pool in
      open_session choice chosen now home (record s {
        base = record s.base { is_connected = false };
        cookies = [];
        last_cookie_refresh = 0;
        pool = pool';
      })

-- `disconnect`
unfoldable pub disconnect : NseScraper → NseScraper
disconnect s = record s { base = record s.base { is_connected = false } }
