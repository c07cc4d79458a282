-- ===== src/Tickertape/Search.antt =====
-- `_search` of src/engine/tickertape.py. Times are tenths of a second; a search holds the lock, so
-- that searches come one after the other.
use bharat_ticker.Common.{
  ℕ, ◌+◌, max, ltb, ◌==◌, Bool, false, Option, none, some, List, [], if◌then◌else◌,
}
use bharat_ticker.Common.Text.{Text}
use bharat_ticker.Common.Dict.{Dict}

-- A stock that a search finds.
pub record Stock : Type 0 where
  pub ticker : Text
  pub sid : Option Text
  pub sector : Option Text
  pub name : Option Text

-- What a symbol resolves to.
pub record Resolved : Type 0 where
  pub sid : Option Text
  pub sector : Option Text
  pub name : Option Text

-- The globals of the module, without the cache of the mood index.
pub record Tape : Type 0 where
  pub sid_cache : Dict Resolved
  pub last_search : ℕ
  pub cooldown_until : ℕ
  pub all_sids : Dict Text
  pub all_sids_at : ℕ

abbrev pub search_min_gap : ℕ
search_min_gap = 6

abbrev pub search_cooldown : ℕ
search_cooldown = 1200

-- How a request for `/search` ends: how long it took, its status, none if it raised, and the stocks.
pub record SearchReply : Type 0 where
  pub took : ℕ
  pub status : Option ℕ
  pub stocks : List Stock

abbrev pub is_forbidden : Option ℕ → Bool
is_forbidden none = false
is_forbidden (some n) = n == 403

-- When a search that may go out at `now` is sent, after the pause.
unfoldable pub send_time : ℕ → Tape → ℕ
send_time now t = max now (t.last_search + search_min_gap)

-- `_search` at `now`, with the time it is sent, if it is, and the stocks.
unfoldable pub search : ℕ → SearchReply → Tape → Tape × (Option ℕ × List Stock)
unfolding send_time
search now reply t =
    let sent = send_time now t in
    let done = sent + reply.took in
    if ltb now t.cooldown_until
    then (t, (none, []))
    else (if is_forbidden reply.status
        then (
          record t { last_search = done; cooldown_until = done + search_cooldown },
          (some sent, []),
        )
        else (record t { last_search = done }, (some sent, reply.stocks)))
