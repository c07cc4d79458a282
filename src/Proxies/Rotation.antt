-- ===== src/Proxies/Rotation.antt =====
-- What `rotate` of src/providers/proxy_pool.py gives out after a proxy has been reported bad.
use bharat_ticker.Common.{
  ℕ, ◌+◌, ◌<◌, ◌≡◌, ◌≢◌, refl, true, false, some, List, [], ◌∷◌, arith, Option,
}
use mathlib.Core.Path.{sym}
use bharat_ticker.Common.Text.{Text, text_eq-false}
use bharat_ticker.Common.Dict.{Dict, insert, get_or-insert_self, get_or-insert_ne}
use bharat_ticker.Proxies.Defs.{ProxyPool, cooldown, is_alive, park, advance, rotate, current}
use bharat_ticker.Proxies.Choice.{Member, IsChoice, Live, current-picks}

parked-dead :
    (now parked : ℕ) (bad : Text) (dead : Dict ℕ)
    → now < parked + cooldown
    → is_alive now (insert bad (parked + cooldown) dead) bad ≡ false
unfolding is_alive
parked-dead now parked bad dead h =
    ground (arith, h, get_or-insert_self bad (parked + cooldown) 0 dead)

others-alive :
    (now until : ℕ) (bad q : Text) (dead : Dict ℕ)
    → q ≢ bad
    → is_alive now dead q ≡ true
    → is_alive now (insert bad until dead) q ≡ true
unfolding is_alive
others-alive now until bad q dead ne h =
    rw (get_or-insert_ne q bad until 0 dead (text_eq-false q bad ne)) h

rotate-current :
    (choice : Text → List Text → Text) (bad : Option Text) (q : Text) (parked now : ℕ)
    (pool : ProxyPool)
    → Member q pool.proxies
    → rotate choice bad parked now pool ≡ current choice now (advance (park bad parked pool))
unfolding rotate
rotate-current choice bad q parked now pool = go pool.proxies refl
  where
    go :
        (l : List Text)
        → pool.proxies ≡ l
        → Member q l
        → rotate choice bad parked now pool ≡ current choice now (advance (park bad parked pool))
    go [] eq m = elim m [ ]
    go (x ∷ l) eq m = rw eq refl

-- A proxy reported bad is not given out again by the same call, as long as another proxy of the pool
-- is alive and the call reads the clock again within the cooldown: under every strategy, what `rotate`
-- gives is a proxy of the pool other than the one reported.
pub rotate-other :
    (choice : Text → List Text → Text) (c : ℕ) (bad q p : Text) (parked now : ℕ) (pool : ProxyPool)
    → IsChoice choice
    → now < parked + cooldown
    → q ≢ c ∷ bad
    → Live now pool.dead_until pool.proxies q
    → (rotate choice (some (c ∷ bad)) parked now pool).1 ≡ some p
    → Member p pool.proxies × (p ≢ c ∷ bad)
unfolding rotate park
rotate-other choice c bad q p parked now pool is_choice soon ne live e =
    let r : (current choice now (advance (park (some (c ∷ bad)) parked pool))).1 ≡ some p =
      rw (sym (rotate-current choice (some (c ∷ bad)) q parked now pool live.0)) e in
    let (m, alive_if) =
      current-picks choice now (advance (park (some (c ∷ bad)) parked pool)) p is_choice r in
    let alive_p : is_alive now (insert (c ∷ bad) (parked + cooldown) pool.dead_until) p ≡ true =
      alive_if q
        (live.0, others-alive now (parked + cooldown) (c ∷ bad) q pool.dead_until ne live.1) in
    let dead_p : is_alive now (insert (c ∷ bad) (parked + cooldown) pool.dead_until) (c ∷ bad)
        ≡ false =
      parked-dead now parked (c ∷ bad) pool.dead_until soon in
    (m, λ same. cc)
