-- ===== src/Proxies/Defs.antt =====
-- `ProxyPool` and `mask_proxy` (src/providers/proxy_pool.py). The clock is read in whole units, of
-- which `cooldown` are 120 seconds; `random.choice` is the argument `choice`.
use bharat_ticker.Common.{
  ℕ, zero, suc, ◌+◌, ◌%◌, ltb, leb, ◌==◌, Bool, Option, none, some, List, [], ◌∷◌, ◌++◌, length,
  if◌then◌else◌,
}
use bharat_ticker.Common.Text.{Text}
use bharat_ticker.Common.Dict.{Dict, insert, get_or}

pub data ProxyStrategy : Type 0 where
  random least_used round_robin : ProxyStrategy

pub record ProxyPool : Type 0 where
  pub proxies : List Text
  pub strategy : ProxyStrategy
  pub idx : ℕ
  pub uses : Dict ℕ
  pub dead_until : Dict ℕ

-- `_COOLDOWN_S`, in units of a second.
abbrev pub cooldown : ℕ
cooldown = 120

zero_uses : List Text → Dict ℕ → Dict ℕ
zero_uses [] uses = uses
zero_uses (p ∷ ps) uses = zero_uses ps (insert p 0 uses)

-- The constructor, with `settings.proxy_list` and `settings.proxy_rotation_strategy`.
unfoldable pub init : List Text → ProxyStrategy → ProxyPool
unfolding zero_uses
init proxy_list strategy = record {
  proxies = proxy_list;
  strategy = strategy;
  idx = 0;
  uses = zero_uses proxy_list [];
  dead_until = [];
}

-- `reload`, with the settings as they are then.
unfoldable pub reload : List Text → ProxyStrategy → ProxyPool → ProxyPool
unfolding init
reload proxy_list strategy pool = init proxy_list strategy

unfoldable pub is_alive : ℕ → Dict ℕ → Text → Bool
is_alive now dead_until p = leb (get_or p 0 dead_until) now

unfoldable pub keep : (Text → Bool) → List Text → List Text
keep test [] = []
keep test (p ∷ ps) = if test p then p ∷ keep test ps else keep test ps

unfoldable pub alive : ℕ → ProxyPool → List Text
unfolding keep is_alive
alive now pool = keep (is_alive now pool.dead_until) pool.proxies

-- `a or b`, for lists.
abbrev pub or_else : List Text → List Text → List Text
or_else [] b = b
or_else (p ∷ ps) b = p ∷ ps

-- `min(pool, key=...)`: the first of the least.
unfoldable pub least : Dict ℕ → Text → List Text → Text
least uses best [] = best
least uses best (p ∷ ps) =
    least uses (if ltb (get_or p 0 uses) (get_or best 0 uses) then p else best) ps

unfoldable pub item : Text → List Text → ℕ → Text
item p [] i = p
item p (q ∷ qs) zero = p
item p (q ∷ qs) (suc i) = item q qs i

-- `pool[i]`, for an index below the length of `p ∷ ps`.
unfoldable pub index : Text → List Text → ℕ → Text
unfolding item
index p ps i = item p ps i

-- The choice from a pool of `p` and `ps`.
unfoldable pub pick :
    (Text → List Text → Text) → ProxyStrategy → ℕ → Dict ℕ → Text → List Text → Text
unfolding least index
pick choice random idx uses p ps = choice p ps
pick choice least_used idx uses p ps = least uses p ps
pick choice round_robin idx uses p ps = index p ps (idx % suc (length ps))

count_use : Text → ProxyPool → ProxyPool
count_use p pool = record pool { uses = insert p (get_or p 0 pool.uses + 1) pool.uses }

-- The part of `current` under the lock, for a pool to choose from.
unfoldable pub choose : (Text → List Text → Text) → List Text → ProxyPool → ProxyPool × Option Text
unfolding pick count_use
choose choice [] pool = (pool, none)
choose choice (p ∷ ps) pool =
    let chosen = pick choice pool.strategy pool.idx pool.uses p ps in
    (count_use chosen pool, some chosen)

-- `current`: all proxies parked is as good as none parked.
unfoldable pub current : (Text → List Text → Text) → ℕ → ProxyPool → ProxyPool × Option Text
unfolding choose alive
current choice now pool = choose choice (or_else (alive now pool) pool.proxies) pool

-- `rotate`: the clock is read when `bad` is parked, and again by `current`.
unfoldable pub park : Option Text → ℕ → ProxyPool → ProxyPool
park none now pool = pool
park (some []) now pool = pool
park (some (c ∷ bad)) now pool = record pool {
  dead_until = insert (c ∷ bad) (now + cooldown) pool.dead_until;
}

abbrev pub advance : ProxyPool → ProxyPool
advance pool = record pool { idx = (pool.idx + 1) % length pool.proxies }

unfoldable pub rotate :
    (Text → List Text → Text) → Option Text → ℕ → ℕ → ProxyPool → ProxyPool × Option Text
unfolding park current
rotate choice bad parked now pool = elim (pool.proxies) [
  | [] ↦ (pool, none)
  | _ ∷ _ ↦ current choice now (advance (park bad parked pool))
]

-- `as_proxies`: the pair of the two entries. An empty text counts as no proxy.
unfoldable pub as_proxies :
    (Text → List Text → Text) → Option Text → ℕ → ProxyPool → ProxyPool × Option (Text × Text)
unfolding current
as_proxies choice (some (c ∷ p)) now pool = (pool, some (c ∷ p, c ∷ p))
as_proxies choice other now pool =
    let (pool', p) = current choice now pool in
    (
      pool',
      elim p [
        | none ↦ none
        | some q ↦ elim q as (λ _. Option (Text × Text)) [ [] ↦ none | c ∷ r ↦ some (c ∷ r, c ∷ r) ]
      ],
    )

at_sign : ℕ
at_sign = b'@'

-- `split("@")[-1]`: what stands behind the last at sign.
unfoldable pub after_last_at : Text → Text → Text
unfolding at_sign
after_last_at kept [] = kept
after_last_at kept (c ∷ s) = after_last_at (if c == at_sign then [] else kept ++ (c ∷ [])) s

unfoldable pub mask_proxy : Option Text → Option Text
unfolding after_last_at
mask_proxy none = none
mask_proxy (some []) = none
mask_proxy (some (c ∷ s)) = some (after_last_at [] (c ∷ s))
