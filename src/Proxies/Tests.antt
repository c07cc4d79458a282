-- ===== src/Proxies/Tests.antt =====
-- A pool of three proxies (src/providers/proxy_pool.py), and the theorems about it at that pool.
use bharat_ticker.Common.{ℕ, ◌≡◌, ◌≢◌, ap, refl, some, List, [], ◌∷◌, inl, inr, arith}
use bharat_ticker.Common.Text.{Text, codes, text_eq}
use bharat_ticker.Common.Dict.{insert, get_or}
use bharat_ticker.Proxies.Defs.{ProxyPool, round_robin, init, is_alive, current, rotate, mask_proxy}
use bharat_ticker.Proxies.Choice.{Member, IsChoice, Live}
use bharat_ticker.Proxies.Rotation.{rotate-other}

abbrev a : Text
a = codes "a:1"

abbrev b : Text
b = codes "b:2"

abbrev c : Text
c = codes "c:3"

abbrev three : ProxyPool
three = record {
  proxies = a ∷ b ∷ c ∷ [];
  strategy = round_robin;
  idx = 0;
  uses = (a, 0) ∷ (b, 0) ∷ (c, 0) ∷ [];
  dead_until = [];
}

init-three : init (a ∷ b ∷ c ∷ []) round_robin ≡ three
unfolding init insert text_eq
init-three = refl

abbrev first : Text → List Text → Text
first p ps = p

first-IsChoice : IsChoice first
first-IsChoice p ps = inl refl

mask_proxy_test : mask_proxy (some (codes "http://user:pw@host:80")) ≡ some (codes "host:80")
unfolding mask_proxy
mask_proxy_test = refl

-- The first proxy is on cooldown until 120: round robin starts from the second.
abbrev parked : ProxyPool
parked = record three { dead_until = (a, 120) ∷ [] }

current_test : (current first 100 parked).1 ≡ some b
unfolding current get_or text_eq
current_test = refl

-- The cooldown ends at its instant.
current_end : (current first 120 parked).1 ≡ some a
unfolding current get_or text_eq
current_end = refl

rotate_test : (rotate first (some b) 100 100 three).1 ≡ some c
unfolding rotate get_or insert text_eq
rotate_test = refl

abbrev head_or_zero : Text → ℕ
head_or_zero [] = 0
head_or_zero (x ∷ s) = x

c-not-b : c ≢ b
c-not-b e = omega (arith, ap head_or_zero e)

c-Live : Live 100 [] (a ∷ b ∷ c ∷ []) c
unfolding is_alive get_or
c-Live = (inr (inr (inl refl)), refl)

rotate-other_example : Member c (a ∷ b ∷ c ∷ []) × (c ≢ b)
rotate-other_example =
    rotate-other first b'b' (codes ":2") c c 100 100 three first-IsChoice (omega arith) c-not-b
      c-Live rotate_test
