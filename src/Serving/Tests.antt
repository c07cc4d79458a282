-- ===== src/Serving/Tests.antt =====
-- A cache of two keys under a budget that holds one of them (`_TTLCache`,
-- src/api/endpoints/superbrain.py).
use bharat_ticker.Common.{ℕ, ◌≤◌, ◌≡◌, refl, [], ◌∷◌, length, ◌⊎◌}
use bharat_ticker.Common.Text.{text_eq}
use bharat_ticker.Common.Dict.{lookup, insert, has_key, erase}
use bharat_ticker.Serving.TtlCache.{Cached, TtlCache, put}
use bharat_ticker.Serving.TtlCache.Budget.{IsAccounted, put-IsAccounted}

abbrev cache : TtlCache ℕ
cache = record {
  ttl = 10;
  budget = 600;
  store = ((b'a' ∷ [], record { stored_at = 3; value = Cached.object 7; size = 512 }) ∷ []);
  bytes = 512;
}

cache-IsAccounted : IsAccounted cache
unfolding lookup
cache-IsAccounted = record { distinct = (refl, tt); balance = refl }

older_goes : put 5 (b'b' ∷ []) (Cached.object 8) cache ≡ record {
  ttl = 10;
  budget = 600;
  store = ((b'b' ∷ [], record { stored_at = 5; value = Cached.object 8; size = 512 }) ∷ []);
  bytes = 512;
}
unfolding put insert has_key text_eq erase
older_goes = refl

put-IsAccounted_example :
    let c' = put 5 (b'b' ∷ []) (Cached.object 8) cache in
    IsAccounted c' × ((c'.bytes ≤ c'.budget) ⊎ (length c'.store ≤ 1))
put-IsAccounted_example = put-IsAccounted 5 (b'b' ∷ []) (Cached.object 8) cache cache-IsAccounted
