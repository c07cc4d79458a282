-- ===== src/Serving/TtlCache/Kept.antt =====
-- What `_TTLCache` (src/api/endpoints/superbrain.py) keeps while others use it: an entry leaves the store
-- before its time only for the bytes that came after it.
use bharat_ticker.Common.{
  ℕ, suc, ◌+◌, ◌-◌, ◌≤◌, ◌<◌, ltb, lt→ltb, ◌≡◌, refl, true, false, none, some, length, arith,
  Bool-cases, Option-cases, inl, inr, ap, ◌∙◌, sym,
}
use mathlib.Core.Path.{subst}
use bharat_ticker.Common.Text.{Text, text_eq, text_eq→eq}
use bharat_ticker.Common.Dict.{lookup, insert, erase, has_key, lookup-erase_ne}
use bharat_ticker.Common.Keys.{insert-absent}
use bharat_ticker.Serving.TtlCache.{
  Cached, Entry, TtlCache, sizeof, evict, get, next_victim, shrink, put,
}
use bharat_ticker.Serving.TtlCache.Budget.{
  IsAccounted, evict-some, evict-IsAccounted, shrink-keeps, cleared, cleared-absent,
  insert-IsAccounted,
}
use bharat_ticker.Serving.TtlCache.Reads.{IsBefore, erase-IsBefore, lookup-last}
use bharat_ticker.Serving.TtlCache.Ages.{
  IsChronological, since, next_victim-first, erase-IsChronological, since-erase,
  append-IsChronological, append-IsBefore, IsBefore-trans, since-last, since-absent, lookup-last_ne,
}

module _ {A : Type 0} where
  -- The entry of a key stands in the store at the time `now`, and no more than `n` bytes are of it and of
  -- what came after it.
  pub record IsKept (key : Text) (e : Entry A) (ttl budget now n : ℕ) (c : TtlCache A)
      : Type 0 where
    pub found : lookup key c.store ≡ some e
    pub chronological : IsChronological c.store
    pub before : IsBefore now c.store
    pub accounted : IsAccounted c
    pub recent : since key c.store ≤ n
    pub same_ttl : c.ttl ≡ ttl
    pub same_budget : c.budget ≡ budget

  module _ (key : Text) (e : Entry A) (ttl budget : ℕ) where
    pub evict-IsKept :
        (now n : ℕ) (k : Text) (c : TtlCache A)
        → text_eq key k ≡ false
        → IsKept key e ttl budget now n c
        → IsKept key e ttl budget now n (evict k c)
    unfolding evict
    evict-IsKept now n k c other v = elim (Option-cases (lookup k c.store)) [
      | inl h ↦ rw (h, evict) v
      | inr (x, h) ↦
          let accounted : IsAccounted
              (record c { store = erase k c.store; bytes = c.bytes - x.size }) =
            subst IsAccounted (evict-some k c x h) (evict-IsAccounted k c v.accounted) in
          rw (evict-some k c x h) (record {
            found = lookup-erase_ne key k c.store other ∙ v.found;
            chronological = erase-IsChronological k c.store v.chronological;
            before = erase-IsBefore now k c.store v.before;
            accounted = accounted;
            recent = omega (arith, since-erase key k c.store other, v.recent);
            same_ttl = v.same_ttl;
            same_budget = v.same_budget;
          })
    ]

    -- Within the budget the loop does not come to the entry.
    victim-other :
        (now n : ℕ) (k : Text) (c : TtlCache A)
        → n ≤ budget
        → IsKept key e ttl budget now n c
        → next_victim (ltb c.budget c.bytes) c.store ≡ some k
        → text_eq key k ≡ false
    victim-other now n k c fits v h = elim (Bool-cases (text_eq key k)) [
      | inr t ↦ t
      | inl t ↦
          let (over, all) = next_victim-first (ltb c.budget c.bytes) c.store k v.chronological h in
          let recent : since k c.store ≤ n =
            subst (λ i. since i c.store ≤ n) (text_eq→eq key k t) v.recent in
          absurd (ground (arith, over, all, recent, v.accounted.balance, v.same_budget, fits))
    ]

    shrink-IsKept :
        (now n fuel : ℕ) (c : TtlCache A)
        → n ≤ budget
        → IsKept key e ttl budget now n c
        → IsKept key e ttl budget now n (shrink fuel c)
    shrink-IsKept now n fuel c fits v =
        shrink-keeps (IsKept key e ttl budget now n)
          (λ k d h w. evict-IsKept now n k d (victim-other now n k d fits w h) w) fuel c v

    cleared-IsKept :
        (now n : ℕ) (k : Text) (c : TtlCache A)
        → text_eq key k ≡ false
        → IsKept key e ttl budget now n c
        → IsKept key e ttl budget now n (cleared k c)
    cleared-IsKept now n k c other v = elim (Bool-cases (has_key k c.store)) [
      | inl h ↦ rw h (evict-IsKept now n k c other v)
      | inr h ↦ rw h v
    ]

    -- The put of another key adds its bytes to those that came after the entry.
    pub put-IsKept :
        (now later n : ℕ) (k : Text) (value : Cached A) (c : TtlCache A)
        → now ≤ later
        → text_eq key k ≡ false
        → n + sizeof value ≤ budget
        → IsKept key e ttl budget now n c
        → IsKept key e ttl budget later (n + sizeof value) (put later k value c)
    unfolding put
    put-IsKept now later n k value c after other fits v =
        let x : Entry A = record { stored_at = later; value = value; size = sizeof value } in
        let c' = cleared k c in
        let v' = cleared-IsKept now n k c other v in
        let absent = cleared-absent k c in
        let past = IsBefore-trans now later c'.store after v'.before in
        let at_end = insert-absent k x c'.store absent in
        let start : TtlCache A = record c' {
          store = insert k x c'.store;
          bytes = c'.bytes + sizeof value;
        } in
        shrink-IsKept later (n + sizeof value) (suc (suc (length c'.store))) start fits (record {
          found = ap (lookup key) at_end ∙ lookup-last_ne key k e x c'.store v'.found;
          chronological =
              subst IsChronological (sym at_end)
                (append-IsChronological k x c'.store past v'.chronological);
          before =
              subst (IsBefore later) (sym at_end)
                (append-IsBefore later k x c'.store (omega arith) past);
          accounted = insert-IsAccounted k x c' absent v'.accounted;
          recent =
              subst (λ d. since key d ≤ n + sizeof value) (sym at_end)
                (omega (arith, since-last key k x c'.store, v'.recent));
          same_ttl = v'.same_ttl;
          same_budget = v'.same_budget;
        })

    pub get-IsKept :
        (now n later : ℕ) (k : Text) (c : TtlCache A)
        → text_eq key k ≡ false
        → IsKept key e ttl budget now n c
        → IsKept key e ttl budget now n (get later k c).0
    unfolding get
    get-IsKept now n later k c other v = elim (Option-cases (lookup k c.store)) [
      | inl h ↦ rw (get, h) v
      | inr (x, h) ↦ elim (Bool-cases (ltb later (x.stored_at + c.ttl))) [
        | inl t ↦ rw (get, h, t) v
        | inr t ↦ rw (get, h, t) (evict-IsKept now n k c other v)
      ]
    ]

    -- While the entry is kept, its value is read until its time to live is over.
    pub get-kept :
        (now n later : ℕ) (c : TtlCache A)
        → later < e.stored_at + ttl
        → IsKept key e ttl budget now n c
        → get later key c ≡ (c, some e.value)
    unfolding get
    get-kept now n later c soon v =
        let young : ltb later (e.stored_at + c.ttl) ≡ true =
          rw v.same_ttl (lt→ltb later (e.stored_at + ttl) soon) in
        rw (get, v.found, young) refl

    pub later-IsKept :
        (now later n m : ℕ) (c : TtlCache A)
        → now ≤ later
        → IsKept key e ttl budget now n c
        → IsKept key e ttl budget later (n + m) c
    later-IsKept now later n m c after v = record {
      found = v.found;
      chronological = v.chronological;
      before = IsBefore-trans now later c.store after v.before;
      accounted = v.accounted;
      recent = omega (arith, v.recent);
      same_ttl = v.same_ttl;
      same_budget = v.same_budget;
    }

  -- What has been put is kept at first.
  pub put-new :
      (now : ℕ) (key : Text) (value : Cached A) (c : TtlCache A)
      → lookup key c.store ≡ none
      → IsChronological c.store
      → IsBefore now c.store
      → IsAccounted c
      → sizeof value ≤ c.budget
      → IsKept key
          (record { stored_at = now; value = value; size = sizeof value })
          c.ttl
          c.budget
          now
          (sizeof value)
          (put now key value c)
  unfolding put has_key
  put-new now key value c absent order before v fits =
      let x : Entry A = record { stored_at = now; value = value; size = sizeof value } in
      let at_end = insert-absent key x c.store absent in
      let start : TtlCache A = record c {
        store = insert key x c.store;
        bytes = c.bytes + sizeof value;
      } in
      let kept : IsKept key x c.ttl c.budget now (sizeof value) start = record {
        found = ap (lookup key) at_end ∙ lookup-last key x c.store absent;
        chronological =
            subst IsChronological (sym at_end) (append-IsChronological key x c.store before order);
        before =
            subst (IsBefore now) (sym at_end)
              (append-IsBefore now key x c.store (omega arith) before);
        accounted = insert-IsAccounted key x c absent v;
        recent =
            subst (λ d. since key d ≤ sizeof value) (sym at_end)
              (omega (arith, since-last key key x c.store, since-absent key c.store absent));
        same_ttl = refl;
        same_budget = refl;
      } in
      rw (has_key, absent)
        (shrink-IsKept key x c.ttl c.budget now (sizeof value) (suc (suc (length c.store))) start
          fits kept)
