-- ===== src/Failover/Coverage.antt =====
-- What `fetch_bulk` of src/engine/failover.py promises: no symbol is dropped. And what it
-- does not look at: the enable flags.
use bharat_ticker.Common.{
  ℕ, suc, ◌≡◌, ◌≢◌, refl, Bool, true, false, Option, none, some, List, [], ◌∷◌, ◌++◌, All, Any,
  arith, inl, inr, ◌⊎◌, Bool-cases, Option-cases,
}
use bharat_ticker.Common.Text.{Text, text_eq}
use bharat_ticker.Common.Dict.{Dict, lookup, insert, get_or}
use bharat_ticker.Breaker.{
  Breaker, closed, Reply, value, circuit_open_error, reraised, returned, can_execute, execute,
}
use bharat_ticker.Failover.Provider.{Provider, Attempt}
use bharat_ticker.Failover.Cascade.{
  Controller, Result, quote, all_failed, key_error, fetch_quote, skips,
}
use bharat_ticker.Failover.Eligible.{Serves, fetch_quote-Serves}
use bharat_ticker.Failover.Bulk.{
  BulkAttempt, Bulk, fetched, plain, missing_from, remaining, gain, lose, unless_raised, fetch_each,
  ask, use_reply, bulk_loop, fetch_bulk,
}

module _ {T : Type 0} (symbol_of : T → Text) where
  -- A symbol that is answered by a tick, or listed as failed.
  abbrev pub Covered : List T → List Text → Text → Type 0
  Covered ts failed s = (missing_from symbol_of ts s ≡ false) ⊎ Any (λ f. f ≡ s) failed

  missing_from-append :
      (ts : List T) (t : T) (s : Text)
      → missing_from symbol_of ts s ≡ false
      → missing_from symbol_of (ts ++ (t ∷ [])) s ≡ false
  unfolding missing_from
  missing_from-append [] t s h = cc
  missing_from-append (x ∷ ts) t s h = ground (arith, missing_from-append ts t s)

  missing_from-last :
      (ts : List T) (t : T) (s : Text)
      → text_eq s (symbol_of t) ≡ true
      → missing_from symbol_of (ts ++ (t ∷ [])) s ≡ false
  unfolding missing_from
  missing_from-last [] t s h = ground arith
  missing_from-last (x ∷ ts) t s h = ground (arith, missing_from-last ts t s h)

Any-append : (P : Text → Type 0) (xs : List Text) (y : Text) → Any P xs → Any P (xs ++ (y ∷ []))
Any-append P [] y h = elim h [ ]
Any-append P (x ∷ xs) y (inl h) = inl h
Any-append P (x ∷ xs) y (inr h) = inr (Any-append P xs y h)

Any-last : (P : Text → Type 0) (xs : List Text) (y : Text) → P y → Any P (xs ++ (y ∷ []))
Any-last P [] y h = inl h
Any-last P (x ∷ xs) y h = inr (Any-last P xs y h)

module _ {T : Type 0} (symbol_of : T → Text) (quotes : ℕ → Text → Provider → Attempt T)
    (right_symbol : (i : ℕ) (s : Text) (p : Provider) (t : T)
      → (quotes i s p).outcome ≡ returned t
      → text_eq s (symbol_of t) ≡ true) where
  Any-Serves :
      (i : ℕ) (s : Text) (enabled : Dict Bool) (t : T) (ps : List Provider)
      → Any (Serves plain (quotes i s) enabled t) ps
      → text_eq s (symbol_of t) ≡ true
  Any-Serves i s enabled t [] h = elim h [ ]
  Any-Serves i s enabled t (p ∷ ps) (inl h) = right_symbol i s p t h.1
  Any-Serves i s enabled t (p ∷ ps) (inr h) = Any-Serves i s enabled t ps h

  quote-symbol :
      (i : ℕ) (s : Text) (c : Controller) (t : T)
      → (fetch_quote plain (quotes i s) c).1 ≡ quote t
      → text_eq s (symbol_of t) ≡ true
  quote-symbol i s c t e =
      Any-Serves i s c.enabled t c.providers (fetch_quote-Serves plain (quotes i s) c t e)

  -- After a symbol's own fetch, what was covered is covered, and so is the symbol.
  step-Covered :
      (r : Result T) (s x : Text) (results : List T) (failed : List Text)
      → Covered symbol_of results failed x
      → Covered symbol_of (gain r results) (lose r s failed) x
  step-Covered (quote t) s x results failed (inl h) =
      inl (missing_from-append symbol_of results t x h)
  step-Covered (quote t) s x results failed (inr h) = inr h
  step-Covered (all_failed errors) s x results failed (inl h) = inl h
  step-Covered (all_failed errors) s x results failed (inr h) =
      inr (Any-append (λ f. f ≡ x) failed s h)
  step-Covered key_error s x results failed h = h
  step-Covered Result.task_cancelled s x results failed h = h

  fetched-Covered :
      (results ts : List T) (failed lost : List Text) (x : Text)
      → fetched results failed ≡ fetched ts lost
      → Covered symbol_of results failed x
      → Covered symbol_of ts lost x
  fetched-Covered results ts failed lost x e h =
      let a : results ≡ ts = cc in let b : failed ≡ lost = cc in rw (← a, ← b) h

  unless_raised-fetched :
      (r : Result T) (c : Controller) (rest : Controller × Bulk T) (ts : List T) (lost : List Text)
      → (unless_raised r c rest).1 ≡ fetched ts lost
      → rest.1 ≡ fetched ts lost
  unless_raised-fetched (quote t) c rest ts lost e = e
  unless_raised-fetched (all_failed errors) c rest ts lost e = e
  unless_raised-fetched key_error c rest ts lost e = absurd (cc)
  unless_raised-fetched Result.task_cancelled c rest ts lost e = absurd (cc)

  fetch_each-keeps :
      (i : ℕ) (ss : List Text) (results : List T) (failed : List Text) (c : Controller)
      (ts : List T) (lost : List Text) (x : Text)
      → (fetch_each quotes i ss results failed c).1 ≡ fetched ts lost
      → Covered symbol_of results failed x
      → Covered symbol_of ts lost x
  unfolding fetch_each
  fetch_each-keeps i [] results failed c ts lost x e h =
      fetched-Covered results ts failed lost x e h
  fetch_each-keeps i (s ∷ ss) results failed c ts lost x e h =
      let (c', r) = fetch_quote plain (quotes i s) c in
      fetch_each-keeps (suc i) ss (gain r results) (lose r s failed) c' ts lost x
        (unless_raised-fetched r c'
          (fetch_each quotes (suc i) ss (gain r results) (lose r s failed) c') ts lost e)
        (step-Covered r s x results failed h)

  Covered-now :
      (r : Result T) (s : Text) (results : List T) (failed : List Text) (c : Controller)
      (rest : Controller × Bulk T) (ts : List T) (lost : List Text)
      → ((t : T) → r ≡ quote t → text_eq s (symbol_of t) ≡ true)
      → (unless_raised r c rest).1 ≡ fetched ts lost
      → Covered symbol_of (gain r results) (lose r s failed) s
  Covered-now (quote t) s results failed c rest ts lost right e =
      inl (missing_from-last symbol_of results t s (right t refl))
  Covered-now (all_failed errors) s results failed c rest ts lost right e =
      inr (Any-last (λ f. f ≡ s) failed s refl)
  Covered-now key_error s results failed c rest ts lost right e = absurd (cc)
  Covered-now Result.task_cancelled s results failed c rest ts lost right e = absurd (cc)

  fetch_each-Covered :
      (i : ℕ) (ss : List Text) (results : List T) (failed : List Text) (c : Controller)
      (ts : List T) (lost : List Text)
      → (fetch_each quotes i ss results failed c).1 ≡ fetched ts lost
      → All (Covered symbol_of ts lost) ss
  unfolding fetch_each
  fetch_each-Covered i [] results failed c ts lost e = tt
  fetch_each-Covered i (s ∷ ss) results failed c ts lost e =
      let (c', r) = fetch_quote plain (quotes i s) c in
      let rest = fetch_each quotes (suc i) ss (gain r results) (lose r s failed) c' in
      let e' = unless_raised-fetched r c' rest ts lost e in
      (
        fetch_each-keeps (suc i) ss (gain r results) (lose r s failed) c' ts lost s e'
            (Covered-now r s results failed c' rest ts lost (quote-symbol i s c) e),
        fetch_each-Covered (suc i) ss (gain r results) (lose r s failed) c' ts lost e',
      )

  -- A symbol that is not fetched on its own is one that the bulk reply has.
  remaining-Covered :
      (first ts : List T) (lost : List Text) (ss : List Text)
      → ((x : Text) → Covered symbol_of first [] x → Covered symbol_of ts lost x)
      → All (Covered symbol_of ts lost) (remaining symbol_of first ss)
      → All (Covered symbol_of ts lost) ss
  unfolding remaining
  remaining-Covered first ts lost [] keeps h = tt
  remaining-Covered first ts lost (s ∷ ss) keeps h =
      elim (Bool-cases (missing_from symbol_of first s)) [
        | inl m ↦
            let h' : All (Covered symbol_of ts lost) (s ∷ remaining symbol_of first ss) =
              rw m at h in
            (h'.0, remaining-Covered first ts lost ss keeps h'.1)
        | inr m ↦
            let h' : All (Covered symbol_of ts lost) (remaining symbol_of first ss) = rw m at h in
            (keeps s (inl m), remaining-Covered first ts lost ss keeps h')
      ]

  module _ (bulks : Provider → BulkAttempt T) (symbols : List Text) where
    use_reply-Covered :
        (reply : Option (Reply (List T))) (c : Controller) (next : Controller × Bulk T)
        (ts : List T) (lost : List Text)
        → (next.1 ≡ fetched ts lost → All (Covered symbol_of ts lost) symbols)
        → (use_reply symbol_of quotes bulks symbols reply c next).1 ≡ fetched ts lost
        → All (Covered symbol_of ts lost) symbols
    unfolding use_reply
    use_reply-Covered none c next ts lost ih e = ih e
    use_reply-Covered (some (value [])) c next ts lost ih e = ih e
    use_reply-Covered (some (value (t ∷ first))) c next ts lost ih e =
        let ss = remaining symbol_of (t ∷ first) symbols in
        remaining-Covered (t ∷ first) ts lost symbols
          (λ x. fetch_each-keeps 0 ss (t ∷ first) [] c ts lost x e)
          (fetch_each-Covered 0 ss (t ∷ first) [] c ts lost e)
    use_reply-Covered (some circuit_open_error) c next ts lost ih e = ih e
    use_reply-Covered (some (reraised k)) c next ts lost ih e = ih e
    use_reply-Covered (some Reply.task_cancelled) c next ts lost ih e = absurd (cc)

    bulk_loop-keyless :
        (enabled : Dict Bool) (done : List Provider) (p : Provider) (ps : List Provider)
        (breakers : Dict Breaker) (ts : List T) (lost : List Text)
        → lookup p.name breakers ≡ none
        → (bulk_loop symbol_of quotes bulks symbols enabled done (p ∷ ps) breakers).1
          ≢ fetched ts lost
    unfolding bulk_loop
    bulk_loop-keyless enabled done p ps breakers ts lost k = rw (k, bulk_loop) (λ e. cc)

    bulk_loop-Covered :
        (enabled : Dict Bool) (done ps : List Provider) (breakers : Dict Breaker) (ts : List T)
        (lost : List Text)
        → (bulk_loop symbol_of quotes bulks symbols enabled done ps breakers).1 ≡ fetched ts lost
        → All (Covered symbol_of ts lost) symbols
    unfolding bulk_loop
    bulk_loop-Covered enabled done [] breakers ts lost e =
        fetch_each-Covered 0 symbols [] [] _ ts lost e
    bulk_loop-Covered enabled done (p ∷ ps) breakers ts lost e =
        elim (Option-cases (lookup p.name breakers)) [
          | inl k ↦ absurd (bulk_loop-keyless enabled done p ps breakers ts lost k e)
          | inr (cb, k) ↦
              let (p', cb', reply) = ask (bulks p) p cb in
              let bs = insert p.name cb' breakers in
              use_reply-Covered reply
                (record { providers = done ++ (p' ∷ ps); circuit_breakers = bs; enabled = enabled })
                (bulk_loop symbol_of quotes bulks symbols enabled (done ++ (p' ∷ [])) ps bs) ts lost
                (bulk_loop-Covered enabled (done ++ (p' ∷ [])) ps bs ts lost)
                (rw (k, bulk_loop) at e)
        ]

    -- When `fetch_bulk` comes back, every requested symbol has a tick of its own in the result, or
    -- its single fetch has failed and it is on the list `failed` that the function keeps. It
    -- is assumed that a provider's `fetch_quote` returns a tick of the symbol that it is asked for.
    pub fetch_bulk-Covered :
        (c : Controller) (ts : List T) (lost : List Text)
        → (fetch_bulk symbol_of quotes bulks symbols c).1 ≡ fetched ts lost
        → All (Covered symbol_of ts lost) symbols
    unfolding fetch_bulk
    fetch_bulk-Covered c ts lost e =
        bulk_loop-Covered c.enabled [] c.providers c.circuit_breakers ts lost e

ask-closed :
    {T : Type 0} (a : BulkAttempt T) (p : Provider) (cb : Breaker) (ts : List T)
    → cb.state ≡ closed
    → p.is_connected ≡ true
    → a.outcome ≡ returned ts
    → (ask a p cb).2 ≡ some (value ts)
unfolding ask execute can_execute
ask-closed a p cb ts c up h = ground arith

-- The enable flags are not consulted: a first provider that is switched off, so that every plain
-- single fetch skips it, still answers a bulk fetch alone, if it is connected, its circuit is closed
-- and its reply has all the symbols.
pub fetch_bulk-disabled :
    {T : Type 0} (symbol_of : T → Text) (quotes : ℕ → Text → Provider → Attempt T)
    (bulks : Provider → BulkAttempt T) (symbols : List Text) (c : Controller) (p : Provider)
    (ps : List Provider) (cb : Breaker) (t : T) (ts : List T)
    → c.providers ≡ p ∷ ps
    → lookup p.name c.circuit_breakers ≡ some cb
    → cb.state ≡ closed
    → p.is_connected ≡ true
    → get_or p.name true c.enabled ≡ false
    → (bulks p).outcome ≡ returned (t ∷ ts)
    → remaining symbol_of (t ∷ ts) symbols ≡ []
    → ((fetch_bulk symbol_of quotes bulks symbols c).1 ≡ fetched (t ∷ ts) [])
      × (skips plain c.enabled p ≡ true)
unfolding fetch_bulk bulk_loop use_reply fetch_each skips
fetch_bulk-disabled symbol_of quotes bulks symbols c p ps cb t ts order known c_closed up off reply
      all =
    (
      rw
          (
            order,
            bulk_loop,
            known,
            ask-closed (bulks p) p cb (t ∷ ts) c_closed up reply,
            use_reply,
            all,
          )
          refl,
      ground arith,
    )
