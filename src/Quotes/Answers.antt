-- ===== src/Quotes/Answers.antt =====
-- What the bulk endpoint answers (src/api/endpoints/superbrain.py).
use bharat_ticker.Common.{
  ℕ, zero, suc, ◌+◌, ◌≤◌, ◌≡◌, refl, ◌∙◌, ap, Bool, true, false, ◌||◌, Option, none, some, List, [],
  ◌∷◌, All, map, length, if◌then◌else◌, arith, Bool-cases, Option-cases, inl, inr,
}
use bharat_ticker.Common.Text.{Text, text_eq}
use bharat_ticker.Common.Dict.{Dict, lookup, insert, has_key, get_or}
use bharat_ticker.Common.Keys.{total}
use bharat_ticker.Quotes.Shape.{SbQuote}
use bharat_ticker.Quotes.Batch.{World, Desk, missing}
use bharat_ticker.Quotes.Cores.{
  core, cores, core_of, core_of-lookup, found_quotes, lost_symbols, answered-core, missing-core,
  cores-fill_open, cores-enrich_all,
}
use bharat_ticker.Quotes.Gathered.{sought, All-map, lookup-gather_quotes}
use bharat_ticker.Quotes.Bulk.{
  answered, count_sources, first_n, fill_open, enrich_all, requested, BulkReply, gather_quotes,
  bulk_reply, reply_to, sb_quotes,
}

length-answered :
    (syms : List Text) (by : Dict SbQuote)
    → length (answered syms by) + length (missing syms by) ≡ length syms
unfolding answered missing has_key
length-answered [] by = refl
length-answered (s ∷ syms) by = elim (Option-cases (lookup s by)) [
  | inl e ↦ rw (answered, missing, has_key, e) (omega (arith, length-answered syms by))
  | inr (q, e) ↦ rw (answered, missing, has_key, e) (omega (arith, length-answered syms by))
]

abbrev pub same : ℕ → ℕ
same n = n

count-other :
    (k j : Text) (n : ℕ) (sources : Dict ℕ)
    → text_eq k j ≡ false
    → insert k (get_or k 0 ((j, n) ∷ sources) + 1) ((j, n) ∷ sources)
      ≡ (j, n) ∷ insert k (get_or k 0 sources + 1) sources
unfolding insert get_or lookup
count-other k j n sources e = ground (arith, e)

total-count :
    (k : Text) (sources : Dict ℕ)
    → total same (insert k (get_or k 0 sources + 1) sources) ≡ suc (total same sources)
unfolding insert get_or lookup
total-count k [] = omega arith
total-count k ((j, n) ∷ sources) = elim (Bool-cases (text_eq k j)) [
  | inl e ↦ rw (get_or, lookup, insert, e) (omega arith)
  | inr e ↦ rw (count-other k j n sources e) (omega (arith, total-count k sources))
]

total-sources :
    (out : List SbQuote) (sources : Dict ℕ)
    → total same (count_sources out sources) ≡ total same sources + length out
unfolding count_sources
total-sources [] sources = omega arith
total-sources (q ∷ out) sources = omega (
  arith,
  total-sources out (insert q.source (get_or q.source 0 sources + 1) sources),
  total-count q.source sources,
)

length-first_n : {A : Type 0} (n : ℕ) (xs : List A) → length (first_n n xs) ≤ n
length-first_n zero xs = omega arith
length-first_n (suc n) [] = omega arith
length-first_n (suc n) (x ∷ xs) = omega (arith, length-first_n n xs)

-- A reply to symbols whose quotes are sought by `found`: those that are found are answered in the order
-- of the symbols, with what was found but for the fields that are filled in later, the others have
-- failed, and the counts by source add up to the number of answers.
abbrev pub Accounts : (Text → Option SbQuote) → List Text → BulkReply → Type 0
Accounts found syms reply =
    (reply.failed ≡ lost_symbols found syms)
    × (map core reply.quotes ≡ map core (found_quotes found syms))
    × (reply.count ≡ length reply.quotes)
    × (reply.count + length reply.failed ≡ length syms)
    × (total same reply.sources ≡ reply.count)

bulk_reply-Accounts :
    (found : Text → Option SbQuote) (is_open : Bool) (syms : List Text) (fields : Text)
    (by : Dict SbQuote)
    → All (λ s. core_of (lookup s by) ≡ core_of (found s)) syms
    → Accounts found syms (bulk_reply is_open syms fields by)
unfolding bulk_reply
bulk_reply-Accounts found is_open syms fields by h = (
  missing-core found syms by h,
  answered-core found syms by h,
  refl,
  length-answered syms by,
  omega (arith, total-sources (answered syms by) []),
)

cores-backfill :
    (skip : Bool) (w : World) (exchange : Text) (by : Dict SbQuote) (d : Desk)
    → cores (if skip then (d, by) else fill_open w exchange by d).1 ≡ cores by
cores-backfill true w exchange by d = refl
cores-backfill false w exchange by d = cores-fill_open w exchange by d

cores-names :
    (enrich : Bool) (w : World) (exchange : Text) (by : Dict SbQuote) (d : Desk)
    → cores (if enrich then enrich_all w exchange by d by else (d, by)).1 ≡ cores by
cores-names true w exchange by d = cores-enrich_all w exchange by d by
cores-names false w exchange by d = refl

reply_to-Accounts :
    (w : World) (syms : List Text) (exchange : Text) (enrich rich fast : Bool) (fields : Text)
    (d : Desk)
    → Accounts
        (sought w syms exchange enrich rich fast d)
        syms
        (reply_to w syms exchange enrich rich fast fields d).1
unfolding reply_to
reply_to-Accounts w syms exchange enrich rich fast fields d =
    let x = gather_quotes w syms exchange enrich rich fast d in
    let y : Desk × Dict SbQuote = if rich || fast then x else fill_open w exchange x.1 x.0 in
    let z : Desk × Dict SbQuote = if enrich then enrich_all w exchange y.1 y.0 y.1 else y in
    let kept : cores z.1 ≡ cores x.1 =
      cores-names enrich w exchange y.1 y.0 ∙ cores-backfill (rich || fast) w exchange x.1 x.0 in
    bulk_reply-Accounts (sought w syms exchange enrich rich fast d) w.is_open syms fields z.1 (
      All-map syms (λ s h. core_of-lookup s z.1 x.1 kept ∙ ap core_of h)
        (lookup-gather_quotes w syms exchange enrich rich fast d))

requested-le : (symbols : Text) → length (requested symbols) ≤ 200
unfolding requested
requested-le symbols = length-first_n 200 _

-- The reply to a list of symbols; none is the error 400.
abbrev pub Answers :
    World → Text → Bool → Bool → Bool → Desk → List Text → Option BulkReply → Type 0
Answers w exchange enrich rich fast d [] none = Unit
Answers w exchange enrich rich fast d [] (some reply) = ⊥
Answers w exchange enrich rich fast d (s ∷ syms) none = ⊥
Answers w exchange enrich rich fast d (s ∷ syms) (some reply) =
    Accounts (sought w (s ∷ syms) exchange enrich rich fast d) (s ∷ syms) reply

-- A request that names a symbol, 200 at most, gets a reply. It answers the symbols that the batch or,
-- unless the request asks for names or for more than prices, the warm cache has a quote of, the batch
-- being asked for those without a warm one only; it answers them in the order of the request, each with
-- that quote but for the name, the sector, the open, the circuits, the range of 52 weeks and the average
-- price, which are filled in later. The other symbols have failed; an answer or a failure stands for
-- each symbol, and the counts by source add up to the number of answers. A request that names none gets
-- the error.
pub sb_quotes-Answers :
    (w : World) (symbols exchange : Text) (enrich rich fast : Bool) (fields : Text) (d : Desk)
    → Answers w exchange enrich rich fast d
        (requested symbols)
        (sb_quotes w symbols exchange enrich rich fast fields d).1
      × (length (requested symbols) ≤ 200)
unfolding sb_quotes
sb_quotes-Answers w symbols exchange enrich rich fast fields d = (
  elim (requested symbols)
      as (λ syms.
        Answers w exchange enrich rich fast d syms
          (elim syms as (λ x. Desk × Option BulkReply) [
            | [] ↦ (d, none)
            | s ∷ syms' ↦
                let (d', reply) = reply_to w (s ∷ syms') exchange enrich rich fast fields d in
                (d', some reply)
          ]).1) [
            | [] ↦ tt
            | s ∷ syms ↦ reply_to-Accounts w (s ∷ syms) exchange enrich rich fast fields d
          ],
  requested-le symbols,
)
