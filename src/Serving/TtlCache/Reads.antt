-- ===== src/Serving/TtlCache/Reads.antt =====
-- What `_TTLCache` (src/api/endpoints/superbrain.py) gives back.
use bharat_ticker.Common.{ℕ, ◌≤◌, ◌≡◌, none, some, [], ◌∷◌, ◌++◌, All, arith, Bool-cases, inl, inr}
use bharat_ticker.Common.Text.{Text, text_eq, text_eq_refl}
use bharat_ticker.Common.Dict.{Dict, lookup, erase}
use bharat_ticker.Serving.TtlCache.{Entry, TtlCache}

module _ {A : Type 0} where
  -- No entry of the store is younger than `t`.
  abbrev pub IsBefore : ℕ → Dict (Entry A) → Type 0
  IsBefore t = All (λ x. x.1.stored_at ≤ t)

  pub erase-IsBefore :
      (t : ℕ) (k : Text) (d : Dict (Entry A)) → IsBefore t d → IsBefore t (erase k d)
  unfolding erase
  erase-IsBefore t k [] a = tt
  erase-IsBefore t k ((j, w) ∷ d) a = elim (Bool-cases (text_eq k j)) [
    | inl e ↦ rw e (erase-IsBefore t k d a.1)
    | inr e ↦ rw e (a.0, erase-IsBefore t k d a.1)
  ]

  -- The entry that has just been put stands at the end, after older ones.
  record IsNewest (key : Text) (e : Entry A) (ttl : ℕ) (c : TtlCache A) : Type 0 where
    older : Dict (Entry A)
    at_end : c.store ≡ older ++ ((key, e) ∷ [])
    absent : lookup key older ≡ none
    before : IsBefore e.stored_at older
    same_ttl : c.ttl ≡ ttl

  pub lookup-last :
      (key : Text) (e : Entry A) (d : Dict (Entry A))
      → lookup key d ≡ none
      → lookup key (d ++ ((key, e) ∷ [])) ≡ some e
  unfolding lookup
  lookup-last key e [] h = ground (arith, text_eq_refl key)
  lookup-last key e ((j, w) ∷ d) h = ground (arith, lookup-last key e d)
