-- ===== src/Serving/TtlCache/Ages.antt =====
-- The store of `_TTLCache` (src/api/endpoints/superbrain.py) in the order of time: the loop of `put` evicts
-- its first entry.
use bharat_ticker.Common.{
  ℕ, ◌+◌, ◌≤◌, ◌≡◌, refl, Bool, true, false, none, some, [], ◌∷◌, ◌++◌, All, arith, if◌then◌else◌,
  Bool-cases, inl, inr, ◌∙◌, sym,
}
use mathlib.Core.Path.{subst}
use bharat_ticker.Common.Text.{Text, text_eq, text_eq_refl, text_eq→eq}
use bharat_ticker.Common.Dict.{Dict, lookup, erase}
use bharat_ticker.Common.Keys.{total}
use bharat_ticker.Serving.TtlCache.{Entry, oldest_from, next_victim}
use bharat_ticker.Serving.TtlCache.Budget.{size_of}
use bharat_ticker.Serving.TtlCache.Reads.{IsBefore}

module _ {A : Type 0} where
  abbrev pub IsSince : ℕ → Dict (Entry A) → Type 0
  IsSince t = All (λ x. t ≤ x.1.stored_at)

  -- The entries stand in the order of their times.
  abbrev pub IsChronological : Dict (Entry A) → Type 0
  IsChronological [] = Unit
  IsChronological ((k, e) ∷ d) = IsSince e.stored_at d × IsChronological d

  -- The bytes of the entries from a key on.
  pub since : Text → Dict (Entry A) → ℕ
  since key [] = 0
  since key ((j, w) ∷ d) = if text_eq key j then w.size + total size_of d else since key d

  oldest_from-first :
      (best : Text) (t : ℕ) (d : Dict (Entry A)) → IsSince t d → oldest_from best t d ≡ best
  unfolding oldest_from
  oldest_from-first best t [] a = refl
  oldest_from-first best t ((k, w) ∷ d) a = ground (arith, a.0, oldest_from-first best t d a.1)

  -- The loop evicts the first entry.
  pub next_victim-first :
      (over : Bool) (d : Dict (Entry A)) (k : Text)
      → IsChronological d
      → next_victim over d ≡ some k
      → (over ≡ true) × (total size_of d ≤ since k d)
  unfolding next_victim since
  next_victim-first over [] k a h = cc
  next_victim-first over ((j, w) ∷ []) k a h = cc
  next_victim-first false ((j, w) ∷ x ∷ d) k a h = cc
  next_victim-first true ((j, w) ∷ x ∷ d) k a h =
      let picked : oldest_from j w.stored_at (x ∷ d) ≡ k = cc in
      let same : j ≡ k = sym (oldest_from-first j w.stored_at (x ∷ d) a.0) ∙ picked in
      (refl, rw (subst (λ i. text_eq i j ≡ true) same (text_eq_refl j)) (omega arith))

  erase-IsSince : (t : ℕ) (k : Text) (d : Dict (Entry A)) → IsSince t d → IsSince t (erase k d)
  unfolding erase
  erase-IsSince t k [] a = tt
  erase-IsSince t k ((j, w) ∷ d) a = elim (Bool-cases (text_eq k j)) [
    | inl e ↦ rw e (erase-IsSince t k d a.1)
    | inr e ↦ rw e (a.0, erase-IsSince t k d a.1)
  ]

  pub erase-IsChronological :
      (k : Text) (d : Dict (Entry A)) → IsChronological d → IsChronological (erase k d)
  unfolding erase
  erase-IsChronological k [] a = tt
  erase-IsChronological k ((j, w) ∷ d) a = elim (Bool-cases (text_eq k j)) [
    | inl e ↦ rw e (erase-IsChronological k d a.1)
    | inr e ↦ rw e (erase-IsSince w.stored_at k d a.0, erase-IsChronological k d a.1)
  ]

  total-erase_le : (k : Text) (d : Dict (Entry A)) → total size_of (erase k d) ≤ total size_of d
  unfolding erase
  total-erase_le k [] = omega arith
  total-erase_le k ((j, w) ∷ d) = ground (arith, total-erase_le k d)

  pub since-erase :
      (key k : Text) (d : Dict (Entry A))
      → text_eq key k ≡ false
      → since key (erase k d) ≤ since key d
  unfolding erase since
  since-erase key k [] n = omega arith
  since-erase key k ((j, w) ∷ d) n =
      ground (arith, n, since-erase key k d n, total-erase_le k d, text_eq→eq k j, text_eq→eq key j)

  append-IsSince :
      (t : ℕ) (k : Text) (e : Entry A) (d : Dict (Entry A))
      → t ≤ e.stored_at
      → IsSince t d
      → IsSince t (d ++ ((k, e) ∷ []))
  append-IsSince t k e [] h a = (h, tt)
  append-IsSince t k e ((j, w) ∷ d) h a = (a.0, append-IsSince t k e d h a.1)

  pub append-IsChronological :
      (k : Text) (e : Entry A) (d : Dict (Entry A))
      → IsBefore e.stored_at d
      → IsChronological d
      → IsChronological (d ++ ((k, e) ∷ []))
  append-IsChronological k e [] b a = (tt, tt)
  append-IsChronological k e ((j, w) ∷ d) b a =
      (append-IsSince w.stored_at k e d b.0 a.0, append-IsChronological k e d b.1 a.1)

  pub append-IsBefore :
      (t : ℕ) (k : Text) (e : Entry A) (d : Dict (Entry A))
      → e.stored_at ≤ t
      → IsBefore t d
      → IsBefore t (d ++ ((k, e) ∷ []))
  append-IsBefore t k e [] h a = (h, tt)
  append-IsBefore t k e ((j, w) ∷ d) h a = (a.0, append-IsBefore t k e d h a.1)

  pub IsBefore-trans : (s t : ℕ) (d : Dict (Entry A)) → s ≤ t → IsBefore s d → IsBefore t d
  IsBefore-trans s t [] h a = tt
  IsBefore-trans s t ((j, w) ∷ d) h a = (omega (arith, h, a.0), IsBefore-trans s t d h a.1)

  total-last :
      (k : Text) (e : Entry A) (d : Dict (Entry A))
      → total size_of (d ++ ((k, e) ∷ [])) ≡ total size_of d + e.size
  total-last k e [] = omega arith
  total-last k e ((j, w) ∷ d) = omega (arith, total-last k e d)

  pub since-last :
      (key k : Text) (e : Entry A) (d : Dict (Entry A))
      → since key (d ++ ((k, e) ∷ [])) ≤ since key d + e.size
  unfolding since
  since-last key k e [] = ground arith
  since-last key k e ((j, w) ∷ d) = ground (arith, since-last key k e d, total-last k e d)

  pub since-absent : (key : Text) (d : Dict (Entry A)) → lookup key d ≡ none → since key d ≡ 0
  unfolding since lookup
  since-absent key [] h = refl
  since-absent key ((j, w) ∷ d) h = ground (arith, since-absent key d)

  pub lookup-last_ne :
      (key k : Text) (x e : Entry A) (d : Dict (Entry A))
      → lookup key d ≡ some x
      → lookup key (d ++ ((k, e) ∷ [])) ≡ some x
  unfolding lookup
  lookup-last_ne key k x e [] h = cc
  lookup-last_ne key k x e ((j, w) ∷ d) h = ground (arith, h, lookup-last_ne key k x e d)
