-- ===== src/Common/Keys.antt =====
-- Dictionaries with distinct keys, as Python's are.
use mathlib.Core.Path.{◌≡◌, refl, ap}
use mathlib.Core.Bool.{false}
use mathlib.Core.Option.{none, some}
use mathlib.Core.List.{[], ◌∷◌, ◌++◌}
use mathlib.Core.Logic.{inl, inr}
use Prim.Native.Nat.{ℕ, suc, ◌+◌}
use native.Mathlib.Omega.{arith}
use bharat_ticker.Common.Tests.{Bool-cases}
use bharat_ticker.Common.Lists.{length}
use bharat_ticker.Common.Text.{Text, text_eq, text_eq_refl, text_eq→eq}
use bharat_ticker.Common.Dict.{Dict, lookup, insert, erase}

abbrev pub HasDistinctKeys {ℓ} : {V : Type ℓ} → Dict V → Type ℓ
HasDistinctKeys [] = Unit
HasDistinctKeys ((k, v) ∷ d) = (lookup k d ≡ none) × HasDistinctKeys d

text_eq_sym : (s t : Text) → text_eq s t ≡ false → text_eq t s ≡ false
unfolding text_eq
text_eq_sym s t h = ground (arith, text_eq→eq t s, text_eq_refl s)

module _ {ℓ} {V : Type ℓ} where
  pub insert-absent :
      (k : Text) (v : V) (d : Dict V) → lookup k d ≡ none → insert k v d ≡ d ++ ((k, v) ∷ [])
  unfolding insert lookup
  insert-absent k v [] h = refl
  insert-absent k v ((j, w) ∷ d) h = ground (arith, insert-absent k v d)

  pub erase-absent : (k : Text) (d : Dict V) → lookup k d ≡ none → erase k d ≡ d
  unfolding erase lookup
  erase-absent k [] h = refl
  erase-absent k ((j, w) ∷ d) h = ground (arith, erase-absent k d)

  pub lookup-erase-none :
      (j k : Text) (d : Dict V) → lookup j d ≡ none → lookup j (erase k d) ≡ none
  unfolding erase lookup
  lookup-erase-none j k [] h = refl
  lookup-erase-none j k ((i, w) ∷ d) h = ground (arith, lookup-erase-none j k d)

  pub erase-HasDistinctKeys :
      (k : Text) (d : Dict V) → HasDistinctKeys d → HasDistinctKeys (erase k d)
  unfolding erase
  erase-HasDistinctKeys k [] h = tt
  erase-HasDistinctKeys k ((j, w) ∷ d) h =
      ground (arith, erase-HasDistinctKeys k d h.1, lookup-erase-none j k d h.0)

  pub erase-append :
      (k j : Text) (w : V) (d : Dict V)
      → text_eq k j ≡ false
      → erase k (d ++ ((j, w) ∷ [])) ≡ erase k d ++ ((j, w) ∷ [])
  unfolding erase
  erase-append k j w [] h = ground arith
  erase-append k j w ((i, x) ∷ d) h = ground (arith, erase-append k j w d h)

  pub length-erase :
      (k : Text) (v : V) (d : Dict V)
      → HasDistinctKeys d
      → lookup k d ≡ some v
      → suc (length (erase k d)) ≡ length d
  unfolding erase lookup
  length-erase k v [] u h = cc
  length-erase k v ((j, w) ∷ d) u h = elim (Bool-cases (text_eq k j)) [
    | inl e ↦
        let gone : lookup k d ≡ none = rw (text_eq→eq k j e) u.0 in
        rw (e, erase-absent k d gone) refl
    | inr e ↦
        let found : lookup k d ≡ some v = rw e at h in rw e (ap suc (length-erase k v d u.1 found))
  ]

  -- The sum of a weight over the entries.
  abbrev pub total : (V → ℕ) → Dict V → ℕ
  total weight [] = 0
  total weight ((k, v) ∷ d) = weight v + total weight d

  pub total-append :
      (weight : V → ℕ) (d e : Dict V) → total weight (d ++ e) ≡ total weight d + total weight e
  total-append weight [] e = omega arith
  total-append weight ((k, v) ∷ d) e = omega (arith, total-append weight d e)

  pub total-erase :
      (weight : V → ℕ) (k : Text) (v : V) (d : Dict V)
      → HasDistinctKeys d
      → lookup k d ≡ some v
      → total weight (erase k d) + weight v ≡ total weight d
  unfolding erase lookup
  total-erase weight k v [] u h = cc
  total-erase weight k v ((j, w) ∷ d) u h = elim (Bool-cases (text_eq k j)) [
    | inl e ↦
        let gone : lookup k d ≡ none = rw (text_eq→eq k j e) u.0 in
        let same : some w ≡ some v = rw e at h in
        rw (e, erase-absent k d gone) (grind (arith, same))
    | inr e ↦
        let found : lookup k d ≡ some v = rw e at h in
        rw e (omega (arith, total-erase weight k v d u.1 found))
  ]

  pub lookup-append_none :
      (k j : Text) (w : V) (d : Dict V)
      → lookup k d ≡ none
      → text_eq k j ≡ false
      → lookup k (d ++ ((j, w) ∷ [])) ≡ none
  unfolding lookup
  lookup-append_none k j w [] h n = ground arith
  lookup-append_none k j w ((i, x) ∷ d) h n = ground (arith, lookup-append_none k j w d)

  pub append-HasDistinctKeys :
      (k : Text) (v : V) (d : Dict V)
      → lookup k d ≡ none
      → HasDistinctKeys d
      → HasDistinctKeys (d ++ ((k, v) ∷ []))
  unfolding lookup
  append-HasDistinctKeys k v [] h u = (refl, tt)
  append-HasDistinctKeys k v ((j, w) ∷ d) h u = elim (Bool-cases (text_eq k j)) [
    | inl e ↦ absurd (ground arith)
    | inr e ↦
        let absent : lookup k d ≡ none = rw e at h in
        (
          lookup-append_none j k v d u.0 (text_eq_sym k j e),
          append-HasDistinctKeys k v d absent u.1,
        )
  ]
