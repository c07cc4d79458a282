-- ===== src/Common/Dict.antt =====
-- A Python dict with text keys: an association list in insertion order.
use mathlib.Core.Path.{◌≡◌, refl}
use mathlib.Core.Logic.{◌⊎◌}
use mathlib.Core.Bool.{Bool, true, false}
use mathlib.Core.Option.{Option, none, some}
use mathlib.Core.List.{List, [], ◌∷◌}
use native.Mathlib.Omega.{arith}
use bharat_ticker.Common.Tests.{if◌then◌else◌}
use bharat_ticker.Common.Text.{Text, text_eq, text_eq_refl, text_eq→eq}

abbrev pub Dict {ℓ} : Type ℓ → Type ℓ
Dict V = List (Text × V)

module _ {ℓ} {V : Type ℓ} where
  -- `d.get(k)`
  unfoldable pub lookup : Text → Dict V → Option V
  lookup k [] = none
  lookup k ((j, v) ∷ d) = if text_eq k j then some v else lookup k d

  -- `d[k] = v`
  unfoldable pub insert : Text → V → Dict V → Dict V
  insert k v [] = (k, v) ∷ []
  insert k v ((j, w) ∷ d) = if text_eq k j then (j, v) ∷ d else (j, w) ∷ insert k v d

  -- `d.pop(k, None)`; the keys of a dictionary are distinct.
  unfoldable pub erase : Text → Dict V → Dict V
  erase k [] = []
  erase k ((j, w) ∷ d) = let rest = erase k d in if text_eq k j then rest else (j, w) ∷ rest

  -- `k in d`
  unfoldable pub has_key : Text → Dict V → Bool
  unfolding lookup
  has_key k d = elim (lookup k d) [ none ↦ false | some _ ↦ true ]

  -- `d.get(k, default)`
  unfoldable pub get_or : Text → V → Dict V → V
  unfolding lookup
  get_or k v d = elim (lookup k d) [ none ↦ v | some w ↦ w ]

  pub lookup-insert_self : (k : Text) (v : V) (d : Dict V) → lookup k (insert k v d) ≡ some v
  unfolding lookup insert
  lookup-insert_self k v [] = ground (arith, text_eq_refl k)
  lookup-insert_self k v ((j, w) ∷ d) = ground (arith, lookup-insert_self k v d)

  pub lookup-insert_ne :
      (j k : Text) (v : V) (d : Dict V) → text_eq j k ≡ false → lookup j (insert k v d) ≡ lookup j d
  unfolding lookup insert
  lookup-insert_ne j k v [] h = ground arith
  lookup-insert_ne j k v ((i, w) ∷ d) h = ground (arith, lookup-insert_ne j k v d h, text_eq→eq k i)

  -- What is found after an insertion was inserted, or was there.
  pub lookup-inserted :
      (j k : Text) (v w : V) (d : Dict V)
      → lookup j (insert k v d) ≡ some w
      → ((j ≡ k) × (v ≡ w)) ⊎ (lookup j d ≡ some w)
  lookup-inserted j k v w d h =
      ground (arith, h, text_eq→eq j k, lookup-insert_self k v d, lookup-insert_ne j k v d)

  pub lookup-erase_self : (k : Text) (d : Dict V) → lookup k (erase k d) ≡ none
  unfolding lookup erase
  lookup-erase_self k [] = refl
  lookup-erase_self k ((j, w) ∷ d) = ground (arith, lookup-erase_self k d)

  pub get_or-insert_self : (k : Text) (v w : V) (d : Dict V) → get_or k w (insert k v d) ≡ v
  unfolding get_or
  get_or-insert_self k v w d = rw (get_or, lookup-insert_self k v d) refl

  pub get_or-insert_ne :
      (j k : Text) (v w : V) (d : Dict V)
      → text_eq j k ≡ false
      → get_or j w (insert k v d) ≡ get_or j w d
  unfolding get_or
  get_or-insert_ne j k v w d h = rw (get_or, lookup-insert_ne j k v d h) refl

  pub lookup-erase_ne :
      (j k : Text) (d : Dict V) → text_eq j k ≡ false → lookup j (erase k d) ≡ lookup j d
  unfolding lookup erase
  lookup-erase_ne j k [] h = refl
  lookup-erase_ne j k ((i, w) ∷ d) h = ground (arith, lookup-erase_ne j k d h, text_eq→eq k i)
