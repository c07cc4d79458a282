-- ===== src/Common/Symbols.antt =====
-- `str.strip`, and `canonical_symbol` (src/config/constants.py), which all sources and endpoints name
-- an instrument by.
use Prim.Native.Nat.{ℕ}
use mathlib.Core.Path.{◌≡◌, refl, ap, ◌∙◌, sym}
use mathlib.Core.Bool.{Bool, false, ◌&&◌, ◌||◌}
use mathlib.Core.List.{[], ◌∷◌}
use mathlib.Core.Logic.{inl, inr}
use native.Mathlib.Omega.{arith}
use bharat_ticker.Common.Tests.{leb, ◌==◌, if◌then◌else◌, Bool-cases}
use bharat_ticker.Common.Text.{Text, codes, text_eq, text_eq→eq, upper, upper_code}
use bharat_ticker.Common.Dict.{Dict, get_or, lookup}

-- White space among the ASCII characters.
unfoldable pub is_space : ℕ → Bool
is_space c = (c == 32) || (leb 9 c && leb c 13) || (leb 28 c && leb c 31)

unfoldable pub strip_left : Text → Text
strip_left [] = []
strip_left (c ∷ s) = let rest = strip_left s in if is_space c then rest else c ∷ s

abbrev pub cons_stripped : ℕ → Text → Text
cons_stripped c [] = if is_space c then [] else c ∷ []
cons_stripped c (d ∷ t) = c ∷ d ∷ t

unfoldable pub strip_right : Text → Text
strip_right [] = []
strip_right (c ∷ s) = cons_stripped c (strip_right s)

-- `s.strip()`
unfoldable pub strip : Text → Text
unfolding strip_left strip_right
strip s = strip_right (strip_left s)

-- `SYMBOL_ALIASES`
abbrev pub symbol_aliases : Dict Text
symbol_aliases = (codes "TATAMOTORS", codes "TMPV") ∷ []

unfoldable pub canonical_symbol : Text → Text
unfolding strip
canonical_symbol symbol = let s = upper (strip symbol) in get_or s s symbol_aliases

-- No space at the front, and none at the end.
abbrev StartsBare : Text → Type 0
StartsBare [] = Unit
StartsBare (c ∷ s) = is_space c ≡ false

abbrev EndsBare : Text → Type 0
EndsBare [] = Unit
EndsBare (c ∷ []) = is_space c ≡ false
EndsBare (c ∷ d ∷ s) = EndsBare (d ∷ s)

strip_left-StartsBare : (s : Text) → StartsBare (strip_left s)
unfolding strip_left
strip_left-StartsBare [] = tt
strip_left-StartsBare (c ∷ s) = elim (Bool-cases (is_space c)) [
  | inl e ↦ rw e (strip_left-StartsBare s)
  | inr e ↦ rw e e
]

cons_stripped-EndsBare : (c : ℕ) (s : Text) → EndsBare s → EndsBare (cons_stripped c s)
cons_stripped-EndsBare c (d ∷ s) h = h
cons_stripped-EndsBare c [] h = elim (Bool-cases (is_space c)) [ inl e ↦ rw e tt | inr e ↦ rw e e ]

strip_right-EndsBare : (s : Text) → EndsBare (strip_right s)
unfolding strip_right
strip_right-EndsBare [] = tt
strip_right-EndsBare (c ∷ s) = cons_stripped-EndsBare c (strip_right s) (strip_right-EndsBare s)

cons_stripped-StartsBare : (c : ℕ) (s : Text) → is_space c ≡ false → StartsBare (cons_stripped c s)
cons_stripped-StartsBare c (d ∷ s) h = h
cons_stripped-StartsBare c [] h = rw h h

strip_right-StartsBare : (s : Text) → StartsBare s → StartsBare (strip_right s)
unfolding strip_right
strip_right-StartsBare [] h = tt
strip_right-StartsBare (c ∷ s) h = cons_stripped-StartsBare c (strip_right s) h

strip_left-bare : (s : Text) → StartsBare s → strip_left s ≡ s
unfolding strip_left
strip_left-bare [] h = refl
strip_left-bare (c ∷ s) h = rw h refl

strip_right-bare : (s : Text) → EndsBare s → strip_right s ≡ s
unfolding strip_right
strip_right-bare [] h = refl
strip_right-bare (c ∷ []) h = rw h refl
strip_right-bare (c ∷ d ∷ s) h = ap (cons_stripped c) (strip_right-bare (d ∷ s) h)

strip-bare : (s : Text) → StartsBare s → EndsBare s → strip s ≡ s
unfolding strip
strip-bare s h k = rw (strip_left-bare s h) (strip_right-bare s k)

is_space-upper : (c : ℕ) → is_space c ≡ false → is_space (upper_code c) ≡ false
unfolding is_space upper_code
is_space-upper c h = ground arith

upper_code_idem : (c : ℕ) → upper_code (upper_code c) ≡ upper_code c
unfolding upper_code
upper_code_idem c = ground arith

upper_idem : (s : Text) → upper (upper s) ≡ upper s
unfolding upper
upper_idem [] = refl
upper_idem (c ∷ s) = rw (upper_code_idem c) (ap (λ t. upper_code c ∷ t) (upper_idem s))

upper-StartsBare : (s : Text) → StartsBare s → StartsBare (upper s)
unfolding upper
upper-StartsBare [] h = tt
upper-StartsBare (c ∷ s) h = is_space-upper c h

upper-EndsBare : (s : Text) → EndsBare s → EndsBare (upper s)
unfolding upper
upper-EndsBare [] h = tt
upper-EndsBare (c ∷ []) h = is_space-upper c h
upper-EndsBare (c ∷ d ∷ s) h = upper-EndsBare (d ∷ s) h

clean : (symbol : Text) → upper (strip (upper (strip symbol))) ≡ upper (strip symbol)
unfolding strip
clean symbol =
    let left = strip_right-StartsBare (strip_left symbol) (strip_left-StartsBare symbol) in
    let right = strip_right-EndsBare (strip_left symbol) in
    ap upper (
      strip-bare (upper (strip symbol)) (upper-StartsBare (strip symbol) left)
        (upper-EndsBare (strip symbol) right))
    ∙ upper_idem (strip symbol)

abbrev resolve : Text → Text
resolve s = get_or s s symbol_aliases

resolve-other : (s : Text) → text_eq s (codes "TATAMOTORS") ≡ false → resolve s ≡ s
unfolding get_or lookup
resolve-other s h = rw (get_or, lookup, h) refl

resolve-alias : (s : Text) → s ≡ codes "TATAMOTORS" → resolve s ≡ codes "TMPV"
unfolding get_or lookup text_eq
resolve-alias s h = rw h refl

alias_clean : canonical_symbol (codes "TMPV") ≡ codes "TMPV"
unfolding canonical_symbol strip strip_left strip_right is_space upper upper_code get_or lookup
    text_eq
alias_clean = refl

canonical-eq : (symbol : Text) → canonical_symbol symbol ≡ resolve (upper (strip symbol))
unfolding canonical_symbol
canonical-eq symbol = refl

-- A canonical symbol is its own canonical symbol.
pub canonical_symbol_idem :
    (symbol : Text) → canonical_symbol (canonical_symbol symbol) ≡ canonical_symbol symbol
canonical_symbol_idem symbol =
    let s = upper (strip symbol) in
    elim (Bool-cases (text_eq s (codes "TATAMOTORS"))) [
      | inl e ↦
          let known : canonical_symbol symbol ≡ codes "TMPV" =
            canonical-eq symbol ∙ resolve-alias s (text_eq→eq s (codes "TATAMOTORS") e) in
          ap canonical_symbol known ∙ alias_clean ∙ sym known
      | inr e ↦
          let known : canonical_symbol symbol ≡ s = canonical-eq symbol ∙ resolve-other s e in
          ap canonical_symbol known
          ∙ canonical-eq s
          ∙ ap resolve (clean symbol)
          ∙ sym (canonical-eq symbol)
    ]
