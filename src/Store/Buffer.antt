-- ===== src/Store/Buffer.antt =====
-- Lists cut by `take` and `drop`, and the bounded deque, for the streams of
-- src/cache/memory_store.py.
use bharat_ticker.Common.{
  ℕ, zero, suc, ◌+◌, ◌≤◌, ◌<◌, ◌≡◌, refl, List, [], ◌∷◌, ◌++◌, length, length-append, arith, ap,
}
use bharat_ticker.Store.Defs.{deque_append, take, drop}

module _ {A : Type 0} where
  pub append_assoc : (xs ys zs : List A) → (xs ++ ys) ++ zs ≡ xs ++ (ys ++ zs)
  append_assoc [] ys zs = refl
  append_assoc (x ∷ xs) ys zs = ap (λ l. x ∷ l) (append_assoc xs ys zs)

  pub append-nil : (xs : List A) → xs ++ [] ≡ xs
  append-nil [] = refl
  append-nil (x ∷ xs) = ap (λ l. x ∷ l) (append-nil xs)

  pub take-append : (n : ℕ) (xs ys : List A) → n ≤ length xs → take n (xs ++ ys) ≡ take n xs
  take-append zero xs ys h = refl
  take-append (suc n) [] ys h = absurd (omega arith)
  take-append (suc n) (x ∷ xs) ys h = ap (λ l. x ∷ l) (take-append n xs ys (omega arith))

  take-itself : (k : ℕ) (xs : List A) → take k xs ≡ take (length (take k xs)) xs
  take-itself zero xs = refl
  take-itself (suc k) [] = refl
  take-itself (suc k) (x ∷ xs) = ap (λ l. x ∷ l) (take-itself k xs)

  -- A slice from `n` on continues the first `n`.
  pub take-slice :
      (n k : ℕ) (xs : List A)
      → n ≤ length xs
      → take n xs ++ take k (drop n xs) ≡ take (n + length (take k (drop n xs))) xs
  take-slice zero k xs h =
      let e : 0 + length (take k xs) ≡ length (take k xs) = omega arith in rw e (take-itself k xs)
  take-slice (suc n) k [] h = absurd (omega arith)
  take-slice (suc n) k (x ∷ xs) h =
      let l = length (take k (drop n xs)) in
      let e : suc n + l ≡ suc (n + l) = omega arith in
      rw e (ap (λ l. x ∷ l) (take-slice n k xs (omega arith)))

  pub slice-length :
      (n k : ℕ) (xs : List A) → n ≤ length xs → n + length (take k (drop n xs)) ≤ length xs
  slice-length zero zero xs h = omega arith
  slice-length zero (suc k) [] h = omega arith
  slice-length zero (suc k) (x ∷ xs) h = omega (arith, slice-length zero k xs (omega arith))
  slice-length (suc n) k [] h = omega arith
  slice-length (suc n) k (x ∷ xs) h = omega (arith, slice-length n k xs (omega arith))

  -- A slice that is long enough reaches the end.
  pub take-drop : (n k : ℕ) (xs : List A) → length xs ≤ k → take n xs ++ take k (drop n xs) ≡ xs
  take-drop zero zero [] h = refl
  take-drop zero zero (x ∷ xs) h = absurd (omega arith)
  take-drop zero (suc k) [] h = refl
  take-drop zero (suc k) (x ∷ xs) h = ap (λ l. x ∷ l) (take-drop zero k xs (omega arith))
  take-drop (suc n) zero [] h = refl
  take-drop (suc n) (suc k) [] h = refl
  take-drop (suc n) k (x ∷ xs) h = ap (λ l. x ∷ l) (take-drop n k xs (omega arith))

  pub drop-all : (n : ℕ) (xs : List A) → length xs ≤ n → drop n xs ≡ []
  drop-all zero [] h = refl
  drop-all zero (x ∷ xs) h = absurd (omega arith)
  drop-all (suc n) [] h = refl
  drop-all (suc n) (x ∷ xs) h = drop-all n xs (omega arith)

  pub deque_append-room :
      (maxlen : ℕ) (x : A) (xs : List A)
      → length xs < maxlen
      → deque_append maxlen x xs ≡ xs ++ (x ∷ [])
  unfolding deque_append
  deque_append-room maxlen x xs h = ground arith

  pub deque_append-length :
      (maxlen : ℕ) (x : A) (xs : List A)
      → length xs ≤ maxlen
      → length (deque_append maxlen x xs) ≤ maxlen
  unfolding deque_append
  deque_append-length maxlen x [] h = ground arith
  deque_append-length maxlen x (y ∷ xs) h = ground (arith, length-append xs (x ∷ []))
