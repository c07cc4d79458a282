-- ===== src/Store/Publish.antt =====
-- Who gets what is published (src/cache/memory_store.py).
use bharat_ticker.Common.{
  ℕ, ◌==◌, ==_iff, ◌≡◌, refl, sym, ap, ◌∙◌, Bool, true, false, List, [], ◌∷◌, ◌++◌, length,
  if◌then◌else◌, arith, Bool-cases, inl, inr,
}
use bharat_ticker.Common.Text.{Text}
use bharat_ticker.Common.Dict.{get_or}
use bharat_ticker.Store.PubSub.{Payload, Hub, is_in, deliver, publish}

-- A queue subscribes to a channel once at most.
abbrev pub IsOnce : List ℕ → Type 0
IsOnce [] = Unit
IsOnce (q ∷ subs) = (is_in q subs ≡ false) × IsOnce subs

append_nil : (xs : List Payload) → xs ++ [] ≡ xs
append_nil [] = refl
append_nil (x ∷ xs) = ap (λ t. x ∷ t) (append_nil xs)

abbrev pub share : Bool → Payload → List Payload
share true x = x ∷ []
share false x = []

deliver-absent :
    (x : Payload) (subs : List ℕ) (queues : ℕ → List Payload) (p : ℕ)
    → is_in p subs ≡ false
    → deliver x subs queues p ≡ queues p
unfolding deliver
deliver-absent x [] queues p h = refl
deliver-absent x (q ∷ subs) queues p h = elim (Bool-cases (p == q)) [
  | inl e ↦ absurd (ground (arith, e, h))
  | inr e ↦
      let queues' = λ (i : ℕ). if i == q then queues i ++ (x ∷ []) else queues i in
      deliver-absent x subs queues' p (rw e at h) ∙ rw e refl
]

deliver-share :
    (x : Payload) (subs : List ℕ) (queues : ℕ → List Payload) (p : ℕ)
    → IsOnce subs
    → deliver x subs queues p ≡ queues p ++ share (is_in p subs) x
unfolding deliver
deliver-share x [] queues p h = sym (append_nil (queues p))
deliver-share x (q ∷ subs) queues p h =
    let queues' = λ (i : ℕ). if i == q then queues i ++ (x ∷ []) else queues i in
    elim (Bool-cases (p == q)) [
      | inl e ↦
          let same : p ≡ q = (==_iff p q).0 e in
          let gone : is_in p subs ≡ false = rw same h.0 in
          rw e (deliver-absent x subs queues' p gone ∙ rw e refl)
      | inr e ↦ rw e (deliver-share x subs queues' p h.1 ∙ rw e refl)
    ]

-- When a queue is subscribed to the channel once at most, each subscriber finds the payload at the end of its queue, once; the other queues
-- are as they were, and the reply is the number of subscribers.
pub publish-delivers :
    (channel message : Text) (h : Hub) (p : ℕ)
    → IsOnce (get_or channel [] h.subscribers)
    → let subs = get_or channel [] h.subscribers in
      let x : Payload = record { channel = channel; message = message } in
      ((publish channel message h).0.queues p ≡ h.queues p ++ share (is_in p subs) x)
      × ((publish channel message h).1 ≡ length subs)
unfolding publish
publish-delivers channel message h p u = (
  deliver-share (record { channel = channel; message = message }) (get_or channel [] h.subscribers)
      h.queues p u,
  refl,
)
