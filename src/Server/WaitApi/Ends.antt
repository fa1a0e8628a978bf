-- ===== src/Server/WaitApi/Ends.antt =====
-- When a client that waits for a lock goes on.
use http_syncer.Base.{
  ◌≡◌, refl, sym, ap, subst, ◌↔◌, Bool, true, false, Bool-cases, inl, inr, List, [], ◌∷◌, Option,
  none, some, Text,
}
use http_syncer.Lock.{TimeText}
use http_syncer.Filter.{Engine}
use http_syncer.Server.{Service, Request}
use http_syncer.Server.WaitApi.{Round, Waited, look, after_look, wait_loop, wait_for_unlock}

module _ (tf : TimeText) (engine : Engine) (r : Request) (name : Text) where
  -- The lock is free in a round whose message is delivered, and in every round before it is held,
  -- with a message that is delivered and no cancellation.
  pub data Frees : List Round → Service → Type 0 where
    now :
        {round : Round} {rounds : List Round} {s : Service}
        → (look tf engine r name round s).1 ≡ none
        → round.delivered ≡ true
        → Frees (round ∷ rounds) s
    later :
        {round : Round} {rounds : List Round} {s : Service} (owner : Text)
        → (look tf engine r name round s).1 ≡ some owner
        → round.delivered ≡ true
        → round.cancelled ≡ false
        → Frees rounds (look tf engine r name round s).0
        → Frees (round ∷ rounds) s

  abbrev hears : Waited → Bool
  hears w = wait_for_unlock w.1

  Frees-delivered :
      (round : Round) (rounds : List Round) (s : Service)
      → Frees (round ∷ rounds) s
      → round.delivered ≡ true
  Frees-delivered round rounds s (now free d) = d
  Frees-delivered round rounds s (later owner held d c rest) = d

  Frees-rest :
      (round : Round) (rounds : List Round) (s : Service) (owner : Text)
      → Frees (round ∷ rounds) s
      → (look tf engine r name round s).1 ≡ some owner
      → (round.cancelled ≡ false) × Frees rounds (look tf engine r name round s).0
  Frees-rest round rounds s owner (now free d) held = absurd (cc)
  Frees-rest round rounds s owner (later o h d c rest) held = (c, rest)

  looked_iff :
      (round : Round) (rounds : List Round) (s : Service) (seen : Service × Option Text)
      → look tf engine r name round s ≡ seen
      → ((hears (wait_loop tf engine r name rounds seen.0) ≡ true) ↔ Frees rounds seen.0)
      → (hears (after_look tf engine r name (wait_loop tf engine r name rounds) round seen) ≡ true)
        ↔ Frees (round ∷ rounds) s
  unfolding wait_for_unlock
  looked_iff round rounds s (s', none) e ih = (
    λ h. elim (Bool-cases round.delivered) [
      | inl d ↦ now (ap (λ x. x.1) e) d
      | inr lost ↦ absurd (cc (rw lost at h))
    ],
    λ f. rw (Frees-delivered round rounds s f) refl,
  )
  looked_iff round rounds s (s', some owner) e ih = (
    λ h. elim (Bool-cases round.delivered) [
      | inr lost ↦ absurd (cc (rw lost at h))
      | inl d ↦ elim (Bool-cases round.cancelled) [
        | inl c ↦ absurd (cc (rw (d, c) at h))
        | inr on ↦
            later owner (ap (λ x. x.1) e) d on
              (subst (Frees rounds) (sym (ap (λ x. x.0) e)) (ih.0 (rw (d, on) at h)))
      ]
    ],
    λ f.
        let (on, rest) = Frees-rest round rounds s owner f (ap (λ x. x.1) e) in
        rw (Frees-delivered round rounds s f, on)
          (ih.1 (subst (Frees rounds) (ap (λ x. x.0) e) rest)),
  )

  -- Whatever other requests are served between the rounds, `waitForUnlockWS` at the other end of
  -- `handleLockWaitWS` returns without an error exactly if there is a round in which the lock is found
  -- free and the message is delivered, while in every round before it the lock was held, the message
  -- delivered and the request not cancelled.
  pub wait_for_unlock_iff :
      (rounds : List Round) (s : Service)
      → (wait_for_unlock (wait_loop tf engine r name rounds s).1 ≡ true) ↔ Frees rounds s
  unfolding wait_loop wait_for_unlock
  wait_for_unlock_iff [] s = (λ h. absurd (cc), λ f. elim f [ ])
  wait_for_unlock_iff (round ∷ rounds) s =
      looked_iff round rounds s (look tf engine r name round s) refl
        (wait_for_unlock_iff rounds (look tf engine r name round s).0)
