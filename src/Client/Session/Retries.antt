-- ===== src/Client/Session/Retries.antt =====
-- How long the loop goes on.
use http_syncer.Base.{
  ℕ, zero, suc, ◌+◌, ◌-◌, ◌*◌, ◌≤◌, ◌≡◌, ◌≢◌, refl, ap, ◌∙◌, true, false, Bool-cases, inl, inr,
  List, [], ◌∷◌, Text, length, leb, arith,
}
use http_syncer.Client.Session.{
  Attempt, made, refused_lock, fault, Turn, Begun, begun, gave_up, unfinished, after_attempt,
  begin_session,
}

-- The turns that find the module locked.
abbrev one_if_locked : Attempt → ℕ → ℕ
one_if_locked refused_lock n = suc n
one_if_locked (made sid snapshot_id) n = n
one_if_locked fault n = n

abbrev pub count_locked : List Turn → ℕ
count_locked [] = 0
count_locked (turn ∷ turns) = one_if_locked turn.attempt (count_locked turns)

attempt_ends :
    (backoffs retry locks left : ℕ) (again : ℕ → Begun) (turn : Turn) (a : Attempt)
    → ((retry : ℕ)
        → retry ≤ backoffs
        → locks * suc backoffs + (suc backoffs - retry) ≤ left
        → again retry ≢ unfinished)
    → retry ≤ backoffs
    → one_if_locked a locks * suc backoffs + (suc backoffs - retry) ≤ suc left
    → after_attempt again backoffs retry turn a ≢ unfinished
attempt_ends backoffs retry locks left again turn (made sid snapshot_id) ih low room = cc
attempt_ends backoffs retry locks left again turn refused_lock ih low room =
    elim (Bool-cases turn.waited) [
      | inr failed ↦ rw failed (cc)
      | inl waited ↦ rw waited (ih 0 (omega arith) (grind arith))
    ]
attempt_ends backoffs retry locks left again turn fault ih low room =
    elim (Bool-cases (leb backoffs retry)) [
      | inl spent ↦ rw spent (cc)
      | inr more ↦ elim (Bool-cases turn.cancelled) [
        | inl c ↦ rw (more, c) (cc)
        | inr on ↦ rw (more, on) (ih (suc retry) (ground arith) (ground arith))
      ]
    ]

loop_ends :
    (backoffs : ℕ) (turns : List Turn) (retry : ℕ)
    → retry ≤ backoffs
    → count_locked turns * suc backoffs + (suc backoffs - retry) ≤ length turns
    → begin_session backoffs turns retry ≢ unfinished
unfolding begin_session
loop_ends backoffs [] retry low room = absurd (omega arith)
loop_ends backoffs (turn ∷ turns) retry low room =
    attempt_ends backoffs retry (count_locked turns) (length turns) (begin_session backoffs turns)
      turn turn.attempt (λ again. loop_ends backoffs turns again) low room

-- The loop ends: among its first (k + 1) * (n + 1) turns, with n pauses configured, it returns, if no
-- more than k of them find the module locked.
pub begin_session_ends :
    (backoffs : ℕ) (turns : List Turn)
    → suc (count_locked turns) * suc backoffs ≤ length turns
    → begin_session backoffs turns 0 ≢ unfinished
begin_session_ends backoffs turns room = loop_ends backoffs turns 0 (omega arith) (grind arith)

abbrev pub faults : ℕ → List Turn → List Turn
faults zero turns = turns
faults (suc n) turns =
    record { attempt = fault; waited = false; cancelled = false } ∷ faults n turns

faults_step :
    (backoffs n retry : ℕ) (turns : List Turn)
    → n + retry ≤ backoffs
    → begin_session backoffs (faults n turns) retry ≡ begin_session backoffs turns (n + retry)
unfolding begin_session
faults_step backoffs zero retry turns h = ap (begin_session backoffs turns) (omega arith)
faults_step backoffs (suc n) retry turns h =
    let more : leb backoffs retry ≡ false = ground arith in
    let same : n + suc retry ≡ suc n + retry = omega arith in
    rw more (
      faults_step backoffs n (suc retry) turns (omega arith)
      ∙ ap (begin_session backoffs turns) same)

-- As many faults in a row as there are pauses are retried, and no more: after that many, the next
-- attempt decides by itself, be it a session or one fault more, which ends the loop.
pub begin_session-faults :
    (backoffs : ℕ) (turn : Turn) (turns : List Turn) (sid snapshot_id : Text)
    → (turn.attempt ≡ made sid snapshot_id
        → begin_session backoffs (faults backoffs (turn ∷ turns)) 0 ≡ begun sid snapshot_id)
      × (turn.attempt ≡ fault → begin_session backoffs (faults backoffs (turn ∷ turns)) 0 ≡ gave_up)
unfolding begin_session
begin_session-faults backoffs turn turns sid snapshot_id = (
  λ e.
      faults_step backoffs backoffs 0 (turn ∷ turns) (omega arith)
      ∙ ap (after_attempt (begin_session backoffs turns) backoffs (backoffs + 0) turn) e,
  λ e.
      let spent : leb backoffs (backoffs + 0) ≡ true = ground arith in
      faults_step backoffs backoffs 0 (turn ∷ turns) (omega arith)
      ∙ ap (after_attempt (begin_session backoffs turns) backoffs (backoffs + 0) turn) e
      ∙ rw spent refl,
)
