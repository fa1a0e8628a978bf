-- ===== src/Server/LockApi.antt =====
-- handleLock and handleUnlock of internal/server/server.go.
use http_syncer.Base.{
  Bool, ℕ, ◌*◌, ◌-◌, ◌%◌, ◌^◌, suc, not, ◌||◌, [], Option, none, some, Text, text, ◌==◌, ltb,
  if◌then◌else◌,
}
use http_syncer.Base.Int.{ℤ, pos, negsuc, ltb_ℤ}
use http_syncer.Lock.{
  TimeText, Env, Acquired, acquired, locked_by, write_error, try_acquire, release,
}
use http_syncer.Server.{
  Service, Request, Answer, empty, refuse, authorize_module, log_event, post, lock_path,
}

pub record LockBody : Type 0 where
  pub module_name : Text
  pub owner : Text
  pub ttl_seconds : ℤ

pub record UnlockBody : Type 0 where
  pub module_name : Text
  pub owner : Text

-- time.Second
abbrev second : ℕ
second = 1000000000

-- The int64 with the low 64 bits of a number.
abbrev signed : ℕ → ℤ
signed v = if ltb v (2 ^ 63) then pos v else negsuc (2 ^ 64 - 1 - v)

-- time.Duration(n) * time.Second, which wraps around.
unfoldable pub seconds : ℤ → ℤ
seconds (pos n) = signed ((n * second) % 2 ^ 64)
seconds (negsuc n) = signed ((2 ^ 64 - (suc n * second) % 2 ^ 64) % 2 ^ 64)

-- The time that a lock is asked for, or the configured one if that is not positive.
unfoldable pub lock_time : ℤ → ℤ → ℤ
lock_time default asked = let ttl = seconds asked in if ltb_ℤ (pos 0) ttl then ttl else default

module _ (tf : TimeText) (env : Env) (r : Request) where
  -- The answer to the outcome of `TryAcquire`, over the service with the manager it left.
  unfoldable pub after_try : LockBody → Service → Acquired → Service × Answer
  after_try body s acquired = (
    log_event r (text "lock_acquired") body.module_name [] body.owner s,
    record { code = 204; payload = empty },
  )
  after_try body s (locked_by other) = (s, refuse 423)
  after_try body s write_error = (s, refuse 500)

  unfoldable pub acquire_lock : LockBody → Service → Service × Answer
  acquire_lock body s =
      let ttl = lock_time s.cfg.lock_ttl body.ttl_seconds in
      let (locks, outcome) =
        try_acquire tf env (lock_path body.module_name) body.owner ttl s.locks in
      after_try body (record s { locks = locks }) outcome

  unfoldable pub lock_decoded : Option LockBody → Service → Service × Answer
  lock_decoded none s = (s, refuse 400)
  lock_decoded (some body) s =
      if body.module_name == [] || body.owner == []
      then (s, refuse 400)
      else if not (authorize_module s.cfg r body.module_name)
      then (s, refuse 401)
      else acquire_lock body s

  -- `handleLock`, with the decoded body if there is one
  unfoldable pub handle_lock : Option LockBody → Service → Service × Answer
  handle_lock body s = if not (r.method == post) then (s, refuse 405) else lock_decoded body s

-- `removes` tells whether the lock file can be removed.
module _ (removes : Bool) (r : Request) where
  unfoldable pub release_lock : UnlockBody → Service → Service × Answer
  release_lock body s =
      let s' = record s {
        locks = release removes (lock_path body.module_name) body.owner s.locks;
      } in
      (
        log_event r (text "lock_released") body.module_name [] body.owner s',
        record { code = 204; payload = empty },
      )

  unfoldable pub unlock_decoded : Option UnlockBody → Service → Service × Answer
  unlock_decoded none s = (s, refuse 400)
  unlock_decoded (some body) s =
      if body.module_name == []
      then (s, refuse 400)
      else if not (authorize_module s.cfg r body.module_name)
      then (s, refuse 401)
      else release_lock body s

  -- `handleUnlock`
  unfoldable pub handle_unlock : Option UnlockBody → Service → Service × Answer
  handle_unlock body s = if not (r.method == post) then (s, refuse 405) else unlock_decoded body s
