-- ===== src/Lock/Holding.antt =====
-- Mutual exclusion: what a successful `TryAcquire` promises until the lock expires.
use http_syncer.Base.{
  ◌≡◌, refl, sym, ap, ◌∙◌, true, false, Bool-cases, inl, inr, List, [], ◌∷◌, Option, none, some,
  Text, Dict, All, In, All-In,
}
use http_syncer.Base.Int.{ℤ, ◌+ℤ◌}
use http_syncer.Lock.{
  LockRecord, Manager, TimeText, Env, acquired, locked_by, overlaps, clean_path, lock_file,
  lock_content, scan_mem, before, try_acquire, acquire_clean, after_mem, after_dir, store_lock,
  write_file, is_locked, query_clean, query_dir, by_key, by_record,
}
use http_syncer.Lock.Overlap.{overlaps_refl, overlaps_comm}
use http_syncer.Lock.Scan.{Slot, scan_mem-held}
use http_syncer.Lock.Exclusion.{
  Apart, IsExclusive, Call, after_calls, after_acquire-IsExclusive, from_calls-IsExclusive,
}
use http_syncer.Lock.Kept.{In-insert_self, In-after_calls, IsHarmless}

-- The record that a successful call leaves.
abbrev pub granted : Env → Text → Text → ℤ → LockRecord
granted env path owner ttl = record {
  path = clean_path path;
  owner = owner;
  expires_at = env.now +ℤ ttl;
}

module _ (tf : TimeText) where
  store_lock-In :
      (env : Env) (path owner : Text) (ttl : ℤ) (m : Manager)
      → (store_lock tf env path owner ttl m).1 ≡ acquired
      → In
          (path, record { path = path; owner = owner; expires_at = env.now +ℤ ttl })
          (store_lock tf env path owner ttl m).0.mem
  unfolding store_lock
  store_lock-In env path owner ttl m h =
      let exp : ℤ = env.now +ℤ ttl in
      elim (Bool-cases
        (write_file env.write (lock_file path) (lock_content tf owner exp path) m.files).1) [
          | inl done ↦ rw done (In-insert_self path _ m.mem)
          | inr failed ↦ cc (rw failed at h)
        ]

  after_dir-In :
      (env : Env) (path owner : Text) (ttl : ℤ) (m : Manager) (found : Option Text)
      → (after_dir tf env path owner ttl m found).1 ≡ acquired
      → In
          (path, record { path = path; owner = owner; expires_at = env.now +ℤ ttl })
          (after_dir tf env path owner ttl m found).0.mem
  unfolding after_dir
  after_dir-In env path owner ttl m (some other) h = cc
  after_dir-In env path owner ttl m none h = store_lock-In env path owner ttl m h

  after_mem-In :
      (env : Env) (path owner : Text) (ttl : ℤ) (m : Manager) (found : Option Text)
      → (after_mem tf env path owner ttl m found).1 ≡ acquired
      → In
          (path, record { path = path; owner = owner; expires_at = env.now +ℤ ttl })
          (after_mem tf env path owner ttl m found).0.mem
  unfolding after_mem
  after_mem-In env path owner ttl m (some other) h = cc
  after_mem-In env path owner ttl m none h = after_dir-In env path owner ttl _ _ h

  granted-In :
      (env : Env) (path owner : Text) (ttl : ℤ) (m : Manager)
      → (try_acquire tf env path owner ttl m).1 ≡ acquired
      → In (clean_path path, granted env path owner ttl) (try_acquire tf env path owner ttl m).0.mem
  unfolding try_acquire acquire_clean
  granted-In env path owner ttl m h = after_mem-In env (clean_path path) owner ttl _ _ h

  blocked :
      (env : Env) (path owner : Text) (ttl : ℤ) (m : Manager) (p : Text) (rec : LockRecord)
      → In (p, rec) m.mem
      → before rec.expires_at env.now ≡ false
      → overlaps (clean_path path) p ≡ true
      → (other : Text) × ((try_acquire tf env path owner ttl m).1 ≡ locked_by other)
  unfolding try_acquire acquire_clean
  blocked env path owner ttl m p rec held live clash =
      let (other, e) = scan_mem-held by_key (clean_path path) env.now m.mem p rec held live clash in
      (other, rw e (unfold after_mem in refl))

  seen :
      (path : Text) (rec : LockRecord) (now : ℤ) (m : Dict LockRecord)
      → IsExclusive m
      → In (path, rec) m
      → before rec.expires_at now ≡ false
      → (scan_mem by_record path now m).1 ≡ some rec.owner
  unfolding scan_mem
  seen path rec now [] x held live = absurd held
  seen path rec now ((q, r) ∷ m) x (inl e) live =
      rw
        (
          ap (λ (s : Slot). before s.1.expires_at now) (sym e) ∙ live,
          ap (overlaps path) (x.0 ∙ ap (λ (s : Slot). s.0) (sym e)) ∙ overlaps_refl path,
        )
        (ap (λ (s : Slot). some s.1.owner) (sym e))
  seen path rec now ((q, r) ∷ m) x (inr h) live =
      let apart : overlaps path r.path ≡ false =
        ap (overlaps path) x.0 ∙ overlaps_comm path q ∙ All-In (Apart q) m (path, rec) x.1 h in
      let more = seen path rec now m x.2 h live in
      elim (Bool-cases (before r.expires_at now)) [
        | inl stale ↦ rw stale more
        | inr live' ↦ rw (live', apart) more
      ]

  query_seen :
      (env : Env) (path : Text) (rec : LockRecord) (m : Manager)
      → IsExclusive m.mem
      → In (clean_path path, rec) m.mem
      → before rec.expires_at env.now ≡ false
      → (is_locked tf env path m).1 ≡ some rec.owner
  unfolding is_locked query_clean
  query_seen env path rec m x held live =
      rw (seen (clean_path path) rec env.now m.mem x held live) (unfold query_dir in refl)

  -- The manager after a call of `TryAcquire` and the calls that followed it.
  abbrev pub state_after : Env → Text → Text → ℤ → Manager → List Call → Manager
  state_after env path owner ttl m calls =
      after_calls tf calls (try_acquire tf env path owner ttl m).0

  still_held :
      (env : Env) (path owner : Text) (ttl : ℤ) (m : Manager) (calls : List Call)
      → IsExclusive m.mem
      → (try_acquire tf env path owner ttl m).1 ≡ acquired
      → All (IsHarmless (clean_path path) (granted env path owner ttl)) calls
      → In
          (clean_path path, granted env path owner ttl)
          (state_after env path owner ttl m calls).mem
  still_held env path owner ttl m calls sound success harmless =
      In-after_calls tf (clean_path path) (granted env path owner ttl) calls
        (try_acquire tf env path owner ttl m).0
        (after_acquire-IsExclusive tf env path owner ttl m sound) harmless
        (granted-In env path owner ttl m success)

  -- Once `TryAcquire` has succeeded on a manager whose records do not clash, and after any calls
  -- that do not give the lock back, come before it expires and do not restart the process, every
  -- `TryAcquire` of an overlapping path fails as long as the lock has not expired, and is told an owner.
  pub acquired-excludes :
      (env : Env) (path owner : Text) (ttl : ℤ) (m : Manager) (calls : List Call)
      → IsExclusive m.mem
      → (try_acquire tf env path owner ttl m).1 ≡ acquired
      → All (IsHarmless (clean_path path) (granted env path owner ttl)) calls
      → (later : Env) (path' owner' : Text) (ttl' : ℤ) → before (env.now +ℤ ttl) later.now ≡ false
      → overlaps (clean_path path') (clean_path path) ≡ true
      → (other : Text) × ((try_acquire tf later path' owner' ttl'
            (state_after env path owner ttl m calls)).1
          ≡ locked_by other)
  acquired-excludes env path owner ttl m calls sound success harmless later path' owner' ttl' live
        clash =
      blocked later path' owner' ttl' _ (clean_path path) (granted env path owner ttl)
        (still_held env path owner ttl m calls sound success harmless) live clash

  -- Once `TryAcquire` has succeeded on a manager whose records do not clash, and after any calls
  -- that do not give the lock back, come before it expires and do not restart the process,
  -- `IsLocked` of the path answers with the owner that took the lock, as long as it has not expired.
  pub acquired-is_locked :
      (env : Env) (path owner : Text) (ttl : ℤ) (m : Manager) (calls : List Call)
      → IsExclusive m.mem
      → (try_acquire tf env path owner ttl m).1 ≡ acquired
      → All (IsHarmless (clean_path path) (granted env path owner ttl)) calls
      → (later : Env) → before (env.now +ℤ ttl) later.now ≡ false
      → (is_locked tf later path (state_after env path owner ttl m calls)).1 ≡ some owner
  acquired-is_locked env path owner ttl m calls sound success harmless later live =
      query_seen later path (granted env path owner ttl) _
        (from_calls-IsExclusive tf calls _
          (after_acquire-IsExclusive tf env path owner ttl m sound))
        (still_held env path owner ttl m calls sound success harmless) live
