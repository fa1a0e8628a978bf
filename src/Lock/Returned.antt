-- ===== src/Lock/Returned.antt =====
-- Locks of internal/lock/manager.go that are given back.
use http_syncer.Base.{
  ◌≡◌, refl, ap, ◌∙◌, Bool, true, ◌||◌, Bool-cases, inl, inr, [], ◌∷◌, Option, none, some, Text,
  ◌==◌, ==→≡, ==_refl, Dict, insert, erase, lookup, lookup-insert_self, All, arith, if◌then◌else◌,
}
use http_syncer.Base.Int.{ℤ, ◌+ℤ◌}
use http_syncer.Lock.{
  LockRecord, Manager, TimeText, Env, acquired, overlaps, clean_path, lock_file, lock_content,
  scan_mem, before, try_acquire, acquire_clean, after_mem, after_dir, store_lock, write_file,
  release, released, by_key,
}
use http_syncer.Lock.Overlap.{overlaps_refl}
use http_syncer.Lock.Scan.{scan_mem-apart}
use http_syncer.Lock.Exclusion.{Apart}
use http_syncer.Lock.Holding.{granted}

-- The records that have not expired at a time.
abbrev pub live : ℤ → Dict LockRecord → Dict LockRecord
live now [] = []
live now (slot ∷ m) =
    let rest = live now m in if before slot.1.expires_at now then rest else slot ∷ rest

scan_mem-live :
    (path : Text) (now : ℤ) (m : Dict LockRecord)
    → (scan_mem by_key path now m).1 ≡ none
    → (scan_mem by_key path now m).0 ≡ live now m
unfolding scan_mem
scan_mem-live path now [] h = refl
scan_mem-live path now ((p, rec) ∷ m) h = elim (Bool-cases (before rec.expires_at now)) [
  | inl stale ↦ rw stale (scan_mem-live path now m (rw stale at h))
  | inr fresh ↦ elim (Bool-cases (overlaps path p)) [
    | inl clash ↦ cc (rw (fresh, clash) at h)
    | inr apart ↦
        rw (fresh, apart)
          (ap (λ rest. (p, rec) ∷ rest) (scan_mem-live path now m (rw (fresh, apart) at h)))
  ]
]

erase-insert :
    (path : Text) (rec : LockRecord) (m : Dict LockRecord)
    → All (Apart path) m
    → erase path (insert path rec m) ≡ m
unfolding insert erase
erase-insert path rec [] apart = rw (==_refl path) refl
erase-insert path rec ((q, r) ∷ m) apart = elim (Bool-cases (q == path)) [
  | inl same ↦ absurd (cc (apart.0, ap (overlaps path) (==→≡ q path same), overlaps_refl path))
  | inr other ↦ rw (other, other) (ap (λ rest. (q, r) ∷ rest) (erase-insert path rec m apart.1))
]

released-own :
    (path : Text) (rec : LockRecord) (m : Dict LockRecord)
    → All (Apart path) m
    → released path rec.owner (lookup path (insert path rec m)) (insert path rec m) ≡ m
unfolding released
released-own path rec m apart =
    let own : (rec.owner == [] || rec.owner == rec.owner) ≡ true =
      ground (arith, ==_refl rec.owner) in
    ap (λ found. released path rec.owner found (insert path rec m)) (lookup-insert_self path rec m)
    ∙ rw own (erase-insert path rec m apart)

module _ (tf : TimeText) (env : Env) (owner : Text) (ttl : ℤ) where
  stored_mem :
      (path : Text) (m : Manager)
      → (store_lock tf env path owner ttl m).1 ≡ acquired
      → (store_lock tf env path owner ttl m).0.mem
        ≡ insert path (record { path = path; owner = owner; expires_at = env.now +ℤ ttl }) m.mem
  unfolding store_lock
  stored_mem path m h =
      let content = lock_content tf owner (env.now +ℤ ttl) path in
      elim (Bool-cases (write_file env.write (lock_file path) content m.files).1) [
        | inl done ↦ rw done refl
        | inr failed ↦ cc (rw failed at h)
      ]

  after_dir_mem :
      (path : Text) (m : Manager) (found : Option Text)
      → (after_dir tf env path owner ttl m found).1 ≡ acquired
      → (after_dir tf env path owner ttl m found).0.mem
        ≡ insert path (record { path = path; owner = owner; expires_at = env.now +ℤ ttl }) m.mem
  unfolding after_dir
  after_dir_mem path m (some other) h = absurd (cc)
  after_dir_mem path m none h = stored_mem path m h

  after_mem_mem :
      (path : Text) (m : Manager) (found : Option Text)
      → (after_mem tf env path owner ttl m found).1 ≡ acquired
      → (found ≡ none)
        × ((after_mem tf env path owner ttl m found).0.mem
            ≡ insert path
                (record { path = path; owner = owner; expires_at = env.now +ℤ ttl })
                m.mem)
  unfolding after_mem
  after_mem_mem path m (some other) h = absurd (cc)
  after_mem_mem path m none h = (refl, after_dir_mem path _ _ h)

  -- A `TryAcquire` that succeeds and the owner's `Release` of the same path leave in memory, whether the
  -- lock file can be removed or not, the records that had not expired when the lock was taken, each as it
  -- was, and no other.
  pub release-try_acquire :
      (path : Text) (m : Manager) (removes : Bool)
      → (try_acquire tf env path owner ttl m).1 ≡ acquired
      → (release removes path owner (try_acquire tf env path owner ttl m).0).mem
        ≡ live env.now m.mem
  unfolding try_acquire acquire_clean release
  release-try_acquire path m removes h =
      let at = clean_path path in
      let scanned = scan_mem by_key at env.now m.mem in
      let (clear, stored) = after_mem_mem at (record m { mem = scanned.0 }) scanned.1 h in
      ap (λ mem. released at owner (lookup at mem) mem) stored
      ∙ released-own at (granted env path owner ttl) scanned.0
          (scan_mem-apart by_key at env.now m.mem clear)
      ∙ scan_mem-live at env.now m.mem clear
