-- ===== src/Lock/Exclusion.antt =====
-- The locks in memory never stand in one another's way.
use http_syncer.Base.{
  ◌≡◌, refl, sym, ap, ◌∙◌, subst, Bool, false, Bool-cases, ◌||◌, inl, inr, List, [], ◌∷◌, Option,
  none, some, Text, ◌==◌, ==→≡, Dict, insert, erase, lookup, All,
}
use http_syncer.Base.Int.{ℤ, ◌+ℤ◌}
use http_syncer.Lock.{
  LockRecord, DirEntry, Manager, TimeText, Env, overlaps, clean_path, scan_mem, before, new_manager,
  try_acquire, acquire_clean, store_lock, write_file, lock_content, lock_file, scan_dir, release,
  released, is_locked, query_clean, query_dir, after_dir, after_mem, by_key, by_record,
}
use http_syncer.Lock.Overlap.{overlaps_comm, overlaps_refl}
use http_syncer.Lock.Scan.{Slot, scan_mem-All, scan_mem-apart}

abbrev pub Apart : Text → Slot → Type 0
Apart path s = overlaps path s.0 ≡ false

-- Every record stands under its own path, and no two paths overlap.
abbrev pub IsExclusive : Dict LockRecord → Type 0
IsExclusive [] = Unit
IsExclusive ((p, rec) ∷ m) = (rec.path ≡ p) × All (Apart p) m × IsExclusive m

scan_mem-IsExclusive :
    (key : Text → LockRecord → Text) (path : Text) (now : ℤ) (m : Dict LockRecord)
    → IsExclusive m
    → IsExclusive (scan_mem key path now m).0
unfolding scan_mem
scan_mem-IsExclusive key path now [] h = tt
scan_mem-IsExclusive key path now ((p, rec) ∷ m) h = elim (Bool-cases (before rec.expires_at now)) [
  | inl stale ↦ rw stale (scan_mem-IsExclusive key path now m h.2)
  | inr live ↦ elim (Bool-cases (overlaps path (key p rec))) [
    | inl clash ↦ rw (live, clash) h
    | inr apart ↦
        rw (live, apart)
          (h.0, scan_mem-All key path now (Apart p) m h.1, scan_mem-IsExclusive key path now m h.2)
  ]
]

insert-All :
    (P : Slot → Type 0) (path : Text) (rec : LockRecord) (m : Dict LockRecord)
    → All P m
    → P (path, rec)
    → All P (insert path rec m)
unfolding insert
insert-All P path rec [] h p = (p, tt)
insert-All P path rec ((q, r) ∷ m) h p = elim (Bool-cases (q == path)) [
  | inl same ↦ rw same (p, h.1)
  | inr other ↦ rw other (h.0, insert-All P path rec m h.1 p)
]

insert-IsExclusive :
    (path : Text) (rec : LockRecord) (m : Dict LockRecord)
    → rec.path ≡ path
    → All (Apart path) m
    → IsExclusive m
    → IsExclusive (insert path rec m)
unfolding insert
insert-IsExclusive path rec [] own apart h = (own, tt, tt)
insert-IsExclusive path rec ((q, r) ∷ m) own apart h = elim (Bool-cases (q == path)) [
  | inl same ↦ cc (apart.0, ap (overlaps path) (==→≡ q path same), overlaps_refl path)
  | inr other ↦ rw other (
    h.0,
    insert-All (Apart q) path rec m h.1 (overlaps_comm q path ∙ apart.0),
    insert-IsExclusive path rec m own apart.1 h.2,
  )
]

erase-All : (P : Slot → Type 0) (path : Text) (m : Dict LockRecord) → All P m → All P (erase path m)
unfolding erase
erase-All P path [] h = tt
erase-All P path ((q, r) ∷ m) h = elim (Bool-cases (q == path)) [
  | inl same ↦ rw same (erase-All P path m h.1)
  | inr other ↦ rw other (h.0, erase-All P path m h.1)
]

erase-IsExclusive : (path : Text) (m : Dict LockRecord) → IsExclusive m → IsExclusive (erase path m)
unfolding erase
erase-IsExclusive path [] h = tt
erase-IsExclusive path ((q, r) ∷ m) h = elim (Bool-cases (q == path)) [
  | inl same ↦ rw same (erase-IsExclusive path m h.2)
  | inr other ↦ rw other (h.0, erase-All (Apart q) path m h.1, erase-IsExclusive path m h.2)
]

module _ (tf : TimeText) where
  store_lock-IsExclusive :
      (env : Env) (path owner : Text) (ttl : ℤ) (m : Manager)
      → All (Apart path) m.mem
      → IsExclusive m.mem
      → IsExclusive (store_lock tf env path owner ttl m).0.mem
  unfolding store_lock
  store_lock-IsExclusive env path owner ttl m apart h =
      let rec : LockRecord = record { path = path; owner = owner; expires_at = env.now +ℤ ttl } in
      let content : Text = lock_content tf owner (env.now +ℤ ttl) path in
      let more = insert-IsExclusive path rec m.mem refl apart h in
      elim (Bool-cases (write_file env.write (lock_file path) content m.files).1) [
        | inl done ↦ rw done more
        | inr failed ↦ rw failed (erase-IsExclusive path (insert path rec m.mem) more)
      ]

  after_dir-IsExclusive :
      (env : Env) (path owner : Text) (ttl : ℤ) (m : Manager) (found : Option Text)
      → All (Apart path) m.mem
      → IsExclusive m.mem
      → IsExclusive (after_dir tf env path owner ttl m found).0.mem
  unfolding after_dir
  after_dir-IsExclusive env path owner ttl m (some other) apart h = h
  after_dir-IsExclusive env path owner ttl m none apart h =
      store_lock-IsExclusive env path owner ttl m apart h

  after_mem-IsExclusive :
      (env : Env) (path owner : Text) (ttl : ℤ) (m : Manager) (found : Option Text)
      → (found ≡ none → All (Apart path) m.mem)
      → IsExclusive m.mem
      → IsExclusive (after_mem tf env path owner ttl m found).0.mem
  unfolding after_mem
  after_mem-IsExclusive env path owner ttl m (some other) apart h = h
  after_mem-IsExclusive env path owner ttl m none apart h =
      let (files, found) = scan_dir tf env path m.files in
      after_dir-IsExclusive env path owner ttl (record m { files = files }) found (apart refl) h

  acquire_clean-IsExclusive :
      (env : Env) (path owner : Text) (ttl : ℤ) (m : Manager)
      → IsExclusive m.mem
      → IsExclusive (acquire_clean tf env path owner ttl m).0.mem
  unfolding acquire_clean
  acquire_clean-IsExclusive env path owner ttl m h =
      let (mem, found) = scan_mem by_key path env.now m.mem in
      after_mem-IsExclusive env path owner ttl (record m { mem = mem }) found
        (scan_mem-apart by_key path env.now m.mem)
        (scan_mem-IsExclusive by_key path env.now m.mem h)

  pub query_dir-mem :
      (env : Env) (path : Text) (m : Manager) (found : Option Text)
      → (query_dir tf env path m found).0.mem ≡ m.mem
  unfolding query_dir
  query_dir-mem env path m none = refl
  query_dir-mem env path m (some owner) = refl

  query_clean-IsExclusive :
      (env : Env) (path : Text) (m : Manager)
      → IsExclusive m.mem
      → IsExclusive (query_clean tf env path m).0.mem
  unfolding query_clean
  query_clean-IsExclusive env path m h =
      let (mem, found) = scan_mem by_record path env.now m.mem in
      subst IsExclusive (sym (query_dir-mem env path (record m { mem = mem }) found))
        (scan_mem-IsExclusive by_record path env.now m.mem h)

released-IsExclusive :
    (path owner : Text) (found : Option LockRecord) (mem : Dict LockRecord)
    → IsExclusive mem
    → IsExclusive (released path owner found mem)
unfolding released
released-IsExclusive path owner none mem h = h
released-IsExclusive path owner (some rec) mem h =
    elim (Bool-cases (owner == [] || rec.owner == owner)) [
      | inl mine ↦ rw mine (erase-IsExclusive path mem h)
      | inr other ↦ rw other h
    ]

-- One call of the manager, or a restart of the process, which keeps the lock directory alone.
pub data Call : Type 0 where
  acquire : Env → Text → Text → ℤ → Call
  give_back : Bool → Text → Text → Call
  query : Env → Text → Call
  restart : Call

module _ (tf : TimeText) where
  unfoldable pub after_call : Call → Manager → Manager
  after_call (acquire env path owner ttl) m = (try_acquire tf env path owner ttl m).0
  after_call (give_back removes path owner) m = release removes path owner m
  after_call (query env path) m = (is_locked tf env path m).0
  after_call restart m = new_manager m.files

  unfoldable pub after_calls : List Call → Manager → Manager
  after_calls [] m = m
  after_calls (c ∷ cs) m = after_calls cs (after_call c m)

  pub after_acquire-IsExclusive :
      (env : Env) (path owner : Text) (ttl : ℤ) (m : Manager)
      → IsExclusive m.mem
      → IsExclusive (try_acquire tf env path owner ttl m).0.mem
  unfolding try_acquire
  after_acquire-IsExclusive env path owner ttl m h =
      acquire_clean-IsExclusive tf env (clean_path path) owner ttl m h

  pub after_call-IsExclusive :
      (c : Call) (m : Manager) → IsExclusive m.mem → IsExclusive (after_call c m).mem
  unfolding after_call is_locked release new_manager
  after_call-IsExclusive (acquire env path owner ttl) m h =
      after_acquire-IsExclusive env path owner ttl m h
  after_call-IsExclusive (give_back removes path owner) m h =
      released-IsExclusive (clean_path path) owner (lookup (clean_path path) m.mem) m.mem h
  after_call-IsExclusive (query env path) m h = query_clean-IsExclusive tf env (clean_path path) m h
  after_call-IsExclusive restart m h = tt

  pub from_calls-IsExclusive :
      (calls : List Call) (m : Manager) → IsExclusive m.mem → IsExclusive (after_calls calls m).mem
  unfolding after_calls
  from_calls-IsExclusive [] m h = h
  from_calls-IsExclusive (c ∷ cs) m h =
      from_calls-IsExclusive cs (after_call c m) (after_call-IsExclusive c m h)

  -- From a new manager over any lock directory, after any calls of `TryAcquire`, `Release` and
  -- `IsLocked` and any restarts, at any times and with any failures of the file system: each
  -- record in memory stands under its own path, and no two of the paths overlap.
  pub after_calls-IsExclusive :
      (calls : List Call) (files : Dict DirEntry)
      → IsExclusive (after_calls calls (new_manager files)).mem
  unfolding new_manager
  after_calls-IsExclusive calls files = from_calls-IsExclusive calls (new_manager files) tt
