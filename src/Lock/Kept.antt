-- ===== src/Lock/Kept.antt =====
-- A live lock stays in memory: only its owner, an empty owner or the clock takes it away.
use http_syncer.Base.{
  ◌≡◌, refl, sym, ap, ◌∙◌, subst, ◌≢◌, false, Bool-cases, ◌||◌, ◌⊎◌, inl, inr, List, [], ◌∷◌,
  Option, none, some, Text, ◌==◌, ==→≡, ==_refl, ==_iff, Dict, insert, erase, lookup, All, In,
  All-In, arith,
}
use http_syncer.Base.Int.{ℤ, ◌+ℤ◌}
use http_syncer.Lock.{
  LockRecord, Manager, TimeText, Env, overlaps, clean_path, lock_file, lock_content, scan_mem,
  before, try_acquire, acquire_clean, after_mem, after_dir, store_lock, write_file, release,
  released, is_locked, query_clean, by_key, by_record,
}
use http_syncer.Lock.Overlap.{overlaps_refl}
use http_syncer.Lock.Scan.{Slot, scan_mem-apart}
use http_syncer.Lock.Exclusion.{
  Apart, IsExclusive, query_dir-mem, after_call-IsExclusive, Call, acquire, give_back, query,
  restart, after_call, after_calls,
}

module _ (p : Text) (rec : LockRecord) where
  In-scan_mem :
      (key : Text → LockRecord → Text) (path : Text) (now : ℤ) (m : Dict LockRecord)
      → before rec.expires_at now ≡ false
      → In (p, rec) m
      → In (p, rec) (scan_mem key path now m).0
  unfolding scan_mem
  In-scan_mem key path now [] live h = h
  In-scan_mem key path now ((q, r) ∷ m) live (inl e) =
      let live' : before r.expires_at now ≡ false =
        ap (λ (s : Slot). before s.1.expires_at now) (sym e) ∙ live in
      elim (Bool-cases (overlaps path (key q r))) [
        | inl clash ↦ rw (live', clash) (inl e)
        | inr apart ↦ rw (live', apart) (inl e)
      ]
  In-scan_mem key path now ((q, r) ∷ m) live (inr h) =
      let more = In-scan_mem key path now m live h in
      elim (Bool-cases (before r.expires_at now)) [
        | inl stale ↦ rw stale more
        | inr live' ↦ elim (Bool-cases (overlaps path (key q r))) [
          | inl clash ↦ rw (live', clash) (inr h)
          | inr apart ↦ rw (live', apart) (inr more)
        ]
      ]

  In-insert_ne :
      (q : Text) (r : LockRecord) (m : Dict LockRecord)
      → q ≢ p
      → In (p, rec) m
      → In (p, rec) (insert q r m)
  unfolding insert
  In-insert_ne q r [] ne h = absurd h
  In-insert_ne q r ((j, w) ∷ m) ne (inl e) = elim (Bool-cases (j == q)) [
    | inl same ↦ absurd (ne (sym (==→≡ j q same) ∙ ap (λ (s : Slot). s.0) (sym e)))
    | inr other ↦ rw other (inl e)
  ]
  In-insert_ne q r ((j, w) ∷ m) ne (inr h) = elim (Bool-cases (j == q)) [
    | inl same ↦ rw same (inr h)
    | inr other ↦ rw other (inr (In-insert_ne q r m ne h))
  ]

  In-erase_ne : (q : Text) (m : Dict LockRecord) → q ≢ p → In (p, rec) m → In (p, rec) (erase q m)
  unfolding erase
  In-erase_ne q [] ne h = absurd h
  In-erase_ne q ((j, w) ∷ m) ne (inl e) = elim (Bool-cases (j == q)) [
    | inl same ↦ absurd (ne (sym (==→≡ j q same) ∙ ap (λ (s : Slot). s.0) (sym e)))
    | inr other ↦ rw other (inl e)
  ]
  In-erase_ne q ((j, w) ∷ m) ne (inr h) = elim (Bool-cases (j == q)) [
    | inl same ↦ rw same (In-erase_ne q m ne h)
    | inr other ↦ rw other (inr (In-erase_ne q m ne h))
  ]

pub In-insert_self : {V : Type 0} (p : Text) (rec : V) (m : Dict V) → In (p, rec) (insert p rec m)
unfolding insert
In-insert_self p rec [] = inl refl
In-insert_self p rec ((j, w) ∷ m) = elim (Bool-cases (j == p)) [
  | inl same ↦ rw same (inl refl)
  | inr other ↦ rw other (inr (In-insert_self p rec m))
]

module _ (tf : TimeText) (p : Text) (rec : LockRecord) where
  In-store_lock :
      (env : Env) (path owner : Text) (ttl : ℤ) (m : Manager)
      → path ≢ p
      → In (p, rec) m.mem
      → In (p, rec) (store_lock tf env path owner ttl m).0.mem
  unfolding store_lock
  In-store_lock env path owner ttl m ne h =
      let exp : ℤ = env.now +ℤ ttl in
      let more =
        In-insert_ne p rec path (record { path = path; owner = owner; expires_at = exp }) m.mem ne
          h in
      elim (Bool-cases
        (write_file env.write (lock_file path) (lock_content tf owner exp path) m.files).1) [
          | inl done ↦ rw done more
          | inr failed ↦ rw failed (In-erase_ne p rec path _ ne more)
        ]

  In-after_dir :
      (env : Env) (path owner : Text) (ttl : ℤ) (m : Manager) (found : Option Text)
      → path ≢ p
      → In (p, rec) m.mem
      → In (p, rec) (after_dir tf env path owner ttl m found).0.mem
  unfolding after_dir
  In-after_dir env path owner ttl m none ne h = In-store_lock env path owner ttl m ne h
  In-after_dir env path owner ttl m (some other) ne h = h

  In-after_mem :
      (env : Env) (path owner : Text) (ttl : ℤ) (m : Manager) (found : Option Text)
      → (found ≡ none → path ≢ p)
      → In (p, rec) m.mem
      → In (p, rec) (after_mem tf env path owner ttl m found).0.mem
  unfolding after_mem
  In-after_mem env path owner ttl m none ne h = In-after_dir env path owner ttl _ _ (ne refl) h
  In-after_mem env path owner ttl m (some other) ne h = h

  Apart-ne : (path : Text) (m : Dict LockRecord) → All (Apart path) m → In (p, rec) m → path ≢ p
  Apart-ne path m apart h e =
      cc (All-In (Apart path) m (p, rec) apart h, ap (overlaps path) e, overlaps_refl path)

  In-acquire_clean :
      (env : Env) (path owner : Text) (ttl : ℤ) (m : Manager)
      → before rec.expires_at env.now ≡ false
      → In (p, rec) m.mem
      → In (p, rec) (acquire_clean tf env path owner ttl m).0.mem
  unfolding acquire_clean
  In-acquire_clean env path owner ttl m live h =
      let kept = In-scan_mem p rec by_key path env.now m.mem live h in
      In-after_mem env path owner ttl _ _
        (λ e. Apart-ne path _ (scan_mem-apart by_key path env.now m.mem e) kept) kept

  In-query_clean :
      (env : Env) (path : Text) (m : Manager)
      → before rec.expires_at env.now ≡ false
      → In (p, rec) m.mem
      → In (p, rec) (query_clean tf env path m).0.mem
  unfolding query_clean
  In-query_clean env path m live h =
      let (mem, found) = scan_mem by_record path env.now m.mem in
      subst (In (p, rec)) (sym (query_dir-mem tf env path (record m { mem = mem }) found))
        (In-scan_mem p rec by_record path env.now m.mem live h)

module _ (p : Text) (rec : LockRecord) where
  lookup-In : (m : Dict LockRecord) → IsExclusive m → In (p, rec) m → lookup p m ≡ some rec
  unfolding lookup
  lookup-In [] x h = absurd h
  lookup-In ((q, r) ∷ m) x (inl e) =
      rw (ap (λ (s : Slot). s.0 == p) (sym e) ∙ ==_refl p) (ap (λ (s : Slot). some s.1) (sym e))
  lookup-In ((q, r) ∷ m) x (inr h) = elim (Bool-cases (q == p)) [
    | inl same ↦
        cc (All-In (Apart q) m (p, rec) x.1 h, ap (overlaps q) (==→≡ q p same), overlaps_refl q)
    | inr other ↦ rw other (lookup-In m x.2 h)
  ]

  -- A `Release` that leaves the record in memory: of another path, or by another named owner.
  abbrev pub IsForeign : Text → Text → Type 0
  IsForeign path owner = (path ≢ p) ⊎ ((owner ≢ []) × (rec.owner ≢ owner))

  In-released :
      (path owner : Text) (found : Option LockRecord) (mem : Dict LockRecord)
      → IsForeign path owner
      → (path ≡ p → found ≡ some rec)
      → In (p, rec) mem
      → In (p, rec) (released path owner found mem)
  unfolding released
  In-released path owner none mem foreign own h = h
  In-released path owner (some r) mem (inl ne) own h =
      elim (Bool-cases (owner == [] || r.owner == owner)) [
        | inl drop ↦ rw drop (In-erase_ne p rec path mem ne h)
        | inr keep ↦ rw keep h
      ]
  In-released path owner (some r) mem (inr (named, other)) own h = elim (Bool-cases (path == p)) [
    | inl same ↦ rw (keep (==→≡ path p same)) h
    | inr ne ↦ elim (Bool-cases (owner == [] || r.owner == owner)) [
      | inl drop ↦ rw drop (In-erase_ne p rec path mem (λ e. cc (ne, (==_iff path p).1 e)) h)
      | inr keep ↦ rw keep h
    ]
  ]
    where
      keep : path ≡ p → (owner == [] || r.owner == owner) ≡ false
      keep e = ground (arith, own e, ==_iff owner [], ==_iff r.owner owner, named, other)

  -- A call that comes in the lock's time, and does not give it back.
  abbrev pub IsHarmless : Call → Type 0
  IsHarmless (acquire env path owner ttl) = before rec.expires_at env.now ≡ false
  IsHarmless (query env path) = before rec.expires_at env.now ≡ false
  IsHarmless (give_back removes path owner) = IsForeign (clean_path path) owner
  IsHarmless restart = ⊥

module _ (tf : TimeText) (p : Text) (rec : LockRecord) where
  In-after_call :
      (c : Call) (m : Manager)
      → IsExclusive m.mem
      → IsHarmless p rec c
      → In (p, rec) m.mem
      → In (p, rec) (after_call tf c m).mem
  unfolding after_call try_acquire is_locked release
  In-after_call (acquire env path owner ttl) m x live h =
      In-acquire_clean tf p rec env (clean_path path) owner ttl m live h
  In-after_call (query env path) m x live h = In-query_clean tf p rec env (clean_path path) m live h
  In-after_call (give_back removes path owner) m x foreign h =
      In-released p rec (clean_path path) owner (lookup (clean_path path) m.mem) m.mem foreign
        (λ e. ap (λ q. lookup q m.mem) e ∙ lookup-In p rec m.mem x h) h
  In-after_call restart m x harmless h = absurd harmless

  -- The record outlives any calls that do not give it back.
  pub In-after_calls :
      (calls : List Call) (m : Manager)
      → IsExclusive m.mem
      → All (IsHarmless p rec) calls
      → In (p, rec) m.mem
      → In (p, rec) (after_calls tf calls m).mem
  unfolding after_calls
  In-after_calls [] m x harmless h = h
  In-after_calls (c ∷ calls) m x harmless h =
      In-after_calls calls (after_call tf c m) (after_call-IsExclusive tf c m x) harmless.1
        (In-after_call c m x harmless.0 h)
