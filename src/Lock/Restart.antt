-- ===== src/Lock/Restart.antt =====
-- Locks of internal/lock/manager.go that outlive the process by their files.
use http_syncer.Base.{
  ◌≡◌, refl, sym, ap, ◌∙◌, subst, true, false, Bool-cases, inl, inr, [], ◌∷◌, ◌++◌, Option, none,
  some, Text, text, Dict, insert, erase, In, has_char, is_space, ℕ, if◌then◌else◌,
}
use http_syncer.Base.Int.{ℤ, ◌+ℤ◌}
use http_syncer.Filter.Laws.{has_suffix-append}
use http_syncer.Lock.{
  DirEntry, regular, Manager, TimeText, Env, Write, written, refused, Verdict, skipped, stale, free,
  held, acquired, locked_by, bar, overlaps, clean_path, normalize_path, lock_file, lock_content,
  parse_lock_file, judge, scan_files, scan_dir, scan_mem, before, try_acquire, acquire_clean,
  after_mem, after_dir, store_lock, write_file, is_locked, query_clean, query_dir, new_manager,
}
use http_syncer.Lock.Overlap.{overlaps_refl}
use http_syncer.Lock.Files.{parse_lock_file-lock_content}
use http_syncer.Lock.Kept.{In-insert_self}

written_inv :
    (write : Write) (name content : Text) (files : Dict DirEntry)
    → (write_file write name content files).1 ≡ true
    → (write_file write name content files).0 ≡ insert name (regular (some content)) files
unfolding write_file
written_inv written name content files h = refl
written_inv (refused none) name content files h = absurd (cc)
written_inv (refused (some junk)) name content files h = absurd (cc)

module _ (tf : TimeText) where
  stored_file :
      (env : Env) (path owner : Text) (ttl : ℤ) (m : Manager)
      → (store_lock tf env path owner ttl m).1 ≡ acquired
      → (store_lock tf env path owner ttl m).0.files
        ≡ insert
            (lock_file path)
            (regular (some (lock_content tf owner (env.now +ℤ ttl) path)))
            m.files
  unfolding store_lock
  stored_file env path owner ttl m h =
      let content = lock_content tf owner (env.now +ℤ ttl) path in
      elim (Bool-cases (write_file env.write (lock_file path) content m.files).1) [
        | inl done ↦ rw done (written_inv env.write (lock_file path) content m.files done)
        | inr failed ↦ cc (rw failed at h)
      ]

  -- The lock file that a call leaves.
  abbrev HasFile : Env → Text → Text → ℤ → Dict DirEntry → Type 0
  HasFile env path owner ttl files =
      In (lock_file path, regular (some (lock_content tf owner (env.now +ℤ ttl) path))) files

  after_dir-HasFile :
      (env : Env) (path owner : Text) (ttl : ℤ) (m : Manager) (found : Option Text)
      → (after_dir tf env path owner ttl m found).1 ≡ acquired
      → HasFile env path owner ttl (after_dir tf env path owner ttl m found).0.files
  unfolding after_dir
  after_dir-HasFile env path owner ttl m (some other) h = absurd (cc)
  after_dir-HasFile env path owner ttl m none h =
      rw (stored_file env path owner ttl m h) (In-insert_self (lock_file path) _ m.files)

  after_mem-HasFile :
      (env : Env) (path owner : Text) (ttl : ℤ) (m : Manager) (found : Option Text)
      → (after_mem tf env path owner ttl m found).1 ≡ acquired
      → HasFile env path owner ttl (after_mem tf env path owner ttl m found).0.files
  unfolding after_mem
  after_mem-HasFile env path owner ttl m (some other) h = absurd (cc)
  after_mem-HasFile env path owner ttl m none h = after_dir-HasFile env path owner ttl _ _ h

  acquired-HasFile :
      (env : Env) (path owner : Text) (ttl : ℤ) (m : Manager)
      → (try_acquire tf env path owner ttl m).1 ≡ acquired
      → HasFile env (clean_path path) owner ttl (try_acquire tf env path owner ttl m).0.files
  unfolding try_acquire acquire_clean
  acquired-HasFile env path owner ttl m h = after_mem-HasFile env (clean_path path) owner ttl _ _ h

  module _ (env : Env) (path : Text) where
    -- The rest of the scan finds an owner, or the first entry is one's.
    further :
        (n : Text) (x : DirEntry) (es files : Dict DirEntry)
        → ((left : Dict DirEntry)
            → (other : Text) × ((scan_files tf env path es left).1 ≡ some other))
        → (v : Verdict) → judge tf env path n x ≡ v
        → (other : Text) × ((scan_files tf env path ((n, x) ∷ es) files).1 ≡ some other)
    unfolding scan_files
    further n x es files rest skipped q =
        let (other, found) = rest files in (other, rw (q, scan_files) found)
    further n x es files rest free q =
        let (other, found) = rest files in (other, rw (q, scan_files) found)
    further n x es files rest stale q =
        let (other, found) = rest (if env.removes n then erase n files else files) in
        (other, rw (q, scan_files) found)
    further n x es files rest (held first) q = (first, rw (q, scan_files) refl)

    first_held :
        (n : Text) (x : DirEntry) (owner : Text) (es files : Dict DirEntry)
        → judge tf env path n x ≡ held owner
        → (scan_files tf env path ((n, x) ∷ es) files).1 ≡ some owner
    unfolding scan_files
    first_held n x owner es files q = rw (q, scan_files) refl

    scan_files-held :
        (name : Text) (e : DirEntry) (owner : Text) (es files : Dict DirEntry)
        → judge tf env path name e ≡ held owner
        → In (name, e) es
        → (other : Text) × ((scan_files tf env path es files).1 ≡ some other)
    scan_files-held name e owner [] files judged m = absurd m
    scan_files-held name e owner ((n, x) ∷ es) files judged (inl q) = (
      owner,
      first_held n x owner es files
          (ap (λ (s : Text × DirEntry). judge tf env path s.0 s.1) (sym q) ∙ judged),
    )
    scan_files-held name e owner ((n, x) ∷ es) files judged (inr m) =
        further n x es files (λ left. scan_files-held name e owner es left judged m)
          (judge tf env path n x) refl

  judged_held :
      (later : Env) (path owner content locked_path : Text) (exp : ℤ)
      → parse_lock_file tf (some content) ≡ some (owner, exp, locked_path)
      → later.reads (lock_file path) ≡ true
      → before exp later.now ≡ false
      → overlaps path locked_path ≡ true
      → judge tf later path (lock_file path) (regular (some content)) ≡ held owner
  unfolding judge lock_file
  judged_held later path owner content locked_path exp parsed readable live clash =
      rw (has_suffix-append (normalize_path path) (text ".lock"), readable, parsed, live, clash)
        refl

  -- The scan of a directory that holds the file finds an owner.
  found_after :
      (later : Env) (path owner content locked_path : Text) (exp : ℤ) (files : Dict DirEntry)
      → judge tf later path (lock_file path) (regular (some content)) ≡ held owner
      → later.listed ≡ true
      → In (lock_file path, regular (some content)) files
      → (other : Text) × ((scan_dir tf later path files).1 ≡ some other)
  unfolding scan_dir
  found_after later path owner content locked_path exp files judged listed there =
      let (other, found) =
        scan_files-held later path (lock_file path) (regular (some content)) owner files files
          judged there in
      (
        other,
        ap (λ b. (if b then scan_files tf later path files files else (files, none)).1) listed
            ∙ found,
      )

  blocked_after :
      (later : Env) (path other : Text) (files : Dict DirEntry)
      → clean_path path ≡ path
      → (scan_dir tf later path files).1 ≡ some other
      → ((is_locked tf later path (new_manager files)).1 ≡ some other)
        × ((owner : Text) (ttl : ℤ)
            → (try_acquire tf later path owner ttl (new_manager files)).1 ≡ locked_by other)
  unfolding is_locked query_clean query_dir new_manager scan_mem try_acquire acquire_clean after_mem
  blocked_after later path other files cleaned found =
      (rw cleaned found, λ owner ttl. rw cleaned (rw found (unfold after_dir in refl)))

  -- Once `TryAcquire` of a cleaned path has succeeded, and after a restart of the process, as long as the
  -- lock has not expired, if the lock directory is listed and the lock's file is read: `IsLocked` of the
  -- path answers an owner, and every `TryAcquire` of it fails and is told this owner. The lock's owner
  -- begins with no white space and the path does not end in it, neither they nor the time's text hold a
  -- bar, and the layout of times reads back the time at which the lock expires.
  pub acquired-restart :
      (env : Env) (a : ℕ) (owner base : Text) (z : ℕ) (ttl : ℤ) (m : Manager)
      → clean_path (base ++ z ∷ []) ≡ base ++ z ∷ []
      → is_space a ≡ false
      → is_space z ≡ false
      → has_char bar (a ∷ owner) ≡ false
      → has_char bar (tf.format (env.now +ℤ ttl)) ≡ false
      → has_char bar (base ++ z ∷ []) ≡ false
      → tf.parse (tf.format (env.now +ℤ ttl)) ≡ some (env.now +ℤ ttl)
      → (try_acquire tf env (base ++ z ∷ []) (a ∷ owner) ttl m).1 ≡ acquired
      → (later : Env) → later.listed ≡ true
      → later.reads (lock_file (base ++ z ∷ [])) ≡ true
      → before (env.now +ℤ ttl) later.now ≡ false
      → let restarted =
          new_manager (try_acquire tf env (base ++ z ∷ []) (a ∷ owner) ttl m).0.files in
        (other : Text) × ((is_locked tf later (base ++ z ∷ []) restarted).1 ≡ some other)
        × ((owner' : Text) (ttl' : ℤ)
            → (try_acquire tf later (base ++ z ∷ []) owner' ttl' restarted).1 ≡ locked_by other)
  acquired-restart env a owner base z ttl m cleaned ha hz ho ht hp back success later listed
        readable live =
      let path = base ++ z ∷ [] in
      let exp = env.now +ℤ ttl in
      let content = lock_content tf (a ∷ owner) exp path in
      let files = (try_acquire tf env path (a ∷ owner) ttl m).0.files in
      let there : HasFile env path (a ∷ owner) ttl files =
        subst (λ p. HasFile env p (a ∷ owner) ttl files) cleaned
          (acquired-HasFile env path (a ∷ owner) ttl m success) in
      let parsed : parse_lock_file tf (some content) ≡ some (a ∷ owner, exp, path) =
        parse_lock_file-lock_content tf a owner exp base z ha hz ho ht hp back
        ∙ ap (λ p. some (a ∷ owner, exp, p)) cleaned in
      let judged =
        judged_held later path (a ∷ owner) content path exp parsed readable live
          (overlaps_refl path) in
      let (other, found) =
        found_after later path (a ∷ owner) content path exp files judged listed there in
      let (queried, tried) = blocked_after later path other files cleaned found in
      (other, queried, tried)
