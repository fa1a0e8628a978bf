-- ===== src/Lock.antt =====
-- internal/lock/manager.go: the table of locks in memory and the lock files beside it. The
-- directory is the list of its entries, and no directory in it carries a lock file's name. What
-- the operating system decides (the time, whether the listing, the reads, the removals and the write succeed) is an `Env`.
mod Paths
pub mod Overlap
pub mod Scan
pub mod Exclusion
pub mod Kept
pub mod Holding
pub mod Files
pub mod Returned
pub mod Restart
unfoldable pub use Paths.{normalize_path, lock_file, clean_path, overlaps_clean, overlaps}
use http_syncer.Base.{
  ℕ, Bool, true, false, not, ◌&&◌, ◌||◌, List, [], ◌∷◌, ◌++◌, Option, none, some, Text, text, ◌==◌,
  Dict, lookup, insert, erase, split, trim_space, has_suffix, if◌then◌else◌,
}
use http_syncer.Base.Int.{ℤ, ◌+ℤ◌, ltb_ℤ}

pub record LockRecord : Type 0 where
  pub path : Text
  pub owner : Text
  pub expires_at : ℤ

-- An entry of the lock directory; a file whose contents cannot be read holds `none`.
pub data DirEntry : Type 0 where
  folder : DirEntry
  regular : Option Text → DirEntry

pub record Manager : Type 0 where
  pub mem : Dict LockRecord
  pub files : Dict DirEntry

-- `NewManager`, and what a restart of the process keeps.
unfoldable pub new_manager : Dict DirEntry → Manager
new_manager files = record { mem = []; files = files }

-- `time.Time`'s text in the layout RFC3339Nano.
pub record TimeText : Type 0 where
  pub format : ℤ → Text
  pub parse : Text → Option ℤ

-- `os.WriteFile`: on an error the file is left alone, or holds some other text.
pub data Write : Type 0 where
  written : Write
  refused : Option Text → Write

pub record Env : Type 0 where
  pub now : ℤ
  pub listed : Bool
  pub reads : Text → Bool
  pub removes : Text → Bool
  pub write : Write

pub data Acquired : Type 0 where
  acquired : Acquired
  locked_by : Text → Acquired
  write_error : Acquired

-- t.Before(u)
abbrev pub before : ℤ → ℤ → Bool
before t u = ltb_ℤ t u

-- The loop over `m.mem`, with the path that a record is compared by: the records that are left,
-- and the owner of the first one in the way.
unfoldable pub scan_mem :
    (Text → LockRecord → Text) → Text → ℤ → Dict LockRecord → Dict LockRecord × Option Text
scan_mem key path now [] = ([], none)
scan_mem key path now ((p, rec) ∷ m) =
    let (kept, found) = scan_mem key path now m in
    if before rec.expires_at now
    then (kept, found)
    else if overlaps path (key p rec)
    then ((p, rec) ∷ m, some rec.owner)
    else ((p, rec) ∷ kept, found)

abbrev pub by_key : Text → LockRecord → Text
by_key p rec = p

abbrev pub by_record : Text → LockRecord → Text
by_record p rec = rec.path

abbrev pub bar : ℕ
bar = b'|'

unfoldable pub lock_content : TimeText → Text → ℤ → Text → Text
lock_content tf owner exp path = owner ++ (bar ∷ (tf.format exp ++ (bar ∷ path)))

abbrev timed : Text → Text → Option ℤ → Option (Text × ℤ × Text)
timed owner path none = none
timed owner path (some exp) = some (owner, exp, clean_path path)

unfoldable pub parse_parts : TimeText → List Text → Option (Text × ℤ × Text)
parse_parts tf (owner ∷ exp ∷ path ∷ []) = timed owner path (tf.parse exp)
parse_parts tf _ = none

unfoldable pub parse_lock_file : TimeText → Option Text → Option (Text × ℤ × Text)
parse_lock_file tf none = none
parse_lock_file tf (some b) = parse_parts tf (split bar (trim_space b))

-- What the loops over the directory do with one entry.
pub data Verdict : Type 0 where
  skipped stale free : Verdict
  held : Text → Verdict

abbrev judge_parsed : Text → ℤ → Option (Text × ℤ × Text) → Verdict
judge_parsed path now none = stale
judge_parsed path now (some (owner, exp, locked_path)) =
    if before exp now then stale else if overlaps path locked_path then held owner else free

unfoldable pub judge : TimeText → Env → Text → Text → DirEntry → Verdict
judge tf env path name folder = skipped
judge tf env path name (regular content) =
    if not (has_suffix name (text ".lock"))
    then skipped
    else judge_parsed path env.now (parse_lock_file tf (if env.reads name then content else none))

-- The loop over the directory's entries: the files that are left, with the stale ones that cannot be
-- removed, and the first owner in the way.
unfoldable pub scan_files :
    TimeText → Env → Text → Dict DirEntry → Dict DirEntry → Dict DirEntry × Option Text
scan_files tf env path [] files = (files, none)
scan_files tf env path ((name, e) ∷ es) files = elim (judge tf env path name e) [
  | skipped ↦ scan_files tf env path es files
  | free ↦ scan_files tf env path es files
  | stale ↦ scan_files tf env path es (if env.removes name then erase name files else files)
  | held owner ↦ (files, some owner)
]

-- The loop, unless the directory cannot be listed.
unfoldable pub scan_dir : TimeText → Env → Text → Dict DirEntry → Dict DirEntry × Option Text
scan_dir tf env path files =
    if env.listed then scan_files tf env path files files else (files, none)

unfoldable pub write_file : Write → Text → Text → Dict DirEntry → Dict DirEntry × Bool
write_file written name content files = (insert name (regular (some content)) files, true)
write_file (refused none) name content files = (files, false)
write_file (refused (some junk)) name content files =
    (insert name (regular (some junk)) files, false)

-- The end of `TryAcquire`, once nothing is in the way: the record is taken back if the write fails.
unfoldable pub store_lock : TimeText → Env → Text → Text → ℤ → Manager → Manager × Acquired
store_lock tf env path owner ttl m =
    let exp = env.now +ℤ ttl in
    let mem = insert path (record { path = path; owner = owner; expires_at = exp }) m.mem in
    let content = lock_content tf owner exp path in
    let (files, done) = write_file env.write (lock_file path) content m.files in
    if done
    then (record { mem = mem; files = files }, acquired)
    else (record { mem = erase path mem; files = files }, write_error)

-- The rest of `TryAcquire` after the loop over the directory, and after that over the memory.
unfoldable pub after_dir :
    TimeText → Env → Text → Text → ℤ → Manager → Option Text → Manager × Acquired
after_dir tf env path owner ttl m (some other) = (m, locked_by other)
after_dir tf env path owner ttl m none = store_lock tf env path owner ttl m

unfoldable pub after_mem :
    TimeText → Env → Text → Text → ℤ → Manager → Option Text → Manager × Acquired
after_mem tf env path owner ttl m (some other) = (m, locked_by other)
after_mem tf env path owner ttl m none =
    let (files, found) = scan_dir tf env path m.files in
    after_dir tf env path owner ttl (record m { files = files }) found

unfoldable pub acquire_clean : TimeText → Env → Text → Text → ℤ → Manager → Manager × Acquired
acquire_clean tf env path owner ttl m =
    let (mem, found) = scan_mem by_key path env.now m.mem in
    after_mem tf env path owner ttl (record m { mem = mem }) found

unfoldable pub try_acquire : TimeText → Env → Text → Text → ℤ → Manager → Manager × Acquired
try_acquire tf env path owner ttl m = acquire_clean tf env (clean_path path) owner ttl m

-- An empty owner releases anybody's lock.
unfoldable pub released : Text → Text → Option LockRecord → Dict LockRecord → Dict LockRecord
released path owner none mem = mem
released path owner (some rec) mem =
    if owner == [] || rec.owner == owner then erase path mem else mem

-- Whether the file is removed is not looked at.
unfoldable pub release : Bool → Text → Text → Manager → Manager
release removes path owner m =
    let path' = clean_path path in
    record {
      mem = released path' owner (lookup path' m.mem) m.mem;
      files = if removes then erase (lock_file path') m.files else m.files;
    }

unfoldable pub query_dir : TimeText → Env → Text → Manager → Option Text → Manager × Option Text
query_dir tf env path m (some owner) = (m, some owner)
query_dir tf env path m none =
    let (files, found) = scan_dir tf env path m.files in (record m { files = files }, found)

unfoldable pub query_clean : TimeText → Env → Text → Manager → Manager × Option Text
query_clean tf env path m =
    let (mem, found) = scan_mem by_record path env.now m.mem in
    query_dir tf env path (record m { mem = mem }) found

-- `IsLocked`: the owner in the way, if there is one.
unfoldable pub is_locked : TimeText → Env → Text → Manager → Manager × Option Text
is_locked tf env path m = query_clean tf env (clean_path path) m
