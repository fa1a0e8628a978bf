-- ===== src/Tests/Locks.antt =====
-- The lock manager at concrete calls.
use http_syncer.Base.{
  ◌≡◌, refl, ◌↔◌, ◌≢◌, inr, true, false, List, [], ◌∷◌, Option, none, some, Text, text, ◌==◌,
  has_prefix, lookup, insert, erase, split, replace_all, trim_space, trim_left, is_space, has_char,
  trim_prefix, has_suffix,
}
use http_syncer.Base.Int.{ℤ, pos, negsuc, ◌+ℤ◌}
use http_syncer.Path.{clean}
use http_syncer.Lock.{
  Manager, TimeText, Env, written, acquired, locked_by, new_manager, try_acquire, acquire_clean,
  after_mem, after_dir, store_lock, write_file, lock_content, parse_lock_file, judge, scan_mem,
  scan_files, scan_dir, release, released, is_locked, query_clean, query_dir, clean_path, overlaps,
  lock_file, parse_parts, Acquired,
}
use http_syncer.Lock.Overlap.{Clash, overlaps_iff}
use http_syncer.Lock.Exclusion.{
  Call, acquire, give_back, query, restart, after_calls, IsExclusive, after_calls-IsExclusive,
}
use http_syncer.Lock.Files.{parse_lock_file-lock_content}
use http_syncer.Lock.Returned.{live, release-try_acquire}
use http_syncer.Lock.Restart.{acquired-restart}
use http_syncer.Lock.Holding.{acquired-excludes, acquired-is_locked, state_after}

-- A time is written as one character.
abbrev stamp : ℤ → Text
stamp (pos n) = n ∷ []
stamp (negsuc n) = []

abbrev read_stamp : Text → Option ℤ
read_stamp (n ∷ []) = some (pos n)
read_stamp _ = none

abbrev pub stamps : TimeText
stamps = record { format = stamp; parse = read_stamp }

abbrev pub at_time : ℤ → Env
at_time t = record {
  now = t;
  listed = true;
  reads = λ name. true;
  removes = λ name. true;
  write = written;
}

attempt : Env → Text → Text → ℤ → Manager → Manager × Acquired
unfolding try_acquire acquire_clean after_mem after_dir store_lock write_file lock_content
    parse_lock_file parse_parts judge scan_mem scan_files scan_dir clean_path overlaps lock_file
    insert erase ◌==◌ has_prefix split replace_all trim_space trim_left is_space trim_prefix
    has_suffix clean ◌+ℤ◌
attempt = try_acquire stamps

ask : Env → Text → Manager → Manager × Option Text
unfolding attempt is_locked query_clean query_dir
ask = is_locked stamps

abbrev pub m0 : Manager
m0 = new_manager []

abbrev core : Text
core = text "module:core"

first_attempt : (attempt (at_time (pos 1000)) core (text "up") (pos 60) m0).1 ≡ acquired
unfolding attempt new_manager
first_attempt = refl

second_attempt :
    (attempt
      (at_time (pos 1010))
      (text "module:core/sub")
      (text "other")
      (pos 60)
      (attempt (at_time (pos 1000)) core (text "up") (pos 60) m0).0).1
    ≡ locked_by (text "up")
unfolding attempt new_manager
second_attempt = refl

-- The lock is in its file, so a restart does not lose it, and it ends by itself.
restarted :
    ((ask
        (at_time (pos 1060))
        core
        (new_manager (attempt (at_time (pos 1000)) core (text "up") (pos 60) m0).0.files)).1
      ≡ some (text "up"))
    × ((ask
          (at_time (pos 1061))
          core
          (new_manager (attempt (at_time (pos 1000)) core (text "up") (pos 60) m0).0.files)).1
        ≡ none)
unfolding ask new_manager
restarted = (refl, refl)

overlaps_iff_example :
    (overlaps (text "a/b") (text "a") ≡ true)
    ↔ Clash (clean_path (text "a/b")) (clean_path (text "a"))
overlaps_iff_example = overlaps_iff (text "a/b") (text "a")

abbrev calls : List Call
calls =
    query (at_time (pos 1010)) core
    ∷ give_back true core (text "other")
    ∷ acquire (at_time (pos 1020)) (text "module:docs") (text "up") (pos 5)
    ∷ []

after_calls-IsExclusive_example :
    IsExclusive (after_calls stamps (restart ∷ calls) (new_manager [])).mem
after_calls-IsExclusive_example = after_calls-IsExclusive stamps (restart ∷ calls) []

named : ◌≢◌ {A = Text} (text "other") []
named h = cc

foreign : ◌≢◌ {A = Text} (text "up") (text "other")
foreign h = cc

acquired-excludes_example :
    (other : Text) × ((try_acquire stamps
        (at_time (pos 1060))
        core
        (text "x")
        (pos 9)
        (state_after stamps (at_time (pos 1000)) core (text "up") (pos 60) m0 calls)).1
      ≡ locked_by other)
unfolding attempt new_manager
acquired-excludes_example =
    acquired-excludes stamps (at_time (pos 1000)) core (text "up") (pos 60) m0 calls tt refl
      (refl, (inr (named, foreign), (refl, tt))) (at_time (pos 1060)) core (text "x") (pos 9) refl
      refl

acquired-is_locked_example :
    (is_locked stamps
      (at_time (pos 1060))
      core
      (state_after stamps (at_time (pos 1000)) core (text "up") (pos 60) m0 calls)).1
    ≡ some (text "up")
unfolding attempt new_manager
acquired-is_locked_example =
    acquired-is_locked stamps (at_time (pos 1000)) core (text "up") (pos 60) m0 calls tt refl
      (refl, (inr (named, foreign), (refl, tt))) (at_time (pos 1060)) refl

parse_lock_file-lock_content_example :
    parse_lock_file stamps (some (lock_content stamps (text "up") (pos 1060) (text "module:core")))
    ≡ some (text "up", pos 1060, clean_path (text "module:core"))
unfolding is_space has_char
parse_lock_file-lock_content_example =
    parse_lock_file-lock_content stamps b'u' (text "p") (pos 1060) (text "module:cor") b'e' refl
      refl refl refl refl refl

abbrev taken : Manager
taken = (try_acquire stamps (at_time (pos 1000)) core (text "up") (pos 60) m0).0

abbrev restarted_over : Manager
restarted_over =
    new_manager
      (try_acquire stamps (at_time (pos 1000)) (text "module:core") (text "up") (pos 60) m0).0.files

acquired-restart_example :
    (other : Text) × ((is_locked stamps (at_time (pos 1010)) (text "module:core") restarted_over).1
      ≡ some other)
    × ((owner' : Text) (ttl' : ℤ)
        → (try_acquire stamps
            (at_time (pos 1010))
            (text "module:core")
            owner'
            ttl'
            restarted_over).1
          ≡ locked_by other)
unfolding attempt new_manager is_space has_char
acquired-restart_example =
    acquired-restart stamps (at_time (pos 1000)) b'u' (text "p") (text "module:cor") b'e' (pos 60)
      m0 refl refl refl refl refl refl refl refl (at_time (pos 1010)) refl refl refl

-- One lock that is held, and one that has expired.
abbrev busy : Manager
busy = record {
  mem =
      (
        text "module:docs",
        record { path = text "module:docs"; owner = text "x"; expires_at = pos 1005 },
      )
      ∷ (
        text "module:old",
        record { path = text "module:old"; owner = text "y"; expires_at = pos 5 },
      )
      ∷ [];
  files = [];
}

release-try_acquire_example :
    (release false core
      (text "up")
      (try_acquire stamps (at_time (pos 1000)) core (text "up") (pos 60) busy).0).mem
    ≡ live (pos 1000) busy.mem
unfolding attempt
release-try_acquire_example =
    release-try_acquire stamps (at_time (pos 1000)) (text "up") (pos 60) core busy false refl

-- `Release` by another owner leaves the record in memory and removes the file, so that after a restart
-- another owner takes the lock at once.
stolen :
    (attempt
      (at_time (pos 1010))
      core
      (text "other")
      (pos 60)
      (new_manager (release true core (text "other") taken).files)).1
    ≡ acquired
unfolding attempt new_manager release released lookup
stolen = refl
