-- ===== src/Client/DownloadAll.antt =====
-- downloadAll of internal/client/client.go. The goroutines are taken one after another, in the order of
-- the checksums, as they run when DownloadConcurrency is 1.
pub mod Counts
pub mod Groups
pub mod Contents
pub mod Stored
pub mod Keeping
pub mod Honest
pub mod Succeeds
pub mod Linked
use http_syncer.Base.{
  ℕ, ◌+◌, Bool, true, false, not, ◌||◌, has_char, ◌==◌, List, [], ◌∷◌, ◌++◌, Option, none, some,
  Text, text, Dict, lookup, insert, length, if◌then◌else◌,
}
use http_syncer.Snapshot.{ManifestEntry, sort_by}
use http_syncer.Client.Download.{Store, Disk, Reply, download_object}
use http_syncer.Client.Promote.{TargetFile, Target, PromoteEnv, promote, object_path, part_path}
use http_syncer.Path.{slash}

abbrev pub group_of : Option (List ManifestEntry) → List ManifestEntry
group_of none = []
group_of (some group) = group

-- The loop that makes the groups.
unfoldable pub add_groups :
    List ManifestEntry → Dict (List ManifestEntry) → Dict (List ManifestEntry)
add_groups [] groups = groups
add_groups (e ∷ entries) groups =
    add_groups entries (insert e.checksum (group_of (lookup e.checksum groups) ++ e ∷ []) groups)

-- The groups, each in the order of its paths, in the order of their checksums.
unfoldable pub sorted_groups : List ManifestEntry → Dict (List ManifestEntry)
sorted_groups entries = sort_by (λ slot. slot.0) (add_groups entries [])

-- The counts, and whether an error was set.
pub record Tally : Type 0 where
  pub downloaded : ℕ
  pub bytes_written : ℕ
  pub failed : Bool

-- What happens while a group is handled: whether the context has ended before it, as it may after an
-- error, the server's answers, what the file system says, and what becomes of all if the object's paths
-- are not free.
pub record GroupEnv : Type 0 where
  pub stopped : Bool
  pub server : ℕ → Option Reply
  pub disk : Disk
  pub promotion : PromoteEnv
  pub astray : Target × Tally → Target × Tally

abbrev pub fail : Tally → Tally
fail n = record n { failed = true }

abbrev pub count : ℕ → ℕ → Tally → Tally
count files written n = record n {
  downloaded = n.downloaded + files;
  bytes_written = n.bytes_written + written;
}

module _ (sum : Text → Text) (root : Text) where
  abbrev pub after_promotion : ℕ → ℕ → Tally → Target × Bool → Target × Tally
  after_promotion files written n (t, false) = (t, fail n)
  after_promotion files written n (t, true) = (t, count files written n)

  abbrev pub after_download :
      GroupEnv
      → Text
      → List ManifestEntry
      → Dict TargetFile
      → Tally
      → Store × Option ℕ
      → Target × Tally
  after_download env checksum group files n (st, none) =
      (record { store = st; files = files }, fail n)
  after_download env checksum group files n (st, some written) =
      after_promotion (length group) written n
        (promote root env.promotion checksum group (record { store = st; files = files }))

  abbrev pub is_there : Option TargetFile → Bool
  is_there none = false
  is_there (some file) = true

  -- Whether a checksum is no name of a file of the object store.
  abbrev pub bad_name : Text → Bool
  bad_name checksum =
      has_char slash checksum
      || checksum == []
      || checksum == text "."
      || checksum == text ".."
      || checksum == text ".staging"

  -- Whether the paths of an object and of its part are not free: the checksum is no name of a file there,
  -- or a link lies where the object or the part has to be.
  unfoldable pub taken : Text → Dict TargetFile → Bool
  taken checksum files =
      bad_name checksum
      || is_there (lookup (object_path root checksum) files)
      || is_there (lookup (part_path root checksum) files)

  -- The body of a goroutine. A group is never empty. What the system does with paths that are not free,
  -- where it follows links, is left open.
  unfoldable pub run_group : GroupEnv → List ManifestEntry → Target × Tally → Target × Tally
  run_group env [] state = state
  run_group env (first ∷ group) (t, n) =
      if taken first.checksum t.files
      then env.astray (t, n)
      else after_download env first.checksum (first ∷ group) t.files n
          (download_object sum env.disk first env.server t.store)

  -- The loop over the checksums.
  unfoldable pub run_groups :
      (Text → GroupEnv) → Dict (List ManifestEntry) → Target × Tally → Target × Tally
  run_groups env [] state = state
  run_groups env ((checksum, group) ∷ groups) state =
      let next =
        run_groups env groups (run_group (env checksum) (sort_by (λ e. e.path) group) state) in
      if (env checksum).stopped then state else next

  -- `downloadAll`, with the object store's folder made or not
  unfoldable pub download_all :
      Bool → (Text → GroupEnv) → List ManifestEntry → Target → Target × Tally
  download_all makes env entries t =
      let none_yet : Tally = record { downloaded = 0; bytes_written = 0; failed = false } in
      elim entries [
        | [] ↦ (t, none_yet)
        | e ∷ rest ↦
            if not makes
            then (t, fail none_yet)
            else run_groups env (sorted_groups (e ∷ rest)) (t, none_yet)
      ]
