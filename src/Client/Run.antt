-- ===== src/Client/Run.antt =====
-- `Run` of internal/client/client.go, from the maps of remote and of local files on.
pub mod Reaches
use http_syncer.Base.{
  ℕ, zero, suc, Bool, true, false, not, List, [], ◌∷◌, Option, none, some, Text, Dict,
  if◌then◌else◌,
}
use http_syncer.Path.{join_path}
use http_syncer.Snapshot.{ManifestEntry}
use http_syncer.Server.{Answer}
use http_syncer.Client.Plan.{GuardConfig, make_plan}
use http_syncer.Client.Promote.{Target, remove_path}
use http_syncer.Client.DownloadAll.{GroupEnv, Tally, download_all}
use http_syncer.Client.Commit.{is_accepted}

-- The counts of `Result`.
pub record Report : Type 0 where
  pub downloaded : ℕ
  pub deleted : ℕ
  pub bytes_written : ℕ

-- What happens during the run: whether the staging folder and the object store are made, what happens to
-- each group of downloads, which local files can be removed, and the answer to the commit.
pub record RunEnv : Type 0 where
  pub stages : Bool
  pub makes : Bool
  pub groups : Text → GroupEnv
  pub removes : Text → Bool
  pub commits : Report → Option Answer

abbrev pub Deleted : Type 0
Deleted = Target × ℕ

module _ (sum : Text → Text) (root : Text) (env : RunEnv) where
  abbrev pub delete_one : Bool → Text → Deleted → Deleted
  delete_one true p (t, n) = (remove_path root (join_path root p) t, suc n)
  delete_one false p state = state

  -- The loop over the files to delete; one that cannot be removed is passed over.
  unfoldable pub delete_files : List Text → Deleted → Deleted
  delete_files [] state = state
  delete_files (p ∷ removed) state = delete_files removed (delete_one (env.removes p) p state)

  abbrev pub committed_or_error : Report → Option Report
  committed_or_error report = if is_accepted (env.commits report) then some report else none

  -- The deletions and the commit.
  unfoldable pub finish : List Text → Target × Tally → Target × Option Report
  finish removed (t, n) =
      let (left, deleted) = delete_files removed (t, 0) in
      (
        left,
        committed_or_error (record {
          downloaded = n.downloaded;
          deleted = deleted;
          bytes_written = n.bytes_written;
        }),
      )

  abbrev pub after_downloads : List Text → Target × Tally → Target × Option Report
  after_downloads removed (t, n) = if n.failed then (t, none) else finish removed (t, n)

  unfoldable pub follow :
      Bool → Option (List ManifestEntry × List Text) → Target → Target × Option Report
  follow dry_run none t = (t, none)
  follow dry_run (some (down, removed)) t =
      if not env.stages
      then (t, none)
      else if dry_run
      then (t, committed_or_error (record { downloaded = 0; deleted = 0; bytes_written = 0 }))
      else after_downloads removed (download_all sum root env.makes env.groups down t)

  -- From the two maps to the result, `none` for an error, with what becomes of the target directory.
  unfoldable pub run_plan :
      GuardConfig → Bool → Dict ManifestEntry → Dict ManifestEntry → Target → Target × Option Report
  run_plan cfg dry_run remote local t = follow dry_run (make_plan cfg remote local) t
