-- ===== src/Client/Run/Reaches.antt =====
-- What a run of the client has done when it returns a result.
use http_syncer.Base.{◌≡◌, true, List, none, some, Text, lookup, length, In}
use http_syncer.Path.{join_path}
use http_syncer.Snapshot.{ManifestEntry}
use http_syncer.Client.Promote.{Target, object_path}
use http_syncer.Client.Promote.Links.{LinksTo}
use http_syncer.Client.DownloadAll.Contents.{content_of}
use http_syncer.Client.DownloadAll.Stored.{Honest}
use http_syncer.Client.Run.{Report, RunEnv}

module _ (sum : Text → Text) (root : Text) (env : RunEnv) where
  -- What is there after a run that is no dry run: the counts, the links with their objects, and the
  -- deletions.
  abbrev pub IsReached : List ManifestEntry → List Text → Target → Report → Type 0
  IsReached down removed t' report =
      (report.downloaded ≡ length down)
      × ((e : ManifestEntry)
          → In e down
          → LinksTo root (object_path root e.checksum) e t'.files
            × ((content : Text) × (content_of e.checksum t'.store ≡ some content)
                × (sum content ≡ e.checksum)))
      × ((p : Text)
          → In p removed
          → env.removes p ≡ true
          → lookup (join_path root p) t'.files ≡ none)
