-- ===== src/Client/DownloadAll/Linked.antt =====
-- What downloadAll leaves in the target directory when it returns no error.
use http_syncer.Base.{◌≡◌, ◌≢◌, none, Text}
use http_syncer.Snapshot.{ManifestEntry}
use http_syncer.Client.Promote.{Target, object_path, target_path}
use http_syncer.Client.Promote.Links.{LinksTo}
use http_syncer.Client.DownloadAll.Contents.{content_of}
use http_syncer.Client.DownloadAll.Stored.{Honest}

module _ (sum : Text → Text) (root : Text) where
  -- What is there for the entries that satisfy `P`, and what stays of the links.
  record Added (P : ManifestEntry → Type 0) (t t' : Target) : Type 0 where
    linked : (e : ManifestEntry) → P e → LinksTo root (object_path root e.checksum) e t'.files
    present : (e : ManifestEntry) → P e → content_of e.checksum t'.store ≢ none
    kept :
        (x : ManifestEntry)
        → ((e : ManifestEntry)
            → P e
            → target_path root x ≡ target_path root e
            → x.checksum ≡ e.checksum)
        → LinksTo root (object_path root x.checksum) x t.files
        → LinksTo root (object_path root x.checksum) x t'.files
