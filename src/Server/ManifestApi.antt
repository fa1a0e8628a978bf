-- ===== src/Server/ManifestApi.antt =====
-- handleManifest of internal/server/server.go.
use http_syncer.Base.{
  ℕ, ◌+◌, ◌-◌, not, ◌&&◌, List, [], Option, none, some, Text, text, ◌==◌, has_suffix, split, lookup,
  length, take, drop, ltb, leb, if◌then◌else◌,
}
use http_syncer.Base.Int.{ℤ, pos, negsuc}
use http_syncer.Base.Numbers.{itoa, atoi}
use http_syncer.Path.{slash}
use http_syncer.Snapshot.{ManifestEntry, Snapshot}
use http_syncer.Server.{
  Service, Request, Answer, page, refuse, authorize_module, module_for_snapshot, get_param, get,
}
use http_syncer.Server.SessionApi.{fourth_part}

abbrev size_from : ℕ → Option ℤ → ℕ
size_from default none = default
size_from default (some (negsuc i)) = default
size_from default (some (pos i)) = if ltb 0 i && leb i 20000 then i else default

-- The page size that a query asks for, if it is one.
unfoldable pub page_size_of : ℕ → Text → ℕ
page_size_of default q = if q == [] then default else size_from default (atoi q)

abbrev cursor_from : Option ℤ → ℕ
cursor_from none = 0
cursor_from (some (negsuc i)) = 0
cursor_from (some (pos i)) = i

unfoldable pub cursor_of : Text → ℕ
cursor_of q = if q == [] then 0 else cursor_from (atoi q)

-- At most the number of entries.
unfoldable pub clip : ℕ → ℕ → ℕ
clip total n = if ltb total n then total else n

-- The slice entries[cursor:end] and the cursor behind it, if something is left.
unfoldable pub slice_page : List ManifestEntry → ℕ → ℕ → List ManifestEntry × Text
slice_page entries cursor end =
    let next : Text = if ltb end (length entries) then itoa end else [] in
    (take (end - cursor) (drop cursor entries), next)

unfoldable pub page_at : List ManifestEntry → ℕ → ℕ → List ManifestEntry × Text
page_at entries page_size asked =
    let cursor = clip (length entries) asked in
    slice_page entries cursor (clip (length entries) (cursor + page_size))

module _ (r : Request) where
  unfoldable pub send_page : Text → Option Snapshot → Service → Answer
  send_page snapshot_id none s = refuse 404
  send_page snapshot_id (some snap) s =
      let size = page_size_of s.cfg.page_size (get_param (text "page_size") r) in
      let (entries, next) = page_at snap.entries size (cursor_of (get_param (text "cursor") r)) in
      record { code = 200; payload = page snapshot_id entries next }

  unfoldable pub manifest_for : Text → Option Text → Service → Answer
  manifest_for snapshot_id none s = refuse 401
  manifest_for snapshot_id (some name) s =
      if not (authorize_module s.cfg r name)
      then refuse 401
      else send_page snapshot_id (lookup snapshot_id s.snapshots) s

  unfoldable pub manifest_id : Option Text → Service → Answer
  manifest_id none s = refuse 404
  manifest_id (some snapshot_id) s =
      manifest_for snapshot_id (module_for_snapshot snapshot_id s.sessions) s

  -- `handleManifest`, which changes nothing
  unfoldable pub handle_manifest : Service → Answer
  handle_manifest s =
      if not (r.method == get)
      then refuse 405
      else if not (has_suffix r.path (text "/manifest"))
      then refuse 404
      else manifest_id (fourth_part (split slash r.path)) s
