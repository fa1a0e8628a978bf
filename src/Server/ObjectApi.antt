-- ===== src/Server/ObjectApi.antt =====
-- handleObject of internal/server/server.go.
use http_syncer.Base.{
  Bool, not, ◌&&◌, ◌||◌, [], Option, none, some, Text, text, ◌==◌, lookup, if◌then◌else◌,
}
use http_syncer.Path.{join_path}
use http_syncer.Snapshot.{ManifestEntry, Snapshot}
use http_syncer.Server.{
  Service, Request, Answer, content, refuse, authorize_module, module_for_snapshot, get_param, get,
}

-- The entry that is asked for, by its checksum if one is given.
unfoldable pub requested_entry : Text → Text → Snapshot → Option ManifestEntry
requested_entry p checksum snap =
    if not (checksum == []) then lookup checksum snap.by_checksum else lookup p snap.by_path

module _ (opens : Text → Bool) (r : Request) where
  -- The file that is opened and served. `opens` tells whether os.Open of a path succeeds.
  unfoldable pub serve_entry : Text → Text → Snapshot → Option ManifestEntry → Answer
  serve_entry p checksum snap none = refuse 404
  serve_entry p checksum snap (some entry) =
      let file = join_path snap.source_dir (if not (checksum == []) then entry.path else p) in
      if not (opens file) then refuse 500 else record { code = 200; payload = content file entry }

  unfoldable pub object_from : Text → Text → Option Snapshot → Answer
  object_from p checksum none = refuse 404
  object_from p checksum (some snap) = serve_entry p checksum snap (requested_entry p checksum snap)

  unfoldable pub object_for : Text → Text → Text → Option Text → Service → Answer
  object_for snapshot_id p checksum none s = refuse 401
  object_for snapshot_id p checksum (some name) s =
      if not (authorize_module s.cfg r name)
      then refuse 401
      else object_from p checksum (lookup snapshot_id s.snapshots)

  unfoldable pub object_params : Text → Text → Text → Service → Answer
  object_params snapshot_id p checksum s =
      if snapshot_id == [] || (p == [] && checksum == [])
      then refuse 400
      else object_for snapshot_id p checksum (module_for_snapshot snapshot_id s.sessions) s

  -- `handleObject`, which changes nothing
  unfoldable pub handle_object : Service → Answer
  handle_object s =
      if not (r.method == get)
      then refuse 405
      else object_params (get_param (text "snapshot_id") r) (get_param (text "path") r)
          (get_param (text "checksum") r) s
