-- ===== src/Client/Local.antt =====
-- scanLocal of internal/client/client.go.
pub mod Files
use http_syncer.Base.{
  ℕ, Bool, true, false, List, [], ◌∷◌, Option, none, some, Text, text, has_prefix, Dict, insert,
  if◌then◌else◌,
}
use http_syncer.Filter.{Engine, Excluder, match_path}
use http_syncer.Walk.{
  Outcome, ok, err, FileInfo, Meta, Node, Visit, walked, skipping, failed, walk_root,
}
use http_syncer.Snapshot.{ManifestEntry}

-- The entry of a local file: its type and its checksum are not filled in.
abbrev pub local_entry : Text → FileInfo → ManifestEntry
local_entry path info = record {
  path = path;
  kind = [];
  size = info.size;
  mode = info.mode;
  mtime = info.mtime;
  checksum = [];
}

-- What the scan has found.
abbrev pub Found : Type 0
Found = Dict ManifestEntry

abbrev pub pass_by : Bool → Found → Visit Found
pass_by dir res = if dir then skipping res else walked res

abbrev pub add_local : Text → Found → Outcome FileInfo → Visit Found
add_local path res (err e) = failed e res
add_local path res (ok info) =
    if info.regular then walked (insert path (local_entry path info) res) else walked res

-- After the walk: `missing` is os.IsNotExist, `makes` tells whether the root is then made.
abbrev pub after_local : (Text → Bool) → Outcome (Unit {0}) → Visit Found → Outcome Found
after_local missing makes (walked res) = ok res
after_local missing makes (skipping res) = ok res
after_local missing (ok tt) (failed e res) = if missing e then ok res else err e
after_local missing (err problem) (failed e res) = if missing e then err problem else err e

module _ (engine : Engine) (ex : Excluder engine) where
  abbrev pub after_match : Text → Bool → Meta → Found → Option Text → Visit Found
  after_match path dir m res (some reason) = pass_by dir res
  after_match path dir m res none = add_local path res m.stat

  -- The callback of `scanLocal`.
  unfoldable pub local_visit : Text → Bool → Meta → Found → Visit Found
  local_visit path dir m res =
      if has_prefix path (text ".sync-http-staging")
      then pass_by dir res
      else if has_prefix path (text ".sync-http-objects")
      then pass_by dir res
      else after_match path dir m res (match_path engine ex path)

  -- `scanLocal`
  unfoldable pub scan_local : (Text → Bool) → Outcome (Unit {0}) → Outcome Node → Outcome Found
  scan_local missing makes root = after_local missing makes (walk_root local_visit root [])
