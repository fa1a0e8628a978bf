-- ===== src/Snapshot/Scan.antt =====
-- scanModuleSnapshot, moduleIndex.rebuild and newSnapshotIndexer of
-- internal/server/snapshot_indexer.go, and BuildSnapshot of internal/server/snapshot.go.
pub mod Files
mod Visits
pub mod Legacy
pub mod Ready
use http_syncer.Base.{
  Bool, true, false, List, [], ◌∷◌, ◌++◌, Option, none, some, Text, text, Dict, lookup, insert,
  if◌then◌else◌,
}
use http_syncer.Base.Int.{ℤ}
use http_syncer.Filter.{Engine, Excluder, match_path}
use http_syncer.Walk.{
  Outcome, ok, err, FileInfo, Meta, Node, Visit, walked, skipping, failed, walk_root,
}
use http_syncer.Server.{Module}
use http_syncer.Snapshot.{
  ManifestEntry, Snapshot, ModuleIndex, IndexedData, Built, no_tables, add_entry, sort_by,
}

-- The entry of a regular file.
abbrev pub file_entry : Text → FileInfo → Text → ManifestEntry
file_entry path info sum = record {
  path = path;
  kind = text "file";
  size = info.size;
  mode = info.mode;
  mtime = info.mtime;
  checksum = sum;
}

-- The list and the map that a scan fills.
abbrev pub Scanned : Type 0
Scanned = List ManifestEntry × Dict ManifestEntry

abbrev pub add_scanned : Text → FileInfo → Scanned → Outcome Text → Visit Scanned
add_scanned path info s (err e) = failed e s
add_scanned path info (entries, by_path) (ok sum) =
    walked
      (entries ++ file_entry path info sum ∷ [], insert path (file_entry path info sum) by_path)

abbrev pub scan_leaf : Text → Meta → Scanned → Outcome FileInfo → Visit Scanned
scan_leaf path m s (err e) = failed e s
scan_leaf path m s (ok info) = if info.regular then add_scanned path info s m.sum else walked s

-- The callback of `scanModuleSnapshot`.
unfoldable pub scan_visit : Text → Bool → Meta → Scanned → Visit Scanned
scan_visit path true m s = walked s
scan_visit path false m s = scan_leaf path m s m.info

abbrev pub sorted_scan : Visit Scanned → Outcome Scanned
sorted_scan (failed e s) = err e
sorted_scan (skipping (entries, by_path)) = ok (sort_by (λ e. e.path) entries, by_path)
sorted_scan (walked (entries, by_path)) = ok (sort_by (λ e. e.path) entries, by_path)

unfoldable pub scan_module : Outcome Node → Outcome Scanned
scan_module root = sorted_scan (walk_root scan_visit root ([], []))

abbrev pub after_scan : ℤ → ModuleIndex → Outcome Scanned → ModuleIndex × Option Text
after_scan now m (err e) = (record m { last_err = some e }, some e)
after_scan now m (ok (entries, by_path)) = (
  record m {
    last_err = none;
    index = some (record { entries = entries; by_path = by_path; updated_at = now });
  },
  none,
)

-- `rebuild`, with the error that it returns
unfoldable pub rebuild : Outcome Node → ℤ → ModuleIndex → ModuleIndex × Option Text
rebuild root now m = after_scan now m (scan_module root)

abbrev pub after_first :
    Text → ModuleIndex × Option Text → Outcome (Dict ModuleIndex) → Outcome (Dict ModuleIndex)
after_first name (m, some e) others = err e
after_first name (m, none) (err e) = err e
after_first name (m, none) (ok others) = ok ((name, m) ∷ others)

-- `newSnapshotIndexer`, over the modules and what their directories hold. The watchers are left out.
unfoldable pub new_indexer : (Text → Outcome Node) → ℤ → Dict Module → Outcome (Dict ModuleIndex)
new_indexer tree now [] = ok []
new_indexer tree now ((name, conf) ∷ modules) =
    after_first name
      (rebuild (tree conf.root_dir) now
        (record { name = name; root_dir = conf.root_dir; index = none; last_err = none }))
      (new_indexer tree now modules)

module _ (engine : Engine) (ex : Excluder engine) where
  abbrev pub add_summed : Text → FileInfo → Built → Outcome Text → Visit Built
  add_summed path info t (err e) = failed e t
  add_summed path info t (ok sum) = walked (add_entry t (file_entry path info sum))

  abbrev pub build_info : Text → Bool → Meta → Built → Outcome FileInfo → Visit Built
  build_info path dir m t (err e) = failed e t
  build_info path dir m t (ok info) =
      if info.regular then add_summed path info t m.sum else walked t

  abbrev pub build_kept : Text → Bool → Meta → Built → Option Text → Visit Built
  build_kept path true m t (some reason) = skipping t
  build_kept path false m t (some reason) = walked t
  build_kept path dir m t none = build_info path dir m t m.info

  -- The callback of `BuildSnapshot`.
  unfoldable pub build_visit : Text → Bool → Meta → Built → Visit Built
  build_visit path dir m t = build_kept path dir m t (match_path engine ex path)

  abbrev pub built_snapshot : Text → Text → ℤ → Built → Snapshot
  built_snapshot id source_dir now t = record {
    id = id;
    source_dir = source_dir;
    entries = sort_by (λ e. e.path) t.entries;
    by_path = t.by_path;
    by_checksum = t.by_checksum;
    created_at = now;
  }

  abbrev pub of_built : Text → Text → ℤ → Visit Built → Outcome Snapshot
  of_built id source_dir now (failed e s) = err e
  of_built id source_dir now (skipping t) = ok (built_snapshot id source_dir now t)
  of_built id source_dir now (walked t) = ok (built_snapshot id source_dir now t)

  -- `BuildSnapshot`
  unfoldable pub build_legacy : Text → Text → ℤ → Outcome Node → Outcome Snapshot
  build_legacy id source_dir now root =
      of_built id source_dir now (walk_root build_visit root no_tables)
