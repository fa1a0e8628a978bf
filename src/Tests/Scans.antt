-- ===== src/Tests/Scans.antt =====
-- Scans of a concrete tree.
use http_syncer.Base.{
  ◌≡◌, ◌≢◌, refl, ap, ◌++◌, ◌↔◌, inl, inr, true, List, [], ◌∷◌, some, none, Text, text, ◌==◌,
  text_lt, In, Dict, insert, lookup, has_prefix, has_suffix, trim_suffix,
}
use http_syncer.Base.Int.{pos}
use http_syncer.Path.{dot, clean}
use http_syncer.Filter.{Excluder, match_path, first_glob, first_regex, glob_hits, path_match}
use http_syncer.Walk.{
  Outcome, ok, FileInfo, Faults, Node, leaf, folder, Forest, nil, cons, below, walk_node, walk_root,
}
use http_syncer.Walk.Collect.{collect_node}
use http_syncer.Server.{Module}
use http_syncer.Snapshot.{
  ManifestEntry, Snapshot, ModuleIndex, IndexedData, snapshot_of, add_entry, add_checksum, sort_by,
  build_snapshot, indexed,
}
use http_syncer.Snapshot.Sort.{insert_by}
use http_syncer.Snapshot.Scan.{
  scan_module, scan_visit, build_visit, build_legacy, rebuild, new_indexer,
}
use http_syncer.Snapshot.Scan.Files.{Readable, files_of, scan_module-files_of}
use http_syncer.Snapshot.Scan.Legacy.{ForestHides, build_legacy-snapshot_of}
use http_syncer.Snapshot.Scan.Ready.{new_indexer-build_snapshot}
use http_syncer.Tests.Filters.{anchored, ex}

abbrev pub plain : FileInfo
plain = record { regular = true; size = 3; mode = 420; mtime = pos 9 }

abbrev file_of : Text → Node
file_of sum = leaf (record { info = ok plain; stat = ok plain; sum = ok sum })

abbrev pub fine : Faults
fine = record { info = none; stat = none; read = none }

abbrev pub kids : Forest
kids =
    cons (text "b.txt") (file_of (text "s1"))
      (cons (text "a") (folder fine (cons (text "c.txt") (file_of (text "s2")) nil)) nil)

abbrev listed : List ManifestEntry
listed =
    record {
      path = text "a/c.txt";
      kind = text "file";
      size = 3;
      mode = 420;
      mtime = pos 9;
      checksum = text "s2";
    }
    ∷ record {
      path = text "b.txt";
      kind = text "file";
      size = 3;
      mode = 420;
      mtime = pos 9;
      checksum = text "s1";
    }
    ∷ []

abbrev maps : Dict ManifestEntry
maps =
    (
      text "b.txt",
      record {
        path = text "b.txt";
        kind = text "file";
        size = 3;
        mode = 420;
        mtime = pos 9;
        checksum = text "s1";
      },
    )
    ∷ (
      text "a/c.txt",
      record {
        path = text "a/c.txt";
        kind = text "file";
        size = 3;
        mode = 420;
        mtime = pos 9;
        checksum = text "s2";
      },
    )
    ∷ []

scanned : scan_module (ok (folder fine kids)) ≡ ok (listed, maps)
unfolding scan_module scan_visit walk_root walk_node below insert ◌==◌ sort_by insert_by text_lt
scanned = refl

kids-Readable : Readable kids
unfolding Readable
kids-Readable = (
  (plain, refl, λ r. (text "s1", refl)),
  ((refl, ((plain, refl, λ r. (text "s2", refl)), tt)), tt),
)

scan_module-files_of_example :
    (by_path : Dict ManifestEntry) × (scan_module (ok (folder fine kids))
      ≡ ok (sort_by (λ e. e.path) (files_of [] kids), by_path))
scan_module-files_of_example = scan_module-files_of fine kids refl kids-Readable

-- The tree with a folder that the glob `tmp/**` excludes.
abbrev more_kids : Forest
more_kids = cons (text "tmp") (folder fine (cons (text "d.txt") (file_of (text "s3")) nil)) kids

more_kids-ForestHides : ForestHides anchored ex [] more_kids
unfolding ForestHides collect_node below match_path first_glob first_regex glob_hits path_match
    clean has_prefix has_suffix trim_suffix
more_kids-ForestHides = ((hidden, (tt, tt)), (tt, ((λ shown. absurd (shown refl), (tt, tt)), tt)))
  where
    hidden :
        match_path anchored ex (text "tmp") ≢ none
        → (e : ManifestEntry)
        → In e (files_of (text "tmp") (cons (text "d.txt") (file_of (text "s3")) nil))
        → match_path anchored ex e.path ≢ none
    hidden h e (inl same) =
        λ free. cc (ap (λ (x : ManifestEntry). match_path anchored ex x.path) same, free)
    hidden h e (inr nothing) = absurd nothing

abbrev entry_of : Text → Text → ManifestEntry
entry_of path sum = record {
  path = path;
  kind = text "file";
  size = 3;
  mode = 420;
  mtime = pos 9;
  checksum = sum;
}

abbrev more_maps : Dict ManifestEntry
more_maps = (text "tmp/d.txt", entry_of (text "tmp/d.txt") (text "s3")) ∷ maps

more_scanned :
    scan_module (ok (folder fine more_kids))
    ≡ ok (listed ++ entry_of (text "tmp/d.txt") (text "s3") ∷ [], more_maps)
unfolding scan_module scan_visit walk_root walk_node below insert ◌==◌ sort_by insert_by text_lt
more_scanned = refl

proper_paths : (e : ManifestEntry) → In e (files_of [] more_kids) → e.path ≢ dot
unfolding collect_node below
proper_paths e (inl h) same = cc
proper_paths e (inr (inl h)) same = cc
proper_paths e (inr (inr (inl h))) same = cc
proper_paths e (inr (inr (inr h))) same = absurd h

abbrev taken : Snapshot
taken = record {
  id = text "snap_1";
  source_dir = text "/srv";
  entries = listed;
  by_path = maps;
  by_checksum =
      (
        text "s1",
        record {
          path = text "b.txt";
          kind = text "file";
          size = 3;
          mode = 420;
          mtime = pos 9;
          checksum = text "s1";
        },
      )
      ∷ (
        text "s2",
        record {
          path = text "a/c.txt";
          kind = text "file";
          size = 3;
          mode = 420;
          mtime = pos 9;
          checksum = text "s2";
        },
      )
      ∷ [];
  created_at = pos 7;
}

built :
    build_legacy anchored ex (text "snap_1") (text "/srv") (pos 7) (ok (folder fine more_kids))
    ≡ ok taken
unfolding build_legacy build_visit walk_root walk_node below match_path first_glob first_regex
    glob_hits path_match clean has_prefix has_suffix trim_suffix add_entry add_checksum lookup
    insert ◌==◌ sort_by insert_by text_lt
built = refl

abbrev index : IndexedData
index = record { entries = listed; by_path = maps; updated_at = pos 5 }

abbrev more_index : IndexedData
more_index = record {
  entries = listed ++ entry_of (text "tmp/d.txt") (text "s3") ∷ [];
  by_path = more_maps;
  updated_at = pos 5;
}

abbrev some_entry : ManifestEntry
some_entry = record {
  path = text "b.txt";
  kind = text "file";
  size = 3;
  mode = 420;
  mtime = pos 9;
  checksum = text "s1";
}

build_legacy-snapshot_of_example :
    In some_entry taken.entries
    ↔ In some_entry
        (snapshot_of anchored ex (text "snap_1") (text "/srv") dot (pos 7) more_index).entries
build_legacy-snapshot_of_example =
    build_legacy-snapshot_of anchored ex (text "snap_1") (text "/srv") (pos 7) fine more_kids taken
      more_index more_kids-ForestHides proper_paths built more_scanned some_entry

-- A glob that names a folder: the older builder leaves its files out, the index does not.
abbrev folder_ex : Excluder anchored
folder_ex = record { globs = text "a" ∷ []; rexes = [] }

folder_hidden :
    (match_path anchored folder_ex (text "a") ≢ none)
    × (match_path anchored folder_ex (text "a/c.txt") ≡ none)
unfolding match_path first_glob first_regex glob_hits path_match clean has_prefix has_suffix
    trim_suffix
folder_hidden = (λ h. cc, refl)

abbrev pub tree : Text → Outcome Node
tree root = ok (folder fine kids)

abbrev core_conf : Module
core_conf = record { name = text "core"; root_dir = text "/srv"; tokens = (text "t1", tt) ∷ [] }

abbrev pub core_index : ModuleIndex
core_index = record {
  name = text "core";
  root_dir = text "/srv";
  index = some index;
  last_err = none;
}

started :
    new_indexer tree (pos 5) ((text "core", core_conf) ∷ []) ≡ ok ((text "core", core_index) ∷ [])
unfolding new_indexer rebuild scan_module scan_visit walk_root walk_node below insert ◌==◌ sort_by
    insert_by text_lt
started = refl

core_found : lookup (text "core") ((text "core", core_conf) ∷ []) ≡ some core_conf
unfolding lookup ◌==◌
core_found = refl

new_indexer-build_snapshot_example :
    (entries : List ManifestEntry) × (by_path : Dict ManifestEntry) × (scan_module
        (tree (text "/srv"))
      ≡ ok (entries, by_path))
    × (build_snapshot anchored ex
          ((text "core", core_index) ∷ [])
          (text "snap_1")
          (text "core")
          dot
          (pos 7)
        ≡ indexed (
            snapshot_of anchored ex
              (text "snap_1")
              (text "/srv")
              dot
              (pos 7)
              (record { entries = entries; by_path = by_path; updated_at = pos 5 })))
new_indexer-build_snapshot_example =
    new_indexer-build_snapshot anchored ex tree (pos 5) (pos 7) ((text "core", core_conf) ∷ [])
      ((text "core", core_index) ∷ []) (text "snap_1") (text "core") dot core_conf started
      core_found
