-- ===== src/Tests/Locals.antt =====
-- Scans of a concrete target directory.
use http_syncer.Base.{
  ◌≡◌, refl, Bool, true, false, [], ◌∷◌, map, some, Text, text, ◌==◌, Dict, insert, has_prefix,
  has_suffix, trim_suffix,
}
use http_syncer.Base.Int.{pos}
use http_syncer.Filter.{match_path, first_glob, first_regex, glob_hits, path_match}
use http_syncer.Path.{clean}
use http_syncer.Walk.{ok, err, Meta, leaf, folder, cons, below, walk_root, walk_node}
use http_syncer.Snapshot.{ManifestEntry, sort_by}
use http_syncer.Client.{add_all}
use http_syncer.Client.Plan.{GuardConfig, make_plan}
use http_syncer.Client.Local.{local_visit, scan_local}
use http_syncer.Client.Local.Files.{
  Stats, ignored, local_files, scan_local-local_files, scan_local-dangling,
}
use http_syncer.Tests.Filters.{anchored, ex}
use http_syncer.Tests.Scans.{plain, kids, fine}

abbrev missing : Text → Bool
missing e = e == text "missing"

kids-Stats : Stats kids
unfolding Stats
kids-Stats = ((plain, refl), ((refl, refl, ((plain, refl), tt)), tt))

scan_local-local_files_example :
    scan_local anchored ex missing (ok tt) (ok (folder fine kids))
    ≡ ok (add_all (local_files anchored ex kids) [])
scan_local-local_files_example =
    scan_local-local_files anchored ex missing (ok tt) fine kids refl kids-Stats

abbrev found : Dict ManifestEntry
found =
    (
      text "b.txt",
      record { path = text "b.txt"; kind = []; size = 3; mode = 420; mtime = pos 9; checksum = [] },
    )
    ∷ (
      text "a/c.txt",
      record {
        path = text "a/c.txt";
        kind = [];
        size = 3;
        mode = 420;
        mtime = pos 9;
        checksum = [];
      },
    )
    ∷ []

finds : scan_local anchored ex missing (ok tt) (ok (folder fine kids)) ≡ ok found
unfolding scan_local local_visit walk_root walk_node below insert ◌==◌ match_path first_glob
    first_regex glob_hits path_match clean has_prefix has_suffix trim_suffix
finds = refl

abbrev nowhere : Meta
nowhere = record {
  info = ok (record { regular = false; size = 0; mode = 511; mtime = pos 1 });
  stat = err (text "missing");
  sum = err (text "missing");
}

abbrev wary : GuardConfig
wary = record { force = false; min_files = pos 0; over = λ planned total. true }

a_kept : ignored anchored ex (below [] (text "a.txt")) ≡ false
unfolding match_path first_glob first_regex glob_hits path_match clean has_prefix has_suffix
    trim_suffix below
a_kept = refl

is_missing : missing (text "missing") ≡ true
unfolding ◌==◌
is_missing = refl

scan_local-dangling_example :
    (scan_local anchored ex missing
        (ok tt)
        (ok (folder fine (cons (text "a.txt") (leaf nowhere) kids)))
      ≡ ok [])
    × (make_plan wary (add_all [] []) []
        ≡ some (sort_by (λ x. x.path) (map (λ slot. slot.1) (add_all [] [])), []))
scan_local-dangling_example =
    scan_local-dangling anchored ex missing fine (text "a.txt") (text "missing") nowhere kids wary
      [] refl a_kept refl is_missing
