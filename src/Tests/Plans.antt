-- ===== src/Tests/Plans.antt =====
-- A plan for concrete local files.
use http_syncer.Base.{
  ◌≡◌, refl, false, ◌*◌, List, [], ◌∷◌, some, none, text, ◌==◌, text_lt, Dict, lookup, insert, ltb,
}
use http_syncer.Base.Int.{pos}
use http_syncer.Snapshot.{ManifestEntry, sort_by}
use http_syncer.Snapshot.Sort.{insert_by}
use http_syncer.Client.{add_all}
use http_syncer.Client.Plan.{
  GuardConfig, outdated, missing_from, left_over, to_download, to_delete, delete_guard, make_plan,
}
use http_syncer.Client.Plan.Applied.{erase_all, Agrees}
use http_syncer.Client.Plan.Converges.{make_plan-Agrees}
use http_syncer.Tests.Snapshots.{plain_file}

-- More than half of the files.
abbrev half : GuardConfig
half = record { force = false; min_files = pos 2; over = λ planned total. ltb total (2 * planned) }

abbrev offered : List ManifestEntry
offered = plain_file (text "c") (text "s3") ∷ plain_file (text "a") (text "s1") ∷ []

abbrev old_a : ManifestEntry
old_a = record { path = text "a"; kind = []; size = 2; mode = 420; mtime = pos 9; checksum = [] }

abbrev at_home : Dict ManifestEntry
at_home = (text "a", old_a) ∷ (text "b", record old_a { path = text "b" }) ∷ []

abbrev wanted : List ManifestEntry
wanted = plain_file (text "a") (text "s1") ∷ plain_file (text "c") (text "s3") ∷ []

plan_example : make_plan half (add_all offered []) at_home ≡ some (wanted, text "b" ∷ [])
unfolding make_plan delete_guard to_download to_delete missing_from left_over outdated add_all
    sort_by insert_by text_lt lookup insert ◌==◌
plan_example = refl

stopped_example : make_plan half [] at_home ≡ none
unfolding make_plan delete_guard to_download to_delete missing_from left_over outdated sort_by
    insert_by text_lt lookup ◌==◌
stopped_example = refl

make_plan-Agrees_example :
    Agrees
      (lookup (text "a") (erase_all (text "b" ∷ []) (add_all wanted at_home)))
      (lookup (text "a") (add_all offered []))
make_plan-Agrees_example =
    make_plan-Agrees half offered at_home wanted (text "b" ∷ []) (text "a") plan_example
