-- ===== src/Tests/Snapshots.antt =====
-- A snapshot of a concrete index.
use http_syncer.Base.{
  In, ◌≡◌, refl, ◌↔◌, List, [], ◌∷◌, Text, text, ◌==◌, has_prefix, trim_prefix, has_suffix,
  trim_suffix, split, insert, lookup, text_lt,
}
use http_syncer.Base.Int.{pos}
use http_syncer.Path.{clean, join_path}
use http_syncer.Filter.{match_path, first_glob, first_regex, glob_hits, path_match}
use http_syncer.Snapshot.{
  ManifestEntry, Snapshot, IndexedData, source_prefix, below_prefix, add_checksum, add_entry,
  add_option, pick, fill, snapshot_of, sort_by,
}
use http_syncer.Snapshot.Tables.{IsFaithful, tables_of, snapshot_of-IsFaithful}
use http_syncer.Snapshot.Contents.{FromIndex, snapshot_of-entries}
use http_syncer.Snapshot.Sort.{insert_by}
use http_syncer.Tests.Filters.{anchored, ex}

abbrev pub plain_file : Text → Text → ManifestEntry
plain_file p sum = record {
  path = p;
  kind = text "file";
  size = 3;
  mode = 420;
  mtime = pos 9;
  checksum = sum;
}

abbrev indexed_files : List ManifestEntry
indexed_files =
    plain_file (text "docs/b.md") (text "s1")
    ∷ plain_file (text "docs/a.md") (text "s1")
    ∷ plain_file (text "docs/x.log") (text "s2")
    ∷ plain_file (text "other.md") (text "s3")
    ∷ []

abbrev pub index_data : IndexedData
index_data = record { entries = indexed_files; by_path = []; updated_at = pos 5 }

abbrev docs : Text
docs = text "docs/"

taken : Snapshot
unfolding snapshot_of fill pick add_option add_entry add_checksum source_prefix below_prefix clean
    join_path sort_by match_path first_glob first_regex glob_hits path_match insert lookup ◌==◌
    has_prefix trim_prefix has_suffix trim_suffix split
taken = snapshot_of anchored ex (text "snap_1") (text "/srv") docs (pos 7) index_data

taken_entries :
    taken.entries ≡ plain_file (text "a.md") (text "s1") ∷ plain_file (text "b.md") (text "s1") ∷ []
unfolding taken insert_by text_lt
taken_entries = refl

taken_by_checksum : taken.by_checksum ≡ (text "s1", plain_file (text "b.md") (text "s1")) ∷ []
unfolding taken insert_by text_lt
taken_by_checksum = refl

snapshot_of-IsFaithful_example :
    IsFaithful
      (tables_of (snapshot_of anchored ex (text "snap_1") (text "/srv") docs (pos 7) index_data))
snapshot_of-IsFaithful_example =
    snapshot_of-IsFaithful anchored ex (text "snap_1") (text "/srv") docs (pos 7) index_data

snapshot_of-entries_example :
    In
      (plain_file (text "a.md") (text "s1"))
      (snapshot_of anchored ex (text "snap_1") (text "/srv") docs (pos 7) index_data).entries
    ↔ FromIndex anchored ex
        (source_prefix docs)
        indexed_files
        (plain_file (text "a.md") (text "s1"))
snapshot_of-entries_example =
    snapshot_of-entries anchored ex (text "snap_1") (text "/srv") docs (pos 7) index_data
      (plain_file (text "a.md") (text "s1"))
