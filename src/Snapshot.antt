-- ===== src/Snapshot.antt =====
-- internal/server/snapshot_indexer.go and the types of internal/server/snapshot.go and
-- internal/common/types.go: a module's index, and the snapshot that a session takes of it.
pub mod Sort
pub mod Tables
pub mod Contents
pub mod Scan
unfoldable pub use Sort.{sort_by}
use http_syncer.Base.{
  ℕ, List, [], ◌∷◌, ◌++◌, Option, none, some, Text, text, ◌==◌, has_prefix, trim_prefix, Dict,
  lookup, insert, if◌then◌else◌,
}
use http_syncer.Base.Int.{ℤ}
use http_syncer.Path.{clean, join_path, dot, slash}
use http_syncer.Filter.{Engine, Excluder, match_path}

pub record ManifestEntry : Type 0 where
  pub path : Text
  pub kind : Text
  pub size : ℕ
  pub mode : ℕ
  pub mtime : ℤ
  pub checksum : Text

pub record Snapshot : Type 0 where
  pub id : Text
  pub source_dir : Text
  pub entries : List ManifestEntry
  pub by_path : Dict ManifestEntry
  pub by_checksum : Dict ManifestEntry
  pub created_at : ℤ

pub record IndexedData : Type 0 where
  pub entries : List ManifestEntry
  pub by_path : Dict ManifestEntry
  pub updated_at : ℤ

pub record ModuleIndex : Type 0 where
  pub name : Text
  pub root_dir : Text
  pub index : Option IndexedData
  pub last_err : Option Text

pub data IndexError : Type 0 where
  unknown_module not_ready : IndexError
  scan_error : Text → IndexError

pub data Indexed {ℓ} (A : Type ℓ) : Type ℓ where
  indexed : A → Indexed A
  failed : IndexError → Indexed A

-- The prefix of the index's paths that a source path selects; empty for the whole module.
unfoldable pub source_prefix : Text → Text
source_prefix source_path =
    let cleaned = clean source_path in
    if cleaned == dot then [] else trim_prefix (trim_prefix cleaned (text "./")) (slash ∷ [])

-- An indexed path as it reads below the prefix; `none` lies elsewhere.
unfoldable pub below_prefix : Text → Text → Option Text
below_prefix [] path = some path
below_prefix (c ∷ prefix) path =
    if path == (c ∷ prefix)
    then some dot
    else if has_prefix path ((c ∷ prefix) ++ slash ∷ [])
    then some (trim_prefix path ((c ∷ prefix) ++ slash ∷ []))
    else none

-- The maps and the list that the loop over the index fills.
pub record Built : Type 0 where
  pub entries : List ManifestEntry
  pub by_path : Dict ManifestEntry
  pub by_checksum : Dict ManifestEntry

abbrev pub no_tables : Built
no_tables = record { entries = []; by_path = []; by_checksum = [] }

-- The first entry of a checksum stays.
unfoldable pub add_checksum :
    ManifestEntry → Option ManifestEntry → Dict ManifestEntry → Dict ManifestEntry
add_checksum e none table = insert e.checksum e table
add_checksum e (some first) table = table

unfoldable pub add_entry : Built → ManifestEntry → Built
add_entry t e = record {
  entries = t.entries ++ e ∷ [];
  by_path = insert e.path e t.by_path;
  by_checksum = add_checksum e (lookup e.checksum t.by_checksum) t.by_checksum;
}

unfoldable pub add_option : Built → Option ManifestEntry → Built
add_option t none = t
add_option t (some e) = add_entry t e

module _ (engine : Engine) (ex : Excluder engine) where
  abbrev pub unless_excluded : ManifestEntry → Text → Option Text → Option ManifestEntry
  unless_excluded item rel none = some (record item { path = rel })
  unless_excluded item rel (some reason) = none

  abbrev pub pick_below : ManifestEntry → Option Text → Option ManifestEntry
  pick_below item none = none
  pick_below item (some rel) =
      if rel == dot then none else unless_excluded item rel (match_path engine ex rel)

  -- One round of the loop: the entry that is exported for an indexed one.
  unfoldable pub pick : Text → ManifestEntry → Option ManifestEntry
  pick prefix item = pick_below item (below_prefix prefix item.path)

  unfoldable pub fill : Text → List ManifestEntry → Built → Built
  fill prefix [] t = t
  fill prefix (item ∷ items) t = fill prefix items (add_option t (pick prefix item))

  unfoldable pub snapshot_of : Text → Text → Text → ℤ → IndexedData → Snapshot
  snapshot_of snapshot_id root_dir source_path now index =
      let prefix = source_prefix source_path in
      let t = fill prefix index.entries no_tables in
      record {
        id = snapshot_id;
        source_dir = join_path root_dir prefix;
        entries = sort_by (λ e. e.path) t.entries;
        by_path = t.by_path;
        by_checksum = t.by_checksum;
        created_at = now;
      }

  -- What an index that has not been built yet answers.
  abbrev pub unready : Option Text → IndexError
  unready none = not_ready
  unready (some err) = scan_error err

  abbrev pub of_index : Text → Text → ℤ → ModuleIndex → Option IndexedData → Indexed Snapshot
  of_index snapshot_id source_path now m none = failed (unready m.last_err)
  of_index snapshot_id source_path now m (some index) =
      indexed (snapshot_of snapshot_id m.root_dir source_path now index)

  -- `moduleIndex.buildSnapshot`
  unfoldable pub module_snapshot : Text → Text → ℤ → ModuleIndex → Indexed Snapshot
  module_snapshot snapshot_id source_path now m = of_index snapshot_id source_path now m m.index

  abbrev pub of_module : Text → Text → ℤ → Option ModuleIndex → Indexed Snapshot
  of_module snapshot_id source_path now none = failed unknown_module
  of_module snapshot_id source_path now (some m) = module_snapshot snapshot_id source_path now m

  -- `snapshotIndexer.buildSnapshot`
  unfoldable pub build_snapshot : Dict ModuleIndex → Text → Text → Text → ℤ → Indexed Snapshot
  build_snapshot modules snapshot_id name source_path now =
      of_module snapshot_id source_path now (lookup name modules)
