-- ===== src/Snapshot/Scan/Ready.antt =====
-- When a module's index is there.
use http_syncer.Base.{
  ◌≡◌, refl, sym, ap, ◌∙◌, Bool-cases, inl, inr, List, [], ◌∷◌, Option, none, some, Text, ◌==◌,
  Dict, lookup, arith,
}
use http_syncer.Base.Int.{ℤ}
use http_syncer.Filter.{Engine, Excluder}
use http_syncer.Walk.{Outcome, ok, err, Node}
use http_syncer.Server.{Module}
use http_syncer.Snapshot.{
  ManifestEntry, ModuleIndex, IndexedData, indexed, snapshot_of, module_snapshot, build_snapshot,
  of_index, of_module,
}
use http_syncer.Snapshot.Scan.{Scanned, scan_module, rebuild, after_scan, new_indexer, after_first}

-- The index of a module of a configuration, with what the scan of the module's directory came to.
pub record Indexes (tree : Text → Outcome Node) (now : ℤ) (idx : Dict ModuleIndex) (name : Text)
    (conf : Module) : Type 0 where
  pub entry : ModuleIndex
  pub entries : List ManifestEntry
  pub by_path : Dict ManifestEntry
  pub scanned : scan_module (tree conf.root_dir) ≡ ok (entries, by_path)
  pub found : lookup name idx ≡ some entry
  pub filled :
      entry.index ≡ some (record { entries = entries; by_path = by_path; updated_at = now })
  pub rooted : entry.root_dir ≡ conf.root_dir

rebuilt :
    (now : ℤ) (m m' : ModuleIndex) (scanned : Outcome Scanned)
    → after_scan now m scanned ≡ (m', none)
    → (entries : List ManifestEntry) × (by_path : Dict ManifestEntry) × (scanned
        ≡ ok (entries, by_path))
      × (m'.index ≡ some (record { entries = entries; by_path = by_path; updated_at = now }))
      × (m'.root_dir ≡ m.root_dir)
rebuilt now m m' (err e) h = absurd (ground arith)
rebuilt now m m' (ok (entries, by_path)) h = (entries, by_path, refl, ground arith, ground arith)

first_inv :
    (name : Text) (built : ModuleIndex × Option Text) (others : Outcome (Dict ModuleIndex))
    (idx : Dict ModuleIndex)
    → after_first name built others ≡ ok idx
    → (rest : Dict ModuleIndex) × (others ≡ ok rest)
      × (built.1 ≡ none)
      × (idx ≡ (name, built.0) ∷ rest)
first_inv name (m, some e) others idx h = absurd (cc)
first_inv name (m, none) (err e) idx h = absurd (cc)
first_inv name (m, none) (ok others) idx h = (others, refl, refl, cc)

new_indexer-Indexes :
    (tree : Text → Outcome Node) (now : ℤ) (modules : Dict Module) (idx : Dict ModuleIndex)
    (name : Text) (conf : Module)
    → new_indexer tree now modules ≡ ok idx
    → lookup name modules ≡ some conf
    → Indexes tree now idx name conf
unfolding new_indexer lookup rebuild
new_indexer-Indexes tree now [] idx name conf h found = absurd (cc)
new_indexer-Indexes tree now ((key, first) ∷ modules) idx name conf h found =
    let fresh : ModuleIndex = record {
      name = key;
      root_dir = first.root_dir;
      index = none;
      last_err = none;
    } in
    let built = after_scan now fresh (scan_module (tree first.root_dir)) in
    let (rest, others, fine, is_idx) = first_inv key built (new_indexer tree now modules) idx h in
    elim (Bool-cases (key == name)) [
      | inl same ↦
          let is_conf : some first ≡ some conf = rw same at found in
          let same_conf : conf ≡ first = cc in
          let (entries, by_path, scanned, filled, rooted) =
            rebuilt now fresh built.0 (scan_module (tree first.root_dir))
              (ap (λ e. (built.0, e)) fine) in
          record {
            entry = built.0;
            entries = entries;
            by_path = by_path;
            scanned = ap (λ (c : Module). scan_module (tree c.root_dir)) same_conf ∙ scanned;
            found = ap (lookup name) is_idx ∙ rw same refl;
            filled = filled;
            rooted = rooted ∙ ap (λ (c : Module). c.root_dir) (sym same_conf);
          }
      | inr other ↦
          let later =
            new_indexer-Indexes tree now modules rest name conf others (rw other at found) in
          record {
            entry = later.entry;
            entries = later.entries;
            by_path = later.by_path;
            scanned = later.scanned;
            found = ap (lookup name) is_idx ∙ rw other later.found;
            filled = later.filled;
            rooted = later.rooted;
          }
    ]

-- Once the server has started, a snapshot of any configured module can be taken: the scan of the
-- module's directory has come to a list and a map, and the snapshot is made of them, below that
-- directory.
pub new_indexer-build_snapshot :
    (engine : Engine) (ex : Excluder engine) (tree : Text → Outcome Node) (started now : ℤ)
    (modules : Dict Module) (idx : Dict ModuleIndex) (id name source_path : Text) (conf : Module)
    → new_indexer tree started modules ≡ ok idx
    → lookup name modules ≡ some conf
    → (entries : List ManifestEntry) × (by_path : Dict ManifestEntry) × (scan_module
          (tree conf.root_dir)
        ≡ ok (entries, by_path))
      × (build_snapshot engine ex idx id name source_path now
          ≡ indexed (
              snapshot_of engine ex id conf.root_dir source_path now
                (record { entries = entries; by_path = by_path; updated_at = started })))
unfolding build_snapshot module_snapshot
new_indexer-build_snapshot engine ex tree started now modules idx id name source_path conf h found =
    let x = new_indexer-Indexes tree started modules idx name conf h found in
    let held : IndexedData = record {
      entries = x.entries;
      by_path = x.by_path;
      updated_at = started;
    } in
    (
      x.entries,
      x.by_path,
      x.scanned,
      ap (of_module engine ex id source_path now) x.found
          ∙ ap (of_index engine ex id source_path now x.entry) x.filled
          ∙ ap (λ root. indexed (snapshot_of engine ex id root source_path now held)) x.rooted,
    )
