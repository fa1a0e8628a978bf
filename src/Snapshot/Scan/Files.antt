-- ===== src/Snapshot/Scan/Files.antt =====
-- What the scans of a module find.
use http_syncer.Base.{
  ◌≡◌, ◌≢◌, refl, ap, ◌∙◌, Bool, true, Bool-cases, inl, inr, List, [], ◌∷◌, ◌++◌, none, Text, Dict,
  insert, arith, if◌then◌else◌,
}
use mathlib.Core.List.{append-nil}
use http_syncer.Walk.{
  Faults, into_folder, after_entry, walk_node, Outcome, ok, err, FileInfo, Meta, Node, leaf, folder,
  Forest, nil, cons, Visit, walked, skipping, failed, below, walk_root, walk_forest,
}
use http_syncer.Walk.Collect.{Collects, collect, walk_forest-collect, walk_root-collect, root_skips}
use http_syncer.Snapshot.{ManifestEntry, sort_by}
use http_syncer.Snapshot.Scan.{
  file_entry, Scanned, scan_visit, scan_leaf, add_scanned, scan_module, sorted_scan,
}

-- The entry that a leaf gives: one if it is a regular file, none if it is anything else.
abbrev pub summed : Text → FileInfo → Outcome Text → List ManifestEntry
summed path info (err e) = []
summed path info (ok sum) = file_entry path info sum ∷ []

abbrev pub informed : Text → Meta → Outcome FileInfo → List ManifestEntry
informed path m (err e) = []
informed path m (ok info) = if info.regular then summed path info m.sum else []

abbrev pub regular_file : Text → Meta → List ManifestEntry
regular_file path m = informed path m m.info

abbrev pub every : Text → Bool
every path = true

-- The regular files of a tree.
abbrev pub files_of : Text → Forest → List ManifestEntry
files_of = collect every regular_file

scan_leaf-adds :
    (path : Text) (m : Meta) (s s' : Scanned) (info : Outcome FileInfo) (sum : Outcome Text)
    → m.sum ≡ sum
    → scan_leaf path m s info ≡ walked s'
    → s'.0 ≡ s.0 ++ informed path m info
scan_leaf-adds path m s s' (err e) sum q h = absurd (cc)
scan_leaf-adds path m s s' (ok info) (err e) q h = ground (arith, append-nil s.0)
scan_leaf-adds path m s s' (ok info) (ok t) q h = ground (arith, append-nil s.0)

scan_leaf-stays :
    (path : Text) (m : Meta) (s s' : Scanned) (info : Outcome FileInfo) (sum : Outcome Text)
    → m.sum ≡ sum
    → scan_leaf path m s info ≢ skipping s'
scan_leaf-stays path m s s' (err e) sum q h = cc
scan_leaf-stays path m s s' (ok info) (err e) q h = ground arith
scan_leaf-stays path m s s' (ok info) (ok t) q h = ground arith

scan_visit-Collects : Collects every regular_file (λ (s : Scanned). s.0) scan_visit
unfolding scan_visit
scan_visit-Collects = record {
  entering = λ path f s s' h. (refl, cc);
  passing = λ path f s s' h. absurd (cc);
  adding = λ path m s s' h. scan_leaf-adds path m s s' m.info m.sum refl h;
  staying = λ path m s s' h. scan_leaf-stays path m s s' m.info m.sum refl h;
}

-- Every folder can be read, and every file that is regular.
unfoldable mutual
  pub ReadableNode : Node → Type 0
  ReadableNode (leaf m) =
      (info : FileInfo) × (m.info ≡ ok info)
      × (info.regular ≡ true → (sum : Text) × (m.sum ≡ ok sum))
  ReadableNode (folder f kids) = (f.read ≡ none) × Readable kids

  pub Readable : Forest → Type 0
  Readable nil = Unit
  Readable (cons name node rest) = ReadableNode node × Readable rest

leaf_scanned :
    (path : Text) (m : Meta) (s : Scanned) (info : FileInfo)
    → (info.regular ≡ true → (sum : Text) × (m.sum ≡ ok sum))
    → (s' : Scanned) × (scan_leaf path m s (ok info) ≡ walked s')
leaf_scanned path m s info h = elim (Bool-cases info.regular) [
  | inr other ↦ (s, rw other refl)
  | inl regular ↦
      let (sum, e) = h regular in
      (
        (s.0 ++ file_entry path info sum ∷ [], insert path (file_entry path info sum) s.1),
        rw (regular) (ap (add_scanned path info s) e),
      )
]

mutual
  unfolding walk_node ReadableNode scan_visit

  node_scanned :
      (path : Text) (node : Node) (s : Scanned)
      → ReadableNode node
      → (s' : Scanned) × (walk_node scan_visit path node s ≡ walked s')
  node_scanned path (leaf m) s (info, e, sums) =
      let (s', done) = leaf_scanned path m s info sums in (s', ap (scan_leaf path m s) e ∙ done)
  node_scanned path (folder f kids) s (read, h) =
      let (s', done) = forest_scanned path kids s h in
      (s', ap (λ o. into_folder o (walk_forest scan_visit path kids) (walked s)) read ∙ done)

  forest_scanned :
      (path : Text) (kids : Forest) (s : Scanned)
      → Readable kids
      → (s' : Scanned) × (walk_forest scan_visit path kids s ≡ walked s')
  forest_scanned path nil s h = (s, refl)
  forest_scanned path (cons name node rest) s h =
      let (t, went) = node_scanned (below path name) node s h.0 in
      let (s', done) = forest_scanned path rest t h.1 in
      (s', ap (after_entry (walk_forest scan_visit path rest)) went ∙ done)

-- The scan of a tree that can be read succeeds, and gives the entries of its regular files, each
-- with its path, information and checksum, in the order of their paths.
pub scan_module-files_of :
    (f : Faults) (kids : Forest)
    → f.read ≡ none
    → Readable kids
    → (by_path : Dict ManifestEntry) × (scan_module (ok (folder f kids))
        ≡ ok (sort_by (λ e. e.path) (files_of [] kids), by_path))
unfolding scan_module walk_root
scan_module-files_of f kids read h =
    let (s, done) = forest_scanned [] kids ([], []) h in
    let collected =
      walk_forest-collect every regular_file (λ (s : Scanned). s.0) scan_visit scan_visit-Collects
        [] kids ([], []) s done in
    (
      s.1,
      ap (λ o. sorted_scan (into_folder o (walk_forest scan_visit [] kids) (walked ([], [])))) read
          ∙ ap sorted_scan done
          ∙ ap (λ l. ok (sort_by (λ (e : ManifestEntry). e.path) l, s.1)) collected,
    )

-- A scan that succeeds gives the entries of the regular files.
pub scan_module-entries :
    (f : Faults) (kids : Forest) (entries : List ManifestEntry) (by_path : Dict ManifestEntry)
    → scan_module (ok (folder f kids)) ≡ ok (entries, by_path)
    → entries ≡ sort_by (λ e. e.path) (files_of [] kids)
unfolding scan_module
scan_module-entries f kids entries by_path h =
    scanned_entries (walk_root scan_visit (ok (folder f kids)) ([], []))
      (walk_root-collect every regular_file (λ (s : Scanned). s.0) scan_visit scan_visit-Collects f
        kids ([], []))
      (root_skips every regular_file (λ (s : Scanned). s.0) scan_visit scan_visit-Collects f kids
        ([], []))
      h
  where
    scanned_entries :
        (v : Visit Scanned)
        → ((s : Scanned) → v ≡ walked s → s.0 ≡ files_of [] kids)
        → ((s : Scanned) → v ≢ skipping s)
        → sorted_scan v ≡ ok (entries, by_path)
        → entries ≡ sort_by (λ e. e.path) (files_of [] kids)
    scanned_entries (failed x t) k l q = absurd (cc)
    scanned_entries (skipping s) k l q = absurd (l s refl)
    scanned_entries (walked s) k l q =
        let listed : entries ≡ sort_by (λ (e : ManifestEntry). e.path) s.0 = ground arith in
        listed ∙ ap (sort_by (λ (e : ManifestEntry). e.path)) (k s refl)
