-- ===== src/Snapshot/Scan/Legacy.antt =====
-- BuildSnapshot and the indexed snapshots list the same files, where the exclusions of the folders of the
-- tree hold for their files.
use http_syncer.Base.{
  ◌≡◌, ◌≢◌, refl, sym, ap, ◌∙◌, subst, ◌↔◌, Option-cases, inl, inr, [], Option, none, some, Text,
  ◌==◌, In, In-append, In-append_left, In-append_right, arith,
}
use http_syncer.Base.Int.{ℤ}
use http_syncer.Path.{dot, clean}
use http_syncer.Filter.{Engine, Excluder, match_path}
use http_syncer.Walk.{
  Faults, ok, Meta, Node, leaf, folder, Forest, nil, cons, Visit, walked, skipping, failed, below,
  walk_root,
}
use http_syncer.Walk.Collect.{collect, collect_node, walk_root-collect, root_skips}
use http_syncer.Snapshot.{
  source_prefix, snapshot_of, IndexedData, ManifestEntry, Snapshot, Built, no_tables, sort_by,
}
use http_syncer.Snapshot.Sort.{In-sort_by, sort_by-In}
use http_syncer.Snapshot.Contents.{FromIndex, snapshot_of-entries}
use http_syncer.Snapshot.Scan.{scan_module, build_visit, build_legacy, of_built}
use http_syncer.Snapshot.Scan.Files.{scan_module-entries, regular_file, every, files_of}
use http_syncer.Snapshot.Scan.Visits.{
  shown, kept_file, unless_matched, informed_path, build_visit-Collects,
}

module _ (engine : Engine) (ex : Excluder engine) where
  -- Where a folder is excluded, so is each regular file that lies in it.
  unfoldable mutual
    pub NodeHides : Text → Node → Type 0
    NodeHides path (leaf m) = Unit
    NodeHides path (folder f kids) =
        (match_path engine ex path ≢ none
          → (e : ManifestEntry) → In e (collect every regular_file path kids)
          → match_path engine ex e.path ≢ none)
        × ForestHides path kids

    pub ForestHides : Text → Forest → Type 0
    ForestHides path nil = Unit
    ForestHides path (cons name node rest) =
        NodeHides (below path name) node × ForestHides path rest

  leaf_visible :
      (path : Text) (m : Meta) (e : ManifestEntry) (found : Option Text)
      → match_path engine ex path ≡ found
      → In e (unless_matched engine ex path m found)
        ↔ (In e (regular_file path m) × (match_path engine ex e.path ≡ none))
  leaf_visible path m e none q = (
    λ member. (
      member,
      ap (match_path engine ex) (informed_path engine ex path m e m.info m.sum refl member) ∙ q,
    ),
    λ both. both.0,
  )
  leaf_visible path m e (some reason) q = (
    λ member. absurd member,
    λ both. absurd (
        cc (
          both.1,
          q,
          ap (match_path engine ex) (informed_path engine ex path m e m.info m.sum refl both.0),
        )),
  )

  mutual
    unfolding collect_node NodeHides

    node_visible :
        (path : Text) (node : Node) (e : ManifestEntry)
        → NodeHides path node
        → In e (collect_node (shown engine ex) (kept_file engine ex) path node) ↔ (
            In e (collect_node every regular_file path node) × (match_path engine ex e.path ≡ none))
    node_visible path (leaf m) e hides = leaf_visible path m e (match_path engine ex path) refl
    node_visible path (folder f kids) e hides = elim (Option-cases (match_path engine ex path)) [
      | inl free ↦ rw free (forest_visible path kids e hides.1)
      | inr (reason, hidden) ↦ rw hidden (
        λ member. absurd member,
        λ both. absurd (hides.0 (λ free. absurd (cc (free, hidden))) e both.0 both.1),
      )
    ]

    forest_visible :
        (path : Text) (kids : Forest) (e : ManifestEntry)
        → ForestHides path kids
        → In e (collect (shown engine ex) (kept_file engine ex) path kids)
          ↔ (In e (collect every regular_file path kids) × (match_path engine ex e.path ≡ none))
    forest_visible path nil e hides = (λ member. absurd member, λ both. absurd both.0)
    forest_visible path (cons name node rest) e hides = (
      λ member.
          elim (In-append e
            (collect_node (shown engine ex) (kept_file engine ex) (below path name) node)
            (collect (shown engine ex) (kept_file engine ex) path rest) member) [
              | inl here ↦
                  let (found, free) = (node_visible (below path name) node e hides.0).0 here in
                  (
                    In-append_left e (collect_node every regular_file (below path name) node) _
                        found,
                    free,
                  )
              | inr later ↦
                  let (found, free) = (forest_visible path rest e hides.1).0 later in
                  (
                    In-append_right e (collect_node every regular_file (below path name) node) _
                        found,
                    free,
                  )
            ],
      λ both.
          elim (In-append e (collect_node every regular_file (below path name) node)
            (collect every regular_file path rest) both.0) [
              | inl here ↦
                  In-append_left e
                    (collect_node (shown engine ex) (kept_file engine ex) (below path name) node) _
                    ((node_visible (below path name) node e hides.0).1 (here, both.1))
              | inr later ↦
                  In-append_right e
                    (collect_node (shown engine ex) (kept_file engine ex) (below path name) node) _
                    ((forest_visible path rest e hides.1).1 (later, both.1))
            ],
    )

  built_lists :
      (id source_dir : Text) (now : ℤ) (kids : Forest) (snap : Snapshot) (v : Visit Built)
      → ((t : Built)
          → v ≡ walked t
          → t.entries ≡ collect (shown engine ex) (kept_file engine ex) [] kids)
      → ((t : Built) → v ≢ skipping t)
      → of_built engine ex id source_dir now v ≡ ok snap
      → (e : ManifestEntry)
      → In e snap.entries ↔ In e (collect (shown engine ex) (kept_file engine ex) [] kids)
  built_lists id source_dir now kids snap (failed x t) h k q e = absurd (cc)
  built_lists id source_dir now kids snap (skipping t) h k q e = absurd (k t refl)
  built_lists id source_dir now kids snap (walked t) h k q e =
      let listed : snap.entries ≡ sort_by (λ (y : ManifestEntry). y.path) t.entries =
        ground arith in
      (
        λ member.
            subst (In e) (h t refl)
              (sort_by-In (λ (y : ManifestEntry). y.path) e t.entries (subst (In e) listed member)),
        λ member. subst (In e) (sym listed) (
            In-sort_by (λ (y : ManifestEntry). y.path) e t.entries
              (subst (In e) (sym (h t refl)) member)),
      )

  -- If each regular file that lies in an excluded folder of the tree is excluded too, and no file has the
  -- path ".": a snapshot that `BuildSnapshot` builds of a folder and one that is taken of its whole index,
  -- from the same tree with the same exclusions, list the same entries.
  pub build_legacy-snapshot_of :
      (id source_dir : Text) (now : ℤ) (f : Faults) (kids : Forest) (snap : Snapshot)
      (index : IndexedData)
      → ForestHides [] kids
      → ((e : ManifestEntry) → In e (files_of [] kids) → e.path ≢ dot)
      → build_legacy engine ex id source_dir now (ok (folder f kids)) ≡ ok snap
      → scan_module (ok (folder f kids)) ≡ ok (index.entries, index.by_path)
      → (e : ManifestEntry)
      → In e snap.entries ↔ In e (snapshot_of engine ex id source_dir dot now index).entries
  unfolding build_legacy
  build_legacy-snapshot_of id source_dir now f kids snap index hides proper built scanned e = (
    λ member.
        let (found, free) = (forest_visible [] kids e hides).0 (listed.0 member) in
        from.1 (
          e,
          subst (In e) (sym sorted) (In-sort_by by_its_path e _ found),
          record { lies = refl; same = refl; proper = proper e found; kept = free },
        ),
    λ member.
        let (item, found, x) = from.0 member in
        let is_item : e ≡ item = x.same ∙ ap (λ p. record item { path = p }) (sym x.lies) in
        let item_found = sort_by-In by_its_path item _ (subst (In item) sorted found) in
        listed.1 (
          (forest_visible [] kids e hides).1
            (subst (λ y. In y (files_of [] kids)) (sym is_item) item_found, x.kept)),
  )
    where
      by_its_path : ManifestEntry → Text
      by_its_path y = y.path

      sorted : index.entries ≡ sort_by (λ (y : ManifestEntry). y.path) (files_of [] kids)
      sorted = scan_module-entries f kids index.entries index.by_path scanned

      listed : In e snap.entries ↔ In e (collect (shown engine ex) (kept_file engine ex) [] kids)
      listed =
          built_lists id source_dir now kids snap
            (walk_root (build_visit engine ex) (ok (folder f kids)) no_tables)
            (walk_root-collect (shown engine ex) (kept_file engine ex) (λ (t : Built). t.entries)
              (build_visit engine ex) (build_visit-Collects engine ex) f kids no_tables)
            (root_skips (shown engine ex) (kept_file engine ex) (λ (t : Built). t.entries)
              (build_visit engine ex) (build_visit-Collects engine ex) f kids no_tables)
            built e

      whole : source_prefix dot ≡ []
      whole = unfold source_prefix clean ◌==◌ in refl

      from :
          In e (snapshot_of engine ex id source_dir dot now index).entries
          ↔ FromIndex engine ex [] index.entries e
      from =
          subst
            (λ p.
              In e (snapshot_of engine ex id source_dir dot now index).entries
              ↔ FromIndex engine ex p index.entries e)
            whole (snapshot_of-entries engine ex id source_dir dot now index e)
