-- ===== src/Client/Local/Files.antt =====
-- What the client finds in its own directory.
use http_syncer.Base.{
  ◌≡◌, refl, sym, ap, ◌∙◌, Bool, true, false, not, ◌||◌, Bool-cases, Option-cases, inl, inr, List,
  [], ◌∷◌, map, Option, none, some, Text, text, has_prefix, Dict, lookup, arith, if◌then◌else◌,
}
use http_syncer.Filter.{Engine, Excluder, match_path}
use http_syncer.Walk.{
  Faults, folder_meta, into_folder, after_entry, walk_node, Outcome, ok, err, FileInfo, Meta, Node,
  leaf, folder, Forest, nil, cons, walked, below, walk_root, walk_forest,
}
use http_syncer.Walk.Collect.{collect_node, collect}
use http_syncer.Snapshot.{ManifestEntry, sort_by}
use http_syncer.Client.{add_all}
use http_syncer.Client.Fetch.{add_all-append}
use http_syncer.Client.Plan.{
  GuardConfig, make_plan, missing_from, outdated, to_download, to_delete, left_over, delete_guard,
}
use http_syncer.Client.Local.{
  local_entry, Found, pass_by, add_local, local_visit, after_local, scan_local,
}

-- The information on every file and folder, and what is in every folder, can be read.
unfoldable mutual
  pub StatsNode : Node → Type 0
  StatsNode (leaf m) = (info : FileInfo) × (m.stat ≡ ok info)
  StatsNode (folder f kids) = (f.stat ≡ none) × (f.read ≡ none) × Stats kids

  pub Stats : Forest → Type 0
  Stats nil = Unit
  Stats (cons name node rest) = StatsNode node × Stats rest

abbrev pub stat_entry : Text → Outcome FileInfo → List ManifestEntry
stat_entry path (err e) = []
stat_entry path (ok info) = if info.regular then local_entry path info ∷ [] else []

all_missing : (remote : Dict ManifestEntry) → missing_from [] remote ≡ map (λ slot. slot.1) remote
unfolding missing_from outdated lookup
all_missing [] = refl
all_missing (slot ∷ remote) = ap (λ l. slot.1 ∷ l) (all_missing remote)

nothing_local :
    (cfg : GuardConfig) (remote : Dict ManifestEntry)
    → make_plan cfg remote [] ≡ some (sort_by (λ e. e.path) (map (λ slot. slot.1) remote), [])
unfolding make_plan to_delete left_over sort_by to_download delete_guard
nothing_local cfg remote =
    let open_ : (cfg.force || true) ≡ true = ground arith in
    rw open_ (ap (λ l. some (sort_by (λ (e : ManifestEntry). e.path) l, [])) (all_missing remote))

module _ (engine : Engine) (ex : Excluder engine) where
  abbrev is_match : Option Text → Bool
  is_match none = false
  is_match (some reason) = true

  -- A path whose text begins like the program's own folders, or one that is excluded.
  abbrev pub ignored : Text → Bool
  ignored path =
      has_prefix path (text ".sync-http-staging")
      || has_prefix path (text ".sync-http-objects")
      || is_match (match_path engine ex path)

  abbrev pub local_file : Text → Meta → List ManifestEntry
  local_file path m = if ignored path then [] else stat_entry path m.stat

  -- The regular files, or links to such, that are not ignored, nor in a folder that is.
  abbrev pub local_files : Forest → List ManifestEntry
  local_files = collect (λ path. not (ignored path)) local_file []

  visit_ignored :
      (path : Text) (dir : Bool) (m : Meta) (res : Found)
      → ignored path ≡ true
      → local_visit engine ex path dir m res ≡ pass_by dir res
  unfolding local_visit
  visit_ignored path dir m res h = elim (Bool-cases (has_prefix path (text ".sync-http-staging"))) [
    | inl a ↦ rw a refl
    | inr a' ↦ elim (Bool-cases (has_prefix path (text ".sync-http-objects"))) [
      | inl b ↦ rw (a', b) refl
      | inr b' ↦ elim (Option-cases (match_path engine ex path)) [
        | inl free ↦ absurd (cc (rw (a', b', free) at h))
        | inr (reason, hit) ↦ rw (a', b', hit) refl
      ]
    ]
  ]

  visit_kept :
      (path : Text) (dir : Bool) (m : Meta) (res : Found)
      → ignored path ≡ false
      → local_visit engine ex path dir m res ≡ add_local path res m.stat
  unfolding local_visit
  visit_kept path dir m res h = elim (Bool-cases (has_prefix path (text ".sync-http-staging"))) [
    | inl a ↦ absurd (cc (rw a at h))
    | inr a' ↦ elim (Bool-cases (has_prefix path (text ".sync-http-objects"))) [
      | inl b ↦ absurd (cc (rw (a', b) at h))
      | inr b' ↦ elim (Option-cases (match_path engine ex path)) [
        | inl free ↦ rw (a', b', free) refl
        | inr (reason, hit) ↦ absurd (cc (rw (a', b', hit) at h))
      ]
    ]
  ]

  added :
      (path : Text) (res : Found) (info : FileInfo)
      → add_local path res (ok info) ≡ walked (add_all (stat_entry path (ok info)) res)
  unfolding add_all
  added path res info = elim (Bool-cases info.regular) [
    | inl regular ↦ rw regular refl
    | inr other ↦ rw other refl
  ]

  nothing : (res : Found) → walked (add_all [] res) ≡ walked res
  unfolding add_all
  nothing res = refl

  folder_passed :
      (path : Text) (f : Faults) (res : Found)
      → f.stat ≡ none
      → add_local path res (folder_meta f).stat ≡ walked res
  folder_passed path f res stat = rw stat refl

  mutual
    unfolding walk_node collect_node StatsNode

    node_local :
        (path : Text) (node : Node) (res : Found)
        → StatsNode node
        → walk_node (local_visit engine ex) path node res
          ≡ walked (add_all (collect_node (λ p. not (ignored p)) local_file path node) res)
    node_local path (leaf m) res (info, stat) = elim (Bool-cases (ignored path)) [
      | inl out ↦
          visit_ignored path false m res out
          ∙ sym (
              ap (λ b. walked (add_all (if b then [] else stat_entry path m.stat) res)) out
              ∙ nothing res)
      | inr in_ ↦
          visit_kept path false m res in_
          ∙ ap (add_local path res) stat
          ∙ added path res info
          ∙ sym (
              ap (λ b. walked (add_all (if b then [] else stat_entry path m.stat) res)) in_
              ∙ ap (λ o. walked (add_all (stat_entry path o) res)) stat)
    ]
    node_local path (folder f kids) res (stat, read, h) = elim (Bool-cases (ignored path)) [
      | inl out ↦
          ap (into_folder f.read (walk_forest (local_visit engine ex) path kids))
            (visit_ignored path true (folder_meta f) res out)
          ∙ sym (
              ap
                (λ b. walked (
                  add_all
                    (if not b then collect (λ p. not (ignored p)) local_file path kids else [])
                    res))
                out
              ∙ nothing res)
      | inr in_ ↦
          ap (into_folder f.read (walk_forest (local_visit engine ex) path kids))
            (visit_kept path true (folder_meta f) res in_ ∙ folder_passed path f res stat)
          ∙ ap (λ o. into_folder o (walk_forest (local_visit engine ex) path kids) (walked res))
              read
          ∙ forest_local path kids res h
          ∙ sym (
              ap
                (λ b. walked (
                  add_all
                    (if not b then collect (λ p. not (ignored p)) local_file path kids else [])
                    res))
                in_)
    ]

    forest_local :
        (path : Text) (kids : Forest) (res : Found)
        → Stats kids
        → walk_forest (local_visit engine ex) path kids res
          ≡ walked (add_all (collect (λ p. not (ignored p)) local_file path kids) res)
    forest_local path nil res h = sym (nothing res)
    forest_local path (cons name node rest) res (here, later) =
        let first = collect_node (λ p. not (ignored p)) local_file (below path name) node in
        ap (after_entry (walk_forest (local_visit engine ex) path rest))
          (node_local (below path name) node res here)
        ∙ forest_local path rest (add_all first res) later
        ∙ ap walked
            (sym (add_all-append first (collect (λ p. not (ignored p)) local_file path rest) res))

  -- The scan of a directory that can be read, with its folders and what the system says of its files,
  -- succeeds, and finds each regular file, or link to one, whose
  -- path does not begin with the text `.sync-http-staging` or `.sync-http-objects` and is not excluded, and
  -- that lies in no folder of such a path, under its path, with the size, mode and time of what a link
  -- leads to. A file with a longer name that begins with one of these texts is not found.
  pub scan_local-local_files :
      (missing : Text → Bool) (makes : Outcome (Unit {0})) (f : Faults) (kids : Forest)
      → f.read ≡ none
      → Stats kids
      → scan_local engine ex missing makes (ok (folder f kids)) ≡ ok (add_all (local_files kids) [])
  unfolding scan_local walk_root
  scan_local-local_files missing makes f kids read h =
      ap
        (λ o.
          after_local missing makes
            (into_folder o (walk_forest (local_visit engine ex) [] kids) (walked [])))
        read
      ∙ ap (after_local missing makes) (forest_local [] kids [] h)

  -- If the walk comes first to a link that leads nowhere, and is not ignored, its error is taken for
  -- that of a missing root, which can be made: the scan then returns no error and no file, whatever the
  -- rest of the directory holds, and the plan, with the guard that it has, deletes nothing and downloads
  -- every remote file.
  pub scan_local-dangling :
      (missing : Text → Bool) (f : Faults) (name e : Text) (m : Meta) (rest : Forest)
      (cfg : GuardConfig) (remote : List ManifestEntry)
      → f.read ≡ none
      → ignored (below [] name) ≡ false
      → m.stat ≡ err e
      → missing e ≡ true
      → (scan_local engine ex missing (ok tt) (ok (folder f (cons name (leaf m) rest))) ≡ ok [])
        × (make_plan cfg (add_all remote []) []
            ≡ some (sort_by (λ x. x.path) (map (λ slot. slot.1) (add_all remote [])), []))
  unfolding scan_local walk_root walk_node
  scan_local-dangling missing f name e m rest cfg remote read in_ broken gone = (
    ap
          (λ o. after_local missing (ok tt) (
            into_folder o (walk_forest (local_visit engine ex) [] (cons name (leaf m) rest))
              (walked [])))
          read
        ∙ ap
            (λ v.
              after_local missing (ok tt)
                (after_entry (walk_forest (local_visit engine ex) [] rest) v))
            (visit_kept (below [] name) false m [] in_ ∙ ap (add_local (below [] name) []) broken)
        ∙ rw gone refl,
    nothing_local cfg (add_all remote []),
  )
