-- ===== src/Client/DownloadAll/Honest.antt =====
-- What downloadAll keeps of the target directory: the objects, and the files that are no entry's.
use http_syncer.Base.{
  ℕ, ◌≡◌, refl, ap, ◌∙◌, inl, inr, Bool, true, false, ◌||◌, Bool-cases, List, [], ◌∷◌, Option, none,
  some, Text, ◌==◌, Dict, lookup, length, In,
}
use http_syncer.Snapshot.{ManifestEntry, sort_by}
use http_syncer.Snapshot.Sort.{sort_by-In}
use http_syncer.Client.Download.{Store, download_object}
use http_syncer.Client.Promote.{TargetFile, Target, promote, object_path, part_path, target_path}
use http_syncer.Client.DownloadAll.{
  GroupEnv, Tally, after_download, after_promotion, run_group, run_groups, taken, bad_name,
  is_there,
}
use http_syncer.Client.DownloadAll.Groups.{Held, Held-later}
use http_syncer.Client.DownloadAll.Stored.{download_object-Adds}
use http_syncer.Client.DownloadAll.Keeping.{
  Keeps, Keeps-refl, Keeps-trans, Adds-Keeps, promote-Keeps,
}

module _ (sum : Text → Text) (root : Text) where
  -- The paths of the objects and of the parts of the entries that satisfy `P` are no targets of them, and
  -- they are free: the checksums are file names, and no link lies at these paths.
  pub record IsApart (P : ManifestEntry → Type 0) (files : Dict TargetFile) : Type 0 where
    pub no_object :
        (x y : ManifestEntry)
        → P x
        → P y
        → (target_path root x == object_path root y.checksum) ≡ false
    pub no_part :
        (x y : ManifestEntry)
        → P x
        → P y
        → (target_path root x == part_path root y.checksum) ≡ false
    pub free : (e : ManifestEntry) → P e → taken sum root e.checksum files ≡ false

  module _ (P : ManifestEntry → Type 0) where
    after_promotion-Keeps :
        (t : Target) (files written : ℕ) (n : Tally) (r : Target × Bool)
        → Keeps sum root P t r.0
        → Keeps sum root P t (after_promotion sum root files written n r).0
    after_promotion-Keeps t files written n (x, true) kept = kept
    after_promotion-Keeps t files written n (x, false) kept = kept

    after_download-Keeps :
        (env : GroupEnv) (checksum : Text) (group : List ManifestEntry) (files : Dict TargetFile)
        (n : Tally) (r : Store × Option ℕ)
        → ((e : ManifestEntry) → In e group → P e)
        → Keeps sum root P
            (record { store = r.0; files = files })
            (after_download sum root env checksum group files n r).0
    after_download-Keeps env checksum group files n (st, none) all =
        Keeps-refl sum root P (record { store = st; files = files })
    after_download-Keeps env checksum group files n (st, some written) all =
        let t : Target = record { store = st; files = files } in
        after_promotion-Keeps t (length group) written n
          (promote root env.promotion checksum group t)
          (promote-Keeps sum root P env.promotion checksum group t all)

    -- The paths of the objects and of the parts stay free.
    IsApart-Keeps : (t t' : Target) → IsApart P t.files → Keeps sum root P t t' → IsApart P t'.files
    unfolding taken
    IsApart-Keeps t t' apart kept = record {
      no_object = apart.no_object;
      no_part = apart.no_part;
      free = λ e p.
          let object =
            kept.file_kept (object_path root e.checksum) (λ x q. apart.no_object x e q p) in
          let part = kept.file_kept (part_path root e.checksum) (λ x q. apart.no_part x e q p) in
          ap
            (λ (o : Option TargetFile × Option TargetFile).
              bad_name sum root e.checksum || is_there sum root o.0 || is_there sum root o.1)
            (ap (λ o. (o, lookup (part_path root e.checksum) t'.files)) object
              ∙ ap (λ o. (lookup (object_path root e.checksum) t.files, o)) part)
          ∙ apart.free e p;
    }

    pub run_group-Keeps :
        (env : GroupEnv) (group : List ManifestEntry) (t : Target) (n : Tally)
        → ((e : ManifestEntry) → In e group → P e)
        → IsApart P t.files
        → Keeps sum root P t (run_group sum root env group (t, n)).0
    unfolding run_group
    run_group-Keeps env [] t n all apart = Keeps-refl sum root P t
    run_group-Keeps env (first ∷ group) t n all apart =
        let got = download_object sum env.disk first env.server t.store in
        rw (apart.free first (all first (inl refl))) (
          Keeps-trans sum root P
            (Adds-Keeps sum root P first.checksum t.files t.store got.0
              (download_object-Adds sum env.disk first env.server t.store))
            (after_download-Keeps env first.checksum (first ∷ group) t.files n got all))

    pub group_IsApart :
        (env : GroupEnv) (group : List ManifestEntry) (t : Target) (n : Tally)
        → ((e : ManifestEntry) → In e group → P e)
        → IsApart P t.files
        → IsApart P (run_group sum root env group (t, n)).0.files
    group_IsApart env group t n all apart =
        IsApart-Keeps t (run_group sum root env group (t, n)).0 apart
          (run_group-Keeps env group t n all apart)

    pub run_groups-Keeps :
        (env : Text → GroupEnv) (groups : Dict (List ManifestEntry)) (t : Target) (n : Tally)
        → ((e : ManifestEntry) → Held e groups → P e)
        → IsApart P t.files
        → Keeps sum root P t (run_groups sum root env groups (t, n)).0
    unfolding run_groups run_group
    run_groups-Keeps env [] t n all apart = Keeps-refl sum root P t
    run_groups-Keeps env ((checksum, group) ∷ groups) t n all apart =
        elim (Bool-cases (env checksum).stopped) [
          | inl stop ↦ rw stop (Keeps-refl sum root P t)
          | inr on ↦
              let sorted = sort_by (λ e. e.path) group in
              let next = run_group sum root (env checksum) sorted (t, n) in
              let here : (e : ManifestEntry) → In e sorted → P e =
                λ e m. all e ((checksum, group), inl refl, sort_by-In (λ e. e.path) e group m) in
              rw on (
                Keeps-trans sum root P (run_group-Keeps (env checksum) sorted t n here apart) (
                  run_groups-Keeps env groups next.0 next.1
                    (λ e held. all e (Held-later e (checksum, group) groups held))
                    (group_IsApart (env checksum) sorted t n here apart)))
        ]
