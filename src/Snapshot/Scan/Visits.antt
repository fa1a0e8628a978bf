-- ===== src/Snapshot/Scan/Visits.antt =====
-- The entries that the callback of BuildSnapshot collects.
use http_syncer.Base.{
  ◌≡◌, ◌≢◌, refl, ap, Bool, true, false, Bool-cases, inl, inr, List, [], ◌++◌, Option, none, some,
  Text, In, arith,
}
use mathlib.Core.List.{append-nil}
use http_syncer.Filter.{Engine, Excluder, match_path}
use http_syncer.Walk.{Faults, folder_meta, Outcome, ok, err, FileInfo, Meta, walked, skipping}
use http_syncer.Walk.Collect.{Collects}
use http_syncer.Snapshot.{ManifestEntry, Built, add_entry}
use http_syncer.Snapshot.Scan.{build_visit, build_kept, build_info}
use http_syncer.Snapshot.Scan.Files.{informed, regular_file}

module _ (engine : Engine) (ex : Excluder engine) where
  abbrev pub is_none : Option Text → Bool
  is_none none = true
  is_none (some reason) = false

  abbrev pub shown : Text → Bool
  shown path = is_none (match_path engine ex path)

  abbrev pub unless_matched : Text → Meta → Option Text → List ManifestEntry
  unless_matched path m none = regular_file path m
  unless_matched path m (some reason) = []

  abbrev pub kept_file : Text → Meta → List ManifestEntry
  kept_file path m = unless_matched path m (match_path engine ex path)

  folder_enters :
      (path : Text) (f : Faults) (fault : Option Text) (t t' : Built) (found : Option Text)
      → f.info ≡ fault
      → build_kept engine ex path true (folder_meta f) t found ≡ walked t'
      → (is_none found ≡ true) × (t'.entries ≡ t.entries)
  folder_enters path f fault t t' (some reason) e h = absurd (cc)
  folder_enters path f none t t' none e h = (refl, ground arith)
  folder_enters path f (some x) t t' none e h = absurd (ground arith)

  folder_passes :
      (path : Text) (f : Faults) (fault : Option Text) (t t' : Built) (found : Option Text)
      → f.info ≡ fault
      → build_kept engine ex path true (folder_meta f) t found ≡ skipping t'
      → (is_none found ≡ false) × (t'.entries ≡ t.entries)
  folder_passes path f fault t t' (some reason) e h = (refl, ground arith)
  folder_passes path f none t t' none e h = absurd (ground arith)
  folder_passes path f (some x) t t' none e h = absurd (ground arith)

  info_adds :
      (path : Text) (m : Meta) (t t' : Built) (info : Outcome FileInfo) (sum : Outcome Text)
      → m.sum ≡ sum
      → build_info engine ex path false m t info ≡ walked t'
      → t'.entries ≡ t.entries ++ informed path m info
  unfolding add_entry
  info_adds path m t t' (err e) sum q h = absurd (cc)
  info_adds path m t t' (ok info) (err e) q h = ground (arith, append-nil t.entries)
  info_adds path m t t' (ok info) (ok x) q h = ground (arith, append-nil t.entries)

  info_stays :
      (path : Text) (m : Meta) (t t' : Built) (info : Outcome FileInfo) (sum : Outcome Text)
      → m.sum ≡ sum
      → build_info engine ex path false m t info ≢ skipping t'
  info_stays path m t t' (err e) sum q h = cc
  info_stays path m t t' (ok info) (err e) q h = ground arith
  info_stays path m t t' (ok info) (ok x) q h = ground arith

  leaf_adds :
      (path : Text) (m : Meta) (t t' : Built) (found : Option Text)
      → build_kept engine ex path false m t found ≡ walked t'
      → t'.entries ≡ t.entries ++ unless_matched path m found
  leaf_adds path m t t' none h = info_adds path m t t' m.info m.sum refl h
  leaf_adds path m t t' (some reason) h = ground (arith, append-nil t.entries)

  leaf_stays :
      (path : Text) (m : Meta) (t t' : Built) (found : Option Text)
      → build_kept engine ex path false m t found ≢ skipping t'
  leaf_stays path m t t' none h = info_stays path m t t' m.info m.sum refl h
  leaf_stays path m t t' (some reason) h = cc

  pub build_visit-Collects :
      Collects shown kept_file (λ (t : Built). t.entries) (build_visit engine ex)
  unfolding build_visit
  build_visit-Collects = record {
    entering = λ path f t t' h. folder_enters path f f.info t t' (match_path engine ex path) refl h;
    passing = λ path f t t' h. folder_passes path f f.info t t' (match_path engine ex path) refl h;
    adding = λ path m t t' h. leaf_adds path m t t' (match_path engine ex path) h;
    staying = λ path m t t' h. leaf_stays path m t t' (match_path engine ex path) h;
  }

  pub informed_path :
      (path : Text) (m : Meta) (e : ManifestEntry) (info : Outcome FileInfo) (sum : Outcome Text)
      → m.sum ≡ sum
      → In e (informed path m info)
      → e.path ≡ path
  informed_path path m e (err x) sum q h = absurd h
  informed_path path m e (ok info) (err x) q h = elim (Bool-cases info.regular) [
    | inl yes' ↦ absurd (rw (yes', q) at h)
    | inr other ↦ absurd (rw other at h)
  ]
  informed_path path m e (ok info) (ok x) q h = elim (Bool-cases info.regular) [
    | inl yes' ↦ elim (rw (yes', q) at h) [
      | inl is_e ↦ ap (λ (y : ManifestEntry). y.path) is_e
      | inr no' ↦ absurd no'
    ]
    | inr other ↦ absurd (rw other at h)
  ]
