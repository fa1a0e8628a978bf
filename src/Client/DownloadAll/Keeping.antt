-- ===== src/Client/DownloadAll/Keeping.antt =====
-- What the steps of downloadAll keep of the target directory: the links and the promotion of an object.
use http_syncer.Base.{
  ◌≡◌, ◌≢◌, refl, sym, ap, ◌∙◌, inl, inr, Bool, true, false, Bool-cases, List, [], ◌∷◌, Option,
  none, some, Text, ◌==◌, Dict, lookup, lookup-insert, lookup-erase, In,
}
use http_syncer.Path.{rel}
use http_syncer.Snapshot.{ManifestEntry}
use http_syncer.Client.Download.{Store}
use http_syncer.Client.Promote.{
  TargetFile, link, Target, Step, PromoteEnv, promote, after_links, link_entry, link_entries,
  make_link, and_rest, remove_path, object_path, target_path, dir_of, set_attributes,
}
use http_syncer.Client.DownloadAll.Contents.{
  content_of, set_attributes-content_of, remove_path-content_of,
}
use http_syncer.Client.DownloadAll.Stored.{Honest, Adds}

module _ (sum : Text → Text) (root : Text) where
  -- What steps with the entries that satisfy `P` keep: files and objects whose paths are none of their
  -- targets, and that every object has the checksum that is its name.
  pub record Keeps (P : ManifestEntry → Type 0) (t t' : Target) : Type 0 where
    pub file_kept :
        (at : Text)
        → ((e : ManifestEntry) → P e → (target_path root e == at) ≡ false)
        → lookup at t'.files ≡ lookup at t.files
    pub object_kept :
        (checksum : Text)
        → ((e : ManifestEntry) → P e → (target_path root e == object_path root checksum) ≡ false)
        → content_of checksum t.store ≢ none
        → content_of checksum t'.store ≢ none
    pub honest_kept : Honest sum t.store → Honest sum t'.store

  module _ (P : ManifestEntry → Type 0) where
    pub Keeps-refl : (t : Target) → Keeps P t t
    Keeps-refl t = record {
      file_kept = λ at apart. refl;
      object_kept = λ checksum apart there. there;
      honest_kept = λ h. h;
    }

    pub Keeps-trans : {a b c : Target} → Keeps P a b → Keeps P b c → Keeps P a c
    Keeps-trans g h = record {
      file_kept = λ at apart. h.file_kept at apart ∙ g.file_kept at apart;
      object_kept =
          λ checksum apart there. h.object_kept checksum apart (g.object_kept checksum apart there);
      honest_kept = λ x. h.honest_kept (g.honest_kept x);
    }

    -- The files stay, and the contents of the objects.
    same_Keeps :
        (t t' : Target)
        → t'.files ≡ t.files
        → ((at : Text) → content_of at t'.store ≡ content_of at t.store)
        → Keeps P t t'
    same_Keeps t t' files same = record {
      file_kept = λ at apart. ap (lookup at) files;
      object_kept = λ checksum apart there missing. there (sym (same checksum) ∙ missing);
      honest_kept = λ h checksum x found. h checksum x (sym (same checksum) ∙ found);
    }

    pub Adds-Keeps :
        (checksum : Text) (files : Dict TargetFile) (st st' : Store)
        → Adds sum checksum st st'
        → Keeps P (record { store = st; files = files }) (record { store = st'; files = files })
    Adds-Keeps checksum files st st' adds = record {
      file_kept = λ at apart. refl;
      object_kept = λ at apart there missing. elim (adds at) [
        | inl same ↦ there (sym same ∙ missing)
        | inr (here, (y, now, right)) ↦ absurd (cc (now, missing))
      ];
      honest_kept = λ h at x there. elim (adds at) [
        | inl same ↦ h at x (sym same ∙ there)
        | inr (here, (y, now, right)) ↦ cc (here, now, right, there)
      ];
    }

    remove_path-Keeps :
        (e : ManifestEntry) (t : Target) → P e → Keeps P t (remove_path root (target_path root e) t)
    unfolding remove_path
    remove_path-Keeps e t p =
        let target = target_path root e in
        record {
          file_kept = λ at apart. lookup-erase target at t.files ∙ rw (apart e p) refl;
          object_kept = λ c apart there missing.
              there (sym (remove_path-content_of root target c t ∙ rw (apart e p) refl) ∙ missing);
          honest_kept = λ h c x found. elim (Bool-cases (target == object_path root c)) [
            | inl gone ↦
                let lost : content_of c (remove_path root target t).store ≡ none =
                  remove_path-content_of root target c t ∙ rw gone refl in
                absurd (cc (lost, found))
            | inr kept ↦
                let same : content_of c (remove_path root target t).store ≡ content_of c t.store =
                  remove_path-content_of root target c t ∙ rw kept refl in
                h c x (sym same ∙ found)
          ];
        }

    make_link-Keeps :
        (links : Bool) (e : ManifestEntry) (t : Target) (way : Option Text)
        → P e
        → Keeps P t (make_link root links (target_path root e) t way).0
    make_link-Keeps links e t none p = Keeps-refl t
    make_link-Keeps false e t (some r) p = Keeps-refl t
    make_link-Keeps true e t (some r) p = record {
      file_kept =
          λ at apart. lookup-insert (target_path root e) at (link r) t.files ∙ rw (apart e p) refl;
      object_kept = λ c apart there. there;
      honest_kept = λ h. h;
    }

    link_entry-Keeps :
        (object : Text) (step : Step) (e : ManifestEntry) (t : Target)
        → P e
        → Keeps P t (link_entry root object step e t).0
    unfolding link_entry
    link_entry-Keeps object step e t p =
        let target = target_path root e in
        elim (Bool-cases step.makes) [
          | inr unmade ↦ rw unmade (Keeps-refl t)
          | inl made ↦ elim (Bool-cases step.removes) [
            | inr stuck ↦ rw (made, stuck) (Keeps-refl t)
            | inl gone ↦
                rw (made, gone)
                  (Keeps-trans (remove_path-Keeps e t p) (
                    make_link-Keeps step.links e (remove_path root target t)
                      (rel (dir_of target) object) p))
          ]
        ]

    and_rest-Keeps :
        (t : Target) (rest : Target → Target × Bool) (r : Target × Bool)
        → Keeps P t r.0
        → ((x : Target) → Keeps P x (rest x).0)
        → Keeps P t (and_rest root rest r).0
    and_rest-Keeps t rest (x, false) first later = first
    and_rest-Keeps t rest (x, true) first later = Keeps-trans first (later x)

    pub link_entries-Keeps :
        (object : Text) (steps : Text → Step) (entries : List ManifestEntry) (t : Target)
        → ((e : ManifestEntry) → In e entries → P e)
        → Keeps P t (link_entries root object steps entries t).0
    unfolding link_entries
    link_entries-Keeps object steps [] t all = Keeps-refl t
    link_entries-Keeps object steps (e ∷ entries) t all =
        and_rest-Keeps t (link_entries root object steps entries)
          (link_entry root object (steps e.path) e t)
          (link_entry-Keeps object (steps e.path) e t (all e (inl refl)))
          (λ x. link_entries-Keeps object steps entries x (λ y m. all y (inr m)))

    after_links-Keeps :
        (env : PromoteEnv) (checksum : Text) (entries : List ManifestEntry) (r : Target × Bool)
        → Keeps P r.0 (after_links env checksum entries r).0
    after_links-Keeps env checksum entries (t, false) = Keeps-refl t
    after_links-Keeps env checksum entries (t, true) =
        same_Keeps t (record t { store = (set_attributes env checksum entries t.store).0 }) refl
          (λ at. set_attributes-content_of env checksum at entries t.store)

    pub promote-Keeps :
        (env : PromoteEnv) (checksum : Text) (entries : List ManifestEntry) (t : Target)
        → ((e : ManifestEntry) → In e entries → P e)
        → Keeps P t (promote root env checksum entries t).0
    unfolding promote
    promote-Keeps env checksum entries t all =
        Keeps-trans (link_entries-Keeps (object_path root checksum) env.steps entries t all) (
          after_links-Keeps env checksum entries
            (link_entries root (object_path root checksum) env.steps entries t))
