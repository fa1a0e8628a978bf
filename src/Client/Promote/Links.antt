-- ===== src/Client/Promote/Links.antt =====
-- The links that a promotion makes.
use http_syncer.Base.{
  ◌≡◌, refl, sym, ap, ◌∙◌, subst, inl, inr, Bool, true, false, Bool-cases, List, [], ◌∷◌, Option,
  none, some, Text, ◌==◌, ==→≡, Dict, lookup, insert, erase, lookup-insert, lookup-insert_self,
  lookup-erase, In,
}
use http_syncer.Snapshot.{ManifestEntry}
use http_syncer.Path.{rel}
use http_syncer.Client.Promote.{
  TargetFile, link, Target, Step, PromoteEnv, promote, after_links, link_entry, link_entries,
  make_link, and_rest, remove_path, object_path, target_path, dir_of,
}

module _ (root : Text) where
  -- The file of an entry is a link, whose text is the way from the file's folder to an object.
  abbrev pub LinksTo : Text → ManifestEntry → Dict TargetFile → Type 0
  LinksTo object e files =
      (r : Text) × (lookup (target_path root e) files ≡ some (link r))
      × (rel (dir_of (target_path root e)) object ≡ some r)

  module _ (object : Text) where
    made_inv :
        (links : Bool) (e : ManifestEntry) (t t' : Target) (way : Option Text)
        → way ≡ rel (dir_of (target_path root e)) object
        → make_link root links (target_path root e) t way ≡ (t', true)
        → (r : Text) × (t'.files ≡ insert (target_path root e) (link r) t.files)
          × (rel (dir_of (target_path root e)) object ≡ some r)
    made_inv links e t t' none q h = absurd (cc)
    made_inv true e t t' (some r) q h = (r, sym (ap (λ (p : Target × Bool). p.0.files) h), sym q)
    made_inv false e t t' (some r) q h = absurd (cc)

    -- A link that is made is there, and the other files are as they were.
    linked_inv :
        (step : Step) (e : ManifestEntry) (t t' : Target)
        → link_entry root object step e t ≡ (t', true)
        → LinksTo object e t'.files
          × ((at : Text)
              → (target_path root e == at) ≡ false
              → lookup at t'.files ≡ lookup at t.files)
    unfolding link_entry remove_path
    linked_inv step e t t' h = elim (Bool-cases step.makes) [
      | inr unmade ↦ absurd (cc (simp unmade at h))
      | inl made ↦ elim (Bool-cases step.removes) [
        | inr stuck ↦ absurd (cc (simp (made, stuck) at h))
        | inl gone ↦
            let target = target_path root e in
            let (r, is_files, way) =
              made_inv step.links e (remove_path root target t) t' _ refl
                (simp (made, gone) at h) in
            (
              (
                r,
                ap (lookup target) is_files
                    ∙ lookup-insert_self target (link r) (erase target t.files),
                way,
              ),
              λ at other.
                  ap (lookup at) is_files
                  ∙ lookup-insert target at (link r) (erase target t.files)
                  ∙ rw other (lookup-erase target at t.files ∙ rw other refl),
            )
      ]
    ]

    -- A later entry leaves a link as it is, unless both entries have one path and other objects.
    kept_link :
        (step : Step) (e x : ManifestEntry) (object_x : Text) (t t' : Target)
        → link_entry root object step e t ≡ (t', true)
        → (target_path root x ≡ target_path root e → object_x ≡ object)
        → LinksTo object_x x t.files
        → LinksTo object_x x t'.files
    kept_link step e x object_x t t' h clash (r, there, way) =
        let (new, others) = linked_inv step e t t' h in
        elim (Bool-cases (target_path root e == target_path root x)) [
          | inr other ↦ (r, others (target_path root x) other ∙ there, way)
          | inl same ↦
              let q = ==→≡ (target_path root e) (target_path root x) same in
              (
                new.0,
                ap (λ k. lookup k t'.files) (sym q) ∙ new.1,
                ap (λ o. rel (dir_of (target_path root x)) o) (clash (sym q))
                    ∙ ap (λ k. rel (dir_of k) object) (sym q)
                    ∙ new.2,
              )
        ]

    first_linked :
        (rest : Target → Target × Bool) (r : Target × Bool) (t' : Target)
        → and_rest root rest r ≡ (t', true)
        → (mid : Target) × (r ≡ (mid, true)) × (rest mid ≡ (t', true))
    first_linked rest (mid, true) t' h = (mid, refl, h)
    first_linked rest (mid, false) t' h = absurd (cc (ap (λ x. x.1) h))

    pub links_keep :
        (steps : Text → Step) (entries : List ManifestEntry) (x : ManifestEntry) (object_x : Text)
        (t t' : Target)
        → link_entries root object steps entries t ≡ (t', true)
        → ((e : ManifestEntry)
            → In e entries
            → target_path root x ≡ target_path root e
            → object_x ≡ object)
        → LinksTo object_x x t.files
        → LinksTo object_x x t'.files
    unfolding link_entries
    links_keep steps [] x object_x t t' h clash l =
        subst (LinksTo object_x x) (ap (λ (p : Target × Bool). p.0.files) h) l
    links_keep steps (e ∷ entries) x object_x t t' h clash l =
        let (mid, first, rest) =
          first_linked (link_entries root object steps entries)
            (link_entry root object (steps e.path) e t) t' h in
        links_keep steps entries x object_x mid t' rest (λ e' m. clash e' (inr m))
          (kept_link (steps e.path) e x object_x t mid first (clash e (inl refl)) l)

    pub links_made :
        (steps : Text → Step) (entries : List ManifestEntry) (t t' : Target) (x : ManifestEntry)
        → link_entries root object steps entries t ≡ (t', true)
        → In x entries
        → LinksTo object x t'.files
    unfolding link_entries
    links_made steps [] t t' x h m = absurd m
    links_made steps (e ∷ entries) t t' x h m =
        let (mid, first, rest) =
          first_linked (link_entries root object steps entries)
            (link_entry root object (steps e.path) e t) t' h in
        elim m [
          | inl here ↦
              links_keep steps entries x object mid t' rest (λ e' m' q. refl)
                (subst (λ y. LinksTo object y mid.files) (sym here)
                  (linked_inv (steps e.path) e t mid first).0)
          | inr later ↦ links_made steps entries mid t' x rest later
        ]

  promoted_inv :
      (env : PromoteEnv) (checksum : Text) (entries : List ManifestEntry) (linked : Target × Bool)
      (t' : Target)
      → after_links env checksum entries linked ≡ (t', true)
      → (mid : Target) × (linked ≡ (mid, true)) × (t'.files ≡ mid.files)
  promoted_inv env checksum entries (t, false) t' h = absurd (cc (ap (λ p. p.1) h))
  promoted_inv env checksum entries (t, true) t' h =
      (t, refl, sym (ap (λ (p : Target × Bool). p.0.files) h))

  -- A promotion without an error made its links.
  pub promote_links :
      (env : PromoteEnv) (checksum : Text) (entries : List ManifestEntry) (t t' : Target)
      → promote root env checksum entries t ≡ (t', true)
      → (mid : Target) × (link_entries root (object_path root checksum) env.steps entries t
          ≡ (mid, true))
        × (t'.files ≡ mid.files)
  unfolding promote
  promote_links env checksum entries t t' h =
      promoted_inv env checksum entries
        (link_entries root (object_path root checksum) env.steps entries t) t' h
