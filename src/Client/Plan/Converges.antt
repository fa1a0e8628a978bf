-- ===== src/Client/Plan/Converges.antt =====
-- A plan that the guard lets pass makes the local files those of the manifest.
use http_syncer.Base.{
  ◌≡◌, ◌≢◌, refl, sym, ap, ◌∙◌, subst, Bool-cases, Option-cases, true, inl, inr, List, [], ◌∷◌,
  none, some, Text, ◌==◌, ==→≡, ==_refl, In, Dict, lookup, length, if◌then◌else◌,
}
use http_syncer.Snapshot.{ManifestEntry}
use http_syncer.Snapshot.Sort.{In-sort_by, sort_by-In}
use http_syncer.Client.{add_all}
use http_syncer.Client.Plan.{
  GuardConfig, outdated, missing_from, left_over, to_download, to_delete, delete_guard, make_plan,
}
use http_syncer.Client.Plan.Keyed.{Keyed, lookup-path, add_all-Keyed}
use http_syncer.Client.Plan.Applied.{
  erase_all, Agrees, current-Agrees, add_all-cases, erase_all-kept, erase_all-none, erase_all-gone,
}

-- A file to download is one of the manifest's that is outdated.
missing_from-found :
    (local remote : Dict ManifestEntry) (e : ManifestEntry)
    → Keyed remote
    → In e (missing_from local remote)
    → lookup e.path remote ≡ some e
unfolding missing_from lookup
missing_from-found local [] e h member = absurd member
missing_from-found local ((p, re) ∷ remote) e h member =
    elim (Bool-cases (outdated (lookup p local) re)) [
      | inl old ↦ elim (rw old at member) [
        | inl is_re ↦
            let same : (p == e.path) ≡ true =
              ap (λ k. p == k) (ap (λ (x : ManifestEntry). x.path) is_re ∙ h.0) ∙ ==_refl p in
            rw same (ap some (sym is_re))
        | inr later ↦ shadowed (missing_from-found local remote e h.2 later)
      ]
      | inr current ↦ shadowed (missing_from-found local remote e h.2 (rw current at member))
    ]
  where
    shadowed :
        lookup e.path remote ≡ some e
        → (if p == e.path then some re else lookup e.path remote) ≡ some e
    shadowed found = elim (Bool-cases (p == e.path)) [
      | inl same ↦ absurd (cc (h.1, found, ap (λ k. lookup k remote) (==→≡ p e.path same)))
      | inr other ↦ rw other found
    ]

-- Every outdated file of the manifest is downloaded.
missing_from-outdated :
    (local remote : Dict ManifestEntry) (p : Text) (e : ManifestEntry)
    → lookup p remote ≡ some e
    → outdated (lookup p local) e ≡ true
    → In e (missing_from local remote)
unfolding missing_from lookup
missing_from-outdated local [] p e found old = absurd (cc)
missing_from-outdated local ((q, re) ∷ remote) p e found old = elim (Bool-cases (q == p)) [
  | inl same ↦
      let is_e : some re ≡ some e = rw same at found in
      let at : q ≡ p = ==→≡ q p same in
      let first : outdated (lookup q local) re ≡ true = cc (is_e, at, old) in
      rw first (inl (cc (is_e)))
  | inr other ↦
      let member = missing_from-outdated local remote p e (rw other at found) old in
      elim (Bool-cases (outdated (lookup q local) re)) [
        | inl more ↦ rw more (inr member)
        | inr fewer ↦ rw fewer member
      ]
]

-- A file to delete is not in the manifest.
left_over-absent :
    (remote local : Dict ManifestEntry) (p : Text)
    → In p (left_over remote local)
    → lookup p remote ≡ none
unfolding left_over
left_over-absent remote [] p member = absurd member
left_over-absent remote ((q, le) ∷ local) p member = elim (Option-cases (lookup q remote)) [
  | inr (e, present) ↦ left_over-absent remote local p (rw present at member)
  | inl missing ↦ elim (rw missing at member) [
    | inl is_q ↦ ap (λ k. lookup k remote) is_q ∙ missing
    | inr later ↦ left_over-absent remote local p later
  ]
]

-- Every local file that is not in the manifest is deleted.
left_over-local :
    (remote local : Dict ManifestEntry) (p : Text) (le : ManifestEntry)
    → lookup p local ≡ some le
    → lookup p remote ≡ none
    → In p (left_over remote local)
unfolding left_over lookup
left_over-local remote [] p le found missing = absurd (cc)
left_over-local remote ((q, e) ∷ local) p le found missing = elim (Bool-cases (q == p)) [
  | inl same ↦
      let at : q ≡ p = ==→≡ q p same in rw (ap (λ k. lookup k remote) at ∙ missing) (inl (sym at))
  | inr other ↦
      let member = left_over-local remote local p le (rw other at found) missing in
      elim (Option-cases (lookup q remote)) [
        | inl gone ↦ rw gone (inr member)
        | inr (x, present) ↦ rw present member
      ]
]

module _ (remote local : Dict ManifestEntry) (keyed : Keyed remote) where
  downloaded : Dict ManifestEntry
  downloaded = add_all (to_download remote local) local

  not_deleted :
      (p : Text) (e : ManifestEntry)
      → lookup p remote ≡ some e
      → (q : Text) → In q (to_delete remote local)
      → q ≢ p
  unfolding to_delete
  not_deleted p e present q member at =
      let missing = left_over-absent remote local q (sort_by-In (λ (k : Text). k) q _ member) in
      absurd (cc (missing, present, at))

  wanted_Agrees :
      (p : Text) (e : ManifestEntry)
      → lookup p remote ≡ some e
      → Agrees (lookup p downloaded) (some e)
  unfolding downloaded to_download
  wanted_Agrees p e present = elim (add_all-cases p (to_download remote local) local) [
    | inl (x, member, at, found) ↦
        let listed =
          missing_from-found local remote x keyed
            (sort_by-In (λ (y : ManifestEntry). y.path) x _ member) in
        let is_e : some x ≡ some e = sym listed ∙ ap (λ k. lookup k remote) at ∙ present in
        subst (λ o. Agrees o (some e)) (sym (found ∙ is_e)) (refl, refl, refl)
    | inr (others, found) ↦ elim (Bool-cases (outdated (lookup p local) e)) [
      | inl old ↦ absurd (
          others e
            (In-sort_by (λ (y : ManifestEntry). y.path) e _
              (missing_from-outdated local remote p e present old))
            (lookup-path p e remote keyed present))
      | inr current ↦
          subst (λ o. Agrees o (some e)) (sym found) (current-Agrees (lookup p local) e current)
    ]
  ]

  unwanted_gone :
      (p : Text)
      → lookup p remote ≡ none
      → lookup p (erase_all (to_delete remote local) downloaded) ≡ none
  unfolding downloaded to_download to_delete
  unwanted_gone p missing = elim (Option-cases (lookup p local)) [
    | inr (le, here) ↦
        erase_all-gone p (to_delete remote local) downloaded
          (In-sort_by (λ (k : Text). k) p _ (left_over-local remote local p le here missing))
    | inl nowhere ↦ elim (add_all-cases p (to_download remote local) local) [
      | inr (others, found) ↦ erase_all-none p (to_delete remote local) downloaded (found ∙ nowhere)
      | inl (x, member, at, found) ↦
          let listed =
            missing_from-found local remote x keyed
              (sort_by-In (λ (y : ManifestEntry). y.path) x _ member) in
          absurd (cc (listed, missing, at))
    ]
  ]

  synced :
      (p : Text)
      → Agrees (lookup p (erase_all (to_delete remote local) downloaded)) (lookup p remote)
  synced p = elim (Option-cases (lookup p remote)) [
    | inl missing ↦
        subst (Agrees _) (sym missing)
          (subst (λ o. Agrees o none) (sym (unwanted_gone p missing)) tt)
    | inr (e, present) ↦ subst (Agrees _) (sym present) (
        subst (λ o. Agrees o (some e))
          (sym (erase_all-kept p (to_delete remote local) downloaded (not_deleted p e present)))
          (wanted_Agrees p e present))
  ]

planned :
    (cfg : GuardConfig) (remote local : Dict ManifestEntry) (down : List ManifestEntry)
    (removed : List Text)
    → make_plan cfg remote local ≡ some (down, removed)
    → (to_download remote local ≡ down) × (to_delete remote local ≡ removed)
unfolding make_plan
planned cfg remote local down removed h =
    elim (Bool-cases (delete_guard cfg (length local) (length (to_delete remote local)))) [
      | inl passed ↦
          let e : some (to_download remote local, to_delete remote local) ≡ some (down, removed) =
            rw passed at h in
          (cc (e), cc (e))
      | inr stopped ↦ absurd (cc (rw stopped at h))
    ]

-- If the guard lets the plan for a fetched manifest pass: storing the downloads in the map of the
-- local files and deleting what is to be deleted gives a map that agrees with the manifest at every
-- path, in that both lack the file or its size, time and mode are the same.
pub make_plan-Agrees :
    (cfg : GuardConfig) (entries : List ManifestEntry) (local : Dict ManifestEntry)
    (down : List ManifestEntry) (removed : List Text) (p : Text)
    → make_plan cfg (add_all entries []) local ≡ some (down, removed)
    → Agrees (lookup p (erase_all removed (add_all down local))) (lookup p (add_all entries []))
unfolding downloaded
make_plan-Agrees cfg entries local down removed p h =
    let (d, r) = planned cfg (add_all entries []) local down removed h in
    subst
      (λ l. Agrees (lookup p (erase_all l (add_all down local))) (lookup p (add_all entries []))) r
      (subst
        (λ l.
          Agrees (lookup p (erase_all (to_delete (add_all entries []) local) (add_all l local)))
            (lookup p (add_all entries [])))
        d (synced (add_all entries []) local (add_all-Keyed entries [] tt) p))
