-- ===== src/Client/DownloadAll/Contents.antt =====
-- The contents of the objects while files are linked to them.
use http_syncer.Base.{
  ◌≡◌, refl, sym, ap, ◌∙◌, inl, inr, Bool-cases, List, [], ◌∷◌, Option, none, some, Text, ◌==◌,
  ==→≡, Dict, lookup, lookup-insert, if◌then◌else◌, arith,
}
use http_syncer.Snapshot.{ManifestEntry}
use http_syncer.Client.Download.{Object, Store}
use http_syncer.Client.Promote.{
  Target, PromoteEnv, set_attributes, set_mode, set_time, change, drop_at, remove_path, object_path,
}

abbrev pub content_at : Option Object → Option Text
content_at none = none
content_at (some o) = some o.content

-- The content of the object of a checksum
abbrev pub content_of : Text → Store → Option Text
content_of checksum st = content_at (lookup checksum st.objects)

module _ (f : Object → Object) (same : (o : Object) → (f o).content ≡ o.content)
    (checksum at : Text) (st : Store) where
  change-content_of :
      (o : Option Object)
      → lookup checksum st.objects ≡ o
      → content_of at (change f checksum o st) ≡ content_of at st
  change-content_of none h = refl
  change-content_of (some o) h =
      ap content_at (lookup-insert checksum at (f o) st.objects)
      ∙ elim (Bool-cases (checksum == at)) [
        | inl here ↦ rw here (
            ap some (same o)
            ∙ sym (ap content_at (ap (λ k. lookup k st.objects) (sym (==→≡ checksum at here)) ∙ h)))
        | inr other ↦ rw other refl
      ]

pub set_attributes-content_of :
    (env : PromoteEnv) (checksum at : Text) (entries : List ManifestEntry) (st : Store)
    → content_of at (set_attributes env checksum entries st).0 ≡ content_of at st
unfolding set_mode set_time
set_attributes-content_of env checksum at [] st = refl
set_attributes-content_of env checksum at (first ∷ entries) st =
    let st' = set_mode first.mode checksum st in
    let moded : content_of at st' ≡ content_of at st =
      change-content_of (λ o. record o { mode = first.mode }) (λ o. refl) checksum at st
        (lookup checksum st.objects) refl in
    let timed : content_of at (set_time first.mtime checksum st') ≡ content_of at st' =
      change-content_of (λ o. record o { mtime = first.mtime }) (λ o. refl) checksum at st'
        (lookup checksum st'.objects) refl in
    elim (Bool-cases env.chmods) [
      | inr refused ↦ rw refused refl
      | inl done ↦ elim (Bool-cases env.sets_times) [
        | inr refused ↦ rw (done, refused) moded
        | inl set ↦ rw (done, set) (timed ∙ moded)
      ]
    ]

pub lookup-drop_at {ℓ} :
    {V : Type ℓ} (path_of : Text → Text) (path at : Text) (dict : Dict V)
    → lookup at (drop_at path_of path dict) ≡ (if path == path_of at then none else lookup at dict)
unfolding lookup drop_at
lookup-drop_at path_of path at [] = ground arith
lookup-drop_at path_of path at (slot ∷ dict) = elim (Bool-cases (slot.0 == at)) [
  | inl here ↦
      let q : (path == path_of slot.0) ≡ (path == path_of at) =
        ap (λ k. path == path_of k) (==→≡ slot.0 at here) in
      elim (Bool-cases (path == path_of at)) [
        | inl dropped ↦ rw (q, dropped) (lookup-drop_at path_of path at dict ∙ rw dropped refl)
        | inr kept ↦ rw (q, kept, here) refl
      ]
  | inr other ↦ elim (Bool-cases (path == path_of slot.0)) [
    | inl dropped ↦ rw (dropped, other) (lookup-drop_at path_of path at dict)
    | inr kept ↦ rw (kept, other) (lookup-drop_at path_of path at dict)
  ]
]

-- A removal takes no object but one whose path it is.
pub remove_path-content_of :
    (root path at : Text) (t : Target)
    → content_of at (remove_path root path t).store
      ≡ (if path == object_path root at then none else content_of at t.store)
unfolding remove_path
remove_path-content_of root path at t =
    ap content_at (lookup-drop_at (object_path root) path at t.store.objects)
    ∙ elim (Bool-cases (path == object_path root at)) [
      | inl gone ↦ rw gone refl
      | inr kept ↦ rw kept refl
    ]
