-- ===== src/Server/Objects.antt =====
-- What a request for an object is answered.
use http_syncer.Base.{
  ◌≡◌, ◌≢◌, refl, ap, ◌∙◌, Bool, true, false, ◌&&◌, Bool-cases, inl, inr, [], some, Text, text,
  ◌==◌, ==→≡, In, lookup, arith,
}
use http_syncer.Path.{join_path}
use http_syncer.Snapshot.{ManifestEntry, Snapshot}
use http_syncer.Snapshot.Tables.{IsFaithful, tables_of}
use http_syncer.Server.{
  Service, Request, Answer, content, authorize_module, module_for_snapshot, get_param, get,
}
use http_syncer.Server.ObjectApi.{
  requested_entry, serve_entry, object_from, object_for, object_params, handle_object,
}

-- The answer with the file of an entry.
abbrev pub file_of : Snapshot → ManifestEntry → Answer
file_of snap e = record { code = 200; payload = content (join_path snap.source_dir e.path) e }

module _ (opens : Text → Bool) (r : Request) (s : Service) (name : Text) (snap : Snapshot)
    (e : ManifestEntry) (opened : (file : Text) → opens file ≡ true)
    (faithful : IsFaithful (tables_of snap)) (listed : In e snap.entries)
    (summed : e.checksum ≢ []) where
  given : (e.checksum == []) ≡ false
  given = elim (Bool-cases (e.checksum == [])) [
    | inl blank ↦ absurd (summed (==→≡ e.checksum [] blank))
    | inr other ↦ other
  ]

  and_false : (b : Bool) → (b && false) ≡ false
  and_false b = ground arith

  served_found :
      (p : Text) (found : ManifestEntry)
      → serve_entry opens r p e.checksum snap (some found) ≡ file_of snap found
  unfolding serve_entry
  served_found p found = rw (given, opened) refl

  from_snapshot :
      (p : Text) (found : ManifestEntry)
      → lookup e.checksum snap.by_checksum ≡ some found
      → object_from opens r p e.checksum (some snap) ≡ file_of snap found
  unfolding object_from requested_entry
  from_snapshot p found hit =
      rw given (ap (λ o. serve_entry opens r p e.checksum snap o) hit ∙ served_found p found)

  module _ (is_get : (r.method == get) ≡ true) (asked : get_param (text "checksum") r ≡ e.checksum)
      (id_given : (get_param (text "snapshot_id") r == []) ≡ false)
      (known : module_for_snapshot (get_param (text "snapshot_id") r) s.sessions ≡ some name)
      (allowed : authorize_module s.cfg r name ≡ true)
      (kept : lookup (get_param (text "snapshot_id") r) s.snapshots ≡ some snap) where
    for_module :
        (p : Text) (found : ManifestEntry)
        → lookup e.checksum snap.by_checksum ≡ some found
        → object_for opens r (get_param (text "snapshot_id") r) p e.checksum (some name) s
          ≡ file_of snap found
    unfolding object_for
    for_module p found hit =
        rw allowed (ap (λ o. object_from opens r p e.checksum o) kept ∙ from_snapshot p found hit)

    for_request :
        (found : ManifestEntry)
        → lookup e.checksum snap.by_checksum ≡ some found
        → handle_object opens r s ≡ file_of snap found
    unfolding handle_object object_params
    for_request found hit =
        rw (is_get, asked, id_given, given, and_false (get_param (text "path") r == []))
          (ap
              (λ o.
                object_for opens r (get_param (text "snapshot_id") r) (get_param (text "path") r)
                  e.checksum o s)
              known
            ∙ for_module (get_param (text "path") r) found hit)

    -- For every entry of a snapshot whose maps agree with its list, if the entry has a checksum and
    -- every file opens: a GET by that checksum, with any path, authorized for the module of the
    -- snapshot, is answered with 200 and an entry of the manifest that has the same checksum, and
    -- with the file at that entry's path, joined to the directory of the snapshot.
    pub handle_object_lem :
        (found : ManifestEntry) × In found snap.entries
        × (found.checksum ≡ e.checksum)
        × (handle_object opens r s ≡ file_of snap found)
    handle_object_lem =
        let (found, hit) = faithful.checksum_finds e listed in
        let (member, same) = faithful.checksum_hits e.checksum found hit in
        (found, member, same, for_request found hit)
