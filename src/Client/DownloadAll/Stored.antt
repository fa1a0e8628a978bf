-- ===== src/Client/DownloadAll/Stored.antt =====
-- What a download puts into the object store.
use http_syncer.Base.{
  ℕ, ◌+◌, ◌≡◌, refl, sym, ap, ◌∙◌, ◌⊎◌, inl, inr, true, ◌&&◌, Bool-cases, [], ◌++◌, Option, none,
  some, Text, ◌==◌, ==→≡, lookup, insert, lookup-insert, length, leb, ltb, nat_eq, if◌then◌else◌,
}
use http_syncer.Snapshot.{ManifestEntry}
use http_syncer.Client.Download.{
  Object, Store, Disk, Reply, stored_size, part_of, check_part, copy_part, after_reply,
  download_object,
}
use http_syncer.Client.DownloadAll.Contents.{content_at, content_of}

module _ (sum : Text → Text) where
  -- Every object has the checksum that is its name.
  abbrev pub Honest : Store → Type 0
  Honest st = (checksum x : Text) → content_of checksum st ≡ some x → sum x ≡ checksum

  -- A download puts nothing but an object with its checksum into the store.
  abbrev pub Adds : Text → Store → Store → Type 0
  Adds checksum st st' =
      (at : Text)
      → (content_of at st' ≡ content_of at st)
        ⊎ ((at ≡ checksum) × ((x : Text) × (content_of at st' ≡ some x) × (sum x ≡ checksum)))

  module _ (disk : Disk) (entry : ManifestEntry) where
    check_part-Adds :
        (total : ℕ) (content : Text) (st : Store)
        → Adds entry.checksum st (check_part sum disk entry total content st).0
    unfolding check_part
    check_part-Adds total content st at = elim (Bool-cases disk.reads_back) [
      | inr unread ↦ rw unread (inl refl)
      | inl read ↦ elim (Bool-cases (sum content == entry.checksum)) [
        | inr wrong ↦ rw (read, wrong) (inl refl)
        | inl right ↦ elim (Bool-cases disk.renames) [
          | inr kept ↦ rw (read, right, kept) (inl refl)
          | inl renamed ↦ rw (read, right, renamed) (added right)
        ]
      ]
    ]
      where
        added :
            (sum content == entry.checksum) ≡ true
            → (content_at (
                  lookup at (
                    insert entry.checksum
                      (record { content = content; mode = 420; mtime = disk.now })
                      st.objects))
                ≡ content_of at st)
              ⊎ ((at ≡ entry.checksum)
                  × ((x : Text) × (content_at (
                          lookup at (
                            insert entry.checksum
                              (record { content = content; mode = 420; mtime = disk.now })
                              st.objects))
                        ≡ some x)
                      × (sum x ≡ entry.checksum)))
        added right =
            let now : Object = record { content = content; mode = 420; mtime = disk.now } in
            let step = ap content_at (lookup-insert entry.checksum at now st.objects) in
            elim (Bool-cases (entry.checksum == at)) [
              | inl here ↦ inr (
                sym (==→≡ entry.checksum at here),
                (content, step ∙ rw here refl, ==→≡ (sum content) entry.checksum right),
              )
              | inr other ↦ inl (step ∙ rw other refl)
            ]

    copy_part-Adds :
        (kept : Text) (reply : Reply) (st : Store)
        → Adds entry.checksum st (copy_part sum disk entry kept reply st).0
    unfolding copy_part
    copy_part-Adds kept reply st at = elim (Bool-cases (reply.complete && disk.closes)) [
      | inr broken ↦ rw broken (inl refl)
      | inl whole ↦
          rw whole
            (check_part-Adds (length reply.received + length kept) (kept ++ reply.received) _ at)
    ]

    after_reply-Adds :
        (part : Text) (st : Store) (reply : Option Reply)
        → Adds entry.checksum st (after_reply sum disk entry part st reply).0
    unfolding copy_part check_part
    after_reply-Adds part st none at = inl refl
    after_reply-Adds part st (some reply) at = elim (Bool-cases (leb 300 reply.code)) [
      | inl refused ↦ rw refused (inl refl)
      | inr accepted ↦ elim (Bool-cases disk.opens) [
        | inr closed ↦ rw (accepted, closed) (inl refl)
        | inl opened ↦
            rw (accepted, opened)
              (copy_part-Adds (if ltb 0 (length part) && nat_eq reply.code 206 then part else [])
                reply st at)
      ]
    ]

    pub download_object-Adds :
        (server : ℕ → Option Reply) (st : Store)
        → Adds entry.checksum st (download_object sum disk entry server st).0
    unfolding download_object copy_part check_part
    download_object-Adds server st at =
        let part = part_of (lookup entry.checksum st.parts) in
        elim (Bool-cases (stored_size (lookup entry.checksum st.objects) entry.size)) [
          | inl there ↦ rw there (inl refl)
          | inr absent ↦ elim (Bool-cases disk.makes) [
            | inr unmade ↦ rw (absent, unmade) (inl refl)
            | inl made ↦ rw (absent, made) (after_reply-Adds part st (server (length part)) at)
          ]
        ]
