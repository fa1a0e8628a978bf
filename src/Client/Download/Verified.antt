-- ===== src/Client/Download/Verified.antt =====
-- What is downloaded has the checksum that was asked for.
use http_syncer.Base.{
  ℕ, ◌+◌, ◌≡◌, ◌⊎◌, refl, sym, ap, ◌∙◌, Bool, true, false, not, ◌&&◌, Bool-cases, inl, inr, [],
  ◌++◌, Option, none, some, Text, ◌==◌, ==→≡, ==_refl, lookup, lookup-insert, length, leb, ltb,
  nat_eq, if◌then◌else◌,
}
use http_syncer.Snapshot.{ManifestEntry}
use http_syncer.Client.Download.{
  Object, Store, Disk, Reply, stored_size, part_of, check_part, copy_part, after_reply,
  download_object,
}

module _ (sum : Text → Text) (disk : Disk) (entry : ManifestEntry) where
  -- The object of the entry is there, with the entry's checksum.
  abbrev pub Verified : Store → Type 0
  Verified st =
      (o : Object) × (lookup entry.checksum st.objects ≡ some o) × (sum o.content ≡ entry.checksum)

  -- A check that leads to an error was passed.
  passed :
      (b : Bool) (rest : Store × Option ℕ) (st st' : Store) (n : ℕ)
      → (if not b then (st, none) else rest) ≡ (st', some n)
      → (b ≡ true) × (rest ≡ (st', some n))
  passed true rest st st' n h = (refl, h)
  passed false rest st st' n h = absurd (cc (ap (λ x. x.1) h))

  check_part-Verified :
      (total : ℕ) (content : Text) (st st' : Store) (n : ℕ)
      → check_part sum disk entry total content st ≡ (st', some n)
      → Verified st'
  unfolding check_part
  check_part-Verified total content st st' n h =
      let o : Object = record { content = content; mode = 420; mtime = disk.now } in
      let (read, more) = passed disk.reads_back _ st st' n h in
      let (right, rest) = passed (sum content == entry.checksum) _ st st' n more in
      let (renamed, end) = passed disk.renames _ st st' n rest in
      (
        o,
        ap (λ x. lookup entry.checksum x.0.objects) (sym end)
            ∙ lookup-insert entry.checksum entry.checksum o st.objects
            ∙ rw (==_refl entry.checksum) refl,
        ==→≡ (sum content) entry.checksum right,
      )

  copy_part-Verified :
      (kept : Text) (reply : Reply) (st st' : Store) (n : ℕ)
      → copy_part sum disk entry kept reply st ≡ (st', some n)
      → Verified st'
  unfolding copy_part
  copy_part-Verified kept reply st st' n h =
      let (whole, rest) = passed (reply.complete && disk.closes) _ _ st' n h in
      check_part-Verified (length reply.received + length kept) (kept ++ reply.received) _ st' n
        rest

  reply-Verified :
      (part : Text) (st st' : Store) (n : ℕ) (reply : Option Reply)
      → after_reply sum disk entry part st reply ≡ (st', some n)
      → Verified st'
  reply-Verified part st st' n none h = absurd (cc (ap (λ x. x.1) h))
  reply-Verified part st st' n (some reply) h = elim (Bool-cases (leb 300 reply.code)) [
    | inl refused ↦ absurd (cc (ap (λ x. x.1) (rw refused at h)))
    | inr accepted ↦
        let (opened, rest) = passed disk.opens _ st st' n (rw accepted at h) in
        copy_part-Verified (if ltb 0 (length part) && nat_eq reply.code 206 then part else []) reply
          st st' n rest
  ]

  -- Whatever the server sends: a download that succeeds leaves an object under the entry's checksum
  -- whose content has that checksum, unless it was there before, with the entry's size; then the store
  -- is left as it was.
  pub download_object-Verified :
      (server : ℕ → Option Reply) (st st' : Store) (n : ℕ)
      → download_object sum disk entry server st ≡ (st', some n)
      → ((st' ≡ st) × (stored_size (lookup entry.checksum st.objects) entry.size ≡ true))
        ⊎ Verified st'
  unfolding download_object
  download_object-Verified server st st' n h =
      let part = part_of (lookup entry.checksum st.parts) in
      elim (Bool-cases (stored_size (lookup entry.checksum st.objects) entry.size)) [
        | inl there ↦ inl (ap (λ x. x.0) (sym (rw there at h)), there)
        | inr absent ↦
            let (made, rest) =
              passed disk.makes (after_reply sum disk entry part st (server (length part))) st st' n
                (rw absent at h) in
            inr (reply-Verified part st st' n (server (length part)) rest)
      ]
