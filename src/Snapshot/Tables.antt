-- ===== src/Snapshot/Tables.antt =====
-- The two maps of a snapshot agree with its list of entries.
use http_syncer.Base.{
  ◌≡◌, refl, ap, ◌∙◌, inl, inr, Bool-cases, List, [], ◌∷◌, ◌++◌, Option, none, some, Text, ◌==◌,
  ==→≡, ==_refl, In, In-append, In-append_left, In-append_right, Dict, lookup, insert,
  lookup-insert,
}
use http_syncer.Base.Int.{ℤ}
use http_syncer.Filter.{Engine, Excluder}
use http_syncer.Snapshot.{
  ManifestEntry, Snapshot, IndexedData, Built, no_tables, add_checksum, add_entry, add_option, pick,
  fill, snapshot_of, source_prefix,
}
use http_syncer.Snapshot.Sort.{sort_by, In-sort_by, sort_by-In}

-- Every hit of a table is a listed entry that has the key.
abbrev pub Hits : (ManifestEntry → Text) → List ManifestEntry → Dict ManifestEntry → Type 0
Hits key entries table =
    (k : Text) (e : ManifestEntry) → lookup k table ≡ some e → In e entries × (key e ≡ k)

-- The key of every listed entry is found.
abbrev pub Finds : (ManifestEntry → Text) → List ManifestEntry → Dict ManifestEntry → Type 0
Finds key entries table =
    (e : ManifestEntry)
    → In e entries
    → (found : ManifestEntry) × (lookup (key e) table ≡ some found)

abbrev by_its_path : ManifestEntry → Text
by_its_path e = e.path

abbrev by_its_checksum : ManifestEntry → Text
by_its_checksum e = e.checksum

pub record IsFaithful (t : Built) : Type 0 where
  pub path_hits : Hits by_its_path t.entries t.by_path
  pub path_finds : Finds by_its_path t.entries t.by_path
  pub checksum_hits : Hits by_its_checksum t.entries t.by_checksum
  pub checksum_finds : Finds by_its_checksum t.entries t.by_checksum

module _ (key : ManifestEntry → Text) (entries : List ManifestEntry) (new : ManifestEntry) where
  insert-Hits :
      (table : Dict ManifestEntry)
      → Hits key entries table
      → Hits key (entries ++ new ∷ []) (insert (key new) new table)
  insert-Hits table h k e found = elim (Bool-cases (key new == k)) [
    | inl same ↦
        let at_new : some new ≡ some e = rw (lookup-insert, same) at found in
        (
          In-append_right e entries (new ∷ []) (inl (cc at_new)),
          ap key (cc at_new) ∙ ==→≡ (key new) k same,
        )
    | inr other ↦
        let (m, same) = h k e (rw (lookup-insert, other) at found) in
        (In-append_left e entries (new ∷ []) m, same)
  ]

  insert-Finds :
      (table : Dict ManifestEntry)
      → Finds key entries table
      → Finds key (entries ++ new ∷ []) (insert (key new) new table)
  insert-Finds table h e m = elim (Bool-cases (key new == key e)) [
    | inl same ↦ (new, rw (lookup-insert, same))
    | inr other ↦ elim (In-append e entries (new ∷ []) m) [
      | inl old ↦ let (found, there) = h e old in (found, rw (lookup-insert, other) there)
      | inr (inl is_new) ↦ absurd (cc (other, ap (λ x. key new == key x) is_new, ==_refl (key new)))
      | inr (inr none_such) ↦ absurd none_such
    ]
  ]

  keep-Hits :
      (table : Dict ManifestEntry) → Hits key entries table → Hits key (entries ++ new ∷ []) table
  keep-Hits table h k e found =
      let (m, same) = h k e found in (In-append_left e entries (new ∷ []) m, same)

  keep-Finds :
      (table : Dict ManifestEntry) (first : ManifestEntry)
      → lookup (key new) table ≡ some first
      → Finds key entries table
      → Finds key (entries ++ new ∷ []) table
  keep-Finds table first there h e m = elim (In-append e entries (new ∷ []) m) [
    | inl old ↦ h e old
    | inr (inl is_new) ↦ (first, ap (λ x. lookup (key x) table) is_new ∙ there)
    | inr (inr none_such) ↦ absurd none_such
  ]

add_checksum-Hits :
    (new : ManifestEntry) (entries : List ManifestEntry) (found : Option ManifestEntry)
    (table : Dict ManifestEntry)
    → Hits by_its_checksum entries table
    → Hits by_its_checksum (entries ++ new ∷ []) (add_checksum new found table)
unfolding add_checksum
add_checksum-Hits new entries none table h = insert-Hits by_its_checksum entries new table h
add_checksum-Hits new entries (some first) table h = keep-Hits by_its_checksum entries new table h

add_checksum-Finds :
    (new : ManifestEntry) (entries : List ManifestEntry) (found : Option ManifestEntry)
    (table : Dict ManifestEntry)
    → lookup new.checksum table ≡ found
    → Finds by_its_checksum entries table
    → Finds by_its_checksum (entries ++ new ∷ []) (add_checksum new found table)
unfolding add_checksum
add_checksum-Finds new entries none table e h = insert-Finds by_its_checksum entries new table h
add_checksum-Finds new entries (some first) table e h =
    keep-Finds by_its_checksum entries new table first e h

add_entry-IsFaithful :
    (t : Built) (new : ManifestEntry) → IsFaithful t → IsFaithful (add_entry t new)
unfolding add_entry
add_entry-IsFaithful t new h = record {
  path_hits = insert-Hits by_its_path t.entries new t.by_path h.path_hits;
  path_finds = insert-Finds by_its_path t.entries new t.by_path h.path_finds;
  checksum_hits =
      add_checksum-Hits new t.entries (lookup new.checksum t.by_checksum) t.by_checksum
        h.checksum_hits;
  checksum_finds =
      add_checksum-Finds new t.entries (lookup new.checksum t.by_checksum) t.by_checksum refl
        h.checksum_finds;
}

add_option-IsFaithful :
    (t : Built) (o : Option ManifestEntry) → IsFaithful t → IsFaithful (add_option t o)
unfolding add_option
add_option-IsFaithful t none h = h
add_option-IsFaithful t (some e) h = add_entry-IsFaithful t e h

no_tables-IsFaithful : IsFaithful no_tables
unfolding lookup
no_tables-IsFaithful = record {
  path_hits = λ k e found. absurd (cc);
  path_finds = λ e m. absurd m;
  checksum_hits = λ k e found. absurd (cc);
  checksum_finds = λ e m. absurd m;
}

-- The list and the maps of a snapshot.
abbrev pub tables_of : Snapshot → Built
tables_of s = record { entries = s.entries; by_path = s.by_path; by_checksum = s.by_checksum }

module _ (engine : Engine) (ex : Excluder engine) where
  fill-IsFaithful :
      (prefix : Text) (items : List ManifestEntry) (t : Built)
      → IsFaithful t
      → IsFaithful (fill engine ex prefix items t)
  unfolding fill
  fill-IsFaithful prefix [] t h = h
  fill-IsFaithful prefix (item ∷ items) t h =
      fill-IsFaithful prefix items (add_option t (pick engine ex prefix item))
        (add_option-IsFaithful t (pick engine ex prefix item) h)

  sorted-IsFaithful :
      (t : Built) → IsFaithful t → IsFaithful (record t { entries = sort_by by_its_path t.entries })
  sorted-IsFaithful t h = record {
    path_hits = λ k e found.
        let (m, same) = h.path_hits k e found in (In-sort_by by_its_path e t.entries m, same);
    path_finds = λ e m. h.path_finds e (sort_by-In by_its_path e t.entries m);
    checksum_hits = λ k e found.
        let (m, same) = h.checksum_hits k e found in (In-sort_by by_its_path e t.entries m, same);
    checksum_finds = λ e m. h.checksum_finds e (sort_by-In by_its_path e t.entries m);
  }

  -- In a snapshot, whatever the index, the source path and the exclusions: every hit of the maps
  -- by path and by checksum is an entry of the manifest with that path or checksum, and the path
  -- and the checksum of every entry of the manifest are found in them.
  pub snapshot_of-IsFaithful :
      (snapshot_id root_dir source_path : Text) (now : ℤ) (index : IndexedData)
      → IsFaithful (tables_of (snapshot_of engine ex snapshot_id root_dir source_path now index))
  unfolding snapshot_of
  snapshot_of-IsFaithful snapshot_id root_dir source_path now index =
      sorted-IsFaithful _
        (fill-IsFaithful (source_prefix source_path) index.entries no_tables no_tables-IsFaithful)
