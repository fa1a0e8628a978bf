-- ===== src/Client/Download/Resumed.antt =====
-- Downloads that are cut off and taken up again.
use http_syncer.Base.{
  ℕ, zero, suc, ◌+◌, ◌≤◌, ◌<◌, ◌≡◌, ◌⊎◌, refl, ap, ◌∙◌, true, false, not, ◌&&◌, ◌||◌, inl, inr, [],
  ◌∷◌, Option, none, some, Text, ◌==◌, ==_refl, lookup, insert, erase, lookup-insert, length, take,
  drop, take_all, take-append-take, leb, ltb, nat_eq, arith, if◌then◌else◌,
}
use http_syncer.Base.Int.{ℤ}
use http_syncer.Snapshot.{ManifestEntry}
use http_syncer.Client.Download.{
  Object, Store, Disk, Reply, stored_size, part_of, check_part, copy_part, after_reply,
  download_object,
}

-- What http.ServeContent answers for a content, if the connection ends after some bytes: the whole
-- content without an offset or if the content is empty, what follows an offset inside it, and
-- otherwise 416.
unfoldable pub serve_from : Text → ℕ → ℕ → Option Reply
serve_from c cut offset =
    if nat_eq offset 0 || nat_eq (length c) 0
    then some (record { code = 200; received = take cut c; complete = leb (length c) cut })
    else if ltb offset (length c)
    then some (record {
      code = 206;
      received = take cut (drop offset c);
      complete = leb (length c) (offset + cut);
    })
    else some (record { code = 416; received = []; complete = true })

abbrev pub working : ℤ → Disk
working now = record {
  makes = true;
  opens = true;
  closes = true;
  reads_back = true;
  renames = true;
  now = now;
}

length-take_inside : (k : ℕ) (c : Text) → k ≤ length c → length (take k c) ≡ k
length-take_inside zero c h = refl
length-take_inside (suc k) [] h = absurd (omega arith)
length-take_inside (suc k) (x ∷ c) h = ap suc (length-take_inside k c (omega arith))

module _ (sum : Text → Text) (entry : ManifestEntry) (c : Text) where
  -- The first bytes of the content are there, some of them missing, or none; the object is not.
  pub record IsPart (k : ℕ) (st : Store) : Type 0 where
    pub absent : stored_size (lookup entry.checksum st.objects) entry.size ≡ false
    pub part : part_of (lookup entry.checksum st.parts) ≡ take k c
    pub inside : (k < length c) ⊎ (k ≡ 0)

  -- After an attempt that is cut off, or that ends.
  abbrev pub more_of : ℕ → Store → Store
  more_of n st = record st { parts = insert entry.checksum (take n c) st.parts }

  abbrev after_copy : ℤ → ℕ → ℕ → Store → Store × Option ℕ
  after_copy now total n st =
      if not (leb (length c) n && true)
      then (more_of n st, none)
      else check_part sum (working now) entry total (take n c) (more_of n st)

  begins :
      (now : ℤ) (k cut : ℕ) (st : Store)
      → IsPart k st
      → download_object sum (working now) entry (serve_from c cut) st
        ≡ after_reply sum (working now) entry (take k c) st (serve_from c cut (length (take k c)))
  unfolding download_object
  begins now k cut st h =
      rw h.absent
        (ap (λ p. after_reply sum (working now) entry p st (serve_from c cut (length p))) h.part)

  from_start :
      (now : ℤ) (cut : ℕ) (st : Store)
      → after_reply sum (working now) entry [] st (serve_from c cut 0)
        ≡ after_copy now (length (take cut c) + 0) cut st
  unfolding serve_from copy_part
  from_start now cut st = refl

  from_inside :
      (now : ℤ) (k cut : ℕ) (st : Store)
      → 0 < k
      → k < length c
      → after_reply sum (working now) entry (take k c) st (serve_from c cut k)
        ≡ after_copy now (length (take cut (drop k c)) + length (take k c)) (k + cut) st
  unfolding serve_from copy_part
  from_inside now k cut st h low =
      let given : nat_eq k 0 ≡ false = ground arith in
      let filled : nat_eq (length c) 0 ≡ false = ground arith in
      let inside : ltb k (length c) ≡ true = ground arith in
      let some_part : ltb 0 (length (take k c)) ≡ true =
        ground (arith, length-take_inside k c (omega arith)) in
      rw (given, filled, inside, some_part)
        (ap
          (λ content.
            if not (leb (length c) (k + cut) && true)
            then (record st { parts = insert entry.checksum content st.parts }, none)
            else check_part sum (working now) entry
                (length (take cut (drop k c)) + length (take k c)) content
                (record st { parts = insert entry.checksum content st.parts }))
          (take-append-take k cut c))

  -- An attempt adds what arrives to the part.
  attempt_copies :
      (now : ℤ) (k cut : ℕ) (st : Store)
      → IsPart k st
      → (total : ℕ) × (download_object sum (working now) entry (serve_from c cut) st
          ≡ after_copy now total (k + cut) st)
  attempt_copies now zero cut st h = (
    length (take cut c) + 0,
    begins now 0 cut st h
        ∙ from_start now cut st
        ∙ ap (λ n. after_copy now (length (take cut c) + 0) n st)
            (let e : cut ≡ 0 + cut = omega arith in e),
  )
  attempt_copies now (suc k) cut st h =
      let low : suc k < length c = inside_lt k h.inside in
      (
        length (take cut (drop (suc k) c)) + length (take (suc k) c),
        begins now (suc k) cut st h
            ∙ ap (λ n. after_reply sum (working now) entry (take (suc k) c) st (serve_from c cut n))
                (length-take_inside (suc k) c (omega arith))
            ∙ from_inside now (suc k) cut st (omega arith) low,
      )
    where
      inside_lt : (m : ℕ) → (suc m < length c) ⊎ (suc m ≡ 0) → suc m < length c
      inside_lt m (inl h) = h
      inside_lt m (inr h) = absurd (omega arith)

  module _ (right : sum c ≡ entry.checksum) where
    -- The attempt that brings the last byte stores the object.
    pub attempt_ends :
        (now : ℤ) (k cut : ℕ) (st : Store)
        → IsPart k st
        → length c ≤ k + cut
        → (st' : Store) × (total : ℕ) × (o : Object) × (download_object sum
              (working now)
              entry
              (serve_from c cut)
              st
            ≡ (st', some total))
          × (lookup entry.checksum st'.objects ≡ some o)
          × (o.content ≡ c)
    unfolding check_part
    attempt_ends now k cut st h enough =
        let (total, copied) = attempt_copies now k cut st h in
        let n = k + cut in
        let full : leb (length c) (k + cut) ≡ true = ground arith in
        let o : Object = record { content = take n c; mode = 420; mtime = now } in
        let whole : take n c ≡ c = take_all n c enough in
        let checked : (sum (take n c) == entry.checksum) ≡ true =
          ap (λ t. sum t == entry.checksum) whole
          ∙ ap (λ t. t == entry.checksum) right
          ∙ ==_refl entry.checksum in
        (
          record {
            objects = insert entry.checksum o st.objects;
            parts = erase entry.checksum (more_of n st).parts;
          },
          total,
          o,
          copied ∙ rw (full, checked) refl,
          lookup-insert entry.checksum entry.checksum o st.objects
              ∙ rw (==_refl entry.checksum) refl,
          whole,
        )

    -- One that is cut off before leaves a longer part.
    pub attempt_goes_on :
        (now : ℤ) (k cut : ℕ) (st : Store)
        → IsPart k st
        → k + cut < length c
        → (download_object sum (working now) entry (serve_from c cut) st
            ≡ (more_of (k + cut) st, none))
          × IsPart (k + cut) (more_of (k + cut) st)
    attempt_goes_on now k cut st h short =
        let (total, copied) = attempt_copies now k cut st h in
        let open_end : leb (length c) (k + cut) ≡ false = ground arith in
        (
          copied ∙ rw open_end refl,
          record { absent = h.absent; part = rw (lookup-insert, ==_refl) refl; inside = inl short },
        )
