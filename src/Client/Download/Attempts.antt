-- ===== src/Client/Download/Attempts.antt =====
-- One download after another.
use http_syncer.Base.{
  ℕ, ◌+◌, ◌≤◌, ◌≡◌, ◌≢◌, refl, ap, ◌∙◌, Bool, true, false, not, Bool-cases, inl, inr, List, [], ◌∷◌,
  Option, none, some, Text, lookup, length, leb, ltb, nat_eq, arith, if◌then◌else◌,
}
use http_syncer.Base.Int.{ℤ}
use http_syncer.Snapshot.{ManifestEntry}
use http_syncer.Client.Download.{
  Object, Store, Disk, stored_size, part_of, after_reply, download_object,
}
use http_syncer.Client.Download.Resumed.{
  serve_from, working, IsPart, more_of, attempt_ends, attempt_goes_on,
}

-- A run's attempt, when its connection ends after some bytes.
pub record Attempt : Type 0 where
  pub cut : ℕ
  pub disk : Disk

abbrev or_later : (Store → Store × Option ℕ) → Store × Option ℕ → Store × Option ℕ
or_later again (st, none) = again st
or_later again (st, some total) = (st, some total)

-- The attempts of one run after another, until one succeeds.
unfoldable pub download_attempts :
    (Text → Text) → ManifestEntry → Text → List Attempt → Store → Store × Option ℕ
download_attempts sum entry c [] st = (st, none)
download_attempts sum entry c (a ∷ attempts) st =
    or_later (download_attempts sum entry c attempts)
      (download_object sum a.disk entry (serve_from c a.cut) st)

abbrev pub at_times : List (ℕ × ℤ) → List Attempt
at_times [] = []
at_times ((cut, now) ∷ cuts) = record { cut = cut; disk = working now } ∷ at_times cuts

abbrev pub total_of : List (ℕ × ℤ) → ℕ
total_of [] = 0
total_of ((cut, now) ∷ cuts) = cut + total_of cuts

module _ (sum : Text → Text) (entry : ManifestEntry) (c : Text) where
  attempts_end :
      (right : sum c ≡ entry.checksum) (cuts : List (ℕ × ℤ)) (first : ℕ × ℤ) (k : ℕ) (st : Store)
      → IsPart sum entry c k st
      → length c ≤ k + total_of (first ∷ cuts)
      → (st' : Store) × (total : ℕ) × (o : Object) × (download_attempts sum entry c
            (at_times (first ∷ cuts))
            st
          ≡ (st', some total))
        × (lookup entry.checksum st'.objects ≡ some o)
        × (o.content ≡ c)
  unfolding download_attempts
  attempts_end right [] (cut, now) k st h enough =
      let (st', total, o, done, stored, same) =
        attempt_ends sum entry c right now k cut st h (omega arith) in
      (st', total, o, ap (or_later (λ x. (x, none))) done, stored, same)
  attempts_end right (next ∷ cuts) (cut, now) k st h enough =
      elim (Bool-cases (leb (length c) (k + cut))) [
        | inl full ↦
            let (st', total, o, done, stored, same) =
              attempt_ends sum entry c right now k cut st h (ground arith) in
            (
              st',
              total,
              o,
              ap (or_later (download_attempts sum entry c (at_times (next ∷ cuts)))) done,
              stored,
              same,
            )
        | inr short ↦
            let (cut_off, more) = attempt_goes_on sum entry c right now k cut st h (ground arith) in
            let (st', total, o, done, stored, same) =
              attempts_end right cuts next (k + cut) (more_of sum entry c (k + cut) st) more
                (omega arith) in
            (
              st',
              total,
              o,
              ap (or_later (download_attempts sum entry c (at_times (next ∷ cuts)))) cut_off ∙ done,
              stored,
              same,
            )
      ]

  -- From a store without the object and with the first bytes of its content, or none of them, against
  -- a server that serves the content from any offset, on a disk that works: if the bytes that the
  -- connections let through are enough for what is missing, one of the attempts succeeds, and the
  -- object stored under the checksum is the whole content, however the connections were cut.
  pub download_attempts_end :
      (cuts : List (ℕ × ℤ)) (first : ℕ × ℤ) (k : ℕ) (st : Store)
      → sum c ≡ entry.checksum
      → IsPart sum entry c k st
      → length c ≤ k + total_of (first ∷ cuts)
      → (st' : Store) × (total : ℕ) × (o : Object) × (download_attempts sum entry c
            (at_times (first ∷ cuts))
            st
          ≡ (st', some total))
        × (lookup entry.checksum st'.objects ≡ some o)
        × (o.content ≡ c)
  download_attempts_end cuts first k st right = attempts_end right cuts first k st

  nonempty_length : (t : Text) → t ≢ [] → nat_eq (length t) 0 ≡ false
  nonempty_length [] h = absurd (h refl)
  nonempty_length (b ∷ t) h = ground arith

  refused_offset :
      (disk : Disk) (cut : ℕ) (part : Text) (st : Store)
      → part ≢ []
      → c ≢ []
      → length c ≤ length part
      → after_reply sum disk entry part st (serve_from c cut (length part)) ≡ (st, none)
  unfolding serve_from
  refused_offset disk cut [] st given some_content full = absurd (given refl)
  refused_offset disk cut (b ∷ part) st given some_content full =
      let later : nat_eq (length (b ∷ part)) 0 ≡ false = ground arith in
      let outside : ltb (length (b ∷ part)) (length c) ≡ false = ground arith in
      let filled : nat_eq (length c) 0 ≡ false = nonempty_length c some_content in
      rw (later, filled, outside) refl

  -- If the content is not empty: a part that has as many bytes as it, or more, as after a checksum that
  -- does not match or a renaming that fails, is never got rid of. With it, and without the object, every
  -- later attempt against such a server fails, on whatever disk, and leaves the store as it is.
  pub download_attempts-stuck :
      (attempts : List Attempt) (part : Text) (st : Store)
      → stored_size (lookup entry.checksum st.objects) entry.size ≡ false
      → lookup entry.checksum st.parts ≡ some part
      → part ≢ []
      → c ≢ []
      → length c ≤ length part
      → download_attempts sum entry c attempts st ≡ (st, none)
  unfolding download_attempts download_object
  download_attempts-stuck [] part st absent there given some_content full = refl
  download_attempts-stuck (a ∷ attempts) part st absent there given some_content full =
      ap (or_later (download_attempts sum entry c attempts)) (fails a.disk a.disk.makes)
      ∙ download_attempts-stuck attempts part st absent there given some_content full
    where
      fails :
          (disk : Disk) (makes : Bool)
          → (if stored_size (lookup entry.checksum st.objects) entry.size
              then (st, some 0)
              else if not makes
              then (st, none)
              else after_reply sum disk entry
                  (part_of (lookup entry.checksum st.parts))
                  st
                  (serve_from c a.cut (length (part_of (lookup entry.checksum st.parts)))))
            ≡ (st, none)
      fails disk false = rw absent refl
      fails disk true = rw absent (
          ap
            (λ p.
              after_reply sum disk entry (part_of p) st (serve_from c a.cut (length (part_of p))))
            there
          ∙ refused_offset disk a.cut part st given some_content full)
