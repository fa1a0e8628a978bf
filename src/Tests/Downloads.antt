-- ===== src/Tests/Downloads.antt =====
-- Downloads of a concrete object.
use http_syncer.Base.{
  ℕ, ◌≡◌, refl, inl, false, List, [], ◌∷◌, none, some, Text, text, ◌==◌, lookup, insert, erase,
  arith,
}
use http_syncer.Base.Int.{ℤ, pos}
use http_syncer.Snapshot.{ManifestEntry}
use http_syncer.Client.Download.{Object, Store, stored_size, download_object, copy_part, check_part}
use http_syncer.Client.Download.Resumed.{serve_from, working, IsPart}
use http_syncer.Client.Download.Attempts.{
  Attempt, download_attempts, at_times, download_attempts_end, download_attempts-stuck,
}

-- A checksum that is the content itself.
abbrev pub itself : Text → Text
itself t = t

abbrev pub content : Text
content = text "hello"

abbrev pub hello : ManifestEntry
hello = record {
  path = text "a";
  kind = text "file";
  size = 5;
  mode = 420;
  mtime = pos 9;
  checksum = content;
}

abbrev half : Store
half = record { objects = []; parts = (content, text "he") ∷ [] }

abbrev stored : Store
stored = record {
  objects = (content, record { content = content; mode = 420; mtime = pos 3 }) ∷ [];
  parts = [];
}

resumed :
    download_object itself (working (pos 3)) hello (serve_from content 9) half ≡ (stored, some 5)
unfolding download_object copy_part check_part serve_from lookup insert erase ◌==◌
resumed = refl

half-IsPart : IsPart itself hello content 2 half
unfolding lookup ◌==◌
half-IsPart = record { absent = refl; part = refl; inside = inl (omega arith) }

abbrev cuts : List (ℕ × ℤ)
cuts = (2, pos 2) ∷ []

download_attempts_end_example :
    (st' : Store) × (total : ℕ) × (o : Object) × (download_attempts itself hello content
        (at_times ((1, pos 1) ∷ cuts))
        half
      ≡ (st', some total))
    × (lookup content st'.objects ≡ some o)
    × (o.content ≡ content)
download_attempts_end_example =
    download_attempts_end itself hello content cuts (1, pos 1) 2 half refl half-IsPart (omega arith)

abbrev broken : Store
broken = record { objects = []; parts = (content, text "hellO") ∷ [] }

nothing_stored : stored_size (lookup content broken.objects) 5 ≡ false
unfolding lookup
nothing_stored = refl

part_left : lookup content broken.parts ≡ some (text "hellO")
unfolding lookup ◌==◌
part_left = refl

abbrev one_more : List Attempt
one_more = record { cut = 9; disk = working (pos 4) } ∷ []

download_attempts-stuck_example :
    download_attempts itself hello content one_more broken ≡ (broken, none)
download_attempts-stuck_example =
    download_attempts-stuck itself hello content one_more (text "hellO") broken nothing_stored
      part_left (λ e. cc) (λ e. cc) (omega arith)
