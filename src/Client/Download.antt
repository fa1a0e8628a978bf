-- ===== src/Client/Download.antt =====
-- downloadObject of internal/client/client.go. A file's content is the list of its bytes; SHA-256 in
-- hexadecimal digits is a parameter, `sum`.
pub mod Verified
pub mod Resumed
pub mod Attempts
use http_syncer.Base.{
  ℕ, ◌+◌, Bool, true, false, not, ◌&&◌, List, [], ◌∷◌, ◌++◌, Option, none, some, Text, ◌==◌, Dict,
  lookup, insert, erase, length, leb, ltb, nat_eq, if◌then◌else◌,
}
use http_syncer.Base.Int.{ℤ}
use http_syncer.Snapshot.{ManifestEntry}

pub record Object : Type 0 where
  pub content : Text
  pub mode : ℕ
  pub mtime : ℤ

-- The object store: the objects by checksum, and the parts of those that are under way.
pub record Store : Type 0 where
  pub objects : Dict Object
  pub parts : Dict Text

-- What the file system says during a download: whether folders are made, the part is opened, closed,
-- read back and renamed; and the clock.
pub record Disk : Type 0 where
  pub makes : Bool
  pub opens : Bool
  pub closes : Bool
  pub reads_back : Bool
  pub renames : Bool
  pub now : ℤ

-- An answer: its code, the bytes that arrive, and whether they arrive without an error.
pub record Reply : Type 0 where
  pub code : ℕ
  pub received : Text
  pub complete : Bool

abbrev pub stored_size : Option Object → ℕ → Bool
stored_size none size = false
stored_size (some o) size = nat_eq (length o.content) size

abbrev pub part_of : Option Text → Text
part_of none = []
part_of (some p) = p

module _ (sum : Text → Text) (disk : Disk) (entry : ManifestEntry) where
  -- The checksum of the part, and the renaming.
  unfoldable pub check_part : ℕ → Text → Store → Store × Option ℕ
  check_part total content st =
      if not disk.reads_back
      then (st, none)
      else if not (sum content == entry.checksum)
      then (st, none)
      else if not disk.renames
      then (st, none)
      else (
        record {
          objects =
              insert entry.checksum (record { content = content; mode = 420; mtime = disk.now })
                st.objects;
          parts = erase entry.checksum st.parts;
        },
        some total,
      )

  -- The bytes are added to the part, or start it anew; `kept` is what stays of it.
  unfoldable pub copy_part : Text → Reply → Store → Store × Option ℕ
  copy_part kept reply st =
      let content = kept ++ reply.received in
      let st' = record st { parts = insert entry.checksum content st.parts } in
      if not (reply.complete && disk.closes)
      then (st', none)
      else check_part (length reply.received + length kept) content st'

  abbrev pub after_reply : Text → Store → Option Reply → Store × Option ℕ
  after_reply part st none = (st, none)
  after_reply part st (some reply) =
      if leb 300 reply.code
      then (st, none)
      else if not disk.opens
      then (st, none)
      else copy_part (if ltb 0 (length part) && nat_eq reply.code 206 then part else []) reply st

  -- `downloadObject`; `server` answers a request for the object from an offset on. The result is the
  -- number of bytes, or none for an error.
  unfoldable pub download_object : (ℕ → Option Reply) → Store → Store × Option ℕ
  download_object server st =
      let part = part_of (lookup entry.checksum st.parts) in
      if stored_size (lookup entry.checksum st.objects) entry.size
      then (st, some 0)
      else if not disk.makes
      then (st, none)
      else after_reply part st (server (length part))
