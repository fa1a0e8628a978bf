-- ===== src/Client/Promote.antt =====
-- promoteObjectToEntries of internal/client/client.go: the files of an object become links to it.
pub mod Links
use http_syncer.Base.{
  ℕ, Bool, true, false, not, List, [], ◌∷◌, ◌++◌, ◌==◌, Option, none, some, Text, text, Dict,
  lookup, insert, erase, nat_eq, if◌then◌else◌,
}
use http_syncer.Base.Int.{ℤ}
use mathlib.Core.List.{reverse}
use http_syncer.Path.{clean, join_path, rel, slash}
use http_syncer.Snapshot.{ManifestEntry}
use http_syncer.Client.Download.{Object, Store}

-- A file of the target directory: one of its own, or a link with its text.
pub data TargetFile : Type 0 where
  plain : ℕ → ℕ → ℤ → TargetFile
  link : Text → TargetFile

-- The target directory: the object store in its folder .sync-http-objects, by checksum, and all other
-- files, a link in that folder too, by their full paths. No folder is a link.
pub record Target : Type 0 where
  pub store : Store
  pub files : Dict TargetFile

-- The entries of a map whose path is another one
unfoldable pub drop_at {ℓ} : {V : Type ℓ} → (Text → Text) → Text → Dict V → Dict V
drop_at path_of path [] = []
drop_at path_of path (slot ∷ dict) =
    let rest = drop_at path_of path dict in if path == path_of slot.0 then rest else slot ∷ rest

-- What the file system says while an entry is linked: whether its folder is made, what was there is
-- removed, or there was nothing, and the link is made.
pub record Step : Type 0 where
  pub makes : Bool
  pub removes : Bool
  pub links : Bool

unfoldable pub from_slash : Text → Text
from_slash [] = []
from_slash (c ∷ t) = if nat_eq c slash then c ∷ t else from_slash t

-- filepath.Dir
unfoldable pub dir_of : Text → Text
dir_of p = clean (reverse (from_slash (reverse p)))

module _ (root : Text) where
  abbrev pub target_path : ManifestEntry → Text
  target_path e = join_path root e.path

  abbrev pub object_path : Text → Text
  object_path checksum = join_path (join_path root (text ".sync-http-objects")) checksum

  -- Where the bytes of an object are kept until they are complete.
  abbrev pub part_path : Text → Text
  part_path checksum =
      join_path (join_path (join_path root (text ".sync-http-objects")) (text ".staging")) checksum
      ++ text ".part"

  -- os.Remove of a path, be it a file's, an object's or a part's.
  unfoldable pub remove_path : Text → Target → Target
  remove_path path t = record {
    store = record {
      objects = drop_at object_path path t.store.objects;
      parts = drop_at part_path path t.store.parts;
    };
    files = erase path t.files;
  }

  abbrev pub make_link : Bool → Text → Target → Option Text → Target × Bool
  make_link links target t none = (t, false)
  make_link links target t (some r) =
      if not links then (t, false) else (record t { files = insert target (link r) t.files }, true)

  -- One entry; the result tells whether there was no error.
  unfoldable pub link_entry : Text → Step → ManifestEntry → Target → Target × Bool
  link_entry object step e t =
      let target = target_path e in
      if not step.makes
      then (t, false)
      else if not step.removes
      then (t, false)
      else make_link step.links target (remove_path target t) (rel (dir_of target) object)

  abbrev pub and_rest : (Target → Target × Bool) → Target × Bool → Target × Bool
  and_rest rest (t, false) = (t, false)
  and_rest rest (t, true) = rest t

  -- The loop over the entries; `steps` is what the file system says at a path.
  unfoldable pub link_entries : Text → (Text → Step) → List ManifestEntry → Target → Target × Bool
  link_entries object steps [] t = (t, true)
  link_entries object steps (e ∷ entries) t =
      and_rest (link_entries object steps entries) (link_entry object (steps e.path) e t)

abbrev pub change : (Object → Object) → Text → Option Object → Store → Store
change f checksum none st = st
change f checksum (some o) st = record st { objects = insert checksum (f o) st.objects }

-- Chmod and Chtimes of an object.
unfoldable pub set_mode : ℕ → Text → Store → Store
set_mode mode checksum st =
    change (λ o. record o { mode = mode }) checksum (lookup checksum st.objects) st

unfoldable pub set_time : ℤ → Text → Store → Store
set_time mtime checksum st =
    change (λ o. record o { mtime = mtime }) checksum (lookup checksum st.objects) st

-- What the file system says of a promotion: of its links, and whether mode and times are set.
pub record PromoteEnv : Type 0 where
  pub steps : Text → Step
  pub chmods : Bool
  pub sets_times : Bool

-- The object takes the mode and the time of the first entry.
abbrev pub set_attributes : PromoteEnv → Text → List ManifestEntry → Store → Store × Bool
set_attributes env checksum [] st = (st, true)
set_attributes env checksum (first ∷ entries) st =
    let st' = set_mode first.mode checksum st in
    if not env.chmods
    then (st, false)
    else if not env.sets_times
    then (st', false)
    else (set_time first.mtime checksum st', true)

abbrev pub after_links : PromoteEnv → Text → List ManifestEntry → Target × Bool → Target × Bool
after_links env checksum entries (t, false) = (t, false)
after_links env checksum entries (t, true) =
    let (st, good) = set_attributes env checksum entries t.store in (record t { store = st }, good)

-- `promoteObjectToEntries`, for the object of a checksum
unfoldable pub promote : Text → PromoteEnv → Text → List ManifestEntry → Target → Target × Bool
promote root env checksum entries t =
    after_links env checksum entries
      (link_entries root (object_path root checksum) env.steps entries t)
