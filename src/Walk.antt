-- ===== src/Walk.antt =====
-- filepath.WalkDir of Go, over a tree of files, as the scans of the program use it. A callback is
-- handed the path relative to the root, which is what filepath.Rel makes of the walked path.
pub mod Collect
use http_syncer.Base.{ℕ, Bool, true, false, [], ◌∷◌, ◌++◌, Option, none, some, Text}
use http_syncer.Base.Int.{ℤ, pos}
use http_syncer.Path.{slash}

-- A value or the text of an error.
pub data Outcome {ℓ} (A : Type ℓ) : Type ℓ where
  ok : A → Outcome A
  err : Text → Outcome A

pub record FileInfo : Type 0 where
  pub regular : Bool
  pub size : ℕ
  pub mode : ℕ
  pub mtime : ℤ

-- What the system says of a path: its own information, that of what it links to, and the SHA-256
-- of its content in hexadecimal digits.
pub record Meta : Type 0 where
  pub info : Outcome FileInfo
  pub stat : Outcome FileInfo
  pub sum : Outcome Text

-- What goes wrong with a folder: its own information, that of what it links to, or the reading.
pub record Faults : Type 0 where
  pub info : Option Text
  pub stat : Option Text
  pub read : Option Text

abbrev folder_info : Option Text → Outcome FileInfo
folder_info (some e) = err e
folder_info none = ok (record { regular = false; size = 0; mode = 0; mtime = pos 0 })

-- A folder is no regular file, and has no content; its size, mode and time are never read.
abbrev pub folder_meta : Faults → Meta
folder_meta f = record { info = folder_info f.info; stat = folder_info f.stat; sum = err [] }

mutual
  pub data Node : Type 0 where
    leaf : Meta → Node
    folder : Faults → Forest → Node

  pub data Forest : Type 0 where
    nil : Forest
    cons : Text → Node → Forest → Forest

-- What a callback, or a walk, comes to: it goes on, it skips the folder, or it fails, with what it has
-- come to by then.
pub data Visit {ℓ} (S : Type ℓ) : Type ℓ where
  walked skipping : S → Visit S
  failed : Text → S → Visit S

unfoldable pub below : Text → Text → Text
below [] name = name
below (c ∷ dir) name = (c ∷ dir) ++ slash ∷ name

module _ {S : Type 0} where
  -- On to the rest of a folder, unless the walk fails or the folder ends.
  abbrev pub after_entry : (S → Visit S) → Visit S → Visit S
  after_entry rest (failed e s) = failed e s
  after_entry rest (skipping s) = walked s
  after_entry rest (walked s) = rest s

  -- Into a folder, unless it is skipped or cannot be read.
  abbrev pub into_folder : Option Text → (S → Visit S) → Visit S → Visit S
  into_folder broken kids (failed e s) = failed e s
  into_folder broken kids (skipping s) = walked s
  into_folder (some e) kids (walked s) = failed e s
  into_folder none kids (walked s) = kids s

module _ {S : Type 0} (visit : Text → Bool → Meta → S → Visit S) where
  -- The entries of a folder are walked in order.
  unfoldable mutual
    pub walk_node : Text → Node → S → Visit S
    walk_node path (leaf m) s = visit path false m s
    walk_node path (folder f kids) s =
        into_folder f.read (walk_forest path kids) (visit path true (folder_meta f) s)

    pub walk_forest : Text → Forest → S → Visit S
    walk_forest path nil s = walked s
    walk_forest path (cons name node rest) s =
        after_entry (walk_forest path rest) (walk_node (below path name) node s)

  -- The walk from a root, for which every callback here returns at once.
  unfoldable pub walk_root : Outcome Node → S → Visit S
  walk_root (err e) s = failed e s
  walk_root (ok (leaf m)) s = walked s
  walk_root (ok (folder f kids)) s = into_folder f.read (walk_forest [] kids) (walked s)
