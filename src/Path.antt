-- ===== src/Path.antt =====
-- The functions of Go's package path/filepath that the program calls, on Unix. A cleaned path is
-- its flag for a leading slash with its list of components.
pub mod Clean
pub mod Relative
use mathlib.Core.List.{reverse, foldl}
use http_syncer.Base.{
  ℕ, Bool, true, false, not, ◌&&◌, ◌||◌, List, [], ◌∷◌, ◌++◌, Option, none, some, Text, text, ◌==◌,
  has_prefix, split, join, if◌then◌else◌,
}

abbrev pub slash : ℕ
slash = b'/'

abbrev pub dot : Text
dot = text "."

abbrev pub dotdot : Text
dotdot = text ".."

-- filepath.IsAbs
unfoldable pub is_abs : Text → Bool
unfolding has_prefix
is_abs p = has_prefix p (slash ∷ [])

-- `..` undoes the last component, unless there is none or it is a `..` that stayed.
up : Bool → List Text → List Text
up true [] = []
up false [] = dotdot ∷ []
up rooted (top ∷ below) = if top == dotdot then dotdot ∷ top ∷ below else below

-- One component onto the stack, whose top is the last component kept.
clean_step : Bool → List Text → Text → List Text
unfolding up
clean_step rooted stack part =
    if part == [] || part == dot
    then stack
    else if part == dotdot
    then up rooted stack
    else part ∷ stack

unfoldable pub components : Text → List Text
unfolding clean_step is_abs split ◌==◌
components p = reverse (foldl (clean_step (is_abs p)) [] (split slash p))

unfoldable pub render : Bool → List Text → Text
unfolding join
render true parts = slash ∷ join slash parts
render false [] = dot
render false (part ∷ parts) = join slash (part ∷ parts)

-- filepath.Clean
unfoldable pub clean : Text → Text
unfolding components render
clean p = render (is_abs p) (components p)

-- filepath.Join of two elements
unfoldable pub join_path : Text → Text → Text
unfolding clean
join_path [] [] = []
join_path [] (b ∷ t) = clean (b ∷ t)
join_path (a ∷ s) t = clean ((a ∷ s) ++ slash ∷ t)

-- filepath.Abs, with the working directory
unfoldable pub abs : Text → Text → Text
unfolding join_path
abs cwd p = if is_abs p then clean p else join_path cwd p

-- Up from what is left of the base.
unfoldable pub ups : List Text → List Text
ups [] = []
ups (b ∷ bs) = dotdot ∷ ups bs

-- The loop of filepath.Rel: the common components go, and what is left of the base is gone up from.
unfoldable pub rel_parts : List Text → List Text → Option (List Text)
unfolding ups ◌==◌
rel_parts [] ts = some ts
rel_parts (b ∷ bs) [] = if b == dotdot then none else some (ups (b ∷ bs))
rel_parts (b ∷ bs) (t ∷ ts) =
    let rest = rel_parts bs ts in
    if b == t then rest else if b == dotdot then none else some (ups (b ∷ bs) ++ (t ∷ ts))

abbrev pub rendered : Option (List Text) → Option Text
rendered none = none
rendered (some parts) = some (render false parts)

abbrev pub same_root : Bool → Bool → Bool
same_root true b = b
same_root false b = not b

-- filepath.Rel; `none` is its error
unfoldable pub rel : Text → Text → Option Text
unfolding rel_parts components render
rel base target =
    if same_root (is_abs base) (is_abs target)
    then rendered (rel_parts (components base) (components target))
    else none
