-- ===== src/Lock/Paths.antt =====
-- internal/lock/manager.go: lock paths, their files' names, and which paths stand in one another's way.
use http_syncer.Base.{
  Bool, true, false, ◌||◌, ◌++◌, Text, text, ◌==◌, has_prefix, trim_prefix, replace_all,
  if◌then◌else◌, ◌∷◌, [],
}
use http_syncer.Path.{clean, dot, slash}

abbrev dot_slash : Text
dot_slash = text "./"

unfoldable pub normalize_path : Text → Text
unfolding clean trim_prefix replace_all ◌==◌
normalize_path path =
    let trimmed = trim_prefix (clean path) dot_slash in
    if trimmed == dot then text "root" else replace_all slash b'_' trimmed

-- The file's name in the lock directory, which holds no slash.
unfoldable pub lock_file : Text → Text
unfolding normalize_path
lock_file path = normalize_path path ++ text ".lock"

unfoldable pub clean_path : Text → Text
unfolding clean trim_prefix ◌==◌
clean_path path =
    let trimmed = trim_prefix (clean path) dot_slash in if trimmed == [] then dot else trimmed

-- The comparison of two cleaned paths.
unfoldable pub overlaps_clean : Text → Text → Bool
unfolding has_prefix
overlaps_clean a b =
    if a == dot || b == dot
    then true
    else if a == b
    then true
    else if has_prefix a (b ++ slash ∷ []) || has_prefix b (a ++ slash ∷ [])
    then true
    else false

unfoldable pub overlaps : Text → Text → Bool
unfolding clean_path overlaps_clean
overlaps a b = overlaps_clean (clean_path a) (clean_path b)
