-- ===== src/Tests/Filters.antt =====
-- Patterns and exclusions at concrete paths.
use http_syncer.Base.{
  ◌≡◌, refl, ◌↔◌, ◌≢◌, inl, true, false, text, Text, some, none, [], ◌∷◌, has_prefix, has_suffix,
  trim_suffix, trim_space, trim_left, is_space, ◌==◌,
}
use http_syncer.Path.{clean}
use http_syncer.Filter.{
  Engine, Excluder, path_match, match_path, first_glob, first_regex, glob_hits, new_excluder,
  compile_all, clean_globs,
}
use http_syncer.Filter.Laws.{Fits, match_path_iff, match_path-sibling}

samples :
    (path_match (text "*.log") (text "a.log") ≡ true)
    × (path_match (text "*.log") (text "d/a.log") ≡ false)
    × (path_match (text "a?c[x-z]") (text "abcy") ≡ true)
    × (path_match (text "a?c[^x-z]") (text "abcy") ≡ false)
    × (path_match (text "*a*b") (text "xaxab") ≡ true)
    × (path_match (text "a\\*") (text "a*") ≡ true)
    × (path_match (text "a[") (text "a") ≡ false)
    × (path_match (text "*[^a]*") (text "b/c") ≡ false)
    × (path_match (text "") (text "") ≡ true)
    × (path_match (text "[]a]") (text "]") ≡ false)
    × (path_match (text "*/*") (text "d/a.log") ≡ true)
unfolding path_match
samples = (refl, refl, refl, refl, refl, refl, refl, refl, refl, refl, refl)

-- Expressions that are anchored texts.
abbrev pub anchored : Engine
anchored = record {
  Regex = Text;
  compile = λ t. some t;
  match_string = λ p t. has_prefix t p;
  source = λ p. p;
}

abbrev pub ex : Excluder anchored
ex = record { globs = text "tmp/**" ∷ text "*.log" ∷ []; rexes = text "private/" ∷ [] }

built :
    new_excluder anchored (text "tmp/./**" ∷ text " " ∷ text "*.log" ∷ []) (text "private/" ∷ [])
    ≡ some ex
unfolding new_excluder compile_all clean_globs clean trim_space trim_left is_space ◌==◌
built = refl

excluded :
    (match_path anchored ex (text "tmp/a.txt") ≡ some (text "glob:tmp/**"))
    × (match_path anchored ex (text "a.log") ≡ some (text "glob:*.log"))
    × (match_path anchored ex (text "private/secrets.txt") ≡ some (text "regex:private/"))
    × (match_path anchored ex (text "public/readme.md") ≡ none)
    × (match_path anchored ex (text "tmpfile") ≡ some (text "glob:tmp/**"))
unfolding match_path first_glob first_regex glob_hits path_match clean has_prefix has_suffix
    trim_suffix
excluded = (refl, refl, refl, refl, refl)

match_path_iff_example :
    (match_path anchored ex (text "a.log") ≢ none) ↔ Fits anchored ex (clean (text "a.log"))
match_path_iff_example = match_path_iff anchored ex (text "a.log")

match_path-sibling_example :
    (reason : Text) × (match_path anchored ex (text "tmpfile") ≡ some reason)
unfolding clean
match_path-sibling_example =
    match_path-sibling anchored ex (text "tmp") (text "file") (text "tmpfile") (inl refl) refl
