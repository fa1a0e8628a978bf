-- ===== src/Filter.antt =====
-- internal/filter/exclude.go: what is excluded. The engine of package regexp is a parameter.
mod Glob
pub mod Laws
unfoldable pub use Glob.{path_match}
use http_syncer.Base.{
  Bool, true, false, ◌&&◌, ◌||◌, List, [], ◌∷◌, ◌++◌, Option, none, some, Text, text, ◌==◌,
  has_prefix, has_suffix, trim_suffix, trim_space, if◌then◌else◌,
}
use http_syncer.Path.{clean, slash}

-- Compiled regular expressions of package regexp.
pub record Engine : Type 1 where
  pub Regex : Type 0
  pub compile : Text → Option Regex
  pub match_string : Regex → Text → Bool
  pub source : Regex → Text

module _ (engine : Engine) where
  open engine use {Regex, compile, match_string, source}

  pub record Excluder : Type 0 where
    pub globs : List Text
    pub rexes : List Regex

  unfoldable pub clean_globs : List Text → List Text
  clean_globs [] = []
  clean_globs (g ∷ globs) =
      let rest = clean_globs globs in if trim_space g == [] then rest else clean g ∷ rest

  unfoldable pub compile_all : List Text → Option (List Regex)
  compile_all [] = some []
  compile_all (r ∷ regexes) =
      let rest = compile_all regexes in
      if trim_space r == [] then rest else elim (compile r) [
        | none ↦ none
        | some rx ↦ elim rest [ none ↦ none | some rxs ↦ some (rx ∷ rxs) ]
      ]

  -- `NewExcluder`; `none` is its error, a regular expression that does not compile.
  unfoldable pub new_excluder : List Text → List Text → Option Excluder
  new_excluder globs regexes = elim (compile_all regexes) [
    | none ↦ none
    | some rxs ↦ some (record { globs = clean_globs globs; rexes = rxs })
  ]

abbrev pub double_star : Text
double_star = text "**"

-- One round of `Match`'s loop over the globs, on the cleaned path.
unfoldable pub glob_hits : Text → Text → Bool
glob_hits g path =
    path_match g path
    || (has_suffix g (text "/**")
        && has_prefix path (trim_suffix (trim_suffix g double_star) (slash ∷ [])))

unfoldable pub first_glob : List Text → Text → Option Text
first_glob [] path = none
first_glob (g ∷ globs) path =
    let rest = first_glob globs path in if glob_hits g path then some (text "glob:" ++ g) else rest

abbrev pub or_else : Option Text → Option Text → Option Text
or_else none later = later
or_else (some reason) later = some reason

module _ (engine : Engine) where
  open engine use {Regex, match_string, source}

  unfoldable pub first_regex : List Regex → Text → Option Text
  first_regex [] path = none
  first_regex (rx ∷ rexes) path =
      let rest = first_regex rexes path in
      if match_string rx path then some (text "regex:" ++ source rx) else rest

  -- `Match`: the reason for the exclusion, if there is one.
  unfoldable pub match_path : Excluder engine → Text → Option Text
  match_path e path = or_else (first_glob e.globs (clean path)) (first_regex e.rexes (clean path))
