-- ===== src/Filter/Laws.antt =====
-- What an excluder excludes.
use mathlib.Core.List.{reverse, reverse-append, reverse-reverse, append_assoc}
use http_syncer.Base.{
  ◌≡◌, refl, sym, ap, ◌∙◌, ◌≢◌, ◌⊎◌, inl, inr, ◌↔◌, Bool, true, false, ◌&&◌, ◌||◌, Bool-cases,
  Option-cases, List, [], ◌∷◌, ◌++◌, none, some, Text, text, In, has_prefix, has_prefix_iff,
  has_prefix-append, has_suffix, trim_suffix, trim_prefix, trim_prefix-append, arith,
}
use http_syncer.Path.{clean, slash}
use http_syncer.Filter.{
  Engine, Excluder, glob_hits, first_glob, first_regex, match_path, double_star, path_match,
}

pub trim_suffix-append : (s t : Text) → trim_suffix (s ++ t) t ≡ s
unfolding trim_suffix
trim_suffix-append s t =
    ap (λ u. reverse (trim_prefix u (reverse t))) (reverse-append s t)
    ∙ ap reverse (trim_prefix-append (reverse t) (reverse s))
    ∙ reverse-reverse s

pub has_suffix-append : (s t : Text) → has_suffix (s ++ t) t ≡ true
unfolding has_suffix
has_suffix-append s t =
    ap (λ u. has_prefix u (reverse t)) (reverse-append s t)
    ∙ has_prefix-append (reverse t) (reverse s)

or_and : (x y z : Bool) → y ≡ true → z ≡ true → (x || (y && z)) ≡ true
or_and x y z h k = ground arith

dir_of_glob :
    (dir : Text) → trim_suffix (trim_suffix (dir ++ text "/**") double_star) (slash ∷ []) ≡ dir
dir_of_glob dir =
    ap (λ s. trim_suffix (trim_suffix s double_star) (slash ∷ []))
      (sym (append_assoc dir (slash ∷ []) double_star))
    ∙ ap (λ s. trim_suffix s (slash ∷ [])) (trim_suffix-append (dir ++ slash ∷ []) double_star)
    ∙ trim_suffix-append dir (slash ∷ [])

-- The test for a glob `dir/**` looks at the text of the directory's name alone.
glob_hits-sibling : (dir rest : Text) → glob_hits (dir ++ text "/**") (dir ++ rest) ≡ true
unfolding glob_hits
glob_hits-sibling dir rest =
    or_and (path_match (dir ++ text "/**") (dir ++ rest)) _ _ (has_suffix-append dir (text "/**"))
      (ap (has_prefix (dir ++ rest)) (dir_of_glob dir) ∙ has_prefix-append dir rest)

-- A glob fits a path as a pattern of package path, or it ends in `/**` and the path's text begins with
-- what stands before that.
abbrev pub FitsGlob : Text → Text → Type 0
FitsGlob g path =
    (path_match g path ≡ true)
    ⊎ ((dir : Text) × (g ≡ dir ++ text "/**") × ((rest : Text) × (path ≡ dir ++ rest)))

has_suffix_iff : (s t : Text) → has_suffix s t ≡ true → (dir : Text) × (s ≡ dir ++ t)
unfolding has_suffix
has_suffix_iff s t h =
    let (r, q) = has_prefix_iff (reverse s) (reverse t) h in
    (
      reverse r,
      sym (reverse-reverse s)
          ∙ ap reverse q
          ∙ reverse-append (reverse t) r
          ∙ ap (λ u. reverse r ++ u) (reverse-reverse t),
    )

or_inv : (x y z : Bool) → (x || (y && z)) ≡ true → (x ≡ true) ⊎ ((y ≡ true) × (z ≡ true))
or_inv true y z h = inl refl
or_inv false true true h = inr (refl, refl)
or_inv false true false h = absurd (cc)
or_inv false false z h = absurd (cc)

glob_hits-FitsGlob : (g path : Text) → glob_hits g path ≡ true → FitsGlob g path
unfolding glob_hits
glob_hits-FitsGlob g path h =
    let before_stars = trim_suffix (trim_suffix g double_star) (slash ∷ []) in
    elim (or_inv (path_match g path) (has_suffix g (text "/**")) (has_prefix path before_stars) h) [
      | inl matched ↦ inl matched
      | inr (ends, begins) ↦
          let (dir, q) = has_suffix_iff g (text "/**") ends in
          let before =
            ap (λ x. trim_suffix (trim_suffix x double_star) (slash ∷ [])) q ∙ dir_of_glob dir in
          inr (dir, q, has_prefix_iff path dir (ap (has_prefix path) (sym before) ∙ begins))
    ]

FitsGlob-glob_hits : (g path : Text) → FitsGlob g path → glob_hits g path ≡ true
unfolding glob_hits
FitsGlob-glob_hits g path (inl matched) = rw matched refl
FitsGlob-glob_hits g path (inr (dir, q, (rest, begins))) =
    ap (λ x. glob_hits x path) q
    ∙ ap (glob_hits (dir ++ text "/**")) begins
    ∙ glob_hits-sibling dir rest

first_glob-some :
    (globs : List Text) (g path : Text)
    → In g globs
    → glob_hits g path ≡ true
    → (reason : Text) × (first_glob globs path ≡ some reason)
unfolding first_glob
first_glob-some [] g path m hit = absurd m
first_glob-some (h ∷ globs) g path (inl e) hit =
    (text "glob:" ++ h, rw (ap (λ x. glob_hits x path) (sym e) ∙ hit))
first_glob-some (h ∷ globs) g path (inr m) hit =
    let (reason, found) = first_glob-some globs g path m hit in
    elim (Bool-cases (glob_hits h path)) [
      | inl first ↦ (text "glob:" ++ h, rw first)
      | inr later ↦ (reason, rw later found)
    ]

first_glob-hit :
    (globs : List Text) (path reason : Text)
    → first_glob globs path ≡ some reason
    → (g : Text) × In g globs × (glob_hits g path ≡ true)
unfolding first_glob
first_glob-hit [] path reason h = absurd (cc)
first_glob-hit (g ∷ globs) path reason h = elim (Bool-cases (glob_hits g path)) [
  | inl first ↦ (g, inl refl, first)
  | inr later ↦
      let (g', m, hit) = first_glob-hit globs path reason (rw later at h) in (g', inr m, hit)
]

module _ (engine : Engine) where
  first_regex-some :
      (rexes : List engine.Regex) (rx : engine.Regex) (path : Text)
      → In rx rexes
      → engine.match_string rx path ≡ true
      → (reason : Text) × (first_regex engine rexes path ≡ some reason)
  unfolding first_regex
  first_regex-some [] rx path m hit = absurd m
  first_regex-some (q ∷ rexes) rx path (inl e) hit =
      (text "regex:" ++ engine.source q, rw (ap (λ x. engine.match_string x path) (sym e) ∙ hit))
  first_regex-some (q ∷ rexes) rx path (inr m) hit =
      let (reason, found) = first_regex-some rexes rx path m hit in
      elim (Bool-cases (engine.match_string q path)) [
        | inl first ↦ (text "regex:" ++ engine.source q, rw first)
        | inr later ↦ (reason, rw later found)
      ]

  first_regex-hit :
      (rexes : List engine.Regex) (path reason : Text)
      → first_regex engine rexes path ≡ some reason
      → (rx : engine.Regex) × In rx rexes × (engine.match_string rx path ≡ true)
  unfolding first_regex
  first_regex-hit [] path reason h = absurd (cc)
  first_regex-hit (rx ∷ rexes) path reason h = elim (Bool-cases (engine.match_string rx path)) [
    | inl first ↦ (rx, inl refl, first)
    | inr later ↦
        let (rx', m, hit) = first_regex-hit rexes path reason (rw later at h) in (rx', inr m, hit)
  ]

  -- What an excluder looks for: a glob that fits the cleaned path, or a regular expression.
  abbrev pub Fits : Excluder engine → Text → Type 0
  Fits e path =
      ((g : Text) × In g e.globs × FitsGlob g path)
      ⊎ ((rx : engine.Regex) × In rx e.rexes × (engine.match_string rx path ≡ true))

  match_path-some :
      (e : Excluder engine) (path : Text)
      → Fits e (clean path)
      → (reason : Text) × (match_path engine e path ≡ some reason)
  unfolding match_path
  match_path-some e path (inl (g, m, hit)) =
      let (reason, found) =
        first_glob-some e.globs g (clean path) m (FitsGlob-glob_hits g (clean path) hit) in
      (reason, rw found)
  match_path-some e path (inr (rx, m, hit)) =
      let (reason, found) = first_regex-some e.rexes rx (clean path) m hit in
      elim (Option-cases (first_glob e.globs (clean path))) [
        | inl clear ↦ (reason, rw clear found)
        | inr (by_glob, hit') ↦ (by_glob, rw hit')
      ]

  match_path-Fits :
      (e : Excluder engine) (path : Text) → match_path engine e path ≢ none → Fits e (clean path)
  unfolding match_path
  match_path-Fits e path h = elim (Option-cases (first_glob e.globs (clean path))) [
    | inr (reason, found) ↦
        let (g, m, hit) = first_glob-hit e.globs (clean path) reason found in
        inl (g, m, glob_hits-FitsGlob g (clean path) hit)
    | inl clear ↦ elim (Option-cases (first_regex engine e.rexes (clean path))) [
      | inr (reason, found) ↦ inr (first_regex-hit e.rexes (clean path) reason found)
      | inl clear' ↦ absurd (h (rw (clear, clear')))
    ]
  ]

  -- A path is excluded exactly if, cleaned, one of the globs fits it, as a pattern of package path or as
  -- a text before `/**` with which the path begins, or one of the regular expressions matches it, whatever
  -- the order of the patterns.
  pub match_path_iff :
      (e : Excluder engine) (path : Text) → (match_path engine e path ≢ none) ↔ Fits e (clean path)
  match_path_iff e path = (
    match_path-Fits e path,
    λ fits none_found. let (reason, found) = match_path-some e path fits in cc (found, none_found),
  )

  -- A glob `dir/**` also excludes every path whose text only begins with `dir`, such as a file
  -- beside the directory with a longer name.
  pub match_path-sibling :
      (e : Excluder engine) (dir rest path : Text)
      → In (dir ++ text "/**") e.globs
      → clean path ≡ dir ++ rest
      → (reason : Text) × (match_path engine e path ≡ some reason)
  match_path-sibling e dir rest path m cleaned =
      match_path-some e path (inl (dir ++ text "/**", m, inr (dir, refl, (rest, cleaned))))
