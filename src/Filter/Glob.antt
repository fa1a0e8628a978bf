-- ===== src/Filter/Glob.antt =====
-- filepath.Match of Go's library, step by step: chunks between stars, each matched at the first
-- place that fits. `false` is also the answer for a malformed pattern, whose chunk never matches.
use Prim.Native.Nat.{ℕ, zero, suc}
use http_syncer.Base.{
  Bool, true, false, not, ◌&&◌, ◌||◌, [], ◌∷◌, Option, none, some, Text, nat_eq, leb, has_char,
  length, if◌then◌else◌,
}

abbrev slash : ℕ
slash = b'/'

abbrev star : ℕ
star = b'*'

abbrev escape : ℕ
escape = 92

-- scanChunk: the text up to the next star outside a character class, and what follows.
unfoldable pub scan_chunk : Bool → Text → Text × Text
scan_chunk in_class [] = ([], [])
scan_chunk in_class (c ∷ []) = if nat_eq c star && not in_class then ([], c ∷ []) else (c ∷ [], [])
scan_chunk in_class (c ∷ d ∷ s) =
    let (skipped, after) = scan_chunk in_class s in
    let (chunk, rest) =
      scan_chunk (if nat_eq c b'[' then true else if nat_eq c b']' then false else in_class)
        (d ∷ s) in
    if nat_eq c escape
    then (c ∷ d ∷ skipped, after)
    else if nat_eq c star && not in_class
    then ([], c ∷ d ∷ s)
    else (c ∷ chunk, rest)

-- A class has something after each of its characters.
followed : ℕ → Text → Option (ℕ × Text)
followed c [] = none
followed c (d ∷ s) = some (c, d ∷ s)

-- getEsc: a possibly escaped character of a class.
unfoldable pub get_esc : Text → Option (ℕ × Text)
unfolding followed
get_esc [] = none
get_esc (c ∷ []) = none
get_esc (c ∷ d ∷ s) =
    if nat_eq c b'-' || nat_eq c b']'
    then none
    else if nat_eq c escape
    then followed d s
    else some (c, d ∷ s)

-- The upper end of a range, after its lower end `lo`.
unfoldable pub range_end : ℕ → Text → Option (ℕ × Text)
unfolding get_esc
range_end lo [] = none
range_end lo (c ∷ s) = if nat_eq c b'-' then get_esc s else some (lo, c ∷ s)

-- The ranges of a class up to its bracket, on fuel: whether `r` is in one, and what follows.
unfoldable pub class_loop : ℕ → Bool → Bool → ℕ → Text → Option (Bool × Text)
unfolding get_esc range_end
class_loop zero some_range hit r s = none
class_loop (suc f) some_range hit r [] = none
class_loop (suc f) some_range hit r (c ∷ s) = elim (nat_eq c b']' && some_range) [
  | true ↦ some (hit, s)
  | false ↦ elim (get_esc (c ∷ s)) [
    | none ↦ none
    | some (lo, rest) ↦ elim (range_end lo rest) [
      | none ↦ none
      | some (hi, rest') ↦ class_loop f true (hit || (leb lo r && leb r hi)) r rest'
    ]
  ]
]

unfoldable pub class_match : ℕ → Text → Option (Bool × Text)
unfolding class_loop
class_match r [] = none
class_match r (c ∷ s) =
    let negated = class_loop (suc (length s)) false false r s in
    let plain = class_loop (suc (suc (length s))) false false r (c ∷ s) in
    if nat_eq c b'^'
    then elim negated [ none ↦ none | some (hit, rest) ↦ some (not hit, rest) ]
    else plain

-- matchChunk, on fuel: what is left of the name.
unfoldable pub match_chunk : ℕ → Text → Text → Option Text
unfolding class_match
match_chunk zero chunk s = none
match_chunk (suc f) [] s = some s
match_chunk (suc f) (c ∷ chunk) [] = none
match_chunk (suc f) (c ∷ chunk) (r ∷ s) = elim (nat_eq c b'[') [
  | true ↦ elim (class_match r chunk) [
    | none ↦ none
    | some (false, rest) ↦ none
    | some (true, rest) ↦ match_chunk f rest s
  ]
  | false ↦ elim (nat_eq c b'?') [
    | true ↦ elim (nat_eq r slash) [ true ↦ none | false ↦ match_chunk f chunk s ]
    | false ↦ elim (nat_eq c escape) [
      | true ↦ elim chunk [
        | [] ↦ none
        | d ∷ rest ↦ elim (nat_eq d r) [ true ↦ match_chunk f rest s | false ↦ none ]
      ]
      | false ↦ elim (nat_eq c r) [ true ↦ match_chunk f chunk s | false ↦ none ]
    ]
  ]
]

abbrev chunk_here : Text → Text → Option Text
chunk_here chunk name = match_chunk (suc (length chunk)) chunk name

-- What is left counts, unless the chunk is the last one and something is left.
abbrev acceptable : Bool → Option Text → Option Text
acceptable last none = none
acceptable last (some []) = some []
acceptable last (some (c ∷ t)) = if last then none else some (c ∷ t)

-- The places behind a star, in order, which does not skip a slash.
unfoldable pub skip_to : Bool → Text → Text → Option Text
unfolding match_chunk
skip_to last chunk [] = none
skip_to last chunk (r ∷ name) =
    let later = skip_to last chunk name in
    if nat_eq r slash
    then none
    else elim (acceptable last (chunk_here chunk name)) [ some t ↦ some t | none ↦ later ]

unfoldable pub strip_stars : Text → Bool × Text
strip_stars [] = (false, [])
strip_stars (c ∷ s) =
    let (more, rest) = strip_stars s in if nat_eq c star then (true, rest) else (false, c ∷ s)

abbrev is_empty : Text → Bool
is_empty [] = true
is_empty (c ∷ s) = false

-- One chunk with the star before it: the name that is left.
unfoldable pub place_chunk : Bool → Bool → Text → Text → Option Text
unfolding match_chunk skip_to
place_chunk starred last chunk name = elim (acceptable last (chunk_here chunk name)) [
  | some t ↦ some t
  | none ↦ if starred then skip_to last chunk name else none
]

-- The loop over the chunks, on fuel; each round takes a star or a character off the pattern.
unfoldable pub match_loop : ℕ → Text → Text → Bool
unfolding strip_stars scan_chunk place_chunk has_char
match_loop zero pattern name = false
match_loop (suc f) [] name = is_empty name
match_loop (suc f) (c ∷ p) name =
    let (starred, pattern) = strip_stars (c ∷ p) in
    let (chunk, rest) = scan_chunk false pattern in
    elim (starred && is_empty chunk) [
      | true ↦ not (has_char slash name)
      | false ↦ elim (place_chunk starred (is_empty rest) chunk name) [
        | none ↦ false
        | some t ↦ match_loop f rest t
      ]
    ]

unfoldable pub path_match : Text → Text → Bool
unfolding match_loop
path_match pattern name = match_loop (suc (length pattern)) pattern name
