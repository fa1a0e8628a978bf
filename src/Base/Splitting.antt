-- ===== src/Base/Splitting.antt =====
-- Splitting and joining texts at a separator of one character: strings.Split, strings.ReplaceAll
-- and strings.Join with such a separator.
use Prim.Native.Nat.{ℕ}
use mathlib.Core.Path.{◌≡◌, refl, sym, ap, ◌∙◌}
use mathlib.Core.Bool.{Bool, false, ◌||◌}
use mathlib.Core.Logic.{◌≢◌}
use mathlib.Core.List.{List, [], ◌∷◌, ◌++◌, append_assoc}
use native.Mathlib.Omega.{arith}
use http_syncer.Base.Tests.{nat_eq, if◌then◌else◌}
use http_syncer.Base.Strings.{Text}

abbrev onto_first : ℕ → List Text → List Text
onto_first a [] = (a ∷ []) ∷ []
onto_first a (part ∷ parts) = (a ∷ part) ∷ parts

-- strings.Split(s, string(c)): one part more than there are separators.
unfoldable pub split : ℕ → Text → List Text
split c [] = [] ∷ []
split c (a ∷ s) = let rest = split c s in if nat_eq a c then [] ∷ rest else onto_first a rest

-- strings.Join(parts, string(c))
unfoldable pub join : ℕ → List Text → Text
join c [] = []
join c (part ∷ []) = part
join c (part ∷ next ∷ parts) = part ++ (c ∷ join c (next ∷ parts))

-- strings.ReplaceAll(s, string(c), string(d))
unfoldable pub replace_all : ℕ → ℕ → Text → Text
replace_all c d [] = []
replace_all c d (a ∷ s) = (if nat_eq a c then d else a) ∷ replace_all c d s

-- strings.Contains(s, string(c))
unfoldable pub has_char : ℕ → Text → Bool
has_char c [] = false
has_char c (a ∷ s) = nat_eq a c || has_char c s

-- A part that ends at the separator comes off first.
pub split-append :
    (c : ℕ) (s t : Text) → has_char c s ≡ false → split c (s ++ (c ∷ t)) ≡ s ∷ split c t
unfolding split has_char
split-append c [] t h = ground arith
split-append c (a ∷ s) t h = ground (arith, split-append c s t)

pub split_single : (c : ℕ) (s : Text) → has_char c s ≡ false → split c s ≡ s ∷ []
unfolding split has_char
split_single c [] h = refl
split_single c (a ∷ s) h = ground (arith, split_single c s)

onto_first-append :
    (a : ℕ) (ps qs : List Text) → ps ≢ [] → onto_first a (ps ++ qs) ≡ onto_first a ps ++ qs
onto_first-append a [] qs h = absurd (h refl)
onto_first-append a (p ∷ ps) qs h = refl

onto_first-ne-nil : (a : ℕ) (ps : List Text) → onto_first a ps ≢ []
onto_first-ne-nil a [] h = cc
onto_first-ne-nil a (p ∷ ps) h = cc

pub split-ne-nil : (c : ℕ) (s : Text) → split c s ≢ []
unfolding split
split-ne-nil c [] h = cc
split-ne-nil c (a ∷ s) h = ground (arith, onto_first-ne-nil a (split c s))

-- Splitting a text with the separator in its middle.
pub split-sep : (c : ℕ) (s t : Text) → split c (s ++ (c ∷ t)) ≡ split c s ++ split c t
unfolding split
split-sep c [] t = ground arith
split-sep c (a ∷ s) t =
    rw (split-sep c s t)
      (ground (arith, onto_first-append a (split c s) (split c t) (split-ne-nil c s)))

join-empty_first : (c : ℕ) (ps : List Text) → ps ≢ [] → join c ([] ∷ ps) ≡ c ∷ join c ps
unfolding join
join-empty_first c [] h = absurd (h refl)
join-empty_first c (p ∷ ps) h = refl

join-onto_first : (c a : ℕ) (ps : List Text) → join c (onto_first a ps) ≡ a ∷ join c ps
unfolding join
join-onto_first c a [] = refl
join-onto_first c a (p ∷ []) = refl
join-onto_first c a (p ∷ q ∷ ps) = refl

-- Joining undoes splitting.
pub join-split : (c : ℕ) (s : Text) → join c (split c s) ≡ s
unfolding split
join-split c [] = unfold join in refl
join-split c (a ∷ s) = ground (
  arith,
  join-split c s,
  join-empty_first c (split c s) (split-ne-nil c s),
  join-onto_first c a (split c s),
)

pub join-append :
    (c : ℕ) (part : Text) (parts : List Text) (q : Text) (qs : List Text)
    → join c ((part ∷ parts) ++ (q ∷ qs)) ≡ join c (part ∷ parts) ++ (c ∷ join c (q ∷ qs))
unfolding join
join-append c part [] q qs = refl
join-append c part (next ∷ parts) q qs =
    ap (λ rest. part ++ (c ∷ rest)) (join-append c next parts q qs)
    ∙ sym (append_assoc part (c ∷ join c (next ∷ parts)) (c ∷ join c (q ∷ qs)))

-- The same, for any parts but none.
pub join-append_ne :
    (c : ℕ) (ps : List Text) (q : Text) (qs : List Text)
    → ps ≢ []
    → join c (ps ++ (q ∷ qs)) ≡ join c ps ++ (c ∷ join c (q ∷ qs))
join-append_ne c [] q qs h = absurd (h refl)
join-append_ne c (p ∷ ps) q qs h = join-append c p ps q qs
