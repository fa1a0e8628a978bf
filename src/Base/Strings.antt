-- ===== src/Base/Strings.antt =====
-- Go's strings as lists of code points, with the functions of package strings that the code calls.
use Prim.Native.Nat.{ℕ}
use Prim.Native.Char.{code}
use Prim.Native.String.{String}
use mathlib.Core.Path.{◌≡◌, refl, ap}
use mathlib.Core.Logic.{◌↔◌}
use mathlib.Core.Bool.{Bool, true, false, ◌&&◌, ◌||◌}
use mathlib.Core.Option.{Option, none, some}
use mathlib.Core.List.{List, [], ◌∷◌, ◌++◌, reverse}
use native.Mathlib.Omega.{arith}
use http_syncer.Base.Tests.{nat_eq, leb, ltb, if◌then◌else◌}

abbrev pub Text : Type 0
Text = List ℕ

-- The code points of a literal. `String` has its own `[]` and `∷`.
abbrev pub text : String → Text
text String.[] = []
text (String.◌∷◌ c s) = code c ∷ text s

infix 50 ◌==◌
unfoldable pub ◌==◌ : Text → Text → Bool
[] == [] = true
[] == (b ∷ t) = false
(a ∷ s) == [] = false
(a ∷ s) == (b ∷ t) = nat_eq a b && (s == t)

pub ==_refl : (s : Text) → (s == s) ≡ true
unfolding ◌==◌
==_refl [] = refl
==_refl (a ∷ s) = ground (arith, ==_refl s)

pub ==→≡ : (s t : Text) → (s == t) ≡ true → s ≡ t
unfolding ◌==◌
==→≡ [] [] h = refl
==→≡ [] (b ∷ t) h = cc
==→≡ (a ∷ s) [] h = cc
==→≡ (a ∷ s) (b ∷ t) h = ground (arith, ==→≡ s t)

pub ==_iff : (s t : Text) → ((s == t) ≡ true) ↔ (s ≡ t)
==_iff s t = (==→≡ s t, λ e. rw e (==_refl t))

-- Lexicographic order, Go's `<` on strings.
unfoldable pub text_lt : Text → Text → Bool
text_lt s [] = false
text_lt [] (b ∷ t) = true
text_lt (a ∷ s) (b ∷ t) = ltb a b || (nat_eq a b && text_lt s t)

-- strings.HasPrefix(s, p)
unfoldable pub has_prefix : Text → Text → Bool
has_prefix s [] = true
has_prefix [] (b ∷ p) = false
has_prefix (a ∷ s) (b ∷ p) = nat_eq a b && has_prefix s p

-- What follows the prefix, if it is one.
unfoldable pub after_prefix : Text → Text → Option Text
after_prefix s [] = some s
after_prefix [] (b ∷ p) = none
after_prefix (a ∷ s) (b ∷ p) = if nat_eq a b then after_prefix s p else none

abbrev or_whole : Text → Option Text → Text
or_whole s none = s
or_whole s (some r) = r

-- strings.TrimPrefix(s, p)
unfoldable pub trim_prefix : Text → Text → Text
unfolding after_prefix
trim_prefix s p = or_whole s (after_prefix s p)

-- strings.HasSuffix(s, p)
unfoldable pub has_suffix : Text → Text → Bool
unfolding has_prefix
has_suffix s p = has_prefix (reverse s) (reverse p)

-- strings.TrimSuffix(s, p)
unfoldable pub trim_suffix : Text → Text → Text
unfolding trim_prefix
trim_suffix s p = reverse (trim_prefix (reverse s) (reverse p))

-- unicode.IsSpace on the Latin-1 range and the other white space of Unicode.
unfoldable pub is_space : ℕ → Bool
is_space c =
    (leb 9 c && leb c 13)
    || nat_eq c 32
    || nat_eq c 0x85
    || nat_eq c 0xa0
    || nat_eq c 0x1680
    || (leb 0x2000 c && leb c 0x200a)
    || nat_eq c 0x2028
    || nat_eq c 0x2029
    || nat_eq c 0x202f
    || nat_eq c 0x205f
    || nat_eq c 0x3000

unfoldable pub trim_left : Text → Text
trim_left [] = []
trim_left (a ∷ s) = let rest = trim_left s in if is_space a then rest else a ∷ s

-- strings.TrimSpace(s)
unfoldable pub trim_space : Text → Text
trim_space s = reverse (trim_left (reverse (trim_left s)))

abbrev pub is_blank : Text → Bool
is_blank t = trim_space t == []

pub has_prefix_iff : (s p : Text) → has_prefix s p ≡ true → (r : Text) × (s ≡ p ++ r)
unfolding has_prefix
has_prefix_iff s [] h = (s, refl)
has_prefix_iff [] (b ∷ p) h = absurd (ground arith)
has_prefix_iff (a ∷ s) (b ∷ p) h =
    let (r, e) = has_prefix_iff s p (ground arith) in (r, ground arith)

pub has_prefix-append : (p r : Text) → has_prefix (p ++ r) p ≡ true
unfolding has_prefix
has_prefix-append [] r = refl
has_prefix-append (a ∷ p) r = ground (arith, has_prefix-append p r)

pub after_prefix-append : (p r : Text) → after_prefix (p ++ r) p ≡ some r
unfolding after_prefix
after_prefix-append [] r = refl
after_prefix-append (a ∷ p) r = ground (arith, after_prefix-append p r)

pub trim_prefix-append : (p r : Text) → trim_prefix (p ++ r) p ≡ r
unfolding trim_prefix
trim_prefix-append p r = ap (or_whole (p ++ r)) (after_prefix-append p r)
