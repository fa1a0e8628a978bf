-- ===== src/Base/Numbers.antt =====
-- Package strconv: Itoa, FormatInt and Atoi.
use Prim.Native.Nat.{ℕ, zero, suc, ◌+◌, ◌-◌, ◌*◌, ◌/◌, ◌%◌, ◌^◌, ◌<◌}
use mathlib.Core.Path.{◌≡◌, refl, ap, ◌∙◌}
use mathlib.Core.Bool.{◌&&◌}
use mathlib.Core.Option.{Option, none, some}
use mathlib.Core.List.{[], ◌∷◌}
use mathlib.Core.Logic.{◌≢◌, inl, inr}
use native.Mathlib.Omega.{arith}
use http_syncer.Base.Tests.{ltb, leb, nat_eq, if◌then◌else◌, Bool-cases, ltb→lt}
use http_syncer.Base.Strings.{Text}
use http_syncer.Base.Int.{ℤ, pos, negsuc}

-- A digit below 36.
unfoldable pub digit : ℕ → ℕ
digit d = if ltb d 10 then 48 + d else 87 + d

-- The digits of `n` before those that are there, on fuel; a round divides by the base.
unfoldable pub digits_onto : ℕ → ℕ → ℕ → Text → Text
digits_onto zero base n acc = acc
digits_onto (suc f) base n acc =
    let more = digits_onto f base (n / base) (digit (n % base) ∷ acc) in
    if ltb n base then digit n ∷ acc else more

-- strconv.FormatInt of a number that is not negative
unfoldable pub format_int : ℕ → ℕ → Text
format_int n base = digits_onto (suc n) base n []

-- strconv.Itoa of a number that is not negative
unfoldable pub itoa : ℕ → Text
itoa n = format_int n 10

-- The value of decimal digits after a first part.
unfoldable pub digits_value : ℕ → Text → Option ℕ
digits_value n [] = some n
digits_value n (c ∷ s) =
    let rest = digits_value (n * 10 + (c - 48)) s in if leb 48 c && leb c 57 then rest else none

abbrev pub max_int : ℕ
max_int = 2 ^ 63

abbrev positive : Option ℕ → Option ℤ
positive none = none
positive (some n) = if ltb n max_int then some (pos n) else none

abbrev negative : Option ℕ → Option ℤ
negative none = none
negative (some zero) = some (pos 0)
negative (some (suc n)) = if ltb n max_int then some (negsuc n) else none

unfoldable pub atoi_digits : Text → Option ℕ
atoi_digits [] = none
atoi_digits (c ∷ s) = digits_value 0 (c ∷ s)

-- strconv.Atoi; `none` is its error
unfoldable pub atoi : Text → Option ℤ
atoi [] = none
atoi (c ∷ s) =
    if nat_eq c b'-'
    then negative (atoi_digits s)
    else if nat_eq c b'+'
    then positive (atoi_digits s)
    else positive (atoi_digits (c ∷ s))

digits_value-digit :
    (m d : ℕ) (acc : Text) → d < 10 → digits_value m (digit d ∷ acc) ≡ digits_value (m * 10 + d) acc
unfolding digits_value digit
digits_value-digit m d acc h = ground arith

digits_value-onto :
    (f n : ℕ) (acc : Text) → n < f → digits_value 0 (digits_onto f 10 n acc) ≡ digits_value n acc
unfolding digits_onto
digits_value-onto zero n acc h = absurd (omega arith)
digits_value-onto (suc f) n acc h = elim (Bool-cases (ltb n 10)) [
  | inl small ↦
      rw small (
        digits_value-digit 0 n acc (ltb→lt n 10 small) ∙ ap (λ k. digits_value k acc) (omega arith))
  | inr large ↦ rw large (
      digits_value-onto f (n / 10) (digit (n % 10) ∷ acc) (ground arith)
      ∙ digits_value-digit (n / 10) (n % 10) acc (omega arith)
      ∙ ap (λ k. digits_value k acc) (omega arith))
]

-- A text of digits alone begins with one.
pub data DigitsFirst : Text → Type 0 where
  digits_first : (d : ℕ) (s : Text) → d < 10 → DigitsFirst (digit d ∷ s)

digits_onto-first :
    (f n d : ℕ) (acc : Text) → d < 10 → DigitsFirst (digits_onto f 10 n (digit d ∷ acc))
unfolding digits_onto
digits_onto-first zero n d acc h = digits_first d acc h
digits_onto-first (suc f) n d acc h = elim (Bool-cases (ltb n 10)) [
  | inl small ↦ rw small (digits_first n (digit d ∷ acc) (ltb→lt n 10 small))
  | inr large ↦ rw large (digits_onto-first f (n / 10) (n % 10) (digit d ∷ acc) (omega arith))
]

itoa-first : (n : ℕ) → DigitsFirst (itoa n)
unfolding itoa format_int digits_onto
itoa-first n = elim (Bool-cases (ltb n 10)) [
  | inl small ↦ rw small (digits_first n [] (ltb→lt n 10 small))
  | inr large ↦ rw large (digits_onto-first n (n / 10) (n % 10) [] (omega arith))
]

pub DigitsFirst-ne-nil : (s : Text) → DigitsFirst s → s ≢ []
DigitsFirst-ne-nil _ (digits_first d s h) e = cc

atoi_of_digits : (s : Text) → DigitsFirst s → atoi s ≡ positive (digits_value 0 s)
unfolding atoi atoi_digits digit
atoi_of_digits _ (digits_first d s h) = ground arith

-- A printed number is not empty, and is read back if it fits an int.
pub itoa-ne-nil : (n : ℕ) → itoa n ≢ []
itoa-ne-nil n = DigitsFirst-ne-nil (itoa n) (itoa-first n)

pub atoi-itoa : (n : ℕ) → n < max_int → atoi (itoa n) ≡ some (pos n)
atoi-itoa n h = atoi_of_digits (itoa n) (itoa-first n) ∙ ap positive (value n) ∙ fits n h
  where
    value : (k : ℕ) → digits_value 0 (itoa k) ≡ some k
    value k =
        unfold itoa format_int in
        digits_value-onto (suc k) k [] (omega arith) ∙ (unfold digits_value in refl)

    fits : (k : ℕ) → k < max_int → positive (some k) ≡ some (pos k)
    fits k lt = ground arith
