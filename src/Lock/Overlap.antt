-- ===== src/Lock/Overlap.antt =====
-- `overlaps` decides whether one of two paths is the other or stands above it.
use mathlib.Core.List.{append-nil, append_assoc}
use http_syncer.Base.{
  ◌≡◌, sym, ap, ◌∙◌, ◌↔◌, ◌⊎◌, inl, inr, true, ◌++◌, List, [], ◌∷◌, Text, ◌==◌, ==_iff, ==→≡,
  ==_refl, has_prefix, has_prefix_iff, has_prefix-append, split, split-ne-nil, split-sep, join,
  join-split, join-append_ne, arith,
}
use http_syncer.Path.{dot, slash}
use http_syncer.Lock.Paths.{clean_path, overlaps, overlaps_clean}

==_comm : (s t : Text) → (s == t) ≡ (t == s)
==_comm s t = ground (arith, ==_iff s t, ==_iff t s)

pub overlaps_comm : (a b : Text) → overlaps a b ≡ overlaps b a
unfolding overlaps
overlaps_comm a b = ground (arith, ==_comm (clean_path a) (clean_path b))

pub overlaps_refl : (a : Text) → overlaps a a ≡ true
unfolding overlaps
overlaps_refl a = ground (arith, ==_refl (clean_path a))

-- Every component of `b` begins `a`: `a` is `b` or stands below it.
abbrev pub Within : Text → Text → Type 0
Within a b = (rest : List Text) × (split slash a ≡ split slash b ++ rest)

-- What `overlaps` means, on cleaned paths.
abbrev pub Clash : Text → Text → Type 0
Clash a b = (a ≡ dot) ⊎ (b ≡ dot) ⊎ Within a b ⊎ Within b a

below-Within : (a b : Text) → has_prefix a (b ++ slash ∷ []) ≡ true → Within a b
below-Within a b h =
    let (r, e) = has_prefix_iff a (b ++ slash ∷ []) h in
    (split slash r, ap (split slash) (e ∙ append_assoc b (slash ∷ []) r) ∙ split-sep slash b r)

same-Within : (a b : Text) → a ≡ b → Within a b
same-Within a b e = ([], ap (split slash) e ∙ sym (append-nil (split slash b)))

joined :
    (a b : Text) (rest : List Text)
    → split slash a ≡ split slash b ++ rest
    → a ≡ join slash (split slash b ++ rest)
joined a b rest e = sym (join-split slash a) ∙ ap (join slash) e

Within-below :
    (a b : Text) (rest : List Text)
    → split slash a ≡ split slash b ++ rest
    → (a ≡ b) ⊎ (has_prefix a (b ++ slash ∷ []) ≡ true)
Within-below a b [] e =
    inl (joined a b [] e ∙ ap (join slash) (append-nil (split slash b)) ∙ join-split slash b)
Within-below a b (q ∷ qs) e =
    inr (rw longer (has_prefix-append (b ++ slash ∷ []) (join slash (q ∷ qs))))
  where
    longer : a ≡ (b ++ slash ∷ []) ++ join slash (q ∷ qs)
    longer =
        joined a b (q ∷ qs) e
        ∙ join-append_ne slash (split slash b) q qs (split-ne-nil slash b)
        ∙ ap (λ s. s ++ (slash ∷ join slash (q ∷ qs))) (join-split slash b)
        ∙ sym (append_assoc b (slash ∷ []) (join slash (q ∷ qs)))

-- The test that passed.
passed_test :
    (a b : Text)
    → overlaps_clean a b ≡ true
    → ((a == dot) ≡ true)
      ⊎ ((b == dot) ≡ true)
      ⊎ ((a == b) ≡ true)
      ⊎ (has_prefix a (b ++ slash ∷ []) ≡ true)
      ⊎ (has_prefix b (a ++ slash ∷ []) ≡ true)
unfolding overlaps_clean
passed_test a b h = ground arith

overlaps_clean→Clash : (a b : Text) → overlaps_clean a b ≡ true → Clash a b
overlaps_clean→Clash a b h = elim (passed_test a b h) [
  | inl t ↦ inl (==→≡ a dot t)
  | inr (inl t) ↦ inr (inl (==→≡ b dot t))
  | inr (inr (inl t)) ↦ inr (inr (inl (same-Within a b (==→≡ a b t))))
  | inr (inr (inr (inl t))) ↦ inr (inr (inl (below-Within a b t)))
  | inr (inr (inr (inr t))) ↦ inr (inr (inr (below-Within b a t)))
]

Clash→overlaps_clean : (a b : Text) → Clash a b → overlaps_clean a b ≡ true
unfolding overlaps_clean
Clash→overlaps_clean a b (inl e) = ground (arith, ==_iff a dot)
Clash→overlaps_clean a b (inr (inl e)) = ground (arith, ==_iff b dot)
Clash→overlaps_clean a b (inr (inr (inl (rest, e)))) =
    ground (arith, ==_iff a b, Within-below a b rest e)
Clash→overlaps_clean a b (inr (inr (inr (rest, e)))) =
    ground (arith, ==_iff a b, Within-below b a rest e)

-- Two paths stand in one another's way exactly if one of them, cleaned, is "." or if, cleaned, one is
-- the other or begins with the other and a slash. So "/" is in the way of no other path that begins with
-- one slash.
pub overlaps_iff : (a b : Text) → (overlaps a b ≡ true) ↔ Clash (clean_path a) (clean_path b)
unfolding overlaps
overlaps_iff a b = (
  overlaps_clean→Clash (clean_path a) (clean_path b),
  Clash→overlaps_clean (clean_path a) (clean_path b),
)
