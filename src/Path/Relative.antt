-- ===== src/Path/Relative.antt =====
-- A relative path that does not begin with two dots leads down.
use http_syncer.Base.{
  ◌≡◌, refl, ap, false, true, Bool-cases, inl, inr, List, [], ◌∷◌, ◌++◌, some, Text, ◌==◌, ==→≡,
  has_prefix, arith,
}
use http_syncer.Path.{dotdot, render, ups, rel_parts}

-- A path whose first component is `..` begins with two dots.
has_prefix-ups : (parts : List Text) → has_prefix (render false (dotdot ∷ parts)) dotdot ≡ true
unfolding render has_prefix
has_prefix-ups [] = refl
has_prefix-ups (p ∷ ps) = refl

-- So what does not begin with two dots is no way up.
not-up :
    (parts rest : List Text)
    → dotdot ∷ parts ≡ rest
    → has_prefix (render false rest) dotdot ≡ false
    → ⊥
not-up parts rest e h = cc (h, has_prefix-ups parts, ap (λ r. has_prefix (render false r) dotdot) e)

pub rel_parts-below :
    (base target rest : List Text)
    → rel_parts base target ≡ some rest
    → has_prefix (render false rest) dotdot ≡ false
    → target ≡ base ++ rest
unfolding rel_parts
rel_parts-below [] target rest e h = ground arith
rel_parts-below (b ∷ bs) [] rest e h = elim (Bool-cases (b == dotdot)) [
  | inl t ↦ cc (rw t at e)
  | inr t ↦ absurd (not-up (ups bs) rest (cc (rw t at e)) h)
]
rel_parts-below (b ∷ bs) (t ∷ ts) rest e h = elim (Bool-cases (b == t)) [
  | inl same ↦ cc (==→≡ b t same, rel_parts-below bs ts rest (rw same at e) h)
  | inr other ↦ elim (Bool-cases (b == dotdot)) [
    | inl stuck ↦ cc (rw (other, stuck) at e)
    | inr c ↦ absurd (not-up (ups bs ++ (t ∷ ts)) rest (cc (rw (other, c) at e)) h)
  ]
]
