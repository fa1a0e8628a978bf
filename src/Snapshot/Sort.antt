-- ===== src/Snapshot/Sort.antt =====
-- sort.Slice by a text: an insertion sort. Where no two items have one text, every sort agrees.
use http_syncer.Base.{
  ◌≡◌, refl, inl, inr, true, false, Bool-cases, List, [], ◌∷◌, Text, text_lt, In, All, arith,
  if◌then◌else◌,
}

text_lt_asym : (s t : Text) → text_lt s t ≡ true → text_lt t s ≡ false
unfolding text_lt
text_lt_asym s [] h = absurd (cc)
text_lt_asym [] (b ∷ t) h = refl
text_lt_asym (a ∷ s) (b ∷ t) h = ground (arith, text_lt_asym s t)

text_lt_trans : (s t u : Text) → text_lt s t ≡ true → text_lt t u ≡ true → text_lt s u ≡ true
unfolding text_lt
text_lt_trans s [] u h k = absurd (cc)
text_lt_trans s (b ∷ t) [] h k = absurd (cc)
text_lt_trans [] (b ∷ t) (c ∷ u) h k = refl
text_lt_trans (a ∷ s) (b ∷ t) (c ∷ u) h k = ground (arith, text_lt_trans s t u)

module _ {A : Type 0} (key : A → Text) where
  unfoldable pub insert_by : A → List A → List A
  insert_by a [] = a ∷ []
  insert_by a (b ∷ bs) =
      let below = insert_by a bs in if text_lt (key a) (key b) then a ∷ b ∷ bs else b ∷ below

  unfoldable pub sort_by : List A → List A
  sort_by [] = []
  sort_by (a ∷ rest) = insert_by a (sort_by rest)

  -- No later item comes before an earlier one.
  abbrev pub IsSorted : List A → Type 0
  IsSorted [] = Unit
  IsSorted (a ∷ rest) = All (λ b. text_lt (key b) (key a) ≡ false) rest × IsSorted rest

  insert_by-All : (P : A → Type 0) (a : A) (bs : List A) → P a → All P bs → All P (insert_by a bs)
  unfolding insert_by
  insert_by-All P a [] p h = (p, tt)
  insert_by-All P a (b ∷ bs) p h = elim (Bool-cases (text_lt (key a) (key b))) [
    | inl first ↦ rw first (p, h)
    | inr later ↦ rw later (h.0, insert_by-All P a bs p h.1)
  ]

  after-All :
      (a b : A) (bs : List A)
      → text_lt (key a) (key b) ≡ true
      → All (λ c. text_lt (key c) (key b) ≡ false) bs
      → All (λ c. text_lt (key c) (key a) ≡ false) bs
  after-All a b [] h k = tt
  after-All a b (c ∷ bs) h k = (not_before, after-All a b bs h k.1)
    where
      not_before : text_lt (key c) (key a) ≡ false
      not_before = elim (Bool-cases (text_lt (key c) (key a))) [
        | inl early ↦ cc (text_lt_trans (key c) (key a) (key b) early h, k.0)
        | inr fine ↦ fine
      ]

  insert_by-IsSorted : (a : A) (bs : List A) → IsSorted bs → IsSorted (insert_by a bs)
  unfolding insert_by
  insert_by-IsSorted a [] h = (tt, tt)
  insert_by-IsSorted a (b ∷ bs) h = elim (Bool-cases (text_lt (key a) (key b))) [
    | inl first ↦ rw first ((text_lt_asym (key a) (key b) first, after-All a b bs first h.0), h)
    | inr later ↦ rw later (
      insert_by-All (λ c. text_lt (key c) (key b) ≡ false) a bs later h.0,
      insert_by-IsSorted a bs h.1,
    )
  ]

  pub sort_by-IsSorted : (l : List A) → IsSorted (sort_by l)
  unfolding sort_by
  sort_by-IsSorted [] = tt
  sort_by-IsSorted (a ∷ rest) = insert_by-IsSorted a (sort_by rest) (sort_by-IsSorted rest)

  In-insert_by : (x a : A) (bs : List A) → In x (a ∷ bs) → In x (insert_by a bs)
  unfolding insert_by
  In-insert_by x a [] h = h
  In-insert_by x a (b ∷ bs) h = elim (Bool-cases (text_lt (key a) (key b))) [
    | inl first ↦ rw first h
    | inr later ↦ rw later (elim h [
      | inl e ↦ inr (In-insert_by x a bs (inl e))
      | inr (inl e) ↦ inl e
      | inr (inr m) ↦ inr (In-insert_by x a bs (inr m))
    ])
  ]

  insert_by-In : (x a : A) (bs : List A) → In x (insert_by a bs) → In x (a ∷ bs)
  unfolding insert_by
  insert_by-In x a [] h = h
  insert_by-In x a (b ∷ bs) h = elim (Bool-cases (text_lt (key a) (key b))) [
    | inl first ↦ rw first at h
    | inr later ↦ swap (rw later at h) (insert_by-In x a bs)
  ]
    where
      swap : In x (b ∷ insert_by a bs) → (In x (insert_by a bs) → In x (a ∷ bs)) → In x (a ∷ b ∷ bs)
      swap (inl e) more = inr (inl e)
      swap (inr m) more = elim (more m) [ inl e ↦ inl e | inr m' ↦ inr (inr m') ]

  pub In-sort_by : (x : A) (l : List A) → In x l → In x (sort_by l)
  unfolding sort_by
  In-sort_by x [] h = h
  In-sort_by x (a ∷ rest) (inl e) = In-insert_by x a (sort_by rest) (inl e)
  In-sort_by x (a ∷ rest) (inr m) = In-insert_by x a (sort_by rest) (inr (In-sort_by x rest m))

  pub sort_by-In : (x : A) (l : List A) → In x (sort_by l) → In x l
  unfolding sort_by
  sort_by-In x [] h = h
  sort_by-In x (a ∷ rest) h = back (insert_by-In x a (sort_by rest) h) (sort_by-In x rest)
    where
      back : In x (a ∷ sort_by rest) → (In x (sort_by rest) → In x rest) → In x (a ∷ rest)
      back (inl e) more = inl e
      back (inr m) more = inr (more m)
