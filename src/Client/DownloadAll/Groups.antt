-- ===== src/Client/DownloadAll/Groups.antt =====
-- The groups of a list of entries.
use http_syncer.Base.{
  ◌≡◌, refl, sym, ap, ◌∙◌, subst, ◌⊎◌, inl, inr, true, false, Bool-cases, List, [], ◌∷◌, ◌++◌, some,
  Text, ◌==◌, ==→≡, lookup, insert, In, In-append, In-append_left, In-append_right,
}
use http_syncer.Snapshot.{ManifestEntry}
use http_syncer.Snapshot.Sort.{In-sort_by, sort_by-In}
use http_syncer.Client.DownloadAll.Counts.{Groups, add_entry}
use http_syncer.Client.DownloadAll.{group_of, add_groups, sorted_groups}

-- An entry stands in one of the groups.
abbrev pub Held : ManifestEntry → Groups → Type 0
Held e groups = (slot : Text × List ManifestEntry) × In slot groups × In e slot.1

-- The entries of a group have its checksum.
abbrev pub Grouped : Groups → Type 0
Grouped groups =
    (slot : Text × List ManifestEntry)
    → In slot groups
    → (e : ManifestEntry) → In e slot.1
    → e.checksum ≡ slot.0

module _ (e : ManifestEntry) (slot : Text × List ManifestEntry) (groups : Groups) where
  add_entry_here :
      (slot.0 == e.checksum) ≡ true
      → add_entry e (slot ∷ groups) ≡ (e.checksum, slot.1 ++ e ∷ []) ∷ groups
  unfolding lookup insert
  add_entry_here same =
      let found : lookup e.checksum (slot ∷ groups) ≡ some slot.1 = rw same refl in
      let put : (group : List ManifestEntry)
          → insert e.checksum group (slot ∷ groups) ≡ (e.checksum, group) ∷ groups =
        λ group. rw same refl in
      ap (λ o. insert e.checksum (group_of o ++ e ∷ []) (slot ∷ groups)) found
      ∙ put (slot.1 ++ e ∷ [])

  add_entry_later :
      (slot.0 == e.checksum) ≡ false → add_entry e (slot ∷ groups) ≡ slot ∷ add_entry e groups
  unfolding lookup insert
  add_entry_later other =
      let found : lookup e.checksum (slot ∷ groups) ≡ lookup e.checksum groups = rw other refl in
      let put : (group : List ManifestEntry)
          → insert e.checksum group (slot ∷ groups) ≡ slot ∷ insert e.checksum group groups =
        λ group. rw other refl in
      ap (λ o. insert e.checksum (group_of o ++ e ∷ []) (slot ∷ groups)) found
      ∙ put (group_of (lookup e.checksum groups) ++ e ∷ [])

pub Held-later :
    (x : ManifestEntry) (slot : Text × List ManifestEntry) (groups : Groups)
    → Held x groups
    → Held x (slot ∷ groups)
Held-later x slot groups (at, member, inside) = (at, inr member, inside)

pub Held-first :
    (x : ManifestEntry) (slot : Text × List ManifestEntry) (groups : Groups)
    → Held x (slot ∷ groups)
    → In x slot.1 ⊎ Held x groups
Held-first x slot groups (at, inl here, inside) =
    inl (subst (λ (s : Text × List ManifestEntry). In x s.1) here inside)
Held-first x slot groups (at, inr member, inside) = inr (at, member, inside)

Held-add_entry : (e : ManifestEntry) (groups : Groups) → Held e (add_entry e groups)
unfolding lookup insert
Held-add_entry e [] = ((e.checksum, e ∷ []), inl refl, inl refl)
Held-add_entry e (slot ∷ groups) = elim (Bool-cases (slot.0 == e.checksum)) [
  | inl same ↦
      subst (Held e) (sym (add_entry_here e slot groups same))
        ((e.checksum, slot.1 ++ e ∷ []), inl refl, In-append_right e slot.1 (e ∷ []) (inl refl))
  | inr other ↦
      subst (Held e) (sym (add_entry_later e slot groups other))
        (Held-later e slot (add_entry e groups) (Held-add_entry e groups))
]

Held-kept : (e x : ManifestEntry) (groups : Groups) → Held x groups → Held x (add_entry e groups)
Held-kept e x [] (at, member, inside) = absurd member
Held-kept e x (slot ∷ groups) held = elim (Bool-cases (slot.0 == e.checksum)) [
  | inl same ↦
      subst (Held x) (sym (add_entry_here e slot groups same))
        (elim (Held-first x slot groups held) [
          | inl m ↦ ((e.checksum, slot.1 ++ e ∷ []), inl refl, In-append_left x slot.1 (e ∷ []) m)
          | inr h ↦ Held-later x (e.checksum, slot.1 ++ e ∷ []) groups h
        ])
  | inr other ↦
      subst (Held x) (sym (add_entry_later e slot groups other))
        (elim (Held-first x slot groups held) [
          | inl m ↦ (slot, inl refl, m)
          | inr h ↦ Held-later x slot (add_entry e groups) (Held-kept e x groups h)
        ])
]

Held-added :
    (e x : ManifestEntry) (groups : Groups) → Held x (add_entry e groups) → (x ≡ e) ⊎ Held x groups
unfolding lookup insert
Held-added e x [] held = elim (Held-first x (e.checksum, e ∷ []) [] held) [
  | inl (inl same) ↦ inl same
  | inl (inr m) ↦ absurd m
  | inr (at, m, inside) ↦ absurd m
]
Held-added e x (slot ∷ groups) held = elim (Bool-cases (slot.0 == e.checksum)) [
  | inl same ↦
      elim (Held-first x (e.checksum, slot.1 ++ e ∷ []) groups
        (subst (Held x) (add_entry_here e slot groups same) held)) [
          | inl m ↦ elim (In-append x slot.1 (e ∷ []) m) [
            | inl before ↦ inr (slot, inl refl, before)
            | inr (inl new) ↦ inl new
            | inr (inr nothing) ↦ absurd nothing
          ]
          | inr h ↦ inr (Held-later x slot groups h)
        ]
  | inr other ↦
      elim (Held-first x slot (add_entry e groups)
        (subst (Held x) (add_entry_later e slot groups other) held)) [
          | inl m ↦ inr (slot, inl refl, m)
          | inr h ↦ elim (Held-added e x groups h) [
            | inl new ↦ inl new
            | inr before ↦ inr (Held-later x slot groups before)
          ]
        ]
]

all-Held :
    (entries : List ManifestEntry) (groups : Groups) (x : ManifestEntry)
    → In x entries ⊎ Held x groups
    → Held x (add_groups entries groups)
unfolding add_groups
all-Held [] groups x (inl m) = absurd m
all-Held [] groups x (inr h) = h
all-Held (e ∷ entries) groups x (inl (inl first)) =
    all-Held entries (add_entry e groups) x
      (inr (subst (λ y. Held y (add_entry e groups)) (sym first) (Held-add_entry e groups)))
all-Held (e ∷ entries) groups x (inl (inr m)) = all-Held entries (add_entry e groups) x (inl m)
all-Held (e ∷ entries) groups x (inr h) =
    all-Held entries (add_entry e groups) x (inr (Held-kept e x groups h))

Held-all :
    (entries : List ManifestEntry) (groups : Groups) (x : ManifestEntry)
    → Held x (add_groups entries groups)
    → In x entries ⊎ Held x groups
unfolding add_groups
Held-all [] groups x h = inr h
Held-all (e ∷ entries) groups x h = elim (Held-all entries (add_entry e groups) x h) [
  | inl m ↦ inl (inr m)
  | inr h' ↦ elim (Held-added e x groups h') [
    | inl first ↦ inl (inl first)
    | inr before ↦ inr before
  ]
]

-- The groups hold the entries, and nothing else.
pub Held-sorted_groups :
    (entries : List ManifestEntry) (x : ManifestEntry)
    → In x entries
    → Held x (sorted_groups entries)
unfolding sorted_groups
Held-sorted_groups entries x m =
    let (at, member, inside) = all-Held entries [] x (inl m) in
    (at, In-sort_by (λ slot. slot.0) at (add_groups entries []) member, inside)

pub sorted_groups-Held :
    (entries : List ManifestEntry) (x : ManifestEntry)
    → Held x (sorted_groups entries)
    → In x entries
unfolding sorted_groups
sorted_groups-Held entries x (at, member, inside) =
    elim (Held-all entries [] x
      (at, sort_by-In (λ slot. slot.0) at (add_groups entries []) member, inside)) [
        | inl m ↦ m
        | inr (at', none_there, inside') ↦ absurd none_there
      ]

abbrev AllOf : Text × List ManifestEntry → Type 0
AllOf slot = (x : ManifestEntry) → In x slot.1 → x.checksum ≡ slot.0

Grouped-add_entry :
    (e : ManifestEntry) (groups : Groups) → Grouped groups → Grouped (add_entry e groups)
unfolding lookup insert
Grouped-add_entry e [] h at (inl here) =
    subst AllOf (sym here)
      (λ x m. elim m [ inl same ↦ ap (λ y. y.checksum) same | inr nothing ↦ absurd nothing ])
Grouped-add_entry e [] h at (inr nothing) = absurd nothing
Grouped-add_entry e (slot ∷ groups) h at m = elim (Bool-cases (slot.0 == e.checksum)) [
  | inl same ↦ elim (subst (In at) (add_entry_here e slot groups same) m) [
    | inl here ↦ subst AllOf (sym here) (λ x inside. elim (In-append x slot.1 (e ∷ []) inside) [
      | inl before ↦ h slot (inl refl) x before ∙ ==→≡ slot.0 e.checksum same
      | inr (inl new) ↦ ap (λ y. y.checksum) new
      | inr (inr nothing) ↦ absurd nothing
    ])
    | inr later ↦ h at (inr later)
  ]
  | inr other ↦ elim (subst (In at) (add_entry_later e slot groups other) m) [
    | inl here ↦ subst AllOf (sym here) (h slot (inl refl))
    | inr later ↦ Grouped-add_entry e groups (λ s k. h s (inr k)) at later
  ]
]

Grouped-add_groups :
    (entries : List ManifestEntry) (groups : Groups)
    → Grouped groups
    → Grouped (add_groups entries groups)
unfolding add_groups
Grouped-add_groups [] groups h = h
Grouped-add_groups (e ∷ entries) groups h =
    Grouped-add_groups entries (add_entry e groups) (Grouped-add_entry e groups h)

pub sorted_groups-Grouped : (entries : List ManifestEntry) → Grouped (sorted_groups entries)
unfolding sorted_groups
sorted_groups-Grouped entries at m =
    Grouped-add_groups entries [] (λ s nothing. absurd nothing) at
      (sort_by-In (λ slot. slot.0) at (add_groups entries []) m)
