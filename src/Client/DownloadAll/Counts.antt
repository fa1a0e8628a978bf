-- ===== src/Client/DownloadAll/Counts.antt =====
-- The numbers of entries in the groups.
use http_syncer.Base.{
  ℕ, suc, ◌+◌, ◌≡◌, refl, sym, ap, ◌∙◌, List, [], ◌∷◌, ◌++◌, Text, Dict, lookup, insert, length,
  length-append, arith,
}
use http_syncer.Snapshot.{ManifestEntry, sort_by}
use http_syncer.Snapshot.Sort.{insert_by}
use http_syncer.Client.DownloadAll.{group_of, add_groups, sorted_groups}

abbrev pub Groups : Type 0
Groups = Dict (List ManifestEntry)

-- The number of entries in all groups.
abbrev pub total : Groups → ℕ
total [] = 0
total (slot ∷ groups) = length slot.1 + total groups

module _ {A : Type 0} (weight : A → ℕ) where
  abbrev weights : List A → ℕ
  weights [] = 0
  weights (a ∷ l) = weight a + weights l

  weights-insert_by :
      (key : A → Text) (a : A) (l : List A) → weights (insert_by key a l) ≡ weight a + weights l
  unfolding insert_by
  weights-insert_by key a [] = refl
  weights-insert_by key a (b ∷ l) = ground (arith, weights-insert_by key a l)

  weights-sort_by : (key : A → Text) (l : List A) → weights (sort_by key l) ≡ weights l
  unfolding sort_by
  weights-sort_by key [] = refl
  weights-sort_by key (a ∷ l) =
      weights-insert_by key a (sort_by key l) ∙ ap (λ n. weight a + n) (weights-sort_by key l)

length-insert_by :
    {A : Type 0} (key : A → Text) (a : A) (l : List A) → length (insert_by key a l) ≡ suc (length l)
unfolding insert_by
length-insert_by key a [] = refl
length-insert_by key a (b ∷ l) = ground (arith, length-insert_by key a l)

pub length-sort_by : {A : Type 0} (key : A → Text) (l : List A) → length (sort_by key l) ≡ length l
unfolding sort_by
length-sort_by key [] = refl
length-sort_by key (a ∷ l) = length-insert_by key a (sort_by key l) ∙ ap suc (length-sort_by key l)

total-weights : (groups : Groups) → weights (λ slot. length slot.1) groups ≡ total groups
total-weights [] = refl
total-weights (slot ∷ groups) = ap (λ n. length slot.1 + n) (total-weights groups)

-- One entry more in its group
abbrev pub add_entry : ManifestEntry → Groups → Groups
add_entry e groups = insert e.checksum (group_of (lookup e.checksum groups) ++ e ∷ []) groups

total-add_entry :
    (e : ManifestEntry) (groups : Groups) → total (add_entry e groups) ≡ suc (total groups)
unfolding lookup insert
total-add_entry e [] = refl
total-add_entry e (slot ∷ groups) =
    ground (arith, total-add_entry e groups, length-append slot.1 (e ∷ []))

total-add_groups :
    (entries : List ManifestEntry) (groups : Groups)
    → total (add_groups entries groups) ≡ length entries + total groups
unfolding add_groups
total-add_groups [] groups = omega arith
total-add_groups (e ∷ entries) groups =
    grind (arith, total-add_groups entries (add_entry e groups), total-add_entry e groups)

pub total-sorted_groups :
    (entries : List ManifestEntry) → total (sorted_groups entries) ≡ length entries
unfolding sorted_groups
total-sorted_groups entries =
    let groups = add_groups entries [] in
    sym (total-weights (sort_by (λ slot. slot.0) groups))
    ∙ weights-sort_by (λ slot. length slot.1) (λ slot. slot.0) groups
    ∙ total-weights groups
    ∙ total-add_groups entries []
    ∙ omega arith
