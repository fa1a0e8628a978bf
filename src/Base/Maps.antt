-- ===== src/Base/Maps.antt =====
-- Go's maps with string keys, as association lists. A range over a map visits the list's order:
-- the theorems hold for every list, so for every order.
use mathlib.Core.Path.{◌≡◌, refl, sym, ap, ◌∙◌}
use mathlib.Core.Logic.{inl, inr}
use mathlib.Core.Option.{Option, none, some}
use mathlib.Core.List.{List, [], ◌∷◌}
use native.Mathlib.Omega.{arith}
use http_syncer.Base.Tests.{if◌then◌else◌, Bool-cases}
use http_syncer.Base.Strings.{Text, ◌==◌, ==_iff, ==_refl, ==→≡}

abbrev pub Dict {ℓ} : Type ℓ → Type ℓ
Dict V = List (Text × V)

module _ {ℓ} {V : Type ℓ} where
  -- v, ok := m[key]
  unfoldable pub lookup : Text → Dict V → Option V
  lookup key [] = none
  lookup key (slot ∷ dict) =
      let below = lookup key dict in if slot.0 == key then some slot.1 else below

  -- m[key] = val
  unfoldable pub insert : Text → V → Dict V → Dict V
  insert key val [] = (key, val) ∷ []
  insert key val (slot ∷ dict) =
      let below = insert key val dict in if slot.0 == key then (key, val) ∷ dict else slot ∷ below

  -- delete(m, key)
  unfoldable pub erase : Text → Dict V → Dict V
  erase key [] = []
  erase key (slot ∷ dict) =
      let below = erase key dict in if slot.0 == key then below else slot ∷ below

  pub lookup-insert :
      (key at : Text) (val : V) (dict : Dict V)
      → lookup at (insert key val dict) ≡ (if key == at then some val else lookup at dict)
  unfolding lookup insert
  lookup-insert key at val [] = refl
  lookup-insert key at val (slot ∷ dict) =
      ground
        (arith, lookup-insert key at val dict, ==_iff slot.0 at, ==_iff slot.0 key, ==_iff key at)

  pub lookup-insert_self :
      (key : Text) (val : V) (dict : Dict V) → lookup key (insert key val dict) ≡ some val
  lookup-insert_self key val dict = rw (lookup-insert, ==_refl)

  pub lookup-erase :
      (key at : Text) (dict : Dict V)
      → lookup at (erase key dict) ≡ (if key == at then none else lookup at dict)
  unfolding lookup erase
  lookup-erase key at [] = ground arith
  lookup-erase key at (slot ∷ dict) =
      ground (arith, lookup-erase key at dict, ==_iff slot.0 key, ==_iff slot.0 at, ==_iff key at)

module _ {V : Type 0} where
  -- No key comes twice.
  abbrev pub Distinct : Dict V → Type 0
  Distinct [] = Unit
  Distinct (slot ∷ dict) = (lookup slot.0 dict ≡ none) × Distinct dict

  pub insert-Distinct :
      (key : Text) (val : V) (dict : Dict V) → Distinct dict → Distinct (insert key val dict)
  unfolding lookup insert
  insert-Distinct key val [] h = (refl, tt)
  insert-Distinct key val (slot ∷ dict) h = elim (Bool-cases (slot.0 == key)) [
    | inl same ↦ rw same (ap (λ k. lookup k dict) (sym (==→≡ slot.0 key same)) ∙ h.0, h.1)
    | inr other ↦ rw other (
      lookup-insert key slot.0 val dict ∙ ground (arith, h.0, ==_iff slot.0 key, ==_iff key slot.0),
      insert-Distinct key val dict h.1,
    )
  ]

  pub erase-Distinct : (key : Text) (dict : Dict V) → Distinct dict → Distinct (erase key dict)
  unfolding erase
  erase-Distinct key [] h = tt
  erase-Distinct key (slot ∷ dict) h = elim (Bool-cases (slot.0 == key)) [
    | inl same ↦ rw same (erase-Distinct key dict h.1)
    | inr other ↦
        rw other (lookup-erase key slot.0 dict ∙ ground (arith, h.0), erase-Distinct key dict h.1)
  ]

pub ruleset dict_laws = (lookup-insert, lookup-erase)
