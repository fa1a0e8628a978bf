-- ===== src/Client/Plan/Keyed.antt =====
-- The map of a manifest has one entry for each path, and that entry has the path.
use http_syncer.Base.{
  ◌≡◌, refl, sym, ap, ◌∙◌, Bool-cases, inl, inr, List, [], ◌∷◌, none, some, Text, ◌==◌, ==→≡,
  ==_iff, Dict, lookup, insert, lookup-insert, arith,
}
use http_syncer.Snapshot.{ManifestEntry}
use http_syncer.Client.{add_all}

-- The keys are the paths, and no key comes twice.
abbrev pub Keyed : Dict ManifestEntry → Type 0
Keyed [] = Unit
Keyed (slot ∷ m) = (slot.1.path ≡ slot.0) × (lookup slot.0 m ≡ none) × Keyed m

insert-Keyed : (e : ManifestEntry) (m : Dict ManifestEntry) → Keyed m → Keyed (insert e.path e m)
unfolding insert lookup
insert-Keyed e [] h = (refl, refl, tt)
insert-Keyed e (slot ∷ m) h = elim (Bool-cases (slot.0 == e.path)) [
  | inl same ↦ rw same (refl, ap (λ k. lookup k m) (sym (==→≡ slot.0 e.path same)) ∙ h.1, h.2)
  | inr other ↦ rw other (
    h.0,
    lookup-insert e.path slot.0 e m
        ∙ ground (arith, h.1, ==_iff slot.0 e.path, ==_iff e.path slot.0),
    insert-Keyed e m h.2,
  )
]

pub add_all-Keyed :
    (entries : List ManifestEntry) (m : Dict ManifestEntry) → Keyed m → Keyed (add_all entries m)
unfolding add_all
add_all-Keyed [] m h = h
add_all-Keyed (e ∷ entries) m h = add_all-Keyed entries (insert e.path e m) (insert-Keyed e m h)

-- A hit is an entry of the path.
pub lookup-path :
    (p : Text) (e : ManifestEntry) (m : Dict ManifestEntry)
    → Keyed m
    → lookup p m ≡ some e
    → e.path ≡ p
unfolding lookup
lookup-path p e [] h found = absurd (cc)
lookup-path p e (slot ∷ m) h found = elim (Bool-cases (slot.0 == p)) [
  | inl same ↦
      let is_e : some slot.1 ≡ some e = rw same at found in cc (is_e, h.0, ==→≡ slot.0 p same)
  | inr other ↦ lookup-path p e m h.2 (rw other at found)
]
