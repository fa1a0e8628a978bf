-- ===== src/Client/Plan/Applied.antt =====
-- What the plan makes of a local map.
use http_syncer.Base.{
  ◌≡◌, ◌≢◌, ◌⊎◌, refl, ap, ◌∙◌, Bool-cases, true, false, inl, inr, List, [], ◌∷◌, Option, none,
  some, Text, ◌==◌, ==→≡, ==_refl, In, Dict, lookup, insert, erase, lookup-insert, lookup-erase,
  arith,
}
use http_syncer.Base.Int.{ℤ, pos, negsuc}
use http_syncer.Snapshot.{ManifestEntry}
use http_syncer.Client.{add_all}
use http_syncer.Client.Plan.{eq_ℤ, outdated}

-- delete(m, p) for each of some paths
abbrev pub erase_all : List Text → Dict ManifestEntry → Dict ManifestEntry
erase_all [] m = m
erase_all (p ∷ paths) m = erase_all paths (erase p m)

eq_ℤ→≡ : (a b : ℤ) → eq_ℤ a b ≡ true → a ≡ b
eq_ℤ→≡ (pos m) (pos n) h = ap pos (ground arith)
eq_ℤ→≡ (negsuc m) (negsuc n) h = ap negsuc (ground arith)
eq_ℤ→≡ (pos m) (negsuc n) h = absurd (cc)
eq_ℤ→≡ (negsuc m) (pos n) h = absurd (cc)

-- Both missing, or the same size, time and mode.
abbrev pub Agrees : Option ManifestEntry → Option ManifestEntry → Type 0
Agrees none none = Unit
Agrees (some a) (some b) = (a.size ≡ b.size) × (a.mtime ≡ b.mtime) × (a.mode ≡ b.mode)
Agrees _ _ = ⊥

pub current-Agrees :
    (le : Option ManifestEntry) (re : ManifestEntry) → outdated le re ≡ false → Agrees le (some re)
unfolding outdated
current-Agrees none re h = absurd (cc)
current-Agrees (some le) re h =
    (ground arith, eq_ℤ→≡ le.mtime re.mtime (ground arith), ground arith)

-- Where the files come from: the last download of the path, or what was there.
pub add_all-cases :
    (p : Text) (es : List ManifestEntry) (m : Dict ManifestEntry)
    → ((e : ManifestEntry) × In e es × (e.path ≡ p) × (lookup p (add_all es m) ≡ some e))
      ⊎ (((e : ManifestEntry) → In e es → e.path ≢ p) × (lookup p (add_all es m) ≡ lookup p m))
unfolding add_all
add_all-cases p [] m = inr (λ e member. absurd member, refl)
add_all-cases p (x ∷ es) m = elim (add_all-cases p es (insert x.path x m)) [
  | inl (e, member, at, found) ↦ inl (e, inr member, at, found)
  | inr (others, found) ↦ elim (Bool-cases (x.path == p)) [
    | inl same ↦ inl (x, inl refl, ==→≡ x.path p same, found ∙ rw (lookup-insert, same) refl)
    | inr other ↦ inr (
      λ e member. elim member [
        | inl is_x ↦ λ at. absurd (cc (other, ==_refl p, ap (λ y. y.path) is_x, at))
        | inr later ↦ others e later
      ],
      found ∙ rw (lookup-insert, other) refl,
    )
  ]
]

pub erase_all-kept :
    (p : Text) (paths : List Text) (m : Dict ManifestEntry)
    → ((q : Text) → In q paths → q ≢ p)
    → lookup p (erase_all paths m) ≡ lookup p m
erase_all-kept p [] m h = refl
erase_all-kept p (q ∷ paths) m h =
    erase_all-kept p paths (erase q m) (λ r member. h r (inr member))
    ∙ lookup-erase q p m
    ∙ elim (Bool-cases (q == p)) [
      | inl same ↦ absurd (h q (inl refl) (==→≡ q p same))
      | inr other ↦ rw other refl
    ]

pub erase_all-none :
    (p : Text) (paths : List Text) (m : Dict ManifestEntry)
    → lookup p m ≡ none
    → lookup p (erase_all paths m) ≡ none
erase_all-none p [] m h = h
erase_all-none p (q ∷ paths) m h =
    erase_all-none p paths (erase q m) (lookup-erase q p m ∙ ground (arith, h))

pub erase_all-gone :
    (p : Text) (paths : List Text) (m : Dict ManifestEntry)
    → In p paths
    → lookup p (erase_all paths m) ≡ none
erase_all-gone p [] m member = absurd member
erase_all-gone p (q ∷ paths) m (inl e) =
    erase_all-none p paths (erase q m) (lookup-erase q p m ∙ rw (e, ==_refl) refl)
erase_all-gone p (q ∷ paths) m (inr member) = erase_all-gone p paths (erase q m) member
