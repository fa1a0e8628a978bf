-- ===== src/Lock/Scan.antt =====
-- The loop over the records in memory: what it leaves, and when it finds an owner.
use http_syncer.Base.{
  ◌≡◌, sym, ap, ◌∙◌, true, false, Bool-cases, inl, inr, [], ◌∷◌, none, some, Text, Dict, All, In,
}
use http_syncer.Base.Int.{ℤ}
use http_syncer.Lock.{LockRecord, overlaps, scan_mem, before}

abbrev pub Slot : Type 0
Slot = Text × LockRecord

module _ (key : Text → LockRecord → Text) (path : Text) (now : ℤ) where
  -- Whatever holds of all records holds of those that are left.
  pub scan_mem-All :
      (P : Slot → Type 0) (m : Dict LockRecord) → All P m → All P (scan_mem key path now m).0
  unfolding scan_mem
  scan_mem-All P [] h = tt
  scan_mem-All P ((p, rec) ∷ m) h = elim (Bool-cases (before rec.expires_at now)) [
    | inl stale ↦ rw stale (scan_mem-All P m h.1)
    | inr live ↦ elim (Bool-cases (overlaps path (key p rec))) [
      | inl clash ↦ rw (live, clash) h
      | inr apart ↦ rw (live, apart) (h.0, scan_mem-All P m h.1)
    ]
  ]

  -- Where no owner is found, every record that is left is apart from the path.
  pub scan_mem-apart :
      (m : Dict LockRecord)
      → (scan_mem key path now m).1 ≡ none
      → All (λ (e : Slot). overlaps path (key e.0 e.1) ≡ false) (scan_mem key path now m).0
  unfolding scan_mem
  scan_mem-apart [] h = tt
  scan_mem-apart ((p, rec) ∷ m) h = elim (Bool-cases (before rec.expires_at now)) [
    | inl stale ↦ rw stale (scan_mem-apart m (rw stale at h))
    | inr live ↦ elim (Bool-cases (overlaps path (key p rec))) [
      | inl clash ↦ cc (rw (live, clash) at h)
      | inr apart ↦ rw (live, apart) (apart, scan_mem-apart m (rw (live, apart) at h))
    ]
  ]

  -- A live record in the way is found, or another one before it.
  pub scan_mem-held :
      (m : Dict LockRecord) (p : Text) (rec : LockRecord)
      → In (p, rec) m
      → before rec.expires_at now ≡ false
      → overlaps path (key p rec) ≡ true
      → (owner : Text) × ((scan_mem key path now m).1 ≡ some owner)
  unfolding scan_mem
  scan_mem-held [] p rec h live clash = absurd h
  scan_mem-held ((q, r) ∷ m) p rec (inl e) live clash = (
    r.owner,
    rw (
      ap (λ (s : Slot). before s.1.expires_at now) (sym e) ∙ live,
      ap (λ (s : Slot). overlaps path (key s.0 s.1)) (sym e) ∙ clash,
    ),
  )
  scan_mem-held ((q, r) ∷ m) p rec (inr h) live clash =
      let (owner, found) = scan_mem-held m p rec h live clash in
      elim (Bool-cases (before r.expires_at now)) [
        | inl stale ↦ (owner, rw stale found)
        | inr live' ↦ elim (Bool-cases (overlaps path (key q r))) [
          | inl clash' ↦ (r.owner, rw (live', clash'))
          | inr apart ↦ (owner, rw (live', apart) found)
        ]
      ]
