-- ===== src/Client/DownloadAll/Succeeds.antt =====
-- What a group's download has done when it sets no error.
use http_syncer.Base.{
  ℕ, ◌+◌, ◌≡◌, ◌≢◌, refl, sym, ap, ◌∙◌, subst, inl, inr, Bool, true, false, List, Option, none,
  some, Text, Dict, lookup, length,
}
use http_syncer.Snapshot.{ManifestEntry}
use http_syncer.Client.Download.{Object, Store, stored_size, download_object}
use http_syncer.Client.Download.Verified.{download_object-Verified}
use http_syncer.Client.Promote.{TargetFile, Target, promote}
use http_syncer.Client.DownloadAll.{GroupEnv, Tally, after_download, after_promotion}
use http_syncer.Client.DownloadAll.Contents.{content_at, content_of}

module _ (sum : Text → Text) (root : Text) where
  stored_present :
      (checksum : Text) (st : Store) (size : ℕ)
      → stored_size (lookup checksum st.objects) size ≡ true
      → content_of checksum st ≢ none
  stored_present checksum st size h = found (lookup checksum st.objects) h
    where
      found : (o : Option Object) → stored_size o size ≡ true → content_at o ≢ none
      found none h = absurd (cc)
      found (some o) h = λ e. cc

  pub downloaded_present :
      (env : GroupEnv) (entry : ManifestEntry) (st st' : Store) (written : ℕ)
      → download_object sum env.disk entry env.server st ≡ (st', some written)
      → content_of entry.checksum st' ≢ none
  downloaded_present env entry st st' written h =
      elim (download_object-Verified sum env.disk entry env.server st st' written h) [
        | inl (same, there) ↦
            subst (λ s. content_of entry.checksum s ≢ none) (sym same)
              (stored_present entry.checksum st entry.size there)
        | inr (o, found, right) ↦ λ missing. cc (missing, ap content_at found)
      ]

  promotion_inv :
      (files written : ℕ) (n n' : Tally) (r : Target × Bool) (t' : Target)
      → after_promotion sum root files written n r ≡ (t', n')
      → n'.failed ≡ false
      → (r ≡ (t', true)) × (n'.downloaded ≡ n.downloaded + files) × (n.failed ≡ false)
  promotion_inv files written n n' (t, false) t' h good =
      absurd (cc (ap (λ (p : Target × Tally). p.1.failed) h, good))
  promotion_inv files written n n' (t, true) t' h good = (
    ap (λ (p : Target × Tally). (p.0, true)) h,
    sym (ap (λ (p : Target × Tally). p.1.downloaded) h),
    ap (λ (p : Target × Tally). p.1.failed) h ∙ good,
  )

  pub download_inv :
      (env : GroupEnv) (checksum : Text) (group : List ManifestEntry) (files : Dict TargetFile)
      (n n' : Tally) (r : Store × Option ℕ) (t' : Target)
      → after_download sum root env checksum group files n r ≡ (t', n')
      → n'.failed ≡ false
      → (st : Store) × (written : ℕ) × (r ≡ (st, some written))
        × (promote root env.promotion checksum group (record { store = st; files = files })
            ≡ (t', true))
        × (n'.downloaded ≡ n.downloaded + length group)
        × (n.failed ≡ false)
  download_inv env checksum group files n n' (st, none) t' h good =
      absurd (cc (ap (λ (p : Target × Tally). p.1.failed) h, good))
  download_inv env checksum group files n n' (st, some written) t' h good =
      let (promoted, counted, before) =
        promotion_inv (length group) written n n'
          (promote root env.promotion checksum group (record { store = st; files = files })) t' h
          good in
      (st, written, refl, promoted, counted, before)
