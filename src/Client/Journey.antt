-- ===== src/Client/Journey.antt =====
-- A session that is created, and its manifest that is fetched.
use http_syncer.Base.{
  ℕ, zero, suc, ◌%◌, ◌/◌, ◌<◌, ◌≡◌, ◌≢◌, refl, sym, ap, ◌∙◌, subst, true, false, Bool-cases, inl,
  inr, List, [], ◌∷◌, ◌++◌, Option, some, Text, text, ◌==◌, has_char, length, nat_eq, ltb, arith,
}
use http_syncer.Base.Numbers.{digit, digits_onto, format_int, max_int}
use http_syncer.Path.{slash, clean}
use http_syncer.Lock.{TimeText}
use http_syncer.Filter.{Engine, Excluder, new_excluder}
use http_syncer.Snapshot.{ManifestEntry, Snapshot, indexed, build_snapshot}
use http_syncer.Server.{
  Config, Service, Request, Answer, ready, authorize_module, token_from_header, log_event,
}
use http_syncer.Server.SessionApi.{
  CreateBody, CreateEnv, session_id, snapshot_name, register, cleanup_expired,
  handle_session_create,
}
use http_syncer.Server.ManifestApi.{handle_manifest}
use http_syncer.Server.Registry.{Sound, IsConsistent}
use http_syncer.Server.Admission.{handle_session_create-Admitted}
use http_syncer.Server.Expiry.{too_old}
use http_syncer.Server.Fresh.{created_session, register_lem}
use http_syncer.Server.Fresh.Answered.{handle_session_create-Created}
use http_syncer.Client.{add_all, fetch_manifest, manifest_request, read_page}
use http_syncer.Client.Manifest.{fetch_manifest-handle_manifest}

digit_no_slash : (d : ℕ) → nat_eq (digit d) slash ≡ false
unfolding digit
digit_no_slash d = ground arith

digits_no_slash :
    (f base n : ℕ) (acc : Text)
    → has_char slash acc ≡ false
    → has_char slash (digits_onto f base n acc) ≡ false
unfolding digits_onto has_char
digits_no_slash zero base n acc h = h
digits_no_slash (suc f) base n acc h = elim (Bool-cases (ltb n base)) [
  | inl last ↦ rw (last, digit_no_slash n) h
  | inr more ↦ rw more (
      digits_no_slash f base (n / base) (digit (n % base) ∷ acc) (rw (digit_no_slash (n % base)) h))
]

snapshot_name_no_slash : (nano : ℕ) → has_char slash (snapshot_name (format_int nano 36)) ≡ false
unfolding format_int has_char
snapshot_name_no_slash nano = digits_no_slash (suc nano) 36 nano [] refl

same_authorization :
    (token address id name : Text) (size : ℕ) (s : Service) (r : Request)
    → r.authorization ≡ text "Bearer " ++ token
    → token ≢ []
    → authorize_module s.cfg r name ≡ true
    → authorize_module s.cfg (manifest_request token address id size []) name ≡ true
unfolding authorize_module token_from_header manifest_request ◌==◌
same_authorization [] address id name size s r h given allowed = absurd (given refl)
same_authorization (c ∷ token) address id name size s r h given allowed = rw h at allowed

module _ (tf : TimeText) (engine : Engine) (env : CreateEnv) (r : Request) (body : CreateBody)
    (token address : Text) (size : ℕ) (s : Service) where
  abbrev after : Service × Answer
  after = handle_session_create tf engine env r (some body) s

  abbrev pages_from : Service → Text → Option (List ManifestEntry × Text)
  pages_from sv cursor = read_page (
      handle_manifest
        (manifest_request token address (snapshot_name (session_id tf engine env r body)) size
          cursor)
        sv)

  registered_fetches :
      (b : Service) (snap : Snapshot)
      → Sound b
      → 0 < b.cfg.page_size
      → r.authorization ≡ text "Bearer " ++ token
      → token ≢ []
      → authorize_module b.cfg r body.module_name ≡ true
      → too_old env.cleaned_at b.cfg.snapshot_ttl
          (created_session tf engine env r body (clean body.source_path))
        ≡ false
      → length snap.entries < max_int
      → fetch_manifest
          (suc (length snap.entries))
          (pages_from (
            log_event r
              (text "session_created")
              body.module_name
              (session_id tf engine env r body)
              []
              (register tf engine env r body (clean body.source_path) snap b)))
          []
          []
        ≡ some (add_all snap.entries [])
  unfolding log_event register cleanup_expired
  registered_fetches b snap sound positive header given allowed young small =
      let (found, known, kept) =
        register_lem tf engine env r body (clean body.source_path) snap b sound young in
      fetch_manifest-handle_manifest token address (snapshot_name (session_id tf engine env r body))
        size
        (log_event r (text "session_created") body.module_name (session_id tf engine env r body) []
          (register tf engine env r body (clean body.source_path) snap b))
        body.module_name snap (snapshot_name_no_slash env.nano) known
        (same_authorization token address (snapshot_name (session_id tf engine env r body))
          body.module_name size b r header given allowed)
        kept positive small

  -- On a service whose tables belong together, with a positive page size: if a request with a token
  -- creates a session that is not expired at once, the answer names the session and its snapshot, the
  -- snapshot is taken of the module's index with the request's exclusions, and `fetchManifest` with
  -- the snapshot's id and the same token gives the map of its whole manifest, whatever page size it
  -- asks for, if the manifest has fewer than 2 ^ 63 entries.
  pub fetch_manifest-handle_session_create :
      Sound s
      → 0 < s.cfg.page_size
      → r.authorization ≡ text "Bearer " ++ token
      → token ≢ []
      → after.1.code ≡ 200
      → too_old env.cleaned_at s.cfg.snapshot_ttl
          (created_session tf engine env r body (clean body.source_path))
        ≡ false
      → (ex : Excluder engine) × (snap : Snapshot) × (new_excluder engine body.exclude_globs
            body.exclude_regex
          ≡ some ex)
        × (build_snapshot engine ex s.indexes
              (snapshot_name (session_id tf engine env r body))
              body.module_name
              (clean body.source_path)
              env.built_at
            ≡ indexed snap)
        × (after.1.payload
            ≡ ready
                (session_id tf engine env r body)
                (snapshot_name (session_id tf engine env r body))
                (text "/v1/snapshots/"
                  ++ snapshot_name (session_id tf engine env r body)
                  ++ text "/manifest"))
        × (length snap.entries < max_int
            → fetch_manifest (suc (length snap.entries)) (pages_from after.0) [] []
              ≡ some (add_all snap.entries []))
  fetch_manifest-handle_session_create sound positive header given success young =
      let c = handle_session_create-Created tf engine env r body s success in
      let admitted = handle_session_create-Admitted tf engine env r body s success in
      (
        c.ex,
        c.snap,
        c.excluder,
        c.taken,
        c.answer,
        λ small.
            let sound_before : Sound c.before =
              subst (λ m. IsConsistent c.before.sessions m) (sym c.same_snapshots)
                (subst (λ m. IsConsistent m s.snapshots) (sym c.same_sessions) sound) in
            ap (λ sv. fetch_manifest (suc (length c.snap.entries)) (pages_from sv) [] []) c.service
            ∙ registered_fetches c.before c.snap sound_before
                (subst (λ (g : Config). 0 < g.page_size) (sym c.same_cfg) positive) header given
                (ap (λ g. authorize_module g r body.module_name) c.same_cfg ∙ admitted.authorized)
                (ap
                    (λ (g : Config).
                      too_old env.cleaned_at g.snapshot_ttl
                        (created_session tf engine env r body (clean body.source_path)))
                    c.same_cfg
                  ∙ young)
                small,
      )
