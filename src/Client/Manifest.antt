-- ===== src/Client/Manifest.antt =====
-- The client's manifest requests against the server's handler.
use mathlib.Core.List.{append_assoc}
use http_syncer.Base.{
  ℕ, suc, ◌<◌, ◌≡◌, refl, sym, ap, ◌∙◌, true, false, [], ◌∷◌, ◌++◌, some, Text, text, ◌==◌, ==_refl,
  has_char, has_suffix, split, lookup, length, arith,
}
use http_syncer.Base.Numbers.{itoa, max_int}
use http_syncer.Path.{slash}
use http_syncer.Filter.Laws.{has_suffix-append}
use http_syncer.Snapshot.{Snapshot}
use http_syncer.Server.{
  Service, Request, Answer, page, authorize_module, token_from_header, module_for_snapshot,
  get_param, get,
}
use http_syncer.Server.SessionApi.{fourth_part}
use http_syncer.Server.ManifestApi.{
  page_at, page_size_of, cursor_of, handle_manifest, manifest_id, manifest_for, send_page,
}
use http_syncer.Client.{add_all, fetch_manifest, manifest_request, read_page}
use http_syncer.Client.Paths.{fourth_part-split}
use http_syncer.Client.Fetch.{fetch_manifest_complete}

page_size_of-pos : (default : ℕ) (q : Text) → 0 < default → 0 < page_size_of default q
unfolding page_size_of
page_size_of-pos default q h = ground arith

manifest_path : Text → Text
manifest_path sid = text "/v1/snapshots/" ++ (sid ++ text "/manifest")

fourth_of_path :
    (sid : Text)
    → has_char slash sid ≡ false
    → fourth_part (split slash (manifest_path sid)) ≡ some sid
unfolding manifest_path
fourth_of_path sid h =
    fourth_part-split (text "snapshots") sid (text "manifest") (unfold has_char in refl) h
      (unfold has_char in refl)

suffix_of_path : (sid : Text) → has_suffix (manifest_path sid) (text "/manifest") ≡ true
unfolding manifest_path
suffix_of_path sid =
    ap (λ p. has_suffix p (text "/manifest"))
      (sym (append_assoc (text "/v1/snapshots/") sid (text "/manifest")))
    ∙ has_suffix-append (text "/v1/snapshots/" ++ sid) (text "/manifest")

module _ (r : Request) (sid name : Text) (s : Service) (snap : Snapshot)
    (allowed : authorize_module s.cfg r name ≡ true)
    (known : module_for_snapshot sid s.sessions ≡ some name)
    (kept : lookup sid s.snapshots ≡ some snap) where
  -- The page that a well-formed request gets.
  abbrev page_for : Answer
  page_for =
      let size = page_size_of s.cfg.page_size (get_param (text "page_size") r) in
      let (entries, next) = page_at snap.entries size (cursor_of (get_param (text "cursor") r)) in
      record { code = 200; payload = page sid entries next }

  sent : manifest_for r sid (some name) s ≡ page_for
  unfolding manifest_for
  sent = rw allowed (ap (λ o. send_page r sid o s) kept ∙ (unfold send_page in refl))

  identified : manifest_id r (some sid) s ≡ page_for
  unfolding manifest_id
  identified = ap (λ o. manifest_for r sid o s) known ∙ sent

  handled :
      (r.method == get) ≡ true
      → has_suffix r.path (text "/manifest") ≡ true
      → fourth_part (split slash r.path) ≡ some sid
      → handle_manifest r s ≡ page_for
  unfolding handle_manifest
  handled is_get suffix part = rw (is_get, suffix) (ap (λ o. manifest_id r o s) part ∙ identified)

module _ (token address sid : Text) (page_size : ℕ) where
  asked_size :
      (cursor : Text)
      → get_param (text "page_size") (manifest_request token address sid page_size cursor)
        ≡ itoa page_size
  unfolding get_param manifest_request lookup ◌==◌
  asked_size cursor = refl

  asked_cursor :
      (cursor : Text)
      → get_param (text "cursor") (manifest_request token address sid page_size cursor) ≡ cursor
  unfolding get_param manifest_request lookup ◌==◌
  asked_cursor [] = refl
  asked_cursor (c ∷ cursor) = refl

  module _ (s : Service) (name : Text) (snap : Snapshot) (plain : has_char slash sid ≡ false)
      (known : module_for_snapshot sid s.sessions ≡ some name)
      (allowed : authorize_module s.cfg (manifest_request token address sid page_size []) name
        ≡ true)
      (kept : lookup sid s.snapshots ≡ some snap) where
    allowed_at :
        (cursor : Text)
        → authorize_module s.cfg (manifest_request token address sid page_size cursor) name ≡ true
    unfolding authorize_module manifest_request token_from_header
    allowed_at cursor = allowed

    served :
        (cursor : Text)
        → read_page (handle_manifest (manifest_request token address sid page_size cursor) s)
          ≡ some (
              page_at snap.entries
                (page_size_of s.cfg.page_size (itoa page_size))
                (cursor_of cursor))
    served cursor =
        ap read_page (
          handled (manifest_request token address sid page_size cursor) sid name s snap
            (allowed_at cursor) known kept (unfold manifest_request in ==_refl get)
            (unfold manifest_request manifest_path in suffix_of_path sid)
            (unfold manifest_request manifest_path in fourth_of_path sid plain))
        ∙ read_size cursor
        ∙ ap
            (λ q.
              some (
                page_at snap.entries (page_size_of s.cfg.page_size (itoa page_size)) (cursor_of q)))
            (asked_cursor cursor)
      where
        read_size :
            (c : Text)
            → read_page (
                page_for
                  (manifest_request token address sid page_size c)
                  sid
                  name
                  s
                  snap
                  (allowed_at c)
                  known
                  kept)
              ≡ some (
                  page_at snap.entries (page_size_of s.cfg.page_size (itoa page_size)) (
                    cursor_of
                      (get_param (text "cursor") (manifest_request token address sid page_size c))))
        read_size c =
            (unfold read_page in
              ap
                (λ q. some (
                  page_at snap.entries (page_size_of s.cfg.page_size q) (
                    cursor_of (
                      get_param (text "cursor") (manifest_request token address sid page_size c)))))
                (asked_size c))

    -- For a snapshot that a session of the module still holds, with a token that the module
    -- accepts, a positive configured page size and fewer than 2 ^ 63 entries, and whatever page
    -- size the client asks for: the loop of `fetchManifest` against `handleManifest` ends within
    -- one round more than there are entries, and gives the map of the whole manifest.
    pub fetch_manifest-handle_manifest :
        0 < s.cfg.page_size
        → length snap.entries < max_int
        → fetch_manifest
            (suc (length snap.entries))
            (λ cursor.
              read_page (handle_manifest (manifest_request token address sid page_size cursor) s))
            []
            []
          ≡ some (add_all snap.entries [])
    fetch_manifest-handle_manifest positive small =
        fetch_manifest_complete snap.entries (page_size_of s.cfg.page_size (itoa page_size)) _
          served (page_size_of-pos s.cfg.page_size (itoa page_size) positive) small
