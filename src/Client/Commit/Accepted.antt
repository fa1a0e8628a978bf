-- ===== src/Client/Commit/Accepted.antt =====
-- When the server accepts a commit.
use http_syncer.Base.{
  ◌≡◌, refl, sym, ap, ◌∙◌, ◌↔◌, true, false, not, ◌||◌, Bool-cases, inl, inr, ◌++◌, Option, none,
  some, Text, text, ◌==◌, has_char, has_suffix, split, lookup, lookup-insert_self, if◌then◌else◌,
}
use http_syncer.Path.{slash}
use http_syncer.Filter.Laws.{has_suffix-append}
use http_syncer.Server.{
  Service, Session, Request, Answer, committed, authorize_module, refuse, log_event,
}
use http_syncer.Server.SessionApi.{
  handle_session_commit, commit_id, commit_found, commit_session, fourth_part, mark_committed,
}
use http_syncer.Client.Paths.{fourth_part-split}
use http_syncer.Client.Commit.{commit_request, is_accepted}

abbrev commit_path : Text → Text
commit_path sid = text "/v1/sessions/" ++ (sid ++ text "/commit")

fourth_of_commit :
    (sid : Text)
    → has_char slash sid ≡ false
    → fourth_part (split slash (commit_path sid)) ≡ some sid
fourth_of_commit sid h =
    fourth_part-split (text "sessions") sid (text "commit") (unfold has_char in refl) h
      (unfold has_char in refl)

suffix_of_commit : (sid : Text) → has_suffix (commit_path sid) (text "/commit") ≡ true
suffix_of_commit sid = has_suffix-append (text "/v1/sessions/" ++ sid) (text "/commit")

module _ (token address sid : Text) (s : Service) where
  abbrev sent : Request
  sent = commit_request token address sid

  abbrev pub done : Service × Answer
  done = handle_session_commit sent true s

  -- A session of that name is there, and the request is authorized for its module.
  abbrev pub MayCommit : Session → Type 0
  MayCommit sess =
      (lookup sid s.sessions ≡ some sess) × (authorize_module s.cfg sent sess.module_name ≡ true)

  to_session :
      has_char slash sid ≡ false → done ≡ commit_found sent true sid (lookup sid s.sessions) s
  unfolding handle_session_commit commit_request ◌==◌ commit_id
  to_session h =
      ap
        (λ b.
          if false || not b
          then (s, refuse 404)
          else commit_id sent true (fourth_part (split slash (commit_path sid))) s)
        (suffix_of_commit sid)
      ∙ ap (λ o. commit_id sent true o s) (fourth_of_commit sid h)

  allowed :
      (sess : Session)
      → has_char slash sid ≡ false
      → MayCommit sess
      → (is_accepted (some done.1) ≡ true)
        × (lookup sid done.0.sessions ≡ some (record sess { status = committed }))
  unfolding is_accepted commit_found commit_session log_event lookup
  allowed sess h (found, authorized) =
      let q : done ≡ commit_session sent true sid sess s =
        to_session h ∙ ap (λ o. commit_found sent true sid o s) found in
      (
        ap (λ (d : Service × Answer). is_accepted (some d.1)) q ∙ rw authorized refl,
        ap (λ (d : Service × Answer). lookup sid d.0.sessions) q
            ∙ rw authorized (
                ap (λ o. lookup sid (mark_committed sid o s.sessions)) found
                ∙ lookup-insert_self sid (record sess { status = committed }) s.sessions),
      )

  refused :
      (o : Option Session)
      → lookup sid s.sessions ≡ o
      → is_accepted (some (commit_found sent true sid o s).1) ≡ true
      → (sess : Session) × MayCommit sess
  unfolding is_accepted commit_found commit_session
  refused none q h = absurd (cc)
  refused (some sess) q h = elim (Bool-cases (authorize_module s.cfg sent sess.module_name)) [
    | inl authorized ↦ (sess, (q, authorized))
    | inr other ↦ absurd (cc (rw other at h))
  ]

  -- For a name without a slash: the server accepts the client's commit exactly if a session of that
  -- name is there, for whose module the client's token is authorized, and that session, otherwise
  -- unchanged, is then a committed one.
  pub is_accepted-handle_session_commit :
      has_char slash sid ≡ false
      → ((is_accepted (some done.1) ≡ true) ↔ ((sess : Session) × MayCommit sess))
        × ((sess : Session)
            → MayCommit sess
            → lookup sid done.0.sessions ≡ some (record sess { status = committed }))
  is_accepted-handle_session_commit h = (
    (
      λ a.
          refused (lookup sid s.sessions) refl
            (ap (λ (d : Service × Answer). is_accepted (some d.1)) (sym (to_session h)) ∙ a),
      λ (sess, may). (allowed sess h may).0,
    ),
    λ sess may. (allowed sess h may).1,
  )
