-- ===== src/Server/Admission.antt =====
-- What holds of a request that creates a session.
use http_syncer.Base.{
  ◌≡◌, refl, true, Bool-cases, inl, inr, List, [], ◌++◌, Option, none, some, Text, ◌==◌, trim_space,
  lookup, arith,
}
use http_syncer.Path.{
  clean, join_path, abs, rel, rel_parts, components, is_abs, rendered, same_root,
}
use http_syncer.Path.Relative.{rel_parts-below}
use http_syncer.Lock.{TimeText, is_locked}
use http_syncer.Filter.{Engine}
use http_syncer.Server.{Service, Module, Request, authorize_module, post, lock_path}
use http_syncer.Server.SessionApi.{
  CreateBody, CreateEnv, stays_inside, create_unlocked, after_query, create_for, create_decoded,
  create_body, handle_session_create,
}

-- The components of a path go on from those of the directory.
abbrev pub Below : Text → Text → Type 0
Below root path = (rest : List Text) × (components path ≡ components root ++ rest)

parts-Below :
    (root path : Text) (parts : Option (List Text))
    → rel_parts (components root) (components path) ≡ parts
    → stays_inside root (rendered parts) ≡ true
    → Below root path
unfolding stays_inside
parts-Below root path none e h = absurd (cc)
parts-Below root path (some rest) e h =
    (rest, rel_parts-below (components root) (components path) rest e (ground arith))

pub stays_inside-Below :
    (root path : Text) → stays_inside root (rel root path) ≡ true → Below root path
unfolding rel
stays_inside-Below root path h = elim (Bool-cases (same_root (is_abs root) (is_abs path))) [
  | inl same ↦
      parts-Below root path (rel_parts (components root) (components path)) refl (rw same at h)
  | inr other ↦ absurd (unfold stays_inside in cc (rw other at h))
]

-- The checks that `handleSessionCreate` makes of the request's body.
pub record Admitted (tf : TimeText) (env : CreateEnv) (r : Request) (body : CreateBody)
    (s : Service) : Type 0 where
  pub conf : Module
  pub is_post : (r.method == post) ≡ true
  pub configured : lookup body.module_name s.cfg.modules ≡ some conf
  pub authorized : authorize_module s.cfg r body.module_name ≡ true
  pub unlocked : (is_locked tf env.lock_env (lock_path body.module_name) s.locks).1 ≡ none
  pub inside : Below conf.root_dir (abs env.cwd (join_path conf.root_dir (clean body.source_path)))
  pub exists : env.exists (abs env.cwd (join_path conf.root_dir (clean body.source_path))) ≡ true

module _ (tf : TimeText) (engine : Engine) (env : CreateEnv) (r : Request) (body : CreateBody) where
  unlocked_checks :
      (root_dir : Text) (s : Service)
      → (create_unlocked tf engine env r body root_dir s).1.code ≡ 200
      → let abs_src = abs env.cwd (join_path root_dir (clean body.source_path)) in
        Below root_dir abs_src × (env.exists abs_src ≡ true)
  unfolding create_unlocked
  unlocked_checks root_dir s h =
      let abs_src = abs env.cwd (join_path root_dir (clean body.source_path)) in
      elim (Bool-cases (stays_inside root_dir (rel root_dir abs_src))) [
        | inr outside ↦ absurd (omega (arith, rw outside at h))
        | inl inside ↦ elim (Bool-cases (env.exists abs_src)) [
          | inr missing ↦ absurd (omega (arith, rw (inside, missing) at h))
          | inl there ↦ (stays_inside-Below root_dir abs_src inside, there)
        ]
      ]

  query_checks :
      (root_dir : Text) (found : Option Text) (s : Service)
      → (after_query tf engine env r body root_dir found s).1.code ≡ 200
      → let abs_src = abs env.cwd (join_path root_dir (clean body.source_path)) in
        (found ≡ none) × Below root_dir abs_src × (env.exists abs_src ≡ true)
  unfolding after_query
  query_checks root_dir none s h = let (b, e) = unlocked_checks root_dir s h in (refl, b, e)
  query_checks root_dir (some owner) s h = absurd (omega (arith, h))

  for_checks :
      (found : Option Module) (s : Service)
      → (r.method == post) ≡ true
      → authorize_module s.cfg r body.module_name ≡ true
      → lookup body.module_name s.cfg.modules ≡ found
      → (create_for tf engine env r body found s).1.code ≡ 200
      → Admitted tf env r body s
  unfolding create_for
  for_checks none s p a e h = absurd (omega (arith, h))
  for_checks (some conf) s p a e h =
      let asked = is_locked tf env.lock_env (lock_path body.module_name) s.locks in
      let (free, below, there) =
        query_checks conf.root_dir asked.1 (record s { locks = asked.0 }) h in
      record {
        conf = conf;
        is_post = p;
        configured = e;
        authorized = a;
        unlocked = free;
        inside = below;
        exists = there;
      }

  decoded_checks :
      (s : Service)
      → (r.method == post) ≡ true
      → (create_decoded tf engine env r body s).1.code ≡ 200
      → Admitted tf env r body s
  unfolding create_decoded
  decoded_checks s p h = elim (Bool-cases (trim_space body.module_name == [])) [
    | inl blank ↦ absurd (omega (arith, rw blank at h))
    | inr named ↦ elim (Bool-cases (authorize_module s.cfg r body.module_name)) [
      | inr foreign ↦ absurd (omega (arith, rw (named, foreign) at h))
      | inl a ↦ for_checks (lookup body.module_name s.cfg.modules) s p a refl (rw (named, a) at h)
    ]
  ]

  -- A create request that is answered with 200 is a POST, authorized for its module, which is
  -- configured and not locked, and its source path exists and lies inside the module: the components
  -- of the absolute source path begin with those of the module's directory.
  pub handle_session_create-Admitted :
      (s : Service)
      → (handle_session_create tf engine env r (some body) s).1.code ≡ 200
      → Admitted tf env r body s
  unfolding handle_session_create create_body
  handle_session_create-Admitted s h = elim (Bool-cases (r.method == post)) [
    | inr other ↦ absurd (omega (arith, rw other at h))
    | inl p ↦ decoded_checks s p (rw p at h)
  ]
