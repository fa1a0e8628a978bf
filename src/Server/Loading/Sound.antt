-- ===== src/Server/Loading/Sound.antt =====
-- What a configuration that loads promises to the server.
use http_syncer.Base.{
  ℕ, ◌≡◌, ◌≢◌, ◌<◌, refl, sym, ap, ◌∙◌, subst, ◌↔◌, Bool, true, false, Bool-cases, inl, inr, List,
  [], ◌++◌, Option, none, some, Text, is_blank, text, ◌==◌, Dict, lookup, In, arith,
}
use http_syncer.Base.Int.{ℤ, pos, negsuc, ltb_ℤ}
use http_syncer.Path.{abs}
use http_syncer.Lock.{DirEntry}
use http_syncer.Walk.{Outcome, ok, err, Node}
use http_syncer.Snapshot.{ModuleIndex}
use http_syncer.Snapshot.Scan.{new_indexer}
use http_syncer.Server.{Module, Config, Service, Request, authorize_module}
use http_syncer.Server.Authorization.{authorize_module_iff}
use http_syncer.Server.Loading.{
  ModuleYaml, FileConfig, Settings, add_tokens, no_modules, load_modules, load_file_config,
  with_durations, with_modules, settings_of, positive_or,
}
use http_syncer.Server.Proxies.{Netip, parse_trusted_proxies}
use http_syncer.Server.Start.{
  with_defaults, handler_config, magnitude, new_service, with_indexes, with_trusted,
}
use http_syncer.Server.Loading.Modules.{
  Loads, conf_of, found_modules, listed_modules, lookup-add_tokens,
}

lookup-nil : (name : Text) (conf : Module) → lookup name [] ≢ some conf
unfolding lookup
lookup-nil name conf e = cc

positive_or-pos : (n : ℕ) (x : ℤ) → 0 < n → ltb_ℤ (pos 0) (positive_or n x) ≡ true
unfolding positive_or
positive_or-pos n x h = ground arith

magnitude-pos : (x : ℤ) → ltb_ℤ (pos 0) x ≡ true → 0 < magnitude x
magnitude-pos (pos n) h = ground arith
magnitude-pos (negsuc n) h = absurd (ground arith)

-- A loaded configuration comes from the modules of the file, of which there is one at least.
pub record Loaded (cwd : Text) (fc : FileConfig) (cfg : Settings) : Type 0 where
  pub loads : load_modules cwd (abs cwd fc.root_dir) fc.modules [] ≡ some cfg.modules
  pub some_module : no_modules cfg.modules ≡ false
  pub rooted : cfg.root_dir ≡ abs cwd fc.root_dir
  pub page_size_pos : ltb_ℤ (pos 0) cfg.page_size ≡ true
  pub port_pos : ltb_ℤ (pos 0) cfg.listen_port ≡ true
  pub retention_pos : ltb_ℤ (pos 0) cfg.audit_retention_days ≡ true

modules_inv :
    (cwd : Text) (fc : FileConfig) (cfg : Settings) (lock_ttl snapshot_ttl : ℤ)
    (mods : Option (Dict Module))
    → load_modules cwd (abs cwd fc.root_dir) fc.modules [] ≡ mods
    → with_modules cwd fc lock_ttl snapshot_ttl mods ≡ some cfg
    → Loaded cwd fc cfg
modules_inv cwd fc cfg lock_ttl snapshot_ttl none e h = absurd (cc)
modules_inv cwd fc cfg lock_ttl snapshot_ttl (some mods) e h = elim (Bool-cases (no_modules mods)) [
  | inl empty ↦ absurd (cc (rw empty at h))
  | inr filled ↦
      let loaded : some (settings_of cwd fc lock_ttl snapshot_ttl mods) ≡ some cfg =
        rw filled at h in
      let is_cfg : settings_of cwd fc lock_ttl snapshot_ttl mods ≡ cfg = cc (loaded) in
      subst (Loaded cwd fc) is_cfg (record {
        loads = e;
        some_module = filled;
        rooted = refl;
        page_size_pos = positive_or-pos 5000 fc.page_size (omega arith);
        port_pos = positive_or-pos 8080 fc.listen_port (omega arith);
        retention_pos = positive_or-pos 30 fc.audit_retention_days (omega arith);
      })
]

durations_inv :
    (cwd : Text) (fc : FileConfig) (cfg : Settings) (a b : Option ℤ)
    → with_durations cwd fc a b ≡ some cfg
    → Loaded cwd fc cfg
durations_inv cwd fc cfg none b h = absurd (cc)
durations_inv cwd fc cfg (some a) none h = absurd (cc)
durations_inv cwd fc cfg (some a) (some b) h = modules_inv cwd fc cfg a b _ refl h

load_file_config-Loaded :
    (cwd : Text) (parse : Text → Option ℤ) (fc : FileConfig) (cfg : Settings)
    → load_file_config cwd parse fc ≡ some cfg
    → Loaded cwd fc cfg
unfolding load_file_config
load_file_config-Loaded cwd parse fc cfg h = elim (Bool-cases (fc.root_dir == [])) [
  | inl blank ↦ absurd (cc (rw blank at h))
  | inr given ↦ durations_inv cwd fc cfg _ _ (rw given at h)
]

-- A configuration that loads has a module, and a positive port, page size and retention. Every module
-- has the name that it is found under, which is not blank; it comes from a module of the file, lies
-- inside the root directory component by component, and has a token.
pub load_file_config-IsProper :
    (cwd : Text) (parse : Text → Option ℤ) (fc : FileConfig) (cfg : Settings)
    → load_file_config cwd parse fc ≡ some cfg
    → (no_modules cfg.modules ≡ false)
      × (ltb_ℤ (pos 0) cfg.listen_port ≡ true)
      × (ltb_ℤ (pos 0) cfg.page_size ≡ true)
      × (ltb_ℤ (pos 0) cfg.audit_retention_days ≡ true)
      × ((name : Text) (conf : Module)
          → lookup name cfg.modules ≡ some conf
          → Loads cwd cfg.root_dir fc.modules name conf)
load_file_config-IsProper cwd parse fc cfg h =
    let l = load_file_config-Loaded cwd parse fc cfg h in
    (
      l.some_module,
      l.port_pos,
      l.page_size_pos,
      l.retention_pos,
      λ name conf found.
          subst (λ root. Loads cwd root fc.modules name conf) (sym l.rooted)
            (elim (found_modules cwd (abs cwd fc.root_dir) fc.modules [] cfg.modules name conf
              l.loads found) [ inl nowhere ↦ absurd (lookup-nil name conf nowhere) | inr x ↦ x ]),
    )

-- A module of the file that lists a token which is not blank
pub record ListsToken (fc : FileConfig) (name token : Text) : Type 0 where
  pub m : ModuleYaml
  pub member : In m fc.modules
  pub same_name : m.name ≡ name
  pub listed : In token m.tokens
  pub given : is_blank token ≡ false

after_bearer : (a b : Text) → text "Bearer " ++ a ≡ text "Bearer " ++ b → a ≡ b
after_bearer a b h = cc

-- With a configuration that loads, and the defaults that `New` adds, a request whose header is
-- "Bearer " and a token is authorized for a module exactly if a module of the file has that name and
-- lists that token, and the token is not blank.
pub authorize_module-load_file_config :
    (cwd : Text) (parse : Text → Option ℤ) (fc : FileConfig) (cfg : Settings) (r : Request)
    (name token : Text)
    → load_file_config cwd parse fc ≡ some cfg
    → r.authorization ≡ text "Bearer " ++ token
    → (authorize_module (handler_config (with_defaults cfg)) r name ≡ true)
      ↔ ListsToken fc name token
unfolding with_defaults
authorize_module-load_file_config cwd parse fc cfg r name token h header = (
  λ allowed.
      let x = (authorize_module_iff (handler_config (with_defaults cfg)) r name).0 allowed in
      let proper = load_file_config-IsProper cwd parse fc cfg h in
      let l = proper.4 name x.conf x.configured in
      let same : x.token ≡ token = after_bearer x.token token (sym x.header ∙ header) in
      let there : lookup token (add_tokens l.m.tokens []) ≢ none =
        subst (λ t. lookup t (add_tokens l.m.tokens []) ≢ none) same
          (subst (λ (c : Module). lookup x.token c.tokens ≢ none) l.conf_eq x.listed) in
      elim ((lookup-add_tokens token l.m.tokens []).0 there) [
        | inl before ↦ absurd (before (unfold lookup in refl))
        | inr (listed, given) ↦ record {
          m = l.m;
          member = l.member;
          same_name = l.same_name;
          listed = listed;
          given = given;
        }
      ],
  λ l.
      let loaded = load_file_config-Loaded cwd parse fc cfg h in
      let found =
        listed_modules cwd (abs cwd fc.root_dir) fc.modules [] cfg.modules l.m loaded.loads
          l.member in
      (authorize_module_iff (handler_config (with_defaults cfg)) r name).1 (record {
        conf = conf_of cwd (abs cwd fc.root_dir) l.m;
        token = token;
        configured =
            subst (λ n. lookup n cfg.modules ≡ some (conf_of cwd (abs cwd fc.root_dir) l.m))
              l.same_name found;
        header = header;
        listed = (lookup-add_tokens token l.m.tokens []).1 (inr (l.listed, l.given));
      }),
)

started_inv :
    (cfg : Settings) (files : Dict DirEntry) (indexes : Outcome (Dict ModuleIndex)) (s : Service)
    → with_indexes cfg files indexes ≡ some s
    → (indexes ≡ ok s.indexes)
      × (s.cfg ≡ handler_config cfg)
      × (s.sessions ≡ [])
      × (s.snapshots ≡ [])
started_inv cfg files (err e) s h = absurd (cc)
started_inv cfg files (ok indexes) s h = ground arith

trusted_inv :
    (net : Netip) (made : Bool) (started : Option Service) (trusted : Option (List net.Prefix))
    (s : Service)
    → with_trusted net made started trusted ≡ some s
    → (started ≡ some s)
      × (made ≡ true)
      × ((prefixes : List net.Prefix) × (trusted ≡ some prefixes))
trusted_inv net made started none s h = absurd (cc)
trusted_inv net true started (some prefixes) s h = (h, refl, (prefixes, refl))
trusted_inv net false started (some prefixes) s h = absurd (cc)

-- A service that starts has trusted proxies that parse, a positive page size, the modules of its
-- settings with the indexes that are built of them, and neither sessions nor snapshots.
pub new_service-starts :
    (net : Netip) (made : Bool) (tree : Text → Outcome Node) (now : ℤ) (files : Dict DirEntry)
    (cfg : Settings) (s : Service)
    → new_service net made tree now files cfg ≡ some s
    → ((prefixes : List net.Prefix) × (parse_trusted_proxies net cfg.trusted_proxies
          ≡ some prefixes))
      × (new_indexer tree now s.cfg.modules ≡ ok s.indexes)
      × (0 < s.cfg.page_size)
      × (s.cfg.modules ≡ cfg.modules)
      × (s.sessions ≡ [])
      × (s.snapshots ≡ [])
unfolding new_service with_defaults
new_service-starts net made tree now files given s h =
    let cfg = with_defaults given in
    elim (Bool-cases (no_modules cfg.modules)) [
      | inl empty ↦ absurd (cc (rw empty at h))
      | inr filled ↦
          let (indexing, done, parsed) =
            trusted_inv net made (with_indexes cfg files (new_indexer tree now cfg.modules))
              (parse_trusted_proxies net cfg.trusted_proxies) s (rw filled at h) in
          let (indexed, is_cfg, no_sessions, no_snapshots) = started_inv cfg files _ s indexing in
          (
            parsed,
            ap (λ (c : Config). new_indexer tree now c.modules) is_cfg ∙ indexed,
            subst (λ (c : Config). 0 < c.page_size) (sym is_cfg)
                (magnitude-pos cfg.page_size (positive_or-pos 5000 given.page_size (omega arith))),
            ap (λ (c : Config). c.modules) is_cfg,
            no_sessions,
            no_snapshots,
          )
    ]
