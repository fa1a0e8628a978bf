-- ===== src/Server/Loading.antt =====
-- internal/server/module_config.go: LoadFileConfig. The texts of errors are left out.
pub mod Modules
pub mod Sound
use http_syncer.Base.{
  ℕ, ◌*◌, zero, Bool, true, false, not, ◌||◌, List, [], ◌∷◌, Option, none, some, Text, text, ◌==◌,
  trim_space, is_blank, Dict, lookup, insert, ltb, if◌then◌else◌,
}
use http_syncer.Base.Int.{ℤ, pos, negsuc, ltb_ℤ}
use http_syncer.Path.{is_abs, join_path, abs, rel}
use http_syncer.Lock.{Manager, new_manager, DirEntry}
use http_syncer.Walk.{Outcome, ok, err, Node}
use http_syncer.Snapshot.{ModuleIndex}
use http_syncer.Snapshot.Scan.{new_indexer}
use http_syncer.Server.{Module, Config, Service}
use http_syncer.Server.SessionApi.{stays_inside}

pub record ModuleYaml : Type 0 where
  pub name : Text
  pub root : Text
  pub tokens : List Text

-- The fields of `FileConfig`, those of its server part first.
pub record FileConfig : Type 0 where
  pub root_dir : Text
  pub listen_addr : Text
  pub listen_port : ℤ
  pub debug : Bool
  pub process_log : Text
  pub trusted_proxies : List Text
  pub lock_dir : Text
  pub audit_dir : Text
  pub audit_retention_days : ℤ
  pub page_size : ℤ
  pub lock_ttl : Text
  pub snapshot_ttl : Text
  pub modules : List ModuleYaml

-- All fields of `Config`.
pub record Settings : Type 0 where
  pub root_dir : Text
  pub listen_addr : Text
  pub listen_port : ℤ
  pub debug : Bool
  pub process_log_path : Text
  pub trusted_proxies : List Text
  pub lock_dir : Text
  pub lock_ttl : ℤ
  pub page_size : ℤ
  pub snapshot_ttl : ℤ
  pub modules : Dict Module
  pub audit_dir : Text
  pub audit_retention_days : ℤ

-- A number unless it is zero or below
unfoldable pub positive_or : ℕ → ℤ → ℤ
positive_or default n = if ltb_ℤ (pos 0) n then n else pos default

unfoldable pub text_or : Text → Text → Text
text_or default [] = default
text_or default (c ∷ t) = c ∷ t

-- time.Minute
abbrev pub minute : ℕ
minute = 60000000000

-- The loop over a module's tokens.
unfoldable pub add_tokens : List Text → Dict (Unit {0}) → Dict (Unit {0})
add_tokens [] tokens = tokens
add_tokens (tok ∷ toks) tokens =
    add_tokens toks (if is_blank tok then tokens else insert tok tt tokens)

abbrev pub no_keys : Dict (Unit {0}) → Bool
no_keys [] = true
no_keys (slot ∷ dict) = false

-- A duration of the file, or the default if it is blank; `none` is the error of its parser.
unfoldable pub duration_of : (Text → Option ℤ) → ℕ → Text → Option ℤ
duration_of parse default t = if is_blank t then some (pos default) else parse t

abbrev pub is_taken : Option Module → Bool
is_taken none = false
is_taken (some conf) = true

abbrev pub no_modules : Dict Module → Bool
no_modules [] = true
no_modules (slot ∷ dict) = false

module _ (cwd : Text) where
  unfoldable pub module_root : Text → Text → Text
  module_root root_dir root = abs cwd (if is_abs root then root else join_path root_dir root)

  -- One module of the file, against those before it; `none` is any of the errors.
  unfoldable pub load_module : Text → ModuleYaml → Dict Module → Option Module
  load_module root_dir m mods =
      let abs_root = module_root root_dir m.root in
      let tokens = add_tokens m.tokens [] in
      if is_blank m.name
      then none
      else if is_taken (lookup m.name mods)
      then none
      else if is_blank m.root
      then none
      else if not (stays_inside root_dir (rel root_dir abs_root))
      then none
      else if no_keys tokens
      then none
      else some (record { name = m.name; root_dir = abs_root; tokens = tokens })

  abbrev pub with_module :
      (Dict Module → Option (Dict Module))
      → Text
      → Dict Module
      → Option Module
      → Option (Dict Module)
  with_module rest name mods none = none
  with_module rest name mods (some conf) = rest (insert name conf mods)

  -- The loop over the modules of the file.
  unfoldable pub load_modules : Text → List ModuleYaml → Dict Module → Option (Dict Module)
  load_modules root_dir [] mods = some mods
  load_modules root_dir (m ∷ ms) mods =
      with_module (load_modules root_dir ms) m.name mods (load_module root_dir m mods)

  abbrev pub settings_of : FileConfig → ℤ → ℤ → Dict Module → Settings
  settings_of fc lock_ttl snapshot_ttl mods = record {
    root_dir = abs cwd fc.root_dir;
    listen_addr = text_or (text "0.0.0.0") (trim_space fc.listen_addr);
    listen_port = positive_or 8080 fc.listen_port;
    debug = fc.debug;
    process_log_path = text_or (text "./process.log") (trim_space fc.process_log);
    trusted_proxies = fc.trusted_proxies;
    lock_dir = text_or (text ".sync-locks") fc.lock_dir;
    lock_ttl = lock_ttl;
    page_size = positive_or 5000 fc.page_size;
    snapshot_ttl = snapshot_ttl;
    modules = mods;
    audit_dir = text_or (text "./audit") fc.audit_dir;
    audit_retention_days = positive_or 30 fc.audit_retention_days;
  }

  abbrev pub with_modules : FileConfig → ℤ → ℤ → Option (Dict Module) → Option Settings
  with_modules fc lock_ttl snapshot_ttl none = none
  with_modules fc lock_ttl snapshot_ttl (some mods) =
      if no_modules mods then none else some (settings_of fc lock_ttl snapshot_ttl mods)

  abbrev pub with_durations : FileConfig → Option ℤ → Option ℤ → Option Settings
  with_durations fc none snapshot_ttl = none
  with_durations fc (some lock_ttl) none = none
  with_durations fc (some lock_ttl) (some snapshot_ttl) =
      with_modules fc lock_ttl snapshot_ttl (load_modules (abs cwd fc.root_dir) fc.modules [])

  -- `LoadFileConfig`, from the decoded file on; `parse` is time.ParseDuration
  unfoldable pub load_file_config : (Text → Option ℤ) → FileConfig → Option Settings
  load_file_config parse fc =
      if fc.root_dir == []
      then none
      else with_durations fc (duration_of parse (10 * minute) fc.lock_ttl)
          (duration_of parse (30 * minute) fc.snapshot_ttl)
