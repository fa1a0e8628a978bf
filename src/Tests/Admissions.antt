-- ===== src/Tests/Admissions.antt =====
-- A request that creates a session of a concrete service.
use http_syncer.Base.{
  ◌≡◌, refl, some, ◌==◌, trim_space, trim_left, is_space, lookup, after_prefix, has_prefix,
  trim_prefix, has_suffix, text, false, split, replace_all, trim_suffix,
}
use http_syncer.Base.Int.{pos, ◌-ℤ◌}
use http_syncer.Path.{clean, join_path, abs, rel, rel_parts, components, render, is_abs, ups}
use http_syncer.Lock.{
  is_locked, query_clean, query_dir, clean_path, scan_mem, scan_dir, scan_files, judge, new_manager,
}
use http_syncer.Filter.{new_excluder, compile_all, clean_globs}
use http_syncer.Snapshot.{build_snapshot, module_snapshot}
use http_syncer.Server.{authorize_module, token_from_header}
use http_syncer.Server.SessionApi.{
  stays_inside, create_unlocked, after_query, create_for, create_decoded, create_body,
  handle_session_create, after_excluder, after_index,
}
use http_syncer.Server.Expiry.{too_old}
use http_syncer.Server.Fresh.{created_session}
use http_syncer.Server.Admission.{Admitted, handle_session_create-Admitted}
use http_syncer.Tests.Filters.{anchored}
use http_syncer.Tests.Locks.{stamps}
use http_syncer.Tests.Servers.{create_env, create_core, create_request, empty_service}

pub created :
    (handle_session_create stamps anchored create_env create_request
      (some create_core)
      empty_service).1.code
    ≡ 200
unfolding handle_session_create create_body create_decoded create_for after_query create_unlocked
    after_excluder after_index build_snapshot module_snapshot new_excluder compile_all clean_globs
    authorize_module token_from_header trim_space trim_left is_space ◌==◌ lookup after_prefix
    has_prefix trim_prefix has_suffix split replace_all trim_suffix clean join_path abs rel
    rel_parts components render is_abs ups stays_inside is_locked query_clean query_dir clean_path
    scan_mem scan_dir scan_files judge new_manager
created = refl

handle_session_create-Admitted_example :
    Admitted stamps create_env create_request create_core empty_service
handle_session_create-Admitted_example =
    handle_session_create-Admitted stamps anchored create_env create_request create_core
      empty_service created

pub created_session_young :
    too_old
      (pos 11)
      (pos 3600)
      (created_session stamps anchored create_env create_request create_core (clean (text "docs")))
    ≡ false
unfolding ◌-ℤ◌
created_session_young = refl
