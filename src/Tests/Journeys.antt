-- ===== src/Tests/Journeys.antt =====
-- A client's way through a session with a concrete service.
use http_syncer.Base.{
  ◌<◌, ◌≡◌, ◌≢◌, ◌↔◌, refl, true, false, suc, List, [], ◌∷◌, ◌++◌, Option, none, some, Text, text,
  ◌==◌, trim_space, length, arith,
}
use http_syncer.Base.Int.{pos}
use http_syncer.Base.Numbers.{max_int}
use http_syncer.Path.{clean}
use http_syncer.Lock.{is_locked}
use http_syncer.Filter.{Excluder, new_excluder}
use http_syncer.Snapshot.{ManifestEntry, Snapshot, indexed, build_snapshot}
use http_syncer.Server.{ready, authorize_module, post, lock_path}
use http_syncer.Server.SessionApi.{session_id, snapshot_name, handle_session_create}
use http_syncer.Server.ManifestApi.{handle_manifest}
use http_syncer.Server.Registry.{nothing-IsConsistent}
use http_syncer.Server.WaitApi.{Round, wait_loop, wait_for_unlock}
use http_syncer.Server.WaitApi.Ends.{Frees, wait_for_unlock_iff}
use http_syncer.Client.{add_all, fetch_manifest, manifest_request, read_page}
use http_syncer.Client.Journey.{fetch_manifest-handle_session_create}
use http_syncer.Client.Session.{
  made, refused_lock, fault, Turn, begun, gave_up, unfinished, begin_session, read_session,
}
use http_syncer.Client.Session.Retries.{faults, begin_session_ends, begin_session-faults}
use http_syncer.Client.Session.Locked.{read_session-handle_session_create}
use http_syncer.Tests.Filters.{anchored}
use http_syncer.Tests.Locks.{stamps, at_time}
use http_syncer.Tests.Servers.{create_env, create_core, create_request, empty_service, address}
use http_syncer.Tests.Admissions.{created, created_session_young}

abbrev pages : Text → Option (List ManifestEntry × Text)
pages cursor = read_page (
    handle_manifest
      (manifest_request (text "t1") address
        (snapshot_name (session_id stamps anchored create_env create_request create_core)) 2 cursor)
      (handle_session_create stamps anchored create_env create_request (some create_core)
        empty_service).0)

fetch_manifest-handle_session_create_example :
    (ex : Excluder anchored) × (snap : Snapshot) × (new_excluder anchored [] [] ≡ some ex)
    × (build_snapshot anchored ex empty_service.indexes
          (snapshot_name (session_id stamps anchored create_env create_request create_core))
          (text "core")
          (clean (text "docs"))
          (pos 10)
        ≡ indexed snap)
    × ((handle_session_create stamps anchored create_env create_request
          (some create_core)
          empty_service).1.payload
        ≡ ready
            (session_id stamps anchored create_env create_request create_core)
            (snapshot_name (session_id stamps anchored create_env create_request create_core))
            (text "/v1/snapshots/"
              ++ snapshot_name (session_id stamps anchored create_env create_request create_core)
              ++ text "/manifest"))
    × (length snap.entries < max_int
        → fetch_manifest (suc (length snap.entries)) pages [] [] ≡ some (add_all snap.entries []))
fetch_manifest-handle_session_create_example =
    fetch_manifest-handle_session_create stamps anchored create_env create_request create_core
      (text "t1") address 2 empty_service nothing-IsConsistent (omega arith) refl (λ e. cc) created
      created_session_young

abbrev free_round : Round
free_round = record { others = []; env = at_time (pos 20); delivered = true; cancelled = false }

wait_for_unlock_iff_example :
    (wait_for_unlock
        (wait_loop stamps anchored create_request (text "core") (free_round ∷ []) empty_service).1
      ≡ true)
    ↔ Frees stamps anchored create_request (text "core") (free_round ∷ []) empty_service
wait_for_unlock_iff_example =
    wait_for_unlock_iff stamps anchored create_request (text "core") (free_round ∷ []) empty_service

abbrev faulty : Turn
faulty = record { attempt = fault; waited = false; cancelled = false }

abbrev locked_turn : Turn
locked_turn = record { attempt = refused_lock; waited = true; cancelled = false }

abbrev turns : List Turn
turns = locked_turn ∷ faulty ∷ faulty ∷ faulty ∷ []

begin_session_ends_example : begin_session 1 turns 0 ≢ unfinished
begin_session_ends_example = begin_session_ends 1 turns (omega arith)

abbrev good : Turn
good = record { attempt = made (text "1z") (text "snap_1z"); waited = false; cancelled = false }

begin_session-faults_example :
    (good.attempt ≡ made (text "1z") (text "snap_1z")
      → begin_session 5 (faults 5 (good ∷ [])) 0 ≡ begun (text "1z") (text "snap_1z"))
    × (good.attempt ≡ fault → begin_session 5 (faults 5 (good ∷ [])) 0 ≡ gave_up)
begin_session-faults_example = begin_session-faults 5 good [] (text "1z") (text "snap_1z")

read_session-handle_session_create_example :
    (read_session (
        some
          (handle_session_create stamps anchored create_env create_request
            (some create_core)
            empty_service).1)
      ≡ refused_lock)
    ↔ (((create_request.method == post) ≡ true)
        × ((trim_space (text "core") == []) ≡ false)
        × (authorize_module empty_service.cfg create_request (text "core") ≡ true)
        × ((is_locked stamps create_env.lock_env (lock_path (text "core")) empty_service.locks).1
            ≢ none))
read_session-handle_session_create_example =
    read_session-handle_session_create stamps anchored create_env create_request create_core
      empty_service
