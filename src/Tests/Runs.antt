-- ===== src/Tests/Runs.antt =====
-- A run of the client on concrete maps, and its commit with a concrete service.
use http_syncer.Base.{
  ◌≡◌, ◌↔◌, refl, true, false, [], ◌∷◌, some, text, ◌==◌, Dict, lookup, has_char,
}
use http_syncer.Base.Int.{pos}
use http_syncer.Path.{slash}
use http_syncer.Snapshot.{ManifestEntry, sort_by}
use http_syncer.Snapshot.Sort.{insert_by}
use http_syncer.Server.{Session, committed, commit_ok}
use http_syncer.Client.Plan.{
  GuardConfig, make_plan, to_download, to_delete, missing_from, left_over, outdated, delete_guard,
}
use http_syncer.Client.Promote.{Target, link}
use http_syncer.Client.Commit.{is_accepted}
use http_syncer.Client.Commit.Accepted.{done, MayCommit, is_accepted-handle_session_commit}
use http_syncer.Client.Run.{Report, RunEnv}
use http_syncer.Tests.Servers.{service, address}
use http_syncer.Tests.Downloads.{hello}
use http_syncer.Tests.Promotions.{smooth, empty}

abbrev steady : RunEnv
steady = record {
  stages = true;
  makes = true;
  groups = smooth;
  removes = λ p. true;
  commits = λ report. some (record { code = 200; payload = commit_ok });
}

abbrev relaxed : GuardConfig
relaxed = record { force = true; min_files = pos 0; over = λ planned total. true }

abbrev remote : Dict ManifestEntry
remote = (text "a", hello) ∷ []

abbrev local : Dict ManifestEntry
local = (text "old", record hello { path = text "old" }) ∷ []

abbrev before : Target
before = record empty { files = (text "/t/old", link (text "x")) ∷ [] }

abbrev after : Target
after = record {
  store = record {
    objects = (text "hello", record { content = text "hello"; mode = 420; mtime = pos 9 }) ∷ [];
    parts = [];
  };
  files = (text "/t/a", link (text ".sync-http-objects/hello")) ∷ [];
}

abbrev report : Report
report = record { downloaded = 1; deleted = 1; bytes_written = 5 }

planned : make_plan relaxed remote local ≡ some (hello ∷ [], text "old" ∷ [])
unfolding make_plan to_download to_delete missing_from left_over outdated delete_guard sort_by
    insert_by lookup ◌==◌
planned = refl

no_slash : has_char slash (text "1") ≡ false
unfolding has_char
no_slash = refl

is_accepted-handle_session_commit_example :
    ((is_accepted (some (done (text "t1") address (text "1") service).1) ≡ true)
      ↔ ((sess : Session) × MayCommit (text "t1") address (text "1") service sess))
    × ((sess : Session)
        → MayCommit (text "t1") address (text "1") service sess
        → lookup (text "1") (done (text "t1") address (text "1") service).0.sessions
          ≡ some (record sess { status = committed }))
is_accepted-handle_session_commit_example =
    is_accepted-handle_session_commit (text "t1") address (text "1") service no_slash
