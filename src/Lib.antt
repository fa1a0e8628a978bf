-- ===== src/Lib.antt =====
-- A model of http-syncer: a server that offers directories ("modules") over HTTP, and a client
-- that brings a local directory to the state of one of them.
--
-- The program. The server (internal/server) keeps an index of each module, a table of sessions, a
-- table of snapshots and a lock manager (internal/lock). An uploader locks a module while it
-- changes it. A client (internal/client) creates a session, for which the server takes a snapshot
-- of the module's index less what the client's exclusions (internal/filter) match; it then reads
-- the snapshot's manifest page by page, downloads and deletes files, and commits the session. A
-- request is authorized by a token of the module it is about.
--
-- The files.
--   Base, Base/*: the shared names, texts, dictionaries and numbers. A text is the list of its code
--     points, a map an association list, and an int is a natural number or a ℤ.
--   Path, Path/*: Clean, Join, Abs and Rel of Go's package path/filepath on Unix.
--   Walk: filepath.WalkDir of Go, over a tree of files; Walk/Collect is about a callback that collects.
--   Filter (internal/filter/exclude.go): NewExcluder and Match; Filter/Glob is filepath.Match, and
--     Filter/Laws describes what is excluded.
--   Lock (internal/lock/manager.go): TryAcquire is try_acquire, IsLocked is_locked, Release
--     release, NewManager new_manager. Lock/Paths and Lock/Overlap are about paths that overlap,
--     Lock/Scan and Lock/Kept about the loops, Lock/Exclusion about sequences of calls,
--     Lock/Holding about the time that a lock is held, Lock/Returned about one that is given back,
--     Lock/Files about the lock files, and Lock/Restart about a lock after a restart.
--   Snapshot (internal/server/snapshot_indexer.go, with the types of internal/server/snapshot.go
--     and internal/common/types.go): buildSnapshot is build_snapshot, from snapshot_of on.
--     Snapshot/Sort is the order of a manifest, Snapshot/Tables and Snapshot/Contents are about
--     what a snapshot holds. Snapshot/Scan is scanModuleSnapshot, rebuild and newSnapshotIndexer, and
--     BuildSnapshot of internal/server/snapshot.go; Snapshot/Scan/Files is about what a scan lists,
--     Legacy about the two builders, Ready about the indexes of a configuration.
--   Server (internal/server/server.go): the state of the service, authorization and the audit
--     events. Server/LockApi, SessionApi, ManifestApi and ObjectApi hold a handler of the source
--     each (two in LockApi and SessionApi), as a function from the service to the service and the
--     answer, with one helper for each early return. Server/Calls is the choice of the handler, with the
--     health check and what handleLockWaitWS does before its loop,
--     Server/Authorization is about what an unauthorized request can do, Server/Registry and
--     Server/Upkeep about the tables of sessions and snapshots, Server/Objects about a download,
--     Server/Admission about the requests that create a session, Server/Expiry about the sessions
--     that a cleanup leaves, Server/Fresh and Fresh/Answered about a
--     session that has just been created.
--     Server/Loading (internal/server/module_config.go) is LoadFileConfig, with its loop over modules
--     in Loading/Modules and what a loaded configuration promises in Loading/Sound. Server/Start is
--     New, Server/Proxies is parseTrustedProxies and requestClientIP, and Server/WaitApi is
--     handleLockWaitWS with the client's waitForUnlockWS at the other end. Server/Audit
--     (internal/server/audit.go) is the AuditWriter, and Audit/Retained is about its cleanup.
--     Server/Command (cmd/sync-server/main.go) is the server's command up to its service.
--   Client (internal/client/client.go): fetchManifest; Client/Fetch is its loop against any
--     server that pages a list, Client/Manifest its loop against the handler of the server.
--     Client/Plan is the part of Run from the two maps of files to enforceDeleteGuard, Client/Plan/*
--     what the plan makes of the local map. Client/Session is createSessionOnce and the loop of Run
--     around it: Session/Retries is about the end of the loop, Session/Locked about the answers of
--     the server's handler. Client/Download is downloadObject: Download/Verified is about any
--     server, Download/Resumed and Download/Attempts about one that serves ranges. Client/Promote is
--     promoteObjectToEntries and Client/DownloadAll downloadAll, with its groups in
--     DownloadAll/Groups and DownloadAll/Counts; DownloadAll/Contents and DownloadAll/Stored are about
--     the object store, DownloadAll/Keeping and DownloadAll/Honest about what is kept of it
--     and of the other files, DownloadAll/Succeeds about a group without an error, Promote/Links and
--     DownloadAll/Linked about the links. Client/Local is scanLocal,
--     Client/Commit commitSession, and Client/Run what Run does from the two maps of files on. Client/Paths
--     is about the paths of requests. Client/Journey joins the handlers of the server with fetchManifest.
--   Tests, Tests/*: runs at concrete inputs.
--
-- Parameters. Code outside the repository is an argument of the model: package regexp is an
-- `Engine`, the text form of a time a `TimeText`, and what the system decides during a call (the
-- clock, whether a listing, a read, a removal, a write, an open or a stat succeeds, the working directory) comes with
-- the call, in an `Env` or a `CreateEnv`. The guard compares floating-point numbers by a
-- parameter. The JSON body of a request comes decoded, or as `none` where decoding fails. The
-- handler comes selected, as an `Endpoint`, and the parameters of a query and the client's address
-- come parsed with the request. The loading of a configuration starts from the decoded YAML, with
-- time.ParseDuration as a parameter; the packages net and net/netip are a `Netip`. A tree of files
-- comes with what the system says of each file, its SHA-256 included; for a download SHA-256 is a
-- function. What happens in one round of a loop that waits or tries again (the requests served
-- meanwhile, the delivery of a message, an attempt's result) comes as a list of rounds.
--
-- Bounds and fuel. The loop of fetch_manifest runs on fuel, one more than the manifest has entries,
-- which is enough since a page has at least one entry. The loops that wait, or try again, run over
-- their rounds, and say so if these run out. A page size or a cursor is at most what
-- strconv.Atoi reads in 64 bits. The time of a lock in seconds is multiplied in 64 bits, with its
-- wrap-around; sums of times are not bounded.
--
-- Simplifications. The texts of errors, the process log and the headers of an answer are left out.
-- sort.Slice is an insertion sort. Go's order of iteration over a map is the order of the
-- association list. A mutex makes a call atomic, so that a sequence of calls is a list. Separate
-- critical sections of one handler run without another request between them.
-- A request to the modelled handler has no Range and no conditional header; a server that serves
-- ranges, as http.ServeContent does, is modelled by itself in Client/Download/Resumed. A callback
-- of WalkDir is handed the path relative to the root, which the source computes by filepath.Rel.
-- The staging folder of a run, into which nothing is written, is left out. Addresses that New parses
-- are not kept in the service, since a request comes with its client's.
-- The goroutines of downloadAll are taken one after another, in the order of the checksums. A link's
-- text is kept as filepath.Rel gives it, and is not resolved.
-- A run of the client is given the two maps of files, which fetchManifest and scanLocal make. The
-- target directory, apart from the tree that a scan walks, is the objects and the parts of the store by
-- checksum, and the other files and all links by their full paths; a removal (remove_path) takes what lies
-- at a path, an object or a part too. None of its folders is a link. A link at the path of an object or a
-- part, or a checksum that is no file name, is noticed (taken), and what the system then does to the
-- directory is a parameter (astray).
-- The service's audit is the list of its events, apart from the files of the audit log. A calendar's
-- days, for these files, are a parameter.
--
-- Not modelled: the client's command, the watcher that calls rebuild, and the defaults that Run fills into
-- its configuration.
pub mod Base
pub mod Path
pub mod Walk
pub mod Filter
pub mod Snapshot
pub mod Lock
pub mod Server
pub mod Client
mod Tests
