-- ===== src/Tests/Promotions.antt =====
-- A run of downloadAll on two concrete entries.
use http_syncer.Base.{true, false, List, [], ◌∷◌, Text, text, lookup}
use http_syncer.Base.Int.{pos}
use http_syncer.Snapshot.{ManifestEntry}
use http_syncer.Client.Download.Resumed.{serve_from, working}
use http_syncer.Client.Promote.{Target, link}
use http_syncer.Client.DownloadAll.{GroupEnv, download_all}
use http_syncer.Client.DownloadAll.Stored.{Honest}
use http_syncer.Tests.Downloads.{itself, hello}

abbrev copy : ManifestEntry
copy = record hello { path = text "d/b"; mtime = pos 7 }

abbrev pub empty : Target
empty = record { store = record { objects = []; parts = [] }; files = [] }

abbrev pub smooth : Text → GroupEnv
smooth checksum = record {
  stopped = false;
  server = serve_from (text "hello") 9;
  disk = working (pos 3);
  promotion = record {
    steps = λ path. record { makes = true; removes = true; links = true };
    chmods = true;
    sets_times = true;
  };
  astray = λ state. state;
}

abbrev both : List ManifestEntry
both = copy ∷ hello ∷ []

abbrev filled : Target
filled = record {
  store = record {
    objects = (text "hello", record { content = text "hello"; mode = 420; mtime = pos 9 }) ∷ [];
    parts = [];
  };
  files =
      (text "/t/a", link (text ".sync-http-objects/hello"))
      ∷ (text "/t/d/b", link (text "../.sync-http-objects/hello"))
      ∷ [];
}

pub nothing-Honest : Honest itself empty.store
unfolding lookup
nothing-Honest checksum x h = cc

-- The target directory before and after.
abbrev left : Target
left = (download_all itself (text "/t") true smooth both empty).0
