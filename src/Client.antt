-- ===== src/Client.antt =====
-- internal/client/client.go: the manifest that is fetched; the plan that is made of it stands in a
-- module below.
pub mod Paths
pub mod Fetch
pub mod Manifest
pub mod Plan
pub mod Journey
pub mod Session
pub mod Download
pub mod Promote
pub mod DownloadAll
pub mod Local
pub mod Commit
pub mod Run
use http_syncer.Base.{
  ℕ, zero, suc, ◌-◌, Bool, true, false, not, ◌&&◌, ◌||◌, List, [], ◌∷◌, ◌++◌, Option, none, some,
  Text, text, ◌==◌, Dict, lookup, insert, leb, ltb, nat_eq, has_prefix, if◌then◌else◌,
}
use http_syncer.Base.Int.{ℤ, pos, negsuc}
use http_syncer.Base.Numbers.{itoa}
use http_syncer.Snapshot.{ManifestEntry, Snapshot, sort_by}
use http_syncer.Server.{Request, Answer, Payload, page, get}

-- out[e.Path] = e for the entries of one page
unfoldable pub add_all : List ManifestEntry → Dict ManifestEntry → Dict ManifestEntry
add_all [] out = out
add_all (e ∷ entries) out = add_all entries (insert e.path e out)

-- One answer to a cursor: a page of entries and the next cursor; `none` is any failure.
abbrev pub Respond : Type 0
Respond = Text → Option (List ManifestEntry × Text)

-- One round after the answer; `again` is the rest of the loop.
unfoldable pub after_page :
    (Text → Dict ManifestEntry → Option (Dict ManifestEntry))
    → Dict ManifestEntry
    → Option (List ManifestEntry × Text)
    → Option (Dict ManifestEntry)
after_page again out none = none
after_page again out (some (entries, next)) =
    let more = again next (add_all entries out) in
    if next == [] then some (add_all entries out) else more

-- The loop of `fetchManifest`, on fuel.
unfoldable pub fetch_manifest :
    ℕ → Respond → Text → Dict ManifestEntry → Option (Dict ManifestEntry)
fetch_manifest zero respond cursor out = none
fetch_manifest (suc f) respond cursor out =
    after_page (fetch_manifest f respond) out (respond cursor)

abbrev cursor_param : Text → Dict Text
cursor_param [] = []
cursor_param (c ∷ cursor) = (text "cursor", c ∷ cursor) ∷ []

-- The request for one page, with the query `page_size=…` and, behind the first page, `&cursor=…`.
unfoldable pub manifest_request : Text → Text → Text → ℕ → Text → Request
manifest_request token address snapshot_id page_size cursor = record {
  method = get;
  path = text "/v1/snapshots/" ++ (snapshot_id ++ text "/manifest");
  query = (text "page_size", itoa page_size) ∷ cursor_param cursor;
  authorization = if token == [] then [] else text "Bearer " ++ token;
  client_ip = address;
}

abbrev page_in : Payload → Option (List ManifestEntry × Text)
page_in (page snapshot_id entries next) = some (entries, next)
page_in _ = none

-- How the client reads an answer: codes from 300 on are failures.
unfoldable pub read_page : Answer → Option (List ManifestEntry × Text)
read_page a = if leb 300 a.code then none else page_in a.payload
