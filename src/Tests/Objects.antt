-- ===== src/Tests/Objects.antt =====
-- A request for an object of a concrete snapshot.
use http_syncer.Base.{
  ◌≡◌, ◌≢◌, refl, inl, true, false, [], ◌∷◌, some, Text, text, ◌==◌, In, lookup, after_prefix,
  has_prefix, trim_prefix, has_suffix, trim_suffix, split, insert, text_lt,
}
use http_syncer.Base.Int.{pos}
use http_syncer.Path.{clean, join_path}
use http_syncer.Filter.{match_path, first_glob, first_regex, glob_hits, path_match}
use http_syncer.Snapshot.{
  ManifestEntry, Snapshot, source_prefix, below_prefix, add_checksum, add_entry, add_option, pick,
  fill, snapshot_of, sort_by,
}
use http_syncer.Snapshot.Sort.{insert_by}
use http_syncer.Snapshot.Tables.{snapshot_of-IsFaithful}
use http_syncer.Server.{
  Service, Request, get, get_param, authorize_module, token_from_header, module_for_snapshot,
}
use http_syncer.Server.ObjectApi.{handle_object}
use http_syncer.Server.Objects.{file_of, handle_object_lem}
use http_syncer.Tests.Filters.{anchored, ex}
use http_syncer.Tests.Snapshots.{plain_file, index_data}
use http_syncer.Tests.Servers.{service, address}

abbrev root : Text
root = text "/srv"

abbrev docs : Text
docs = text "docs"

abbrev snap_id : Text
snap_id = text "snap_1"

abbrev taken_docs : Snapshot
taken_docs = snapshot_of anchored ex snap_id root docs (pos 7) index_data

abbrev wanted : ManifestEntry
wanted = plain_file (text "a.md") (text "s1")

abbrev offering : Service
offering = record service { snapshots = (snap_id, taken_docs) ∷ [] }

abbrev object_request : Request
object_request = record {
  method = get;
  path = text "/v1/objects";
  query = (text "snapshot_id", snap_id) ∷ (text "checksum", text "s1") ∷ [];
  authorization = text "Bearer t1";
  client_ip = address;
}

wanted_listed : In wanted taken_docs.entries
unfolding snapshot_of fill pick add_option add_entry add_checksum source_prefix below_prefix clean
    join_path sort_by match_path first_glob first_regex glob_hits path_match insert lookup ◌==◌
    has_prefix trim_prefix has_suffix trim_suffix split insert_by text_lt
wanted_listed = inl refl

is_get_example : (get == get) ≡ true
unfolding ◌==◌
is_get_example = refl

summed_wanted : wanted.checksum ≢ []
summed_wanted e = absurd (cc)

asks_checksum : get_param (text "checksum") object_request ≡ wanted.checksum
unfolding get_param lookup ◌==◌
asks_checksum = refl

asks_snapshot : (get_param (text "snapshot_id") object_request == []) ≡ false
unfolding get_param lookup ◌==◌
asks_snapshot = refl

finds_module :
    module_for_snapshot (get_param (text "snapshot_id") object_request) offering.sessions
    ≡ some (text "core")
unfolding get_param lookup ◌==◌ module_for_snapshot
finds_module = refl

may_read : authorize_module offering.cfg object_request (text "core") ≡ true
unfolding authorize_module token_from_header after_prefix lookup ◌==◌
may_read = refl

finds_snapshot :
    lookup (get_param (text "snapshot_id") object_request) offering.snapshots ≡ some taken_docs
unfolding get_param lookup ◌==◌
finds_snapshot = refl

handle_object_lem_example :
    (found : ManifestEntry) × In found taken_docs.entries
    × (found.checksum ≡ text "s1")
    × (handle_object (λ file. true) object_request offering ≡ file_of taken_docs found)
handle_object_lem_example =
    handle_object_lem (λ file. true) object_request offering (text "core") taken_docs wanted
      (λ file. refl) (snapshot_of-IsFaithful anchored ex snap_id root docs (pos 7) index_data)
      wanted_listed summed_wanted is_get_example asks_checksum asks_snapshot finds_module may_read
      finds_snapshot
