-- ===== src/Client/Commit.antt =====
-- commitSession of internal/client/client.go.
pub mod Accepted
use http_syncer.Base.{
  Bool, true, false, not, [], ◌++◌, Option, none, some, Text, text, ◌==◌, leb, if◌then◌else◌,
}
use http_syncer.Server.{Request, Answer, post}

-- The request for a session; the path's end comes with a slash.
unfoldable pub commit_request : Text → Text → Text → Request
commit_request token address sid = record {
  method = post;
  path = text "/v1/sessions/" ++ (sid ++ text "/commit");
  query = [];
  authorization = if token == [] then [] else text "Bearer " ++ token;
  client_ip = address;
}

-- Whether there is no error; `none` is an error of the connection.
unfoldable pub is_accepted : Option Answer → Bool
is_accepted none = false
is_accepted (some a) = not (leb 300 a.code)
