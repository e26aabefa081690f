-- ===== src/Forge/Http.antt =====
-- What the adapters ask of net/http, net/url, encoding/json and encoding/base64, and
-- internal/httpauth.
pub mod Replies
use backup_git_repos.Base.{
  Text, text, ℕ, List, [], ◌++◌, Option, none, some, Bool, nat_beq, if◌then◌else◌,
}
use backup_git_repos.Error.{Err, Result, ok, err, wrap, unexpected_status, external}
use backup_git_repos.World.{Io, wrapping, settle, ◌>>=◌}
use backup_git_repos.Metadata.Write.{Body}

-- A URL before it is printed: a base, the path joined to it and the query.
pub record Url : Type 0 where
  pub base : Text
  pub path : Text
  pub query : List (Text × Text)

pub record Request : Type 0 where
  pub url : Url
  pub headers : List (Text × Text)

pub record Response : Type 0 where
  pub status : ℕ
  -- The value of a header, empty where it is missing.
  pub header : Text → Text
  pub body : Text
  -- The error that ends the reading of the body, if not its end.
  pub broken : Option Err

-- `http.Client.Do` on a GET, URL.JoinPath with the printed URL, strconv.Itoa and base64.
pub record Web : Type 0 where
  pub send : Request → Io Response
  pub valid_url : Text → Bool
  pub join_url : Text → Text → Text
  -- `url.Parse` and the path of the result.
  pub url_path : Text → Option Text
  -- A base with the path and the query of another URL in the place of its own, printed.
  pub rehost : Text → Text → Text
  -- `url.PathEscape`
  pub path_escape : Text → Text
  pub itoa : ℕ → Text
  pub base64 : Text → Text

-- `httpauth.Basic`
unfoldable pub basic : Web → Text → Text → Text
basic web user password = web.base64 (user ++ (text ":" ++ password))

-- What a response to a GET decodes to, and the response; anything but status 200 is an error.
unfoldable pub decode_response {ℓ} :
    {A : Type ℓ} → (Text → Option A) → Response → Result (A × Response)
decode_response decode r =
    if nat_beq r.status 200
    then elim (decode r.body) [
      | none ↦ err (wrap (text "decode response") (external (text "json")))
      | some a ↦ ok (a, r)
    ]
    else err (unexpected_status r.status)

unfoldable pub check_status : Response → Result (Unit {0})
check_status r = if nat_beq r.status 200 then ok tt else err (unexpected_status r.status)

-- What `getJSON` and `getOptional` make of a response.
unfoldable pub json_value {ℓ} : {A : Type ℓ} → (Text → Option A) → Response → Result A
json_value decode r =
    if nat_beq r.status 200
    then elim (decode r.body) [
      | none ↦ err (wrap (text "decode response") (external (text "json")))
      | some a ↦ ok a
    ]
    else err (wrap (text "get") (unexpected_status r.status))

-- `getJSON` of a client with these headers.
unfoldable pub get_with : {A : Type 0} → Web → List (Text × Text) → (Text → Option A) → Url → Io A
get_with web headers decode url = do
  response ← wrapping (text "get") (web.send (record { url = url; headers = headers }))
  λ w. (json_value decode response, w)

-- A URL that is used as it is.
abbrev pub whole_url : Text → Url
whole_url raw = record { base = raw; path = text ""; query = [] }

-- The body of a response, for the writer of an asset to read.
abbrev pub asset_body : Response → Body
asset_body r = record { content = r.body; failure = r.broken }
