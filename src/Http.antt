-- ===== src/Http.antt =====
-- cks_simulator/exam_server.py, `_ExamRequestHandler`: the routes of the exam's browser interface
-- over a controller. A request holds what Python's HTTP server and `urlsplit` give: the parts of the
-- path, the headers, and the body as `json.loads` reads it. The security headers are left out, and
-- so are errors outside `Exception`, which leave the handler.
pub mod Guards
mod Examples
use Prim.Native.Char.{Char, code}
use cks_simulator.Common.{
  ℕ, ◌*◌, String, Bool, true, false, not, ◌&&◌, ◌||◌, Option, none, some, List, [], ◌∷◌, ◌++◌, leb,
  ◌==◌, if◌then◌else◌, str_eq, codes, codes_eq, is_space, is_empty, ◌⊎◌, inl, inr, take_text, ◌+++◌,
  Json, Fields, end, field, no_fields, Kind, Exception, Result, ok, err,
}

abbrev pub max_request_bytes : ℕ
max_request_bytes = 4096

abbrev max_response_bytes : ℕ
max_response_bytes = 2 * 1024 * 1024

-- `length` is `none` if the header is missing or no number; `body` is `none` if it is no JSON.
pub record Request : Type 0 where
  pub path : String
  pub query : String
  pub fragment : String
  pub origin : Option String
  pub content_type : String
  pub length : Option ℕ
  pub body : Option Json

pub data Response : Type 0 where
  json : ℕ → Json → Response
  bytes : ℕ → String → String → Response

-- The controller's requests, over its own state.
pub record Controls (W : Type 0) : Type 0 where
  pub snapshot : W → Result Json × W
  pub update_progress : String → Fields → W → Result Json × W
  pub check : String → W → Result Json × W
  pub submit : W → Result Json × W

-- The server: its capability token, its own origin, the size of an encoded value, and the size of
-- an asset, `none` if it cannot be read.
pub record Server : Type 0 where
  pub token : String
  pub origin : String
  pub size_of : Json → ℕ
  pub asset_size : String → Option ℕ

-- `value[len(prefix):]` if `value.startswith(prefix)`
pub strip_prefix : String → String → Option String
strip_prefix String.[] s = some s
strip_prefix (String.◌∷◌ c p) String.[] = none
strip_prefix (String.◌∷◌ c p) (String.◌∷◌ d s) =
    let rest = strip_prefix p s in if code c == code d then rest else none

is_text : String → Bool
is_text String.[] = false
is_text (String.◌∷◌ _ _) = true

base : Server → String
base server = "/s/" +++ server.token +++ "/"

-- `_route`
pub route : Server → Request → Option String
unfolding strip_prefix is_text base
route server request =
    if is_text request.query || is_text request.fragment
    then none
    else strip_prefix (base server) request.path

response_too_large : Json
response_too_large = Json.obj (field "error" (Json.str "response_too_large") end)

-- `_send_json`; the answer to a value that is too large is small.
send_json : Server → ℕ → Json → Response
unfolding response_too_large
send_json server status value =
    if leb (server.size_of value) max_response_bytes
    then json status value
    else json 500 response_too_large

-- `_error`
error_response : Server → ℕ → String → String → Response
unfolding send_json
error_response server status name detail = send_json server status (
    Json.obj (field "error" (Json.str name) (field "detail" (Json.str (take_text 512 detail)) end)))

abbrev not_found : Server → Response
not_found server = error_response server 404 "not_found" "resource not found"

-- The branches of `_dispatch` on what the action has raised.
raised : Server → Kind → String → Response
unfolding error_response
raised server Kind.exam_conflict_error detail = error_response server 409 "exam_conflict" detail
raised server Kind.exam_state_error detail = error_response server 400 "invalid_exam_request" detail
raised server _ detail =
    error_response server 500 "exam_operation_failed" "trusted exam operation failed"

outcome : Server → Result Json → Response
unfolding send_json raised
outcome server (ok value) = send_json server 200 value
outcome server (err e) = raised server e.kind e.message

extend : Char → List String → List String
extend c [] = (String.◌∷◌ c "") ∷ []
extend c (t ∷ ts) = (String.◌∷◌ c t) ∷ ts

-- `value.split("/")`
pub split_slashes : String → List String
unfolding extend
split_slashes String.[] = "" ∷ []
split_slashes (String.◌∷◌ c s) =
    let rest = split_slashes s in if code c == b'/' then "" ∷ rest else extend c rest

drop_spaces : List ℕ → List ℕ
drop_spaces [] = []
drop_spaces (c ∷ cs) = let rest = drop_spaces cs in if is_space c then rest else c ∷ cs

-- `rstrip` and the part before the first semicolon
before_semicolon : List ℕ → List ℕ
before_semicolon [] = []
before_semicolon (c ∷ cs) = let rest = before_semicolon cs in if c == b';' then [] else c ∷ rest

drop_last_spaces : List ℕ → List ℕ
drop_last_spaces [] = []
drop_last_spaces (c ∷ cs) =
    let rest = drop_last_spaces cs in if is_space c && is_empty rest then [] else c ∷ rest

-- `content_type.split(";", 1)[0].strip() == "application/json"`
pub is_json : String → Bool
unfolding before_semicolon drop_spaces drop_last_spaces
is_json s =
    codes_eq (drop_spaces (drop_last_spaces (before_semicolon (codes s))))
      (codes "application/json")

-- `not 0 <= length <= MAX_REQUEST_BYTES`
abbrev fits : Option ℕ → Bool
fits none = false
fits (some n) = leb n max_request_bytes

-- `_read_json`: the object, or the response that has been sent.
read_body : Server → Option Json → Fields ⊎ Response
unfolding error_response
read_body server none =
    inr (error_response server 400 "invalid_json" "request body is not valid JSON")
read_body server (some (Json.obj fields)) = inl fields
read_body server (some _) =
    inr (error_response server 400 "invalid_json" "request body must be an object")

read_json : Server → Request → Fields ⊎ Response
unfolding error_response is_json read_body
read_json server request =
    if not (is_json request.content_type)
    then inr (error_response server 415 "invalid_content_type" "application/json is required")
    else if not (fits request.length)
    then inr (error_response server 413 "invalid_length" "request body is too large")
    else read_body server request.body

abbrev from_origin : Server → Option String → Bool
from_origin server none = false
from_origin server (some origin) = str_eq origin server.origin

asset_of : String → Option (String × String)
asset_of route =
    if str_eq route ""
    then some ("index.html", "text/html; charset=utf-8")
    else if str_eq route "assets/app.js"
    then some ("app.js", "text/javascript; charset=utf-8")
    else if str_eq route "assets/styles.css"
    then some ("styles.css", "text/css; charset=utf-8")
    else none

-- `_send_bytes` of an asset
send_asset : Server → String → String → Option ℕ → Response
unfolding error_response response_too_large
send_asset server filename content_type none =
    error_response server 500 "asset_missing" "ExamUI asset is unavailable"
send_asset server filename content_type (some size) =
    if leb size max_response_bytes
    then bytes 200 content_type filename
    else send_json server 500 response_too_large

get_asset : Server → Option (String × String) → Response
unfolding error_response send_asset
get_asset server none = not_found server
get_asset server (some (filename, content_type)) =
    send_asset server filename content_type (server.asset_size filename)

module _ {W : Type 0} (server : Server) (controls : Controls W) where
  -- `_dispatch`
  pub dispatch : (W → Result Json × W) → W → Response × W
  unfolding outcome
  dispatch action w = let (r, w') = action w in (outcome server r, w')

  get_route : Option String → W → Response × W
  unfolding dispatch asset_of get_asset
  get_route none w = (not_found server, w)
  get_route (some path) w =
      if str_eq path "api/session"
      then dispatch controls.snapshot w
      else (get_asset server (asset_of path), w)

  pub do_get : Request → W → Response × W
  unfolding route get_route
  do_get request w = get_route (route server request) w

  -- The operations on one task.
  task_operation : String → String → Fields → W → Response × W
  unfolding dispatch error_response
  task_operation task_id operation value w =
      if str_eq operation "progress"
      then dispatch (controls.update_progress task_id value) w
      else if not (str_eq operation "check")
      then (not_found server, w)
      else if not (no_fields value)
      then (error_response server 400 "invalid_check" "check accepts no candidate evidence", w)
      else dispatch (controls.check task_id) w

  task_route : List String → Fields → W → Response × W
  unfolding task_operation error_response
  task_route (api ∷ tasks ∷ task_id ∷ operation ∷ []) value w =
      if str_eq api "api" && str_eq tasks "tasks"
      then task_operation task_id operation value w
      else (not_found server, w)
  task_route _ value w = (not_found server, w)

  post_body : String → Fields ⊎ Response → W → Response × W
  unfolding dispatch task_route error_response
  post_body path (inr sent) w = (sent, w)
  post_body path (inl value) w =
      if not (str_eq path "api/submit")
      then task_route (split_slashes path) value w
      else if not (no_fields value)
      then (error_response server 400 "invalid_submit" "submit accepts no candidate fields", w)
      else dispatch controls.submit w

  post_route : Option String → Request → W → Response × W
  unfolding post_body error_response
  post_route none request w = (not_found server, w)
  post_route (some path) request w =
      if not (from_origin server request.origin)
      then (error_response server 403 "invalid_origin" "request origin is not authorized", w)
      else post_body path (read_json server request) w

  pub do_post : Request → W → Response × W
  unfolding route read_json post_route
  do_post request w = post_route (route server request) request w
