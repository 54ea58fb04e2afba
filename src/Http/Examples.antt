-- ===== src/Http/Examples.antt =====
-- The theorems on browser requests at a controller that counts what it does.
use cks_simulator.Common.{
  ℕ, ◌+◌, ◌+++◌, codes_eq, is_space, ◌≡◌, refl, ◌↔◌, ◌⊎◌, String, true, some, Json, Fields, end,
  field, ok,
}
use cks_simulator.Http.{Request, Controls, Server, route, split_slashes, do_get, do_post}
use cks_simulator.Http.Guards.{Routed, Trusted, Acts, route_iff, do_post-Acts, do_get_reads}

abbrev server : Server
server = record {
  token = "secret";
  origin = "http://127.0.0.1:8000";
  size_of = λ value. 100;
  asset_size = λ filename. some 1000;
}

abbrev controls : Controls ℕ
controls = record {
  snapshot = λ w. (ok Json.null, w + 1);
  update_progress = λ task fields w. (ok Json.null, w + 10);
  check = λ task w. (ok Json.null, w + 100);
  submit = λ w. (ok Json.null, w + 1000);
}

abbrev request_of : String → Fields → Request
request_of path fields = record {
  path = path;
  query = "";
  fragment = "";
  origin = some "http://127.0.0.1:8000";
  content_type = "application/json; charset=utf-8";
  length = some 2;
  body = some (Json.obj fields);
}

abbrev progress : Request
progress = request_of "/s/secret/api/tasks/07/progress" (field "flagged" (Json.bool true) end)

-- The routes reach the operations, and a wrong token or a foreign page reaches none.
progress_reached : (do_post server controls progress 0).1 ≡ 10
unfolding do_post ◌+++◌ codes_eq is_space split_slashes
progress_reached = refl

submit_reached : (do_post server controls (request_of "/s/secret/api/submit" end) 0).1 ≡ 1000
unfolding do_post ◌+++◌ codes_eq is_space
submit_reached = refl

wrong_token : (do_post server controls (request_of "/s/public/api/submit" end) 0).1 ≡ 0
unfolding do_post ◌+++◌ codes_eq is_space
wrong_token = refl

foreign_page :
    (do_post server controls (record progress { origin = some "http://evil.example" }) 0).1 ≡ 0
unfolding do_post ◌+++◌ codes_eq is_space
foreign_page = refl

route_iff_example :
    (route server progress ≡ some "api/tasks/07/progress")
    ↔ Routed server progress "api/tasks/07/progress"
route_iff_example = route_iff server progress "api/tasks/07/progress"

do_post-Acts_example :
    ((do_post server controls progress 0).1 ≡ 0)
    ⊎ ((path : String) × (fields : Fields) × Routed server progress path
        × Trusted server progress fields
        × Acts server controls path fields 0 (do_post server controls progress 0).1)
do_post-Acts_example = do_post-Acts server controls progress 0

do_get_reads_example :
    ((do_get server controls (request_of "/s/secret/api/session" end) 0).1 ≡ 0)
    ⊎ (Routed server (request_of "/s/secret/api/session" end) "api/session"
        × ((do_get server controls (request_of "/s/secret/api/session" end) 0).1 ≡ 1))
do_get_reads_example = do_get_reads server controls (request_of "/s/secret/api/session" end) 0
