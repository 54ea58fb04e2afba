-- ===== src/Http/Guards.antt =====
-- What a browser request can reach: nothing without the token, no change from a foreign page.
use Prim.Native.Char.{code}
use text.Mathlib.TextEquality.{Char-path}
use cks_simulator.Common.{
  ℕ, ◌≤◌, ◌≡◌, refl, ◌↔◌, ◌⊎◌, inl, inr, String, true, false, some, List, [], ◌∷◌, ◌+++◌, ◌==◌,
  ◌&&◌, str_eq, eq_iff, no_fields, Bool-cases, Option-cases, Json, Fields, arith,
}
use cks_simulator.Http.{
  max_request_bytes, Request, Response, Controls, Server, strip_prefix, is_text, base, route,
  is_json, split_slashes, do_get, do_post, read_body, read_json, get_route, post_route, post_body,
  task_route, task_operation, dispatch, from_origin,
}

strip_prefix_append : (p t : String) → strip_prefix p (p +++ t) ≡ some t
unfolding strip_prefix ◌+++◌
strip_prefix_append String.[] t = refl
strip_prefix_append (String.◌∷◌ c p) t = ground (arith, strip_prefix_append p t)

append_strip_prefix : (p s t : String) → strip_prefix p s ≡ some t → s ≡ p +++ t
unfolding strip_prefix ◌+++◌
append_strip_prefix String.[] s t h = cc
append_strip_prefix (String.◌∷◌ c p) String.[] t h = cc
append_strip_prefix (String.◌∷◌ c p) (String.◌∷◌ d s) t h = elim (Bool-cases (code c == code d)) [
  | inl same ↦
      let head : d ≡ c = Char-path d c (ground arith) in
      let rest : s ≡ p +++ t = append_strip_prefix p s t (ground arith) in rw (head, rest) refl
  | inr other ↦ absurd (ground arith)
]

is_text_iff : (s : String) → (is_text s ≡ false) ↔ (s ≡ "")
unfolding is_text
is_text_iff String.[] = ((λ h. refl), (λ h. refl))
is_text_iff (String.◌∷◌ c s) = ((λ h. cc), (λ h. cc))

-- The path of the request is the token's path followed by the route.
pub record Routed (server : Server) (request : Request) (path : String) : Type 0 where
  pub no_query : request.query ≡ ""
  pub no_fragment : request.fragment ≡ ""
  pub under_token : request.path ≡ ("/s/" +++ server.token +++ "/") +++ path

-- A request has a route exactly if its path is `/s/`, the token, `/` and that route, without a query
-- or a fragment.
pub route_iff :
    (server : Server) (request : Request) (path : String)
    → (route server request ≡ some path) ↔ Routed server request path
unfolding route base
route_iff server request path = (
  (λ h.
      let bare : (is_text request.query ≡ false) × (is_text request.fragment ≡ false) =
        ground arith in
      let stripped : strip_prefix ("/s/" +++ server.token +++ "/") request.path ≡ some path =
        ground arith in
      record {
        no_query = (is_text_iff request.query).0 bare.0;
        no_fragment = (is_text_iff request.fragment).0 bare.1;
        under_token =
            append_strip_prefix ("/s/" +++ server.token +++ "/") request.path path stripped;
      }),
  (λ r.
      let under : request.path ≡ ("/s/" +++ server.token +++ "/") +++ path = r.under_token in
      rw under (
        ground (
          arith,
          r.no_query,
          r.no_fragment,
          is_text_iff request.query,
          is_text_iff request.fragment,
          strip_prefix_append ("/s/" +++ server.token +++ "/") path,
        ))),
)

-- A request that a page of the server's own origin has sent: JSON, of a bounded length, an object.
pub record Trusted (server : Server) (request : Request) (fields : Fields) : Type 0 where
  pub own_origin : request.origin ≡ some server.origin
  pub media_type : is_json request.content_type ≡ true
  pub bounded : (n : ℕ) × (request.length ≡ some n) × (n ≤ max_request_bytes)
  pub object : request.body ≡ some (Json.obj fields)

module _ {W : Type 0} (server : Server) (controls : Controls W) where
  -- The operation that a route names, on the state.
  pub data Acts (path : String) (fields : Fields) (w w' : W) : Type 0 where
    submits :
        path ≡ "api/submit"
        → no_fields fields ≡ true
        → w' ≡ (controls.submit w).1
        → Acts path fields w w'
    progresses :
        (task : String)
        → split_slashes path ≡ "api" ∷ "tasks" ∷ task ∷ "progress" ∷ []
        → w' ≡ (controls.update_progress task fields w).1
        → Acts path fields w w'
    checks :
        (task : String)
        → split_slashes path ≡ "api" ∷ "tasks" ∷ task ∷ "check" ∷ []
        → no_fields fields ≡ true
        → w' ≡ (controls.check task w).1
        → Acts path fields w w'

  operation-Acts :
      (path task operation : String) (fields : Fields) (w : W)
      → split_slashes path ≡ "api" ∷ "tasks" ∷ task ∷ operation ∷ []
      → ((task_operation server controls task operation fields w).1 ≡ w)
        ⊎ Acts path fields w (task_operation server controls task operation fields w).1
  unfolding task_operation dispatch
  operation-Acts path task operation fields w parts =
      elim (Bool-cases (str_eq operation "progress")) [
        | inl it ↦
            let named : operation ≡ "progress" = (eq_iff operation "progress").0 it in
            inr (progresses task (rw named at parts) (rw it refl))
        | inr other ↦ elim (Bool-cases (str_eq operation "check")) [
          | inr neither ↦ inl (rw (other, neither) refl)
          | inl it ↦ elim (Bool-cases (no_fields fields)) [
            | inr given ↦ inl (rw (other, it, given) refl)
            | inl empty ↦
                let named : operation ≡ "check" = (eq_iff operation "check").0 it in
                inr (checks task (rw named at parts) empty (rw (other, it, empty) refl))
          ]
        ]
      ]

  task-Acts :
      (path : String) (parts : List String) (fields : Fields) (w : W)
      → split_slashes path ≡ parts
      → ((task_route server controls parts fields w).1 ≡ w)
        ⊎ Acts path fields w (task_route server controls parts fields w).1
  unfolding task_route
  task-Acts path [] fields w e = inl refl
  task-Acts path (a ∷ []) fields w e = inl refl
  task-Acts path (a ∷ b ∷ []) fields w e = inl refl
  task-Acts path (a ∷ b ∷ c ∷ []) fields w e = inl refl
  task-Acts path (a ∷ b ∷ c ∷ d ∷ f ∷ gs) fields w e = inl refl
  task-Acts path (a ∷ b ∷ c ∷ d ∷ []) fields w e =
      elim (Bool-cases (str_eq a "api" && str_eq b "tasks")) [
        | inr other ↦ inl (rw other refl)
        | inl both ↦
            let api : a ≡ "api" = ground (arith, eq_iff a "api") in
            let tasks : b ≡ "tasks" = ground (arith, eq_iff b "tasks") in
            let parts : split_slashes path ≡ "api" ∷ "tasks" ∷ c ∷ d ∷ [] = rw (api, tasks) at e in
            rw both (operation-Acts path c d fields w parts)
      ]

  body-Acts :
      (path : String) (fields : Fields) (w : W)
      → ((post_body server controls path (inl fields) w).1 ≡ w)
        ⊎ Acts path fields w (post_body server controls path (inl fields) w).1
  unfolding post_body dispatch
  body-Acts path fields w = elim (Bool-cases (str_eq path "api/submit")) [
    | inr other ↦ rw other (task-Acts path (split_slashes path) fields w refl)
    | inl it ↦ elim (Bool-cases (no_fields fields)) [
      | inr given ↦ inl (rw (it, given) refl)
      | inl empty ↦ inr (submits ((eq_iff path "api/submit").0 it) empty (rw (it, empty) refl))
    ]
  ]

  Trusted-read_json :
      (request : Request) (fields : Fields)
      → from_origin server request.origin ≡ true
      → read_json server request ≡ inl fields
      → Trusted server request fields
  unfolding read_json read_body
  Trusted-read_json request fields own h = elim (Option-cases request.origin) [
    | inl no_origin ↦ absurd (ground arith)
    | inr (origin, there) ↦ elim (Option-cases request.length) [
      | inl no_length ↦ absurd (ground arith)
      | inr (n, length) ↦ record {
        own_origin = ground (arith, eq_iff origin server.origin);
        media_type = ground arith;
        bounded = (n, length, ground arith);
        object = ground arith;
      }
    ]
  ]

  post-Acts :
      (path : String) (request : Request) (w : W) (r : Fields ⊎ Response)
      → from_origin server request.origin ≡ true
      → read_json server request ≡ r
      → ((post_body server controls path r w).1 ≡ w)
        ⊎ ((fields : Fields) × Trusted server request fields
            × Acts path fields w (post_body server controls path r w).1)
  unfolding post_body
  post-Acts path request w (inr sent) own e = inl refl
  post-Acts path request w (inl fields) own e = elim (body-Acts path fields w) [
    | inl same ↦ inl same
    | inr acts ↦ inr (fields, Trusted-read_json request fields own e, acts)
  ]

  -- A POST leaves the state as it was, or it has the token's path, comes from the server's own
  -- origin with a bounded JSON object, and has done the one operation that its route names.
  pub do_post-Acts :
      (request : Request) (w : W)
      → ((do_post server controls request w).1 ≡ w)
        ⊎ ((path : String) × (fields : Fields) × Routed server request path
            × Trusted server request fields
            × Acts path fields w (do_post server controls request w).1)
  unfolding do_post post_route
  do_post-Acts request w = elim (Option-cases (route server request)) [
    | inl unknown ↦ inl (rw unknown refl)
    | inr (path, found) ↦ elim (Bool-cases (from_origin server request.origin)) [
      | inr foreign ↦ inl (rw (found, foreign) refl)
      | inl own ↦ elim (post-Acts path request w (read_json server request) own refl) [
        | inl same ↦ inl (rw (found, own) same)
        | inr (fields, trusted, acts) ↦
            inr
              (path, fields, (route_iff server request path).0 found, trusted, rw (found, own) acts)
      ]
    ]
  ]

  -- A GET leaves the state as it was, or it is of the session under the token's path, and has done
  -- what a snapshot does.
  pub do_get_reads :
      (request : Request) (w : W)
      → ((do_get server controls request w).1 ≡ w)
        ⊎ (Routed server request "api/session"
            × ((do_get server controls request w).1 ≡ (controls.snapshot w).1))
  unfolding do_get get_route dispatch
  do_get_reads request w = elim (Option-cases (route server request)) [
    | inl unknown ↦ inl (rw unknown refl)
    | inr (path, found) ↦ elim (Bool-cases (str_eq path "api/session")) [
      | inr other ↦ inl (rw (found, other) refl)
      | inl it ↦
          let named : path ≡ "api/session" = (eq_iff path "api/session").0 it in
          inr ((route_iff server request "api/session").0 (rw named at found), rw (found, it) refl)
    ]
  ]
