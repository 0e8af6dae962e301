-- ===== src/Router.antt =====
-- `Router` of router.cpp: the parts of a target, matching of patterns, and dispatch.
pub mod Laws
pub mod Patterns
mod Tests
use scand.Prelude.{
  ℕ, zero, suc, ◌-◌, Bool, true, false, not, ◌&&◌, ◌||◌, List, [], ◌∷◌, ◌++◌, Bytes, codes, Option,
  none, some, ◌==◌, is_empty, if◌then◌else◌, bytes_eq, cut, insert, keep, take,
}

-- The parts between the separators, with the empty ones.
unfoldable pub fields : ℕ → Bytes → List Bytes
fields c [] = [] ∷ []
fields c (a ∷ s) = if a == c then [] ∷ fields c s else first a (fields c s)
  where
    first : ℕ → List Bytes → List Bytes
    first b [] = (b ∷ []) ∷ []
    first b (f ∷ fs) = (b ∷ f) ∷ fs

-- What `std::getline` gives part by part, less the empty parts.
unfoldable pub parts : ℕ → Bytes → List Bytes
parts c s = keep (λ f. not (is_empty f)) (fields c s)

unfoldable pub strip_query : Bytes → Bytes
strip_query target = elim (cut b'?' target) [ none ↦ target | some (path, query) ↦ path ]

-- One pair of the query, put into the map.
unfoldable pub add_pair : Bytes → List (Bytes × Bytes) → List (Bytes × Bytes)
add_pair pair m = elim (cut b'=' pair) [
  | none ↦ insert pair [] m
  | some (key, value) ↦ insert key value m
]

unfoldable pub add_pairs : List Bytes → List (Bytes × Bytes) → List (Bytes × Bytes)
add_pairs [] m = m
add_pairs (pair ∷ pairs) m = add_pairs pairs (add_pair pair m)

unfoldable pub parse_query : Bytes → List (Bytes × Bytes)
parse_query target = elim (cut b'?' target) [
  | none ↦ []
  | some (path, query) ↦ add_pairs (parts b'&' query) []
]

unfoldable pub split_path : Bytes → List Bytes
split_path path = parts b'/' path

-- Whether the last byte is that one.
abbrev pub ends_with : ℕ → Bytes → Bool
ends_with c [] = false
ends_with c (a ∷ []) = a == c
ends_with c (a ∷ b ∷ s) = ends_with c (b ∷ s)

-- The text without its last byte.
abbrev pub init : Bytes → Bytes
init [] = []
init (a ∷ []) = []
init (a ∷ b ∷ s) = a ∷ init (b ∷ s)

-- `name` for a part `{name}` of a pattern.
unfoldable pub param_name : Bytes → Option Bytes
param_name [] = none
param_name (a ∷ s) = if (a == b'{') && ends_with b'}' s then some (init s) else none

-- The loop of `match`, with `out_params`; `none` for `false`.
unfoldable pub match_parts :
    List Bytes → List Bytes → List (Bytes × Bytes) → Option (List (Bytes × Bytes))
match_parts [] [] m = some m
match_parts [] (_ ∷ _) m = none
match_parts (_ ∷ _) [] m = none
match_parts (pat ∷ pats) (val ∷ vals) m = elim (param_name pat) [
  | none ↦ if bytes_eq pat val then match_parts pats vals m else none
  | some name ↦ match_parts pats vals (insert name val m)
]

-- A request: its target, body and method, over methods numbered as `http::verb`.
pub record HttpRequest : Type 0 where
  pub method : ℕ
  pub target : Bytes
  pub body : Bytes

pub record RequestContext (J : Type 0) : Type 0 where
  pub req : HttpRequest
  pub body : Option J
  pub path_params : List (Bytes × Bytes)
  pub query_params : List (Bytes × Bytes)

pub record Response (J : Type 0) : Type 0 where
  pub status : ℕ
  pub body : J
  pub raw_body : Bytes
  pub raw_content_type : Bytes

pub record Route (J : Type 0) : Type 0 where
  pub method : ℕ
  pub pattern : Bytes
  pub segments : List Bytes
  pub handler : RequestContext J → Response J

-- `json::parse`, and an object with one field `error`.
pub record Bodies (J : Type 0) : Type 0 where
  pub parse : Bytes → Option J
  pub error : Bytes → J

module _ {J : Type 0} (lib : Bodies J) where
  -- `Router::add`.
  unfoldable pub add : ℕ → Bytes → (RequestContext J → Response J) → List (Route J) → List (Route J)
  add method pattern handler routes =
      routes
      ++ record {
        method = method;
        pattern = pattern;
        segments = split_path pattern;
        handler = handler;
      }
        ∷ []

  abbrev pub error_response : ℕ → Bytes → Response J
  error_response status text = record {
    status = status;
    body = lib.error text;
    raw_body = [];
    raw_content_type = [];
  }

  -- What a route that takes the request answers. The body of the context is `none` where the code has
  -- an empty object.
  unfoldable pub answer : Route J → List (Bytes × Bytes) → HttpRequest → Response J
  answer route params req =
      let context : Option J → RequestContext J = λ body. record {
        req = req;
        body = body;
        path_params = params;
        query_params = parse_query req.target;
      } in
      if is_empty req.body then route.handler (context none) else elim (lib.parse req.body) [
        | none ↦ error_response 400 (codes "invalid json")
        | some value ↦ route.handler (context (some value))
      ]

  -- The loop over the routes, with `path_matched_any`.
  unfoldable pub try_routes : List (Route J) → Bool → HttpRequest → Response J
  try_routes [] path_matched_any req =
      if path_matched_any
      then error_response 405 (codes "method not allowed")
      else error_response 404 (codes "not found")
  try_routes (route ∷ routes) path_matched_any req =
      elim (match_parts route.segments (split_path (strip_query req.target)) []) [
        | none ↦ try_routes routes path_matched_any req
        | some params ↦
            let others = try_routes routes true req in
            if route.method == req.method then answer route params req else others
      ]

  unfoldable pub dispatch : List (Route J) → HttpRequest → Response J
  dispatch routes req = try_routes routes false req
