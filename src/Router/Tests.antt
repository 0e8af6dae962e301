-- ===== src/Router/Tests.antt =====
-- Concrete requests to the router. Methods are 1 for GET and 3 for POST, JSON values are texts.
use scand.Prelude.{
  ◌↔◌, ◌≡◌, refl, false, List, [], ◌∷◌, Bytes, codes, none, some, arith, is_empty, if◌then◌else◌,
  insert, bytes_eq, cut,
}
use scand.Router.{
  fields, parts, parse_query, add_pairs, add_pair, split_path, match_parts, param_name, HttpRequest,
  RequestContext, Response, Route, Bodies, dispatch,
}
use scand.Router.Patterns.{Made, match_parts_iff}
use scand.Router.Laws.{Answered, dispatch_outcome, joined, split_path-joined}

abbrev texts : Bodies Bytes
texts = record { parse = λ s. if is_empty s then none else some s; error = λ e. e }

abbrev echo : RequestContext Bytes → Response Bytes
echo context = record { status = 200; body = []; raw_body = []; raw_content_type = [] }

abbrev routes : List (Route Bytes)
routes =
    record {
      method = 1;
      pattern = codes "/items/{id}";
      segments = codes "items" ∷ codes "{id}" ∷ [];
      handler = echo;
    }
    ∷ []

abbrev post_item : HttpRequest
post_item = record { method = 3; target = codes "/items/7?all=1"; body = [] }

dispatch_outcome_example : Answered texts post_item false routes (dispatch texts routes post_item)
dispatch_outcome_example = dispatch_outcome texts post_item routes

match_parts_iff_example :
    (match_parts (codes "items" ∷ codes "{id}" ∷ []) (codes "items" ∷ codes "7" ∷ []) []
      ≡ some ((codes "id", codes "7") ∷ []))
    ↔ Made
        (codes "items" ∷ codes "{id}" ∷ [])
        (codes "items" ∷ codes "7" ∷ [])
        []
        ((codes "id", codes "7") ∷ [])
match_parts_iff_example =
    match_parts_iff (codes "items" ∷ codes "{id}" ∷ []) (codes "items" ∷ codes "7" ∷ []) []
      ((codes "id", codes "7") ∷ [])

split_path-joined_example :
    split_path (joined b'/' (codes "a" ∷ codes "bc" ∷ [])) ≡ codes "a" ∷ codes "bc" ∷ []
split_path-joined_example =
    split_path-joined (codes "a" ∷ codes "bc" ∷ [])
      ((ground arith, (ground arith, tt)), ((ground arith, (ground arith, (ground arith, tt))), tt))

parse_query_runs :
    parse_query (codes "/x?a=1&&b&a=2") ≡ (codes "a", codes "2") ∷ (codes "b", []) ∷ []
unfolding parse_query add_pairs add_pair parts fields cut insert bytes_eq
parse_query_runs = refl

match_parts_runs :
    match_parts (codes "items" ∷ codes "{id}" ∷ []) (codes "items" ∷ codes "7" ∷ []) []
    ≡ some ((codes "id", codes "7") ∷ [])
unfolding match_parts param_name insert bytes_eq
match_parts_runs = refl
