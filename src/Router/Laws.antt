-- ===== src/Router/Laws.antt =====
-- What the router answers, and what the parts of a path are.
use scand.Prelude.{
  ℕ, ◌≡◌, refl, ◌≢◌, ◌⊎◌, inl, inr, ap, Bool, true, false, List, [], ◌∷◌, ◌++◌, arith, Bytes, codes,
  none, some, ◌==◌, All, Bool-cases, Option-cases, is_empty, not, keep, append-nil,
}
use scand.Router.{
  fields, parts, split_path, strip_query, match_parts, HttpRequest, Response, Route, Bodies,
  error_response, answer, try_routes, dispatch,
}

module _ {J : Type 0} (lib : Bodies J) (req : HttpRequest) where
  abbrev path_parts : List Bytes
  path_parts = split_path (strip_query req.target)

  -- The route does not take the request, for its path or its method.
  abbrev pub Passes : Route J → Type 0
  Passes route = (match_parts route.segments path_parts [] ≡ none) ⊎ (route.method ≢ req.method)

  abbrev pub MatchesOne : List (Route J) → Type 0
  MatchesOne routes =
      (before : List (Route J)) × (route : Route J) × (after : List (Route J)) × (params : List
        (Bytes × Bytes))
      × (routes ≡ before ++ route ∷ after)
      × (match_parts route.segments path_parts [] ≡ some params)

  -- How a request may be answered, when a route has matched before or not.
  pub data Answered (seen : Bool) (routes : List (Route J)) (r : Response J) : Type 0 where
    taken :
        (before : List (Route J)) (route : Route J) (after : List (Route J))
        (params : List (Bytes × Bytes))
        → routes ≡ before ++ route ∷ after
        → All Passes before
        → match_parts route.segments path_parts [] ≡ some params
        → route.method ≡ req.method
        → r ≡ answer lib route params req
        → Answered seen routes r
    not_allowed :
        (seen ≡ true) ⊎ MatchesOne routes
        → All Passes routes
        → r ≡ error_response lib 405 (codes "method not allowed")
        → Answered seen routes r
    not_found :
        seen ≡ false
        → All (λ other. match_parts other.segments path_parts [] ≡ none) routes
        → r ≡ error_response lib 404 (codes "not found")
        → Answered seen routes r

  MatchesOne-later :
      (seen : Bool) (route : Route J) (routes : List (Route J))
      → (seen ≡ true) ⊎ MatchesOne routes
      → (seen ≡ true) ⊎ MatchesOne (route ∷ routes)
  MatchesOne-later seen route routes (inl h) = inl h
  MatchesOne-later seen route routes (inr (before, other, after, params, e, m)) =
      inr (route ∷ before, other, after, params, ap (route ∷◌) e, m)

  Answered-none :
      (seen : Bool) (route : Route J) (routes : List (Route J)) (r : Response J)
      → match_parts route.segments path_parts [] ≡ none
      → Answered seen routes r
      → Answered seen (route ∷ routes) r
  Answered-none seen route routes r h (taken before other after params e p m k a) =
      taken (route ∷ before) other after params (ap (route ∷◌) e) (inl h, p) m k a
  Answered-none seen route routes r h (not_allowed m p a) =
      not_allowed (MatchesOne-later seen route routes m) (inl h, p) a
  Answered-none seen route routes r h (not_found s p a) = not_found s (h, p) a

  Answered-refused :
      (seen : Bool) (route : Route J) (routes : List (Route J)) (params : List (Bytes × Bytes))
      (r : Response J)
      → match_parts route.segments path_parts [] ≡ some params
      → route.method ≢ req.method
      → Answered true routes r
      → Answered seen (route ∷ routes) r
  Answered-refused seen route routes found r h n (taken before other after params e p m k a) =
      taken (route ∷ before) other after params (ap (route ∷◌) e) (inr n, p) m k a
  Answered-refused seen route routes found r h n (not_allowed m p a) =
      not_allowed (inr ([], route, routes, found, refl, h)) (inr n, p) a
  Answered-refused seen route routes found r h n (not_found s p a) = absurd (ground arith)

  try_routes_lem :
      (routes : List (Route J)) (seen : Bool)
      → Answered seen routes (try_routes lib routes seen req)
  unfolding try_routes
  try_routes_lem [] true = not_allowed (inl refl) tt refl
  try_routes_lem [] false = not_found refl tt refl
  try_routes_lem (route ∷ routes) seen =
      elim (Option-cases (match_parts route.segments path_parts [])) [
        | inl h ↦
            rw (try_routes, h) (Answered-none seen route routes _ h (try_routes_lem routes seen))
        | inr (params, h) ↦ elim (Bool-cases (route.method == req.method)) [
          | inl same ↦
              rw (try_routes, h, same) (taken [] route routes params refl tt h (ground arith) refl)
          | inr other ↦
              rw (try_routes, h, other)
                (Answered-refused seen route routes params _ h (ground arith)
                  (try_routes_lem routes true))
        ]
      ]

  -- The first route that has the request's method and whose pattern matches its path answers the
  -- request. If there is none, the answer is 405 if some route matches the path, and 404 if no route
  -- does.
  pub dispatch_outcome : (routes : List (Route J)) → Answered false routes (dispatch lib routes req)
  unfolding dispatch
  dispatch_outcome routes = try_routes_lem routes false

-- A part of a path as a list of bytes: not empty, and without a slash.
abbrev pub IsPart : ℕ → Bytes → Type 0
IsPart c part = (part ≢ []) × All (λ b. b ≢ c) part

-- The parts put together, each behind its separator.
abbrev pub joined : ℕ → List Bytes → Bytes
joined c [] = []
joined c (p ∷ ps) = c ∷ p ++ joined c ps

fields_part :
    (c : ℕ) (part rest : Bytes) (f : Bytes) (fs : List Bytes)
    → All (λ b. b ≢ c) part
    → fields c rest ≡ f ∷ fs
    → fields c (part ++ rest) ≡ (part ++ f) ∷ fs
unfolding fields
fields_part c [] rest f fs h e = e
fields_part c (b ∷ part) rest f fs (n, h) e = ground (arith, fields_part c part rest f fs h e)

fields-joined : (c : ℕ) (ps : List Bytes) → All (IsPart c) ps → fields c (joined c ps) ≡ [] ∷ ps
unfolding fields
fields-joined c [] h = refl
fields-joined c (p ∷ ps) (h, k) =
    let whole = fields_part c p (joined c ps) [] ps h.1 (fields-joined c ps k) in
    ground (arith, whole, append-nil p)

keep-IsPart : (c : ℕ) (ps : List Bytes) → All (IsPart c) ps → keep (λ f. not (is_empty f)) ps ≡ ps
keep-IsPart c [] h = refl
keep-IsPart c ([] ∷ ps) ((n, f), k) = absurd (n refl)
keep-IsPart c ((b ∷ p) ∷ ps) (h, k) = ap ((b ∷ p) ∷◌) (keep-IsPart c ps k)

-- The parts of a path that was put together from parts are these parts, if none is empty or has a
-- slash in it.
pub split_path-joined : (ps : List Bytes) → All (IsPart b'/') ps → split_path (joined b'/' ps) ≡ ps
unfolding split_path parts
split_path-joined ps h = rw (fields-joined b'/' ps h) (keep-IsPart b'/' ps h)
