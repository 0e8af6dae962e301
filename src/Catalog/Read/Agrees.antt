-- ===== src/Catalog/Read/Agrees.antt =====
-- The two loops over the pages of the catalogue do the same.
use scand.Prelude.{
  ℕ, zero, suc, ◌+◌, ◌≡◌, refl, ap, ◌∙◌, Option, none, some, List, [], ◌∷◌, ◌++◌, Bytes, ltb,
  length, Bool-cases, inl, inr, Option-cases, append-nil, append_assoc, arith, codes, Bool, ◌==◌,
}
use scand.Env.{HttpResponse, Net, JsonLib}
use scand.Json.{get_str, get_bool}
use scand.Catalog.Read.{
  CatalogError, http_status, bad_json, no_value, sse_http_status, sse_bad_json, sse_no_value,
  sse_request, sse_page_of, sse_page_rows, Connection, Answer, got, failed, catalog_request,
  page_of, page_rows, turn, read_loop, sse_turn, sse_loop, PcEvent,
}

-- The error of the other variant in the same place: three of them have another text.
abbrev pub in_sse : CatalogError → CatalogError
in_sse (http_status n) = sse_http_status n
in_sse bad_json = sse_bad_json
in_sse no_value = sse_no_value
in_sse e = e

abbrev pub answer_in_sse : {A : Type 0} → Answer A → Answer A
answer_in_sse (failed e) = failed (in_sse e)
answer_in_sse (got a) = got a

sse_request_lem :
    (c : Connection) (page_size offset : ℕ)
    → sse_request c page_size offset ≡ catalog_request c page_size offset
unfolding sse_request catalog_request
sse_request_lem c page_size offset = refl

module _ {J O D : Type 0} (lib : JsonLib J O D) where
  sse_page_of_lem : (r : HttpResponse) → sse_page_of lib r ≡ answer_in_sse (page_of lib r)
  unfolding page_of sse_page_of
  sse_page_of_lem r = elim (Bool-cases (r.status_code == 200)) [
    | inr q ↦ rw q refl
    | inl q ↦ elim (Option-cases (lib.parse r.text)) [
      | inl p ↦ rw (q, p) refl
      | inr (v, p) ↦ elim (Option-cases (lib.as_object v)) [
        | inl o ↦ rw (q, p, o) refl
        | inr (obj, o) ↦ elim (Option-cases (lib.find obj (codes "value"))) [
          | inl f ↦ rw (q, p, o, f) refl
          | inr (x, f) ↦ elim (Option-cases (lib.as_array x)) [
            | inl z ↦ rw (q, p, o, f, z) refl
            | inr (arr, z) ↦ rw (q, p, o, f, z) refl
          ]
        ]
      ]
    ]
  ]

  sse_page_rows_lem :
      (arr : List J) (page_read : ℕ) (all : List (List Bytes))
      → sse_page_rows lib arr page_read all
        ≡ (page_read + length (page_rows lib arr), all ++ page_rows lib arr)
  unfolding page_rows sse_page_rows
  sse_page_rows_lem [] page_read all = ground (arith, append-nil all)
  sse_page_rows_lem (item ∷ arr) page_read all = elim (Option-cases (lib.as_object item)) [
    | inl q ↦ rw (sse_page_rows, page_rows, q) (sse_page_rows_lem arr page_read all)
    | inr (row, q) ↦ elim (Bool-cases (get_bool lib row (codes "DeletionMark") Bool.false)) [
      | inl d ↦ rw (sse_page_rows, page_rows, q, d) (sse_page_rows_lem arr page_read all)
      | inr d ↦ elim (Bool-cases (get_bool lib row (codes "IsFolder") Bool.false)) [
        | inl f ↦ rw (sse_page_rows, page_rows, q, d, f) (sse_page_rows_lem arr page_read all)
        | inr f ↦
            let cells =
              get_str lib row (codes "Code")
              ∷ get_str lib row (codes "Артикул")
              ∷ get_str lib row (codes "Description")
              ∷ get_str lib row (codes "Ref_Key")
              ∷ [] in
            let rows = page_rows lib arr in
            let counted : suc page_read + length rows ≡ page_read + suc (length rows) =
              omega arith in
            rw (sse_page_rows, page_rows, q, d, f)
              (sse_page_rows_lem arr (suc page_read) (all ++ cells ∷ [])
                ∙ (ap (λ n. (n, (all ++ cells ∷ []) ++ rows)) counted
                    ∙ ap (λ z. (page_read + suc (length rows), z))
                        (append_assoc all (cells ∷ []) rows)))
      ]
    ]
  ]

module _ {W J O D : Type 0} (net : Net W) (lib : JsonLib J O D) (c : Connection)
    (page_size max_rows : ℕ) where
  abbrev rows_of_answer : Answer (ℕ × List (List Bytes)) → Answer (List (List Bytes))
  rows_of_answer (failed e) = failed e
  rows_of_answer (got (n, rows)) = got rows

  -- The answer with its rows and the world.
  abbrev pub plain_view :
      Option (Answer (ℕ × List (List Bytes)) × W) → Option (Answer (List (List Bytes)) × W)
  plain_view none = none
  plain_view (some (a, w)) = some (answer_in_sse (rows_of_answer a), w)

  abbrev pub sse_view :
      Option (Answer (ℕ × List (List Bytes)) × List PcEvent × W)
      → Option (Answer (List (List Bytes)) × W)
  sse_view none = none
  sse_view (some (a, events, w)) = some (rows_of_answer a, w)

  sse_turn_agrees :
      (loop : ℕ → List (List Bytes) → W → Option (Answer (ℕ × List (List Bytes)) × W))
      (sse : ℕ
        → ℕ
        → ℕ
        → List (List Bytes)
        → List PcEvent
        → W
        → Option (Answer (ℕ × List (List Bytes)) × List PcEvent × W))
      → ((page_idx offset read : ℕ) (all : List (List Bytes)) (events : List PcEvent) (w : W)
          → sse_view (sse page_idx offset read all events w) ≡ plain_view (loop offset all w))
      → (page_idx offset read : ℕ) (all : List (List Bytes)) (events : List PcEvent) (status : ℕ)
        (a : Answer (List J)) (w : W)
      → sse_view (
          sse_turn net lib c page_size max_rows sse page_idx offset read all events status
            (answer_in_sse a)
            w)
        ≡ plain_view (turn net lib c page_size max_rows loop offset all a w)
  unfolding sse_turn turn
  sse_turn_agrees loop sse same page_idx offset read all events status (failed e) w = refl
  sse_turn_agrees loop sse same page_idx offset read all events status (got []) w = refl
  sse_turn_agrees loop sse same page_idx offset read all events status (got (x ∷ arr)) w =
      let rows = page_rows lib (x ∷ arr) in
      let told = events ++ PcEvent.page_done page_idx (length rows) (read + length rows) ∷ [] in
      let from_zero : 0 + length rows ≡ length rows = omega arith in
      let pages = sse_page_rows_lem lib (x ∷ arr) 0 all ∙ ap (λ n. (n, all ++ rows)) from_zero in
      elim (Bool-cases (ltb (length (x ∷ arr)) page_size)) [
        | inl q ↦ rw (q, pages) refl
        | inr q ↦
            rw (q, pages)
              (same page_idx (offset + length (x ∷ arr)) (read + length rows) (all ++ rows) told w)
      ]

  -- Whatever the server answers, the loop that tells its progress leaves the world as the other one does
  -- and ends with the same rows or at the same failure, whose text differs for three of them.
  pub sse_loop_agrees :
      (fuel page_idx offset read : ℕ) (all : List (List Bytes)) (events : List PcEvent) (w : W)
      → sse_view (sse_loop net lib c page_size max_rows fuel page_idx offset read all events w)
        ≡ plain_view (read_loop net lib c page_size max_rows fuel offset all w)
  unfolding sse_loop read_loop
  sse_loop_agrees zero page_idx offset read all events w = refl
  sse_loop_agrees (suc fuel) page_idx offset read all events w =
      let got_ = net.get (catalog_request c page_size offset) w in
      let same_request : sse_request c page_size offset ≡ catalog_request c page_size offset =
        sse_request_lem c page_size offset in
      elim (Bool-cases (ltb offset max_rows)) [
        | inl q ↦
            rw (q, same_request, sse_page_of_lem lib got_.0)
              (sse_turn_agrees (read_loop net lib c page_size max_rows fuel)
                (sse_loop net lib c page_size max_rows fuel) (sse_loop_agrees fuel) (suc page_idx)
                offset read all (events ++ PcEvent.page_started (suc page_idx) offset read ∷ [])
                got_.0.status_code (page_of lib got_.0) got_.1)
        | inr q ↦ rw q refl
      ]
