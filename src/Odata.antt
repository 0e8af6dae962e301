-- ===== src/Odata.antt =====
-- `OnecCatalog` of onec_catalog.cpp, which reads the catalogue of products over OData: addresses, rows,
-- the number of all rows and the reading of all pages. Log lines are left out.
pub mod Retry
pub mod Pull
mod Tests
use scand.Prelude.{
  ℕ, zero, suc, ◌+◌, ◌-◌, min, ◌==◌, ◌&&◌, ◌||◌, Bool, true, false, Option, none, some, List, [],
  ◌∷◌, ◌++◌, Bytes, codes, if◌then◌else◌, is_empty, length, ltb, to_string, take,
}
use scand.Env.{HttpResponse, Request, Net, JsonLib}
use scand.Url.Hosts.{Inet}
use scand.Url.Normalize.{without_slashes, normalize_onec_publication_url}

-- The fields of `OnecCatalog` that its readers use; the time limit may be zero.
pub record OnecCatalog : Type 0 where
  pub root : Bytes
  pub username : Bytes
  pub password : Bytes
  pub timeout_ms : ℕ

-- The constructor: `none` when the address is refused.
unfoldable pub new_catalog : Inet → Bytes → Bytes → Bytes → ℕ → Bool → Bool → Option OnecCatalog
new_catalog inet base_url username password timeout_ms insecure private =
    elim (normalize_onec_publication_url inet
      record { allow_insecure_http = insecure; allow_private_network = private } base_url) [
        | none ↦ none
        | some base ↦ some record {
          root = without_slashes base ++ codes "/odata/standard.odata";
          username = username;
          password = password;
          timeout_ms = timeout_ms;
        }
      ]

unfoldable pub build_url : OnecCatalog → Bytes → Bytes
build_url c [] = c.root
build_url c (a ∷ path) = if a == b'/' then c.root ++ a ∷ path else c.root ++ (codes "/" ++ a ∷ path)

unfoldable pub build_page_path : ℕ → ℕ → Bytes
build_page_path skip top =
    codes "/Catalog_Номенклатура?$format=json&$top="
    ++ (to_string (min top 500)
        ++ (codes "&$skip="
            ++ (to_string skip
                ++ (codes "&$select=Ref_Key,Code,Артикул,Description,НаименованиеПолное,"
                    ++ (codes "IsFolder,DeletionMark,Parent_Key,ЕдиницаИзмерения_Key,"
                        ++ (codes "СтавкаНДС_Key,ВесЧислитель,ВесЗнаменатель"
                            ++ codes "&$orderby=Code"))))))

abbrev pub get_request : OnecCatalog → Bytes → ℕ → Request
get_request c path timeout = record {
  url = build_url c path;
  params = [];
  auth = (c.username, c.password);
  timeout = timeout;
}

-- A limit that is not positive is replaced.
abbrev pub effective_timeout : ℕ → ℕ
effective_timeout timeout_ms = if timeout_ms == 0 then 10000 else timeout_ms

-- `OnecCatalogRow`.
pub record OnecCatalogRow : Type 0 where
  pub ref_key : Bytes
  pub code : Bytes
  pub article : Bytes
  pub name : Bytes
  pub full_name : Bytes
  pub is_folder : Bytes
  pub deletion_mark : Bytes
  pub parent_key : Bytes
  pub unit_key : Bytes
  pub vat_key : Bytes
  pub weight_num : Bytes
  pub weight_den : Bytes
  pub raw_json : Bytes

-- `OnecCatalogLimits`.
pub record OnecCatalogLimits : Type 0 where
  pub page_size : ℕ
  pub max_rows : ℕ

-- What the JSON library says of values besides: the text of a number, the text of a value, and a
-- number that is not negative.
pub record JsonTexts (J : Type 0) : Type 0 where
  pub number_text : J → Option Bytes
  pub serialize : J → Bytes
  pub as_count : J → Option ℕ

-- `std::stoull`, with `none` where it throws.
abbrev pub Stoull : Type 0
Stoull = Bytes → Option ℕ

-- How a reading of pages that throws ends.
pub data ReadError : Type 0 where
  http_failure : ℕ → Bytes → ReadError
  bad_json : ReadError

pub data Read {ℓ} (A : Type ℓ) : Type ℓ where
  read : A → Read A
  threw : ReadError → Read A

module _ {W : Type 0} (net : Net W) (c : OnecCatalog) where
  abbrev pub text_or_error : HttpResponse → Read Bytes
  text_or_error r =
      if r.status_code == 200
      then read r.text
      else threw (http_failure r.status_code (take 300 r.text))

  unfoldable pub read_page : ℕ → ℕ → W → Read Bytes × W
  read_page skip top w =
      let (r, w1) =
        net.get (get_request c (build_page_path skip top) (effective_timeout c.timeout_ms)) w in
      (text_or_error r, w1)

module _ {J O D : Type 0} (lib : JsonLib J O D) (texts : JsonTexts J) where
  -- The kinds of a value in the order of the tests.
  unfoldable pub text_of_value : J → Bytes
  text_of_value v = elim (lib.as_string v) [
    | some s ↦ s
    | none ↦ elim (lib.as_bool v) [
      | some b ↦ if b then codes "true" else codes "false"
      | none ↦ elim (texts.number_text v) [ some s ↦ s | none ↦ [] ]
    ]
  ]

  unfoldable pub field_text : O → Bytes → Bytes
  field_text obj key = elim (lib.find obj key) [ none ↦ [] | some v ↦ text_of_value v ]

  unfoldable pub row_of : J → O → OnecCatalogRow
  row_of item obj = record {
    ref_key = field_text obj (codes "Ref_Key");
    code = field_text obj (codes "Code");
    article = field_text obj (codes "Артикул");
    name = field_text obj (codes "Description");
    full_name = field_text obj (codes "НаименованиеПолное");
    is_folder = field_text obj (codes "IsFolder");
    deletion_mark = field_text obj (codes "DeletionMark");
    parent_key = field_text obj (codes "Parent_Key");
    unit_key = field_text obj (codes "ЕдиницаИзмерения_Key");
    vat_key = field_text obj (codes "СтавкаНДС_Key");
    weight_num = field_text obj (codes "ВесЧислитель");
    weight_den = field_text obj (codes "ВесЗнаменатель");
    raw_json = texts.serialize item;
  }

  -- The loop over the items.
  unfoldable pub rows_of_items : List J → List OnecCatalogRow
  rows_of_items [] = []
  rows_of_items (item ∷ items) = elim (lib.as_object item) [
    | none ↦ rows_of_items items
    | some obj ↦ row_of item obj ∷ rows_of_items items
  ]

  -- The list of an answer: under "value" of an object, or the answer itself.
  unfoldable pub items_of : J → Option (List J)
  items_of data_ = elim (lib.as_object data_) [
    | none ↦ lib.as_array data_
    | some obj ↦ elim (lib.find obj (codes "value")) [ none ↦ none | some v ↦ lib.as_array v ]
  ]

  unfoldable pub parse_rows : Bytes → Read (List OnecCatalogRow)
  parse_rows json_text = elim (lib.parse json_text) [
    | none ↦ threw bad_json
    | some data_ ↦ elim (items_of data_) [
      | none ↦ read []
      | some items ↦ read (rows_of_items items)
    ]
  ]

  -- The count under one of the keys, the first that has one.
  unfoldable pub count_under : Stoull → O → List Bytes → Option ℕ
  count_under stoull obj [] = none
  count_under stoull obj (key ∷ keys) =
      let rest = count_under stoull obj keys in
      elim (lib.find obj key) [
        | none ↦ rest
        | some v ↦ elim (texts.as_count v) [
          | some n ↦ some n
          | none ↦ elim (lib.as_string v) [
            | none ↦ rest
            | some s ↦ elim (stoull s) [ some n ↦ some n | none ↦ rest ]
          ]
        ]
      ]

  -- The count that the answer to a variant gives, `none` to go on to the next.
  unfoldable pub count_of : Stoull → Bool → HttpResponse → Option ℕ
  count_of stoull plain r =
      if r.status_code == 200
      then (if plain then stoull r.text else elim (lib.parse r.text) [
        | none ↦ none
        | some data_ ↦ elim (lib.as_object data_) [
          | none ↦ none
          | some obj ↦
              count_under stoull obj
                (codes "@odata.count" ∷ codes "odata.count" ∷ codes "count" ∷ [])
        ]
      ])
      else none

  module _ {W : Type 0} (net : Net W) (c : OnecCatalog) where
    -- The variants from one on: the path, and whether the answer is the number itself.
    unfoldable pub count_variants : Stoull → List (Bytes × Bool) → W → Option ℕ × W
    count_variants stoull [] w = (none, w)
    count_variants stoull ((path, plain) ∷ variants) w =
        let (r, w1) = net.get (get_request c path c.timeout_ms) w in
        let rest = count_variants stoull variants w1 in
        elim (count_of stoull plain r) [ some n ↦ (some n, w1) | none ↦ rest ]

    unfoldable pub read_total_count : Stoull → W → Option ℕ × W
    read_total_count stoull w =
        count_variants stoull
          ((codes "/Catalog_Номенклатура?$format=json&$top=1&$count=true", false)
            ∷ (codes "/Catalog_Номенклатура?$format=json&$top=1&$inlinecount=allpages", false)
            ∷ (codes "/Catalog_Номенклатура/$count", true)
            ∷ [])
          w

    -- A turn of `read_all_rows` behind the page.
    unfoldable pub rows_turn :
        (ℕ → List OnecCatalogRow → W → Option (Read (List OnecCatalogRow) × W))
        → ℕ
        → ℕ
        → List OnecCatalogRow
        → Read (List OnecCatalogRow)
        → W
        → Option (Read (List OnecCatalogRow) × W)
    rows_turn rest this_page offset all (threw e) w = some (threw e, w)
    rows_turn rest this_page offset all (read rows) w =
        if is_empty rows
        then some (read all, w)
        else if ltb (length rows) this_page
        then some (read (all ++ rows), w)
        else rest (offset + length rows) (all ++ rows) w

    abbrev pub rows_or_error : Read Bytes → Read (List OnecCatalogRow)
    rows_or_error (threw e) = threw e
    rows_or_error (read body) = parse_rows body

    -- `while (offset < limits.max_rows)`. `none` means that the fuel ran out.
    unfoldable pub rows_loop :
        OnecCatalogLimits
        → ℕ
        → ℕ
        → List OnecCatalogRow
        → W
        → Option (Read (List OnecCatalogRow) × W)
    rows_loop limits zero offset all w = none
    rows_loop limits (suc fuel) offset all w =
        let this_page = min limits.page_size (limits.max_rows - offset) in
        let (page_json, w1) = read_page net c offset this_page w in
        if ltb offset limits.max_rows
        then rows_turn (rows_loop limits fuel) this_page offset all (rows_or_error page_json) w1
        else some (read all, w)

    unfoldable pub read_all_rows : OnecCatalogLimits → W → Option (Read (List OnecCatalogRow) × W)
    read_all_rows limits w = rows_loop limits (suc limits.max_rows) 0 [] w

    unfoldable pub pages_turn :
        (List Bytes → W → Option (Read (List Bytes) × W))
        → List Bytes
        → Read Bytes
        → W
        → Option (Read (List Bytes) × W)
    pages_turn rest pages (threw e) w = some (threw e, w)
    pages_turn rest pages (read body) w =
        if is_empty body then some (read pages, w) else rest (pages ++ body ∷ []) w

    -- The loop of `read_all_pages`; with a page size of zero it does not end.
    unfoldable pub pages_loop :
        OnecCatalogLimits → ℕ → ℕ → List Bytes → W → Option (Read (List Bytes) × W)
    pages_loop limits zero offset pages w = none
    pages_loop limits (suc fuel) offset pages w =
        let this_page = min limits.page_size (limits.max_rows - offset) in
        let (page_json, w1) = read_page net c offset this_page w in
        if ltb offset limits.max_rows
        then pages_turn (pages_loop limits fuel (offset + this_page)) pages page_json w1
        else some (read pages, w)

    unfoldable pub read_all_pages : OnecCatalogLimits → W → Option (Read (List Bytes) × W)
    read_all_pages limits w = pages_loop limits (suc limits.max_rows) 0 [] w
