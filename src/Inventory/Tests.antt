-- ===== src/Inventory/Tests.antt =====
-- Concrete readings of prices.
use scand.Json.{extract_value}
use scand.Prelude.{to_string}
use scand.Prelude.{
  ℕ, zero, suc, ◌+◌, ◌-◌, refl, false, none, some, List, [], ◌∷◌, Bytes, codes, map, arith, length,
  bytes_eq, if◌then◌else◌, ltb, leb, ◌==◌,
}
use scand.Env.{Net, JsonLib, Doubles}
use scand.Inventory.{OnecInventory, page_url, items_of, text_of, read_supplier_prices}
use scand.Inventory.Choice.{DoubleLaws}
use scand.Inventory.Pages.{ServesPages, GivesLowest, read_supplier_prices_lowest}

-- A text is an object and an array of its bytes, and a number by its length.
abbrev texts : JsonLib Bytes Bytes ℕ
texts = record {
  parse = λ t. some t;
  as_object = λ t. some t;
  as_array = λ t. some (map (λ b. b ∷ []) t);
  as_string = λ t. some t;
  as_bool = λ t. none;
  as_number = λ t. some (length t);
  find = λ o key. some o;
}

abbrev numbers : Doubles ℕ
numbers = record { zero = 0; sub = λ a b. a - b; lt = ltb; le = leb; eq = ◌==◌; stod = λ s. none }

numbers-DoubleLaws : DoubleLaws numbers
numbers-DoubleLaws = record {
  lt_irrefl = λ a. ground arith;
  lt_trans = λ a b c h k. ground arith;
  eq_trans = λ a b c h k. ground arith;
  lt_eq = λ a b c h k. ground arith;
  eq_lt = λ a b c h k. ground arith;
}

abbrev reader : OnecInventory
reader = record { root = codes "r"; username = codes "u"; password = codes "p"; timeout_ms = 5000 }

-- Two items of that register.
abbrev server : Bytes → Net ℕ
server path = record {
  get = λ q n. (
    record {
      status_code = 200;
      text =
          if bytes_eq q.url (page_url reader path [] 0 500)
          then 1 ∷ 2 ∷ []
          else if bytes_eq q.url (page_url reader path [] 1 500)
          then 2 ∷ []
          else [];
    },
    n + 1,
  );
  stopped = λ n. (false, n);
}

abbrev table : List Bytes
table = (1 ∷ []) ∷ (2 ∷ []) ∷ []

abbrev purchase : Bytes
purchase = codes "InformationRegister_ЦеныНоменклатурыПоставщиков"

purchase-ServesPages : ServesPages (server purchase) texts reader purchase 500 table
unfolding items_of text_of extract_value bytes_eq page_url to_string
purchase-ServesPages zero h w = refl
purchase-ServesPages (suc zero) h w = refl
purchase-ServesPages (suc (suc zero)) h w = refl
purchase-ServesPages (suc (suc (suc n))) h w = absurd (omega arith)

read_supplier_prices_lowest_example :
    GivesLowest
      (server purchase)
      texts
      numbers
      reader
      (λ m. m)
      table
      (read_supplier_prices (server purchase) texts numbers reader (λ m. m) 3 0)
read_supplier_prices_lowest_example =
    read_supplier_prices_lowest (server purchase) texts numbers reader (λ m. m) numbers-DoubleLaws 3
      table 0 purchase-ServesPages (λ w. refl) (omega arith)
