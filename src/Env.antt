-- ===== src/Env.antt =====
-- What the 1C readers take from outside the repository: the HTTP library, the stop flag that other
-- threads set, the JSON library and floating-point numbers, as interfaces, and the exceptions that
-- the readers throw.
use scand.Prelude.{ℕ, Bool, Option, Bytes, List}

-- `cpr::Response`: the status is 0 when no answer came.
pub record HttpResponse : Type 0 where
  pub status_code : ℕ
  pub text : Bytes

-- What a `cpr::Get` call is given: address, query parameters, user and password, and time limit.
-- The constant headers are left out.
pub record Request : Type 0 where
  pub url : Bytes
  pub params : List (Bytes × Bytes)
  pub auth : Bytes × Bytes
  pub timeout : ℕ

-- The world outside the process: every request and every look at the stop flag may change it.
pub record Net (W : Type 0) : Type 0 where
  pub get : Request → W → HttpResponse × W
  pub stopped : W → Bool × W

-- `boost::json` over the values `J`, the objects `O` and the doubles `D`.
pub record JsonLib (J O D : Type 0) : Type 0 where
  pub parse : Bytes → Option J
  pub as_object : J → Option O
  pub as_array : J → Option (List J)
  pub as_string : J → Option Bytes
  pub as_bool : J → Option Bool
  -- A number of any of the three kinds, as `static_cast<double>` makes it.
  pub as_number : J → Option D
  pub find : O → Bytes → Option J

-- `double`, and `std::stod` with `none` where it throws.
pub record Doubles (D : Type 0) : Type 0 where
  pub zero : D
  pub sub : D → D → D
  pub lt : D → D → Bool
  pub le : D → D → Bool
  pub eq : D → D → Bool
  pub stod : Bytes → Option D

-- The exceptions of the readers.
pub data Exn : Type 0 where
  http_error : ℕ → Exn
  stopped_by_user : Exn
  invalid_json : Exn

pub data Result {ℓ} (A : Type ℓ) : Type ℓ where
  ok : A → Result A
  err : Exn → Result A
