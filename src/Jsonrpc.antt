-- ===== src/Jsonrpc.antt =====
-- rs/src/jsonrpc.rs: messages, their classes and the answers to errors. JSON values and the texts of the errors of the
-- JSON library and of the stream are parameters.
pub mod Framing
pub mod Reader
pub mod Blocks
pub mod Termination
pub mod LengthHeader
pub mod Unframed
pub mod RoundTrip
pub mod Refusals
use lsp.Base.{
  ◌≡◌, refl, sym, ap, Bool, true, false, not, ◌&&◌, ◌||◌, Option, none, some, ◌++◌, arith,
}
use lsp.Base.Text.{Text, codes}
use lsp.Types.{ℤ, negsuc}

pub record ResponseError (Value : Type 0) : Type 0 where
  pub code : ℤ
  pub message : Text
  pub error_data : Option Value

pub record Message (Value : Type 0) : Type 0 where
  pub jsonrpc : Text
  pub id : Option Value
  pub method : Option Text
  pub params : Option Value
  pub result : Option Value
  pub error : Option (ResponseError Value)

pub data RpcError (Value : Type 0) : Type 0 where
  io_error : RpcError Value
  frame_error json_error : Text → RpcError Value
  invalid : Option Value → Text → RpcError Value

-- -32700 and -32600
abbrev pub parse_error : ℤ
parse_error = negsuc 32699

abbrev pub invalid_request : ℤ
invalid_request = negsuc 32599

abbrev pub is_some {ℓ} : {A : Type ℓ} → Option A → Bool
is_some none = false
is_some (some a) = true

module _ {Value : Type 0} where
  abbrev pub blank : Message Value
  blank = record {
    jsonrpc = codes "2.0";
    id = none;
    method = none;
    params = none;
    result = none;
    error = none;
  }

  unfoldable pub request : Value → Text → Option Value → Message Value
  request id method params = record blank { id = some id; method = some method; params = params }

  unfoldable pub notification : Text → Option Value → Message Value
  notification method params = record blank { method = some method; params = params }

  unfoldable pub response : Value → Value → Message Value
  response id result = record blank { id = some id; result = some result }

  unfoldable pub error_response : Value → ℤ → Text → Message Value
  error_response id code message = record blank {
    id = some id;
    error = some (record { code = code; message = message; error_data = none });
  }

  unfoldable pub is_request : Message Value → Bool
  is_request m = is_some m.id && is_some m.method

  unfoldable pub is_notification : Message Value → Bool
  is_notification m = not (is_some m.id) && is_some m.method

  unfoldable pub is_response : Message Value → Bool
  is_response m = not (is_some m.method) && (is_some m.result || is_some m.error)

  unfoldable pub is_recoverable : RpcError Value → Bool
  is_recoverable io_error = false
  is_recoverable _ = true

  unfoldable pub id_or : Option Value → Value → Value
  id_or none null = null
  id_or (some id) null = id

  -- RpcError::response; `null` is the JSON value of that name
  unfoldable pub error_answer : Value → RpcError Value → Option (Message Value)
  unfolding error_response id_or
  error_answer null (json_error text) =
      some (error_response null parse_error (codes "Parse error: " ++ text))
  error_answer null (invalid id message) =
      some (error_response (id_or id null) invalid_request (codes "Invalid request: " ++ message))
  error_answer null io_error = none
  error_answer null (frame_error text) = none

  -- No message is of two classes, and one that has a method is a request or a notification.
  classes_exclusive :
      (m : Message Value)
      → ((is_request m && is_notification m) ≡ false)
        × ((is_request m && is_response m) ≡ false)
        × ((is_notification m && is_response m) ≡ false)
        × ((is_request m || is_notification m) ≡ is_some m.method)
  unfolding is_request is_notification is_response
  classes_exclusive m = go (is_some m.id) (is_some m.method) (is_some m.result || is_some m.error)
    where
      go :
          (a b c : Bool)
          → (((a && b) && (not a && b)) ≡ false)
            × (((a && b) && (not b && c)) ≡ false)
            × (((not a && b) && (not b && c)) ≡ false)
            × (((a && b) || (not a && b)) ≡ b)
      go a b c = (ground arith, ground arith, ground arith, ground arith)
