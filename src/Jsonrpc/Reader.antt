-- ===== src/Jsonrpc/Reader.antt =====
-- rs/src/jsonrpc.rs: `read_message`, `message_of`, `write_message` and the reader loop of `Connection::new`. A written
-- stream takes every byte, and the channel always has a receiver. The JSON library is a parameter.
use lsp.Base.{
  ℕ, zero, suc, ◌⊎◌, inl, inr, Bool, true, false, not, ◌&&◌, ◌||◌, Option, none, some, List, [],
  ◌∷◌, ◌++◌, ltb, if◌then◌else◌, length, take, drop,
}
use lsp.Base.Text.{Text, codes}
use lsp.Jsonrpc.{
  Message, RpcError, io_error, frame_error, json_error, invalid, is_recoverable, is_some,
}
use lsp.Jsonrpc.Framing.{
  lines_from, joined, Declared, Headers, no_more, broken, block, read_headers, frame,
}

pub data Kind : Type 0 where
  null_kind bool_kind number_kind string_kind array_kind object_kind : Kind

-- what the source uses of the JSON library
pub record Json (Value : Type 0) : Type 0 where
  pub from_slice : List ℕ → Value ⊎ Text
  pub kind : Value → Kind
  pub field : Value → Text → Option Value
  pub from_value : Value → Message Value ⊎ Text
  pub to_vec : Message Value → List ℕ ⊎ Text

pub data Read (Value : Type 0) : Type 0 where
  arrived : Message Value → Read Value
  ended : Read Value
  refused : RpcError Value → Read Value

-- the text that refuses a value which is not an object
abbrev pub not_object : Kind → Text
not_object array_kind = codes "a batch (an array), which this server does not accept"
not_object _ = codes "not an object"

abbrev pub is_object : Kind → Bool
is_object object_kind = true
is_object _ = false

abbrev pub is_name : Kind → Bool
is_name string_kind = true
is_name number_kind = true
is_name _ = false

abbrev pub is_null : Kind → Bool
is_null null_kind = true
is_null _ = false

module _ {Value : Type 0} where
  -- the ids of a request, and the null id of a response
  abbrev pub is_valid_id : Json Value → Option Value → Bool → Bool
  is_valid_id json none has_method = true
  is_valid_id json (some id) has_method =
      is_name (json.kind id) || (is_null (json.kind id) && not has_method)

  -- `id.filter(..)`
  abbrev pub answerable : Json Value → Option Value → Option Value
  answerable json none = none
  answerable json (some id) = if is_name (json.kind id) then some id else none

  abbrev pub message_or : Option Value → Message Value ⊎ Text → Read Value
  message_or id (inl message) = arrived message
  message_or id (inr error) = refused (invalid id error)

  unfoldable pub message_of : Json Value → Value → Read Value
  message_of json value =
      let id = json.field value (codes "id") in
      let has_method = is_some (json.field value (codes "method")) in
      if not (is_object (json.kind value))
      then refused (invalid none (not_object (json.kind value)))
      else if is_valid_id json id has_method
      then message_or (answerable json id) (json.from_value value)
      else refused (invalid none (codes "id must be a string or a number"))

  abbrev pub message_in : Json Value → Value ⊎ Text → Read Value
  message_in json (inl value) = message_of json value
  message_in json (inr error) = refused (json_error error)

  -- the body, and what the stream has left
  unfoldable pub read_body : Json Value → ℕ → List ℕ → Read Value × List ℕ
  unfolding message_of
  read_body json declared stream =
      let body = take declared stream in
      if ltb (length body) declared
      then (refused io_error, [])
      else (message_in json (json.from_slice body), drop declared stream)

  unfoldable pub read_declared : Json Value → Declared → List ℕ → Read Value × List ℕ
  unfolding read_body
  read_declared json none stream =
      (refused (frame_error (codes "missing Content-Length header")), stream)
  read_declared json (some (inr error)) stream = (refused (frame_error error), stream)
  read_declared json (some (inl declared)) stream = read_body json declared stream

  unfoldable pub read_framed : Json Value → Headers → Read Value × List ℕ
  unfolding read_declared joined
  read_framed json no_more = (ended, [])
  read_framed json broken = (refused io_error, [])
  read_framed json (block declared lines) = read_declared json declared (joined lines)

  -- an answer, and what the stream has left
  unfoldable pub read_message :
      (List ℕ → Text) → (Text → Text) → Json Value → Bool → List ℕ → Read Value × List ℕ
  unfolding read_framed read_headers lines_from
  read_message from_utf8_lossy quoted json fails stream =
      read_framed json (read_headers from_utf8_lossy quoted fails false none (lines_from [] stream))

  abbrev pub write_body : List ℕ → List ℕ ⊎ Text → List ℕ ⊎ RpcError Value
  write_body written (inl body) = inl (written ++ frame body)
  write_body written (inr error) = inr (json_error error)

  -- what is then written in all
  unfoldable pub write_message : Json Value → List ℕ → Message Value → List ℕ ⊎ RpcError Value
  unfolding frame
  write_message json written message = write_body written (json.to_vec message)

  abbrev pub add_sent :
      Message Value ⊎ RpcError Value
      → Option (List (Message Value ⊎ RpcError Value))
      → Option (List (Message Value ⊎ RpcError Value))
  add_sent item none = none
  add_sent item (some items) = some (item ∷ items)

  abbrev pub send_next :
      Read Value
      → Option (List (Message Value ⊎ RpcError Value))
      → Option (List (Message Value ⊎ RpcError Value))
  send_next (arrived message) rest = add_sent (inl message) rest
  send_next ended rest = some []
  send_next (refused error) rest =
      if is_recoverable error then add_sent (inr error) rest else some (inr error ∷ [])

  -- what the reader thread sends, on fuel: none where that runs out
  unfoldable pub read_messages :
      (List ℕ → Text)
      → (Text → Text)
      → Json Value
      → Bool
      → ℕ
      → List ℕ
      → Option (List (Message Value ⊎ RpcError Value))
  unfolding read_message is_recoverable
  read_messages from_utf8_lossy quoted json fails zero stream = none
  read_messages from_utf8_lossy quoted json fails (suc fuel) stream =
      let (next, rest) = read_message from_utf8_lossy quoted json fails stream in
      send_next next (read_messages from_utf8_lossy quoted json fails fuel rest)

-- what a receive yields
pub data Received (Value : Type 0) : Type 0 where
  message_received : Message Value → Received Value
  timeout closed : Received Value

-- the channel at a receive: an item of the reader thread, the timeout, or its end
pub data Incoming (Value : Type 0) : Type 0 where
  item : Message Value ⊎ RpcError Value → Incoming Value
  timed_out disconnected : Incoming Value

module _ {Value : Type 0} where
  -- Connection::recv and Connection::recv_timeout
  unfoldable pub recv_timeout : Incoming Value → Received Value ⊎ RpcError Value
  recv_timeout (item (inl message)) = inl (message_received message)
  recv_timeout (item (inr error)) = inr error
  recv_timeout timed_out = inl timeout
  recv_timeout disconnected = inl closed
