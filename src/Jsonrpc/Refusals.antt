-- ===== src/Jsonrpc/Refusals.antt =====
-- rs/src/jsonrpc.rs: what becomes of a framed body that is no message, and the answer to it.
use lsp.Base.{
  ℕ, ◌≤◌, ◌≡◌, refl, sym, subst, ap, ◌∙◌, Bool, true, false, Bool-cases, ◌⊎◌, inl, inr, Option,
  none, some, List, ◌++◌, length, if◌then◌else◌,
}
use lsp.Base.Text.{Text, codes, u64_max}
use lsp.Types.{negsuc, ℤ}
use lsp.Jsonrpc.{
  Message, RpcError, json_error, invalid, is_recoverable, error_answer, error_response, id_or,
  is_some,
}
use lsp.Jsonrpc.Framing.{frame}
use lsp.Jsonrpc.Reader.{
  Json, Read, arrived, refused, is_object, is_name, is_valid_id, answerable, not_object, message_or,
  message_of, message_in, read_message,
}
use lsp.Jsonrpc.Blocks.{ReadsAscii}
use lsp.Jsonrpc.RoundTrip.{read_message-frame}

module _ {Value : Type 0} (json : Json Value) (null : Value) where
  -- the id of an object where it is a string or a number, and otherwise null
  abbrev pub named : Option Value → Value
  named none = null
  named (some id) = if is_name (json.kind id) then id else null

  abbrev pub owed_id : Value → Value
  owed_id value =
      if is_object (json.kind value) then named (json.field value (codes "id")) else null

  -- the error is answered under an id with a code, and the connection goes on
  abbrev pub IsAnswered : RpcError Value → Value → ℤ → Type 0
  IsAnswered e id code =
      (m : Message Value) × (text : Text) × (error_answer null e ≡ some m)
      × (m.id ≡ some id)
      × (m.error ≡ some (record { code = code; message = text; error_data = none }))
      × (m.method ≡ none)
      × (m.result ≡ none)
      × (is_recoverable e ≡ true)

  -- what becomes of a body by what the JSON library reads of it: no JSON is a parse error, and a value is a message or
  -- an invalid request
  abbrev pub IsDealtWith : Value ⊎ Text → Read Value → Type 0
  IsDealtWith (inr error) r =
      (e : RpcError Value) × (r ≡ refused e) × IsAnswered e null (negsuc 32699)
  IsDealtWith (inl value) r =
      ((m : Message Value) × (r ≡ arrived m)
        × (is_object (json.kind value) ≡ true)
        × (json.from_value value ≡ inl m))
      ⊎ ((e : RpcError Value) × (r ≡ refused e) × IsAnswered e (owed_id value) (negsuc 32599))

  invalid-IsAnswered :
      (found : Option Value) (text : Text) (id : Value)
      → id_or found null ≡ id
      → IsAnswered (invalid found text) id (negsuc 32599)
  unfolding error_answer error_response is_recoverable
  invalid-IsAnswered found text id h =
      (_, codes "Invalid request: " ++ text, refl, ap some h, refl, refl, refl, refl)

  answerable-named : (found : Option Value) → id_or (answerable json found) null ≡ named found
  unfolding id_or
  answerable-named none = refl
  answerable-named (some id) = elim (Bool-cases (is_name (json.kind id))) [
    | inl e ↦ rw e refl
    | inr e ↦ rw e refl
  ]

  -- an id that is refused is no string and no number
  unnamed :
      (found : Option Value) (has_method : Bool)
      → is_valid_id json found has_method ≡ false
      → named found ≡ null
  unnamed none has_method h = refl
  unnamed (some id) has_method h = elim (Bool-cases (is_name (json.kind id))) [
    | inl e ↦ absurd (apart (rw e at h))
    | inr e ↦ rw e refl
  ]
    where
      apart : true ≡ false → ⊥
      apart k = cc

  in_object :
      (value : Value)
      → is_object (json.kind value) ≡ true
      → owed_id value ≡ named (json.field value (codes "id"))
  in_object value h = rw h refl

  message_or-IsDealtWith :
      (value : Value) (read : Message Value ⊎ Text)
      → json.from_value value ≡ read
      → is_object (json.kind value) ≡ true
      → IsDealtWith (inl value) (message_or (answerable json (json.field value (codes "id"))) read)
  message_or-IsDealtWith value (inl m) h object = inl (m, refl, object, h)
  message_or-IsDealtWith value (inr error) h object = inr (
    invalid (answerable json (json.field value (codes "id"))) error,
    refl,
    invalid-IsAnswered _ error (owed_id value)
        (answerable-named (json.field value (codes "id")) ∙ sym (in_object value object)),
  )

  json_error-IsAnswered : (error : Text) → IsAnswered (json_error error) null (negsuc 32699)
  unfolding error_answer error_response is_recoverable
  json_error-IsAnswered error =
      (_, codes "Parse error: " ++ error, refl, refl, refl, refl, refl, refl)

  message_of-IsDealtWith : (value : Value) → IsDealtWith (inl value) (message_of json value)
  message_of-IsDealtWith value = elim (Bool-cases (is_object (json.kind value))) [
    | inl object ↦
        let id = json.field value (codes "id") in
        let has_method = is_some (json.field value (codes "method")) in
        elim (Bool-cases (is_valid_id json id has_method)) [
          | inl valid ↦
              let reads : message_of json value
                  ≡ message_or (answerable json id) (json.from_value value) =
                unfold message_of in rw (object, valid) refl in
              subst (IsDealtWith (inl value)) (sym reads)
                (message_or-IsDealtWith value (json.from_value value) refl object)
          | inr bad ↦
              let error = codes "id must be a string or a number" in
              let reads : message_of json value ≡ refused (invalid none error) =
                unfold message_of in rw (object, bad) refl in
              subst (IsDealtWith (inl value)) (sym reads) (
                inr (
                  invalid none error,
                  refl,
                  invalid-IsAnswered none error (owed_id value)
                      (unfold id_or in sym (in_object value object ∙ unnamed id has_method bad)),
                ))
        ]
    | inr other ↦
        let error = not_object (json.kind value) in
        let reads : message_of json value ≡ refused (invalid none error) =
          unfold message_of in rw other refl in
        subst (IsDealtWith (inl value)) (sym reads) (
          inr (
            invalid none error,
            refl,
            invalid-IsAnswered none error (owed_id value) (unfold id_or in rw other refl),
          ))
  ]

  message_in-IsDealtWith : (found : Value ⊎ Text) → IsDealtWith found (message_in json found)
  message_in-IsDealtWith (inr error) = (json_error error, refl, json_error-IsAnswered error)
  message_in-IsDealtWith (inl value) = message_of-IsDealtWith value

  -- A framed body of at most `u64_max` bytes is taken off the stream whatever it holds, and what
  -- the JSON library reads of it decides: no JSON is refused, answered as a parse error under
  -- null; a value is an object that the library reads as a message and arrives, or is refused,
  -- answered as an invalid request under the id of the object where that is a string or a number
  -- and under null otherwise; after either refusal the connection goes on.
  pub read_message-IsDealtWith :
      (from_utf8_lossy : List ℕ → Text) (quoted : Text → Text) (fails : Bool) (body tail : List ℕ)
      → ReadsAscii from_utf8_lossy
      → length body ≤ u64_max
      → (r : Read Value) × (read_message from_utf8_lossy quoted json fails (frame body ++ tail)
          ≡ (r, tail))
        × IsDealtWith (json.from_slice body) r
  read_message-IsDealtWith from_utf8_lossy quoted fails body tail ascii fits = (
    message_in json (json.from_slice body),
    read_message-frame from_utf8_lossy quoted json fails body tail ascii fits,
    message_in-IsDealtWith (json.from_slice body),
  )
