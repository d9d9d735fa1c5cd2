-- ===== src/Jsonrpc/RoundTrip.antt =====
-- rs/src/jsonrpc.rs: what `write_message` writes, the reader loop reads.
use lsp.Base.{
  ℕ, zero, suc, ◌≤◌, ◌<◌, ◌≡◌, refl, sym, ap, ◌∙◌, subst, Bool, true, false, ◌⊎◌, inl, inr, some,
  List, [], ◌∷◌, ◌++◌, append_assoc, append-nil, arith, ltb, All, map, length, take-append_length,
  drop-append_length,
}
use lsp.Base.Text.{Text, codes, u64_max}
use lsp.Jsonrpc.{Message, RpcError, is_some}
use lsp.Jsonrpc.Framing.{Declared, frame}
use lsp.Jsonrpc.Reader.{
  object_kind, Json, is_valid_id, Read, arrived, message_of, message_in, read_body, read_declared,
  read_message, write_message, read_messages,
}
use lsp.Jsonrpc.Blocks.{ReadsAscii, declared_by}
use lsp.Jsonrpc.Unframed.{read_message-block_before}
use lsp.Jsonrpc.Termination.{Uses, read_message-Uses}
use lsp.Jsonrpc.LengthHeader.{
  length_header, length_header-IsHeader, frame-block_before, header_length-length_header,
}

module _ {Value : Type 0} (from_utf8_lossy : List ℕ → Text) (quoted : Text → Text)
    (json : Json Value) where
  whole_body :
      (body tail : List ℕ)
      → read_body json (length body) (body ++ tail) ≡ (message_in json (json.from_slice body), tail)
  unfolding read_body
  whole_body body tail =
      let enough : ltb (length body) (length body) ≡ false = ground arith in
      rw
        (
          take-append_length body tail (length body) refl,
          drop-append_length body tail (length body) refl,
          enough,
        )
        refl

  pub read_message-frame :
      (fails : Bool) (body tail : List ℕ)
      → ReadsAscii from_utf8_lossy
      → length body ≤ u64_max
      → read_message from_utf8_lossy quoted json fails (frame body ++ tail)
        ≡ (message_in json (json.from_slice body), tail)
  unfolding declared_by read_declared
  read_message-frame fails body tail ascii fits =
      ap (read_message from_utf8_lossy quoted json fails) (frame-block_before body tail)
      ∙ read_message-block_before from_utf8_lossy quoted json fails (length_header (length body)) []
          (body ++ tail) ascii (length_header-IsHeader (length body), tt)
      ∙ ap (λ (d : Declared). read_declared json d (body ++ tail))
          (header_length-length_header quoted (length body) fits)
      ∙ whole_body body tail

-- The JSON library writes the message to a body of a machine length and reads it again, and the id is a message's.
abbrev pub IsSent : {Value : Type 0} → Json Value → Message Value → Type 0
IsSent {Value} json m =
    (body : List ℕ) × (value : Value) × (json.to_vec m ≡ inl body)
    × (length body ≤ u64_max)
    × (json.from_slice body ≡ inl value)
    × (json.kind value ≡ object_kind)
    × (json.field value (codes "id") ≡ m.id)
    × (is_some (json.field value (codes "method")) ≡ is_some m.method)
    × (json.from_value value ≡ inl m)
    × (is_valid_id json m.id (is_some m.method) ≡ true)

module _ {Value : Type 0} where
  abbrev pub after_write :
      List ℕ ⊎ RpcError Value → (List ℕ → List ℕ ⊎ RpcError Value) → List ℕ ⊎ RpcError Value
  after_write (inl written) next = next written
  after_write (inr error) next = inr error

  -- messages written one after another
  unfoldable pub write_messages :
      Json Value → List ℕ → List (Message Value) → List ℕ ⊎ RpcError Value
  write_messages json written [] = inl written
  write_messages json written (m ∷ ms) =
      after_write (write_message json written m) (λ next. write_messages json next ms)

  arrival :
      (json : Json Value) (m : Message Value) (value : Value)
      → json.kind value ≡ object_kind
      → json.field value (codes "id") ≡ m.id
      → is_some (json.field value (codes "method")) ≡ is_some m.method
      → json.from_value value ≡ inl m
      → is_valid_id json m.id (is_some m.method) ≡ true
      → message_of json value ≡ arrived m
  unfolding message_of
  arrival json m value object id method read valid = rw (object, id, method, valid, read) refl

module _ {Value : Type 0} (from_utf8_lossy : List ℕ → Text) (quoted : Text → Text)
    (json : Json Value) where
  abbrev pub Arrive : List (Message Value) → List ℕ → Type 0
  Arrive messages stream =
      (fuel : ℕ)
      → length stream < fuel
      → read_messages from_utf8_lossy quoted json false fuel stream ≡ some (map inl messages)

  next_message :
      (m : Message Value) (ms : List (Message Value)) (body tail : List ℕ)
      → read_message from_utf8_lossy quoted json false (frame body ++ tail) ≡ (arrived m, tail)
      → Arrive ms tail
      → Arrive (m ∷ ms) (frame body ++ tail)
  unfolding read_messages
  next_message m ms body tail read further zero enough = absurd (omega arith)
  next_message m ms body tail read further (suc fuel) enough =
      let stream = frame body ++ tail in
      elim (subst (Uses (length stream)) read
        (read_message-Uses from_utf8_lossy quoted json false stream)) [
          | inl last ↦ absurd last
          | inr used ↦ rw (read, further fuel (omega (arith, used, enough))) refl
        ]

  no_message : Arrive [] []
  unfolding read_messages
  no_message zero enough = absurd (omega arith)
  no_message (suc fuel) enough = refl

  each_message :
      (messages : List (Message Value))
      → ReadsAscii from_utf8_lossy
      → All (IsSent json) messages
      → (tail : List ℕ) × ((written : List ℕ)
          → write_messages json written messages ≡ inl (written ++ tail))
        × Arrive messages tail
  unfolding write_messages write_message
  each_message [] ascii sent = ([], λ written. ap inl (sym (append-nil written)), no_message)
  each_message (m ∷ ms) ascii
        ((body, value, vec, fits, slice, object, id, method, read, valid), sent) =
      let (tail, write, further) = each_message ms ascii sent in
      (
        frame body ++ tail,
        λ written.
            rw vec
              (write (written ++ frame body) ∙ ap inl (append_assoc written (frame body) tail)),
        next_message m ms body tail
            (read_message-frame from_utf8_lossy quoted json false body tail ascii fits
              ∙ ap (λ (r : Read Value). (r, tail))
                  (ap (message_in json) slice ∙ arrival json m value object id method read valid))
            further,
      )

  -- The reader loop, on any fuel above the length of its stream, sends just the messages that were
  -- written to the stream one after another, in order, and then ends, where the JSON library reads
  -- what it writes, bodies have a machine length, and ASCII bytes are read as themselves.
  pub read_messages-write_messages :
      (messages : List (Message Value))
      → ReadsAscii from_utf8_lossy
      → All (IsSent json) messages
      → (written : List ℕ) × (write_messages json [] messages ≡ inl written)
        × Arrive messages written
  read_messages-write_messages messages ascii sent =
      let (tail, write, further) = each_message messages ascii sent in (tail, write [], further)
