-- ===== src/Jsonrpc/Termination.antt =====
-- rs/src/jsonrpc.rs: the reader loop ends, since every message that it goes on from has used bytes of the stream.
use lsp.Base.{
  ℕ, zero, suc, ◌≤◌, ◌<◌, ◌≡◌, refl, ap, ◌∙◌, subst, Bool, false, Bool-cases, not, ◌&&◌, ◌||◌, ◌⊎◌,
  inl, inr, Option, none, some, List, [], ◌∷◌, ◌++◌, arith, ltb, ◌==◌, if◌then◌else◌, All, length,
  length-append, length-drop, take,
}
use lsp.Base.Text.{Text}
use lsp.Jsonrpc.{Message, RpcError, is_recoverable}
use lsp.Jsonrpc.Framing.{
  lines_from, joined, is_terminated, trim_line, split_once, Declared, is_blank, header_length,
  read_headers, Headers, no_more, broken, block,
}
use lsp.Jsonrpc.Reader.{
  Json, Read, arrived, ended, refused, read_body, read_declared, read_framed, read_message,
  send_next, read_messages,
}
use lsp.Jsonrpc.Blocks.{joined-lines_from}

abbrev IsFilled : List ℕ → Type 0
IsFilled line = 0 < length line

lines_from-IsFilled : (line bs : List ℕ) → All IsFilled (lines_from line bs)
unfolding lines_from
lines_from-IsFilled [] [] = tt
lines_from-IsFilled (b ∷ line) [] = (omega arith, tt)
lines_from-IsFilled line (b ∷ bs) = elim (Bool-cases (b == 10)) [
  | inl e ↦ rw e (omega (arith, length-append line (b ∷ [])), lines_from-IsFilled [] bs)
  | inr e ↦ rw e (lines_from-IsFilled (line ++ b ∷ []) bs)
]

-- Headers that come to a block have used some of `n` bytes.
abbrev UsesLines : ℕ → Headers → Type 0
UsesLines n no_more = Unit
UsesLines n broken = Unit
UsesLines n (block declared rest) = length (joined rest) < n

more_used : (h : Headers) (m n : ℕ) → m ≤ n → UsesLines m h → UsesLines n h
more_used no_more m n le h = tt
more_used broken m n le h = tt
more_used (block declared rest) m n le h = omega (arith, h)

module _ (from_utf8_lossy : List ℕ → Text) (quoted : Text → Text) where
  read_headers-UsesLines :
      (fails started : Bool) (declared : Declared) (lines : List (List ℕ))
      → All IsFilled lines
      → UsesLines
          (length (joined lines))
          (read_headers from_utf8_lossy quoted fails started declared lines)
  unfolding read_headers joined
  read_headers-UsesLines fails started declared [] filled = elim (Bool-cases (fails || started)) [
    | inl e ↦ rw e tt
    | inr e ↦ rw e tt
  ]
  read_headers-UsesLines fails started declared (line ∷ lines) filled =
      let text = trim_line (from_utf8_lossy line) in
      let longer = length-append line (joined lines) in
      elim (Bool-cases (fails && not (is_terminated line))) [
        | inl cut ↦ rw cut tt
        | inr whole ↦ elim (Bool-cases (is_blank text && started)) [
          | inl over ↦ rw (whole, over) (omega (arith, longer, filled.0))
          | inr further ↦
              rw (whole, further)
                (more_used _ (length (joined lines)) _ (omega (arith, longer)) (
                  read_headers-UsesLines fails (not (is_blank text))
                    (if is_blank text
                      then declared
                      else header_length quoted (split_once b':' text) declared)
                    lines filled.1))
        ]
      ]

module _ {Value : Type 0} where
  -- an answer that the loop does not go on from
  abbrev pub IsLast : Read Value → Type 0
  IsLast (arrived message) = ⊥
  IsLast ended = Unit
  IsLast (refused error) = is_recoverable error ≡ false

  -- An answer that the loop goes on from has used some of `n` bytes.
  abbrev pub Uses : ℕ → Read Value × List ℕ → Type 0
  Uses n answer = IsLast answer.0 ⊎ (length answer.1 < n)

  read_declared-Uses :
      (json : Json Value) (declared : Declared) (stream : List ℕ) (n : ℕ)
      → length stream < n
      → Uses n (read_declared json declared stream)
  unfolding read_declared read_body is_recoverable
  read_declared-Uses json none stream n h = inr h
  read_declared-Uses json (some (inr error)) stream n h = inr h
  read_declared-Uses json (some (inl declared)) stream n h =
      elim (Bool-cases (ltb (length (take declared stream)) declared)) [
        | inl short ↦ rw short (inl refl)
        | inr enough ↦ rw enough (inr (omega (arith, h, length-drop declared stream)))
      ]

  read_framed-Uses :
      (json : Json Value) (h : Headers) (n : ℕ) → UsesLines n h → Uses n (read_framed json h)
  unfolding read_framed is_recoverable
  read_framed-Uses json no_more n used = inl tt
  read_framed-Uses json broken n used = inl refl
  read_framed-Uses json (block declared lines) n used =
      read_declared-Uses json declared (joined lines) n used

  sent_last :
      (next : Read Value) (a b : Option (List (Message Value ⊎ RpcError Value)))
      → IsLast next
      → send_next next a ≡ send_next next b
  sent_last (arrived message) a b h = absurd h
  sent_last ended a b h = refl
  sent_last (refused error) a b h = rw h refl

  send_some :
      (next : Read Value) (rest : List (Message Value ⊎ RpcError Value))
      → (items : List (Message Value ⊎ RpcError Value)) × (send_next next (some rest) ≡ some items)
  send_some (arrived message) rest = (inl message ∷ rest, refl)
  send_some ended rest = ([], refl)
  send_some (refused error) rest = elim (Bool-cases (is_recoverable error)) [
    | inl e ↦ (inr error ∷ rest, rw e refl)
    | inr e ↦ (inr error ∷ [], rw e refl)
  ]

module _ {Value : Type 0} (from_utf8_lossy : List ℕ → Text) (quoted : Text → Text)
    (json : Json Value) (fails : Bool) where
  pub read_message-Uses :
      (stream : List ℕ)
      → Uses (length stream) (read_message from_utf8_lossy quoted json fails stream)
  unfolding read_message
  read_message-Uses stream = read_framed-Uses json _ (length stream) (
      subst
        (λ (bs : List ℕ).
          UsesLines (length bs)
            (read_headers from_utf8_lossy quoted fails false none (lines_from [] stream)))
        (joined-lines_from [] stream)
        (read_headers-UsesLines from_utf8_lossy quoted fails false none (lines_from [] stream)
          (lines_from-IsFilled [] stream)))

  -- the loop gives one list, on any fuel above the length of the stream
  abbrev pub Sends : List ℕ → Type 0
  Sends stream =
      (items : List (Message Value ⊎ RpcError Value)) × ((fuel : ℕ)
        → length stream < fuel
        → read_messages from_utf8_lossy quoted json fails fuel stream ≡ some items)

  read_messages_on : (bound : ℕ) (stream : List ℕ) → length stream < bound → Sends stream
  unfolding read_messages
  read_messages_on zero stream h = absurd (omega arith)
  read_messages_on (suc bound) stream h =
      let answer = read_message from_utf8_lossy quoted json fails stream in
      elim (read_message-Uses stream) [
        | inl last ↦
            let (items, sent) = send_some answer.0 [] in
            (items, λ fuel enough. on_last fuel enough items last sent)
        | inr used ↦
            let (rest, read) = read_messages_on bound answer.1 (omega arith) in
            let (items, sent) = send_some answer.0 rest in
            (items, λ fuel enough. on_rest fuel enough rest items used read sent)
      ]
    where
      on_last :
          (fuel : ℕ)
          → length stream < fuel
          → (items : List (Message Value ⊎ RpcError Value))
          → IsLast (read_message from_utf8_lossy quoted json fails stream).0
          → send_next (read_message from_utf8_lossy quoted json fails stream).0 (some [])
            ≡ some items
          → read_messages from_utf8_lossy quoted json fails fuel stream ≡ some items
      on_last zero enough items last sent = absurd (omega arith)
      on_last (suc fuel) enough items last sent =
          sent_last (read_message from_utf8_lossy quoted json fails stream).0 _ (some []) last
          ∙ sent

      on_rest :
          (fuel : ℕ)
          → length stream < fuel
          → (rest items : List (Message Value ⊎ RpcError Value))
          → length (read_message from_utf8_lossy quoted json fails stream).1 < length stream
          → ((g : ℕ)
              → length (read_message from_utf8_lossy quoted json fails stream).1 < g
              → read_messages from_utf8_lossy quoted json fails g
                  (read_message from_utf8_lossy quoted json fails stream).1
                ≡ some rest)
          → send_next (read_message from_utf8_lossy quoted json fails stream).0 (some rest)
            ≡ some items
          → read_messages from_utf8_lossy quoted json fails fuel stream ≡ some items
      on_rest zero enough rest items used read sent = absurd (omega arith)
      on_rest (suc fuel) enough rest items used read sent =
          ap (send_next (read_message from_utf8_lossy quoted json fails stream).0)
            (read fuel (omega arith))
          ∙ sent

  -- The reader loop ends on every stream, failing or not: there is one list that it sends on any
  -- fuel above the number of bytes.
  pub read_messages-Sends : (stream : List ℕ) → Sends stream
  read_messages-Sends stream = read_messages_on (suc (length stream)) stream (omega arith)
