-- ===== src/Tests/Framing.antt =====
-- The theorems on the framing of messages, at inputs that meet their hypotheses.
use lsp.Base.{
  All, ℕ, ◌<◌, ◌≡◌, ◌⊎◌, inl, inr, refl, Bool, true, false, Option, none, some, List, [], ◌∷◌, ◌++◌,
  map, if◌then◌else◌, arith, length,
}
use lsp.Base.Text.{Text, codes, text_eq}
use lsp.Jsonrpc.{Message, RpcError, frame_error, notification}
use lsp.Jsonrpc.Framing.{split_once, frame}
use lsp.Jsonrpc.Reader.{object_kind, Json, Read, refused, read_message, read_messages}
use lsp.Jsonrpc.Blocks.{block_before}
use lsp.Jsonrpc.Termination.{read_messages-Sends}
use lsp.Jsonrpc.Unframed.{unframed_block}
use lsp.Jsonrpc.Refusals.{IsDealtWith, read_message-IsDealtWith}
use lsp.Jsonrpc.RoundTrip.{write_messages, read_messages-write_messages}

abbrev text_or_nil : Option Text → Text
text_or_nil none = []
text_or_nil (some t) = t

-- a library that writes the method of a notification, and nothing else
abbrev method_json : Json Text
method_json = record {
  from_slice = λ bs. inl bs;
  kind = λ v. object_kind;
  field = λ v name. if text_eq name (codes "method") then some v else none;
  from_value = λ v. inl (notification v none);
  to_vec = λ m. inl (text_or_nil m.method);
}

abbrev as_text : List ℕ → Text
as_text bs = bs

abbrev in_quotes : Text → Text
in_quotes t = 34 ∷ t ++ 34 ∷ []

abbrev two_messages : List (Message Text)
two_messages = notification (codes "initialized") none ∷ notification (codes "exit") none ∷ []

read_messages-write_messages_example :
    (written : List ℕ) × (write_messages method_json [] two_messages ≡ inl written)
    × ((fuel : ℕ)
        → length written < fuel
        → read_messages as_text in_quotes method_json false fuel written
          ≡ some (map inl two_messages))
unfolding text_eq notification
read_messages-write_messages_example =
    read_messages-write_messages as_text in_quotes method_json two_messages (λ bs ascii. refl)
      (
        (
          codes "initialized",
          codes "initialized",
          refl,
          omega arith,
          refl,
          refl,
          refl,
          refl,
          refl,
          refl,
        ),
        ((codes "exit", codes "exit", refl, omega arith, refl, refl, refl, refl, refl, refl), tt),
      )

-- a header without a length, and a message's method behind the blank line
unframed_block_example :
    (text : Text) × (read_message as_text in_quotes method_json true
        (block_before (codes "A: x" ∷ []) (codes "exit"))
      ≡ (refused (frame_error text), codes "exit"))
unfolding split_once lsp.Jsonrpc.Framing.trim_line lsp.Jsonrpc.Framing.is_content_length
    lsp.Base.Trim.trim lsp.Base.Trim.trim_start lsp.Base.Trim.is_whitespace
    lsp.Base.Trim.to_ascii_lowercase text_eq
unframed_block_example =
    unframed_block as_text in_quotes method_json true (codes "A: x") [] (codes "exit")
      (λ bs ascii. refl)
      (
        (
          (
            (omega arith, refl),
            ((omega arith, refl), ((omega arith, refl), ((omega arith, refl), tt))),
          ),
          refl,
          refl,
        ),
        tt,
      )
      (refl, tt)

read_messages-Sends_example :
    (items : List (Message Text ⊎ RpcError Text)) × ((fuel : ℕ)
      → 4 < fuel
      → read_messages as_text in_quotes method_json true fuel (codes "exit") ≡ some items)
read_messages-Sends_example = read_messages-Sends as_text in_quotes method_json true (codes "exit")

-- a library that reads every body as an object with the id "7", and no object as a message
abbrev strict_json : Json Text
strict_json = record method_json {
  field = λ v name. if text_eq name (codes "id") then some (codes "7") else none;
  from_value = λ v. inr (codes "no message");
}

read_message-IsDealtWith_example :
    (r : Read Text) × (read_message as_text in_quotes strict_json false
        (frame (codes "{}") ++ codes "next")
      ≡ (r, codes "next"))
    × IsDealtWith strict_json (codes "null") (inl (codes "{}")) r
read_message-IsDealtWith_example =
    read_message-IsDealtWith strict_json (codes "null") as_text in_quotes false (codes "{}")
      (codes "next") (λ bs ascii. refl) (omega arith)
