-- ===== src/Server/Responses.antt =====
-- rs/src/server.rs: which responses go out, and which a message is owed by a table of the methods that are requests.
use lsp.Base.{
  ◌≡◌, refl, ap, ◌∙◌, Bool, true, false, Option, none, some, List, [], ◌∷◌, ◌++◌, if◌then◌else◌,
}
use lsp.Base.Text.{Text}
use lsp.Jsonrpc.{Message, is_response}
use lsp.Server.State.{
  Outgoing, responded, responded_error, published, registered, logged, passed, Reply,
}
use lsp.Server.Dispatch.{
  Protocol, Call, call_initialized, call_exit, call_open, call_change, call_close, call_files,
  read_call, params_or, answer, bad_params, refuse_method, refuse_message,
}

module _ {Value : Type 0} where
  -- the ids that are responded to
  unfoldable pub responses : List (Outgoing Value) → List Value
  responses [] = []
  responses (responded id reply ∷ sent) = id ∷ responses sent
  responses (responded_error id code message ∷ sent) = id ∷ responses sent
  responses (published uri version diagnostics ∷ sent) = responses sent
  responses (registered id globs ∷ sent) = responses sent
  responses (logged level message ∷ sent) = responses sent
  responses (passed message ∷ sent) = responses sent

  -- the calls that a client awaits an answer to; the methods that the server does not know count as such
  unfoldable pub awaits_answer : Call Value → Bool
  awaits_answer call_initialized = false
  awaits_answer call_exit = false
  awaits_answer (call_open p) = false
  awaits_answer (call_change p) = false
  awaits_answer (call_close uri) = false
  awaits_answer (call_files uris) = false
  awaits_answer _ = true

  abbrev pub id_list : Option Value → List Value
  id_list none = []
  id_list (some id) = id ∷ []

  abbrev pub owed_to_method : Protocol Value → Message Value → Option Text → List Value
  owed_to_method protocol m none = if is_response m then [] else id_list m.id
  owed_to_method protocol m (some method) =
      if awaits_answer (read_call protocol method (params_or protocol m.params))
      then id_list m.id
      else []

  -- what a message is owed
  unfoldable pub owed : Protocol Value → Message Value → List Value
  unfolding awaits_answer is_response read_call
  owed protocol m = owed_to_method protocol m m.method

  responses-append :
      (xs ys : List (Outgoing Value)) → responses (xs ++ ys) ≡ responses xs ++ responses ys
  unfolding responses
  responses-append [] ys = refl
  responses-append (responded id reply ∷ sent) ys = ap (◌∷◌ id) (responses-append sent ys)
  responses-append (responded_error id code message ∷ sent) ys =
      ap (◌∷◌ id) (responses-append sent ys)
  responses-append (published uri version diagnostics ∷ sent) ys = responses-append sent ys
  responses-append (registered id globs ∷ sent) ys = responses-append sent ys
  responses-append (logged level message ∷ sent) ys = responses-append sent ys
  responses-append (passed message ∷ sent) ys = responses-append sent ys

  pub none_before :
      (xs ys : List (Outgoing Value)) → responses xs ≡ [] → responses (xs ++ ys) ≡ responses ys
  none_before xs ys h = responses-append xs ys ∙ ap (λ (ids : List Value). ids ++ responses ys) h

  pub responses-answer :
      (id : Option Value) (reply : Reply) → responses (answer id reply) ≡ id_list id
  unfolding responses answer
  responses-answer none reply = refl
  responses-answer (some id) reply = refl

  pub responses-bad_params :
      (id : Option Value) (method error : Text)
      → responses (bad_params id method error) ≡ id_list id
  unfolding responses bad_params
  responses-bad_params none method error = refl
  responses-bad_params (some id) method error = refl

  pub responses-refuse_method :
      (id : Option Value) (method : Text) → responses (refuse_method id method) ≡ id_list id
  unfolding responses refuse_method
  responses-refuse_method none method = refl
  responses-refuse_method (some id) method = refl

  pub responses-refuse_message :
      (id : Option Value) (responds : Bool)
      → responses (refuse_message id responds) ≡ (if responds then [] else id_list id)
  unfolding responses refuse_message
  responses-refuse_message none true = refl
  responses-refuse_message none false = refl
  responses-refuse_message (some id) true = refl
  responses-refuse_message (some id) false = refl
