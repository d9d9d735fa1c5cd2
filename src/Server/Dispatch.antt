-- ===== src/Server/Dispatch.antt =====
-- rs/src/server.rs: `handle`, `answer` and `bad_params`. What the JSON library makes of a method's parameters is a
-- parameter; a panic of a handler, which `handle_contained` answers, is a defect that the model has none of.
use lsp.Base.{
  ℕ, ◌⊎◌, inl, inr, Bool, true, not, Option, none, some, List, [], ◌∷◌, ◌++◌, if◌then◌else◌,
}
use lsp.Base.Text.{Text, codes, text_eq}
use lsp.Types.{ℤ, negsuc, Position, Range}
use lsp.Outline.Nesting.{Symbols, no_symbols}
use lsp.Jsonrpc.{Message, invalid_request, is_response}
use lsp.Analyze.{Analysis, SemanticTokens}
use lsp.Server.State.{
  Host, Server, Outgoing, responded, responded_error, logged, log_error, Reply, document_symbols,
  token_data, null_result,
}
use lsp.Server.Analyses.{Turn}
use lsp.Server.Due.{current_analysis}
use lsp.Server.Setup.{InitializeParams, initialize, initialized}
use lsp.Server.Editing.{did_open, did_change, did_close, did_change_watched_files}
use lsp.Server.Queries.{completion_at, hover_over, status}

abbrev pub method_not_found : ℤ
method_not_found = negsuc 32600

abbrev pub invalid_params : ℤ
invalid_params = negsuc 32601

pub record OpenParams : Type 0 where
  pub uri : Text
  pub language_id : Text
  pub version : ℤ
  pub text : Text

pub record ChangeParams : Type 0 where
  pub uri : Text
  pub version : ℤ
  pub changes : List (Option Range × Text)

pub record PositionParams : Type 0 where
  pub uri : Text
  pub position : Position

-- what the parameters of each method are read as, or why they are not
pub record Protocol (Value : Type 0) : Type 0 where
  pub null : Value
  pub read_initialize : Value → InitializeParams Value
  pub read_open : Value → OpenParams ⊎ Text
  pub read_change : Value → ChangeParams ⊎ Text
  pub read_document : Value → Text ⊎ Text
  pub read_files : Value → List Text ⊎ Text
  pub read_position : Value → PositionParams ⊎ Text

-- a message with a method, read
pub data Call (Value : Type 0) : Type 0 where
  call_initialize : InitializeParams Value → Call Value
  call_initialized call_shutdown call_exit call_status : Call Value
  call_open : OpenParams → Call Value
  call_change : ChangeParams → Call Value
  call_close call_symbols call_tokens : Text → Call Value
  call_files : List Text → Call Value
  call_completion call_hover : PositionParams → Call Value
  malformed : Text → Call Value
  unhandled : Call Value

abbrev pub sound_or {ℓ} : {A : Type ℓ} {Value : Type 0} → (A → Call Value) → A ⊎ Text → Call Value
sound_or call (inl params) = call params
sound_or call (inr error) = malformed error

unfoldable pub read_call : {Value : Type 0} → Protocol Value → Text → Value → Call Value
unfolding text_eq
read_call protocol method params =
    if text_eq method (codes "initialize")
    then call_initialize (protocol.read_initialize params)
    else if text_eq method (codes "initialized")
    then call_initialized
    else if text_eq method (codes "shutdown")
    then call_shutdown
    else if text_eq method (codes "exit")
    then call_exit
    else if text_eq method (codes "textDocument/didOpen")
    then sound_or call_open (protocol.read_open params)
    else if text_eq method (codes "textDocument/didChange")
    then sound_or call_change (protocol.read_change params)
    else if text_eq method (codes "textDocument/didClose")
    then sound_or call_close (protocol.read_document params)
    else if text_eq method (codes "workspace/didChangeWatchedFiles")
    then sound_or call_files (protocol.read_files params)
    else if text_eq method (codes "textDocument/completion")
    then sound_or call_completion (protocol.read_position params)
    else if text_eq method (codes "textDocument/documentSymbol")
    then sound_or call_symbols (protocol.read_document params)
    else if text_eq method (codes "textDocument/semanticTokens/full")
    then sound_or call_tokens (protocol.read_document params)
    else if text_eq method (codes "textDocument/hover")
    then sound_or call_hover (protocol.read_position params)
    else if text_eq method (codes "tabnas/status")
    then call_status
    else unhandled

abbrev pub data_of : Option SemanticTokens → List ℕ
data_of none = []
data_of (some tokens) = tokens.wire

module _ {Error Parsed : Type 0} where
  -- no analysis gives the empty answers
  abbrev pub symbols_of : Option (Analysis Error Parsed) → Symbols
  symbols_of none = no_symbols
  symbols_of (some analysis) = analysis.outline_symbols

  abbrev pub tokens_of : Option (Analysis Error Parsed) → List ℕ
  tokens_of none = []
  tokens_of (some analysis) = data_of analysis.semantic_tokens

module _ {Value : Type 0} where
  unfoldable pub answer : Option Value → Reply → List (Outgoing Value)
  answer none reply = []
  answer (some id) reply = responded id reply ∷ []

  unfoldable pub bad_params : Option Value → Text → Text → List (Outgoing Value)
  bad_params none method error =
      logged log_error
        (codes "tabnas-lsp: " ++ (codes "invalid params for " ++ (method ++ (codes ": " ++ error))))
      ∷ []
  bad_params (some id) method error =
      responded_error id invalid_params
        (codes "invalid params for " ++ (method ++ (codes ": " ++ error)))
      ∷ []

  unfoldable pub refuse_method : Option Value → Text → List (Outgoing Value)
  refuse_method none method = []
  refuse_method (some id) method =
      responded_error id method_not_found (codes "Unhandled method " ++ method) ∷ []

  -- a message without a method
  unfoldable pub refuse_message : Option Value → Bool → List (Outgoing Value)
  refuse_message none responds = []
  refuse_message (some id) responds =
      if not responds
      then responded_error id invalid_request
          (codes "Invalid request: a message needs a method, a result or an error")
        ∷ []
      else []

  abbrev pub params_or : Protocol Value → Option Value → Value
  params_or protocol none = protocol.null
  params_or protocol (some params) = params

module _ {Value Inst Error Parsed : Type 0} (host : Host Value Inst Error Parsed) where
  abbrev pub answered : Option Value → Turn host × Reply → Turn host
  answered id ((s, sent), reply) = (s, sent ++ answer id reply)

  -- the arm of a call
  unfoldable pub perform :
      ℕ → Option Value → Text → Call Value → Server Value Inst Error Parsed → Turn host
  unfolding answer bad_params refuse_method initialize initialized did_open did_change did_close
      did_change_watched_files completion_at hover_over status current_analysis
  perform now id method (call_initialize p) s = answered id (initialize host p s)
  perform now id method call_initialized s = initialized host s
  perform now id method call_shutdown s = (record s { shutdown = true }, answer id null_result)
  perform now id method call_exit s = (record s { exited = true }, [])
  perform now id method (call_open p) s =
      (did_open host now p.uri p.language_id p.version p.text s, [])
  perform now id method (call_change p) s = (did_change host now p.uri p.changes p.version s, [])
  perform now id method (call_close uri) s = did_close host uri s
  perform now id method (call_files uris) s = did_change_watched_files host now uris s
  perform now id method (call_completion p) s = answered id (completion_at host p.uri p.position s)
  perform now id method (call_symbols uri) s =
      (s, answer id (document_symbols (symbols_of (current_analysis host s uri))))
  perform now id method (call_tokens uri) s =
      (s, answer id (token_data (tokens_of (current_analysis host s uri))))
  perform now id method (call_hover p) s = (s, answer id (hover_over host p.uri p.position s))
  perform now id method call_status s = (s, answer id (status host s))
  perform now id method (malformed error) s = (s, bad_params id method error)
  perform now id method unhandled s = (s, refuse_method id method)

  abbrev pub handle_method :
      Protocol Value → ℕ → Message Value → Option Text → Server Value Inst Error Parsed → Turn host
  handle_method protocol now m none s = (s, refuse_message m.id (is_response m))
  handle_method protocol now m (some method) s =
      perform now m.id method (read_call protocol method (params_or protocol m.params)) s

  unfoldable pub handle :
      Protocol Value → ℕ → Message Value → Server Value Inst Error Parsed → Turn host
  unfolding perform refuse_message read_call is_response
  handle protocol now m s = handle_method protocol now m m.method s
