-- ===== src/Server/Loop.antt =====
-- rs/src/server.rs: `run`, `reject` and `serve`. A turn has the time of its analyses, the time of its handling and what the
-- connection then yields; the turns are as many as are given.
use lsp.Base.{ℕ, ◌-◌, ◌⊎◌, inl, inr, Bool, Option, none, some, List, [], ◌∷◌, ◌++◌, if◌then◌else◌}
use lsp.Base.Text.{Text, codes}
use lsp.Jsonrpc.{Message, RpcError, is_recoverable, error_answer}
use lsp.Jsonrpc.Reader.{Received, message_received, timeout, closed, Incoming, recv_timeout}
use lsp.Server.State.{Config, Host, Server, Outgoing, logged, passed, log_error, new_server}
use lsp.Server.Due.{analyze_due, next_deadline}
use lsp.Server.Dispatch.{Protocol, handle}

pub record Turn (Value : Type 0) : Type 0 where
  pub woken : ℕ
  pub received_at : ℕ
  pub incoming : Incoming Value

-- how a run stands: it waits for more, or is over
pub data End (Value : Type 0) : Type 0 where
  waiting orderly : End Value
  broken_off : RpcError Value → End Value

-- how long a turn waits: for ever, or no longer than the earliest deadline
abbrev pub until : ℕ → Option ℕ → Option ℕ
until now none = none
until now (some at) = some (at - now)

abbrev pub reject_with : {Value : Type 0} → Text → Option (Message Value) → List (Outgoing Value)
reject_with text none = logged log_error (codes "tabnas-lsp: " ++ text) ∷ []
reject_with text (some message) = passed message ∷ []

module _ {Value Inst Error Parsed : Type 0} (host : Host Value Inst Error Parsed)
    (protocol : Protocol Value) (display : RpcError Value → Text) where
  unfoldable pub reject : RpcError Value → List (Outgoing Value)
  unfolding error_answer
  reject error = reject_with (display error) (error_answer protocol.null error)

  unfoldable pub wait : ℕ → Server Value Inst Error Parsed → Option ℕ
  unfolding next_deadline
  wait now s = until now (next_deadline host s)

  -- the state, what was sent, and the end that a turn brings
  abbrev pub Run : Type 0
  Run = Server Value Inst Error Parsed × List (Outgoing Value) × End Value

  abbrev pub goes_on : Server Value Inst Error Parsed × List (Outgoing Value) → Run
  goes_on (s, sent) = (s, sent, waiting)

  unfoldable pub take_turn :
      ℕ → Received Value ⊎ RpcError Value → Server Value Inst Error Parsed → Run
  unfolding handle reject is_recoverable
  take_turn now (inl (message_received message)) s = goes_on (handle host protocol now message s)
  take_turn now (inl timeout) s = (s, [], waiting)
  take_turn now (inl closed) s = (s, [], orderly)
  take_turn now (inr error) s =
      if is_recoverable error then (s, reject error, waiting) else (s, [], broken_off error)

  unfoldable pub after_turn : List (Outgoing Value) → Run → Run → Run
  after_turn sent (s, more, waiting) (s', rest, end) = (s', sent ++ (more ++ rest), end)
  after_turn sent (s, more, orderly) later = (s, sent ++ more, orderly)
  after_turn sent (s, more, broken_off error) later = (s, sent ++ more, broken_off error)

  unfoldable pub run : List (Turn Value) → Server Value Inst Error Parsed → Run
  unfolding take_turn recv_timeout analyze_due after_turn
  run [] s = (s, [], if s.exited then orderly else waiting)
  run (turn ∷ turns) s =
      let (analyzed, sent) = analyze_due host turn.woken s in
      let handled = take_turn turn.received_at (recv_timeout turn.incoming) analyzed in
      let rest = run turns handled.0 in
      if s.exited then (s, [], orderly) else after_turn sent handled rest

  -- whether `shutdown` came before the end, where the run came to an orderly one
  abbrev pub outcome : Run → Option (Bool ⊎ RpcError Value)
  outcome (s, sent, waiting) = none
  outcome (s, sent, orderly) = some (inl s.shutdown)
  outcome (s, sent, broken_off error) = some (inr error)

  unfoldable pub serve : Config Value → List (Turn Value) → Option (Bool ⊎ RpcError Value)
  unfolding run new_server
  serve config turns = outcome (run turns (new_server config))
