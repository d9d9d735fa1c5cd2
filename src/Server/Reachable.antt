-- ===== src/Server/Reachable.antt =====
-- rs/src/server.rs: the states that a server comes to, and what its cache then answers.
use lsp.Base.{ℕ, ◌≡◌, refl, inl, inr, Bool, Bool-cases, Option, none, some}
use lsp.Base.Text.{Text, text_eq}
use lsp.Base.Maps.{lookup}
use lsp.Types.{ℤ, Doc}
use lsp.Documents.Store.{get_doc}
use lsp.Jsonrpc.{Message}
use lsp.Analyze.{Analysis}
use lsp.Server.State.{Config, Host, Server, with_trust}
use lsp.Server.Due.{same_version, analyze_due, flush, current_for, current_analysis}
use lsp.Server.Dispatch.{Protocol, read_call, params_or, handle_method, handle}
use lsp.Server.Freshness.{IsMadeFrom, IsFresh}
use lsp.Server.Invariant.{analyze_due-IsFresh, flush-IsFresh}
use lsp.Server.Kept.{OpensAnew, perform-IsFresh}

module _ {Value Inst Error Parsed : Type 0} (host : Host Value Inst Error Parsed)
    (protocol : Protocol Value) where
  -- the message opens only what is not open, as the protocol wants it of a client
  abbrev pub IsOrderly : Message Value → Server Value Inst Error Parsed → Type 0
  IsOrderly m s =
      (method : Text)
      → m.method ≡ some method
      → OpensAnew host (read_call protocol method (params_or protocol m.params)) s

  -- from any configuration, by analyses and messages in any order and at any times
  pub data IsReachable : Server Value Inst Error Parsed → Type 0 where
    started : (config : Config Value) (granted : Bool) → IsReachable (with_trust config granted)
    analyzed :
        (now : ℕ) (s : Server Value Inst Error Parsed)
        → IsReachable s
        → IsReachable (analyze_due host now s).0
    flushed : (s : Server Value Inst Error Parsed) → IsReachable s → IsReachable (flush host s).0
    handled :
        (now : ℕ) (m : Message Value) (s : Server Value Inst Error Parsed)
        → IsOrderly m s
        → IsReachable s
        → IsReachable (handle host protocol now m s).0

  handle_method-IsFresh :
      (now : ℕ) (m : Message Value) (method : Option Text) (s : Server Value Inst Error Parsed)
      → m.method ≡ method
      → IsOrderly m s
      → IsFresh host s
      → IsFresh host (handle_method host protocol now m method s).0
  handle_method-IsFresh now m none s e orderly fresh = fresh
  handle_method-IsFresh now m (some method) s e orderly fresh =
      perform-IsFresh host now m.id method (read_call protocol method (params_or protocol m.params))
        s (orderly method e) fresh

  start-IsFresh :
      (config : Config Value) (granted : Bool) → IsFresh host (with_trust config granted)
  unfolding with_trust lookup
  start-IsFresh config granted uri version analysis found = absurd (nothing found)
    where
      nothing : ◌≡◌ {A = Option (ℤ × Analysis Error Parsed)} none (some (version, analysis)) → ⊥
      nothing h = cc

  reachable-IsFresh : (s : Server Value Inst Error Parsed) → IsReachable s → IsFresh host s
  unfolding handle
  reachable-IsFresh s (started config granted) = start-IsFresh config granted
  reachable-IsFresh s (analyzed now before reached) =
      analyze_due-IsFresh host now before (reachable-IsFresh before reached)
  reachable-IsFresh s (flushed before reached) =
      flush-IsFresh host before (reachable-IsFresh before reached)
  reachable-IsFresh s (handled now m before orderly reached) =
      handle_method-IsFresh now m m.method before refl orderly (reachable-IsFresh before reached)

  cached_of :
      (doc : Option Doc) (cached : Option (ℤ × Analysis Error Parsed))
      (analysis : Analysis Error Parsed)
      → current_for host doc cached ≡ some analysis
      → (version : ℤ) × (cached ≡ some (version, analysis))
  cached_of none cached analysis h = absurd (nothing h)
    where
      nothing : ◌≡◌ {A = Option (Analysis Error Parsed)} none (some analysis) → ⊥
      nothing k = cc
  cached_of (some doc) none analysis h = absurd (nothing h)
    where
      nothing : ◌≡◌ {A = Option (Analysis Error Parsed)} none (some analysis) → ⊥
      nothing k = cc
  cached_of (some doc) (some (version, found)) analysis h =
      elim (Bool-cases (same_version version doc.version)) [
        | inl e ↦ (version, same (rw e at h))
        | inr e ↦ absurd (nothing (rw e at h))
      ]
    where
      same :
          ◌≡◌ {A = Option (Analysis Error Parsed)} (some found) (some analysis)
          → ◌≡◌ {A = Option (ℤ × Analysis Error Parsed)}
              (some (version, found))
              (some (version, analysis))
      same k = cc

      nothing : ◌≡◌ {A = Option (Analysis Error Parsed)} none (some analysis) → ⊥
      nothing k = cc

  -- In every state that the server reaches from its start, by messages and analyses in any order
  -- and at any times, where a client opens only what is not open, the analysis that answers
  -- requests about a URI is one of the open document: of a parse of just its text, for its
  -- version.
  pub current_analysis-IsMadeFrom :
      (s : Server Value Inst Error Parsed) (uri : Text) (analysis : Analysis Error Parsed)
      → IsReachable s
      → current_analysis host s uri ≡ some analysis
      → (doc : Doc) × (get_doc s.docs uri ≡ some doc) × IsMadeFrom host doc analysis
  unfolding current_analysis
  current_analysis-IsMadeFrom s uri analysis reached current =
      let (version, found) =
        cached_of (get_doc s.docs uri) (lookup text_eq uri s.analyses) analysis current in
      let (doc, opened, same, made) = reachable-IsFresh s reached uri version analysis found in
      (doc, opened, made)
