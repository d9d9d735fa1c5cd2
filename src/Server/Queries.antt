-- ===== src/Server/Queries.antt =====
-- rs/src/server.rs: the answers to `completion`, `hover` and `status`.
use lsp.Base.{ℕ, Option, none, some, List, [], ◌∷◌, ◌++◌, map}
use lsp.Base.Text.{Text, codes, byte_len}
use lsp.Types.{Position, Doc}
use lsp.Documents.Store.{get_doc}
use lsp.Registry.Entries.{
  Entry, EntrySource, bundled, user, workspace_source, language_id, lex_stream, is_enabled,
}
use lsp.Registry.Router.{all_entries}
use lsp.Instances.Cache.{Answer, disabled, ready, failed, quarantined}
use lsp.Completion.{CompletionItem, completion}
use lsp.Hover.{Hover, hover}
use lsp.Analyze.{Analysis}
use lsp.Server.State.{
  Host, Server, Outgoing, logged, log_error, Reply, completion_items, hover_result, languages,
  null_result, LanguageStatus,
}
use lsp.Server.Analyses.{Turn, over, served, get_instance}
use lsp.Server.Due.{current_analysis}

-- EntrySource::as_str
abbrev pub source_name : EntrySource → Text
source_name bundled = codes "bundled"
source_name user = codes "user"
source_name workspace_source = codes "workspace"

module _ {Value Inst Error Parsed : Type 0} (host : Host Value Inst Error Parsed) where
  abbrev pub offered :
      Entry Value → Doc → Position → Answer Inst Text → List CompletionItem × List (Outgoing Value)
  offered e doc position disabled = ([], [])
  offered e doc position (failed error) = (
    [],
    logged log_error
          (codes "tabnas-lsp: grammar load failed (" ++ (language_id e ++ (codes "): " ++ error)))
        ∷ [],
  )
  offered e doc position (ready inst) =
      (completion (host.fixed_source inst) (host.continuations inst) doc position, [])

  abbrev pub complete_within :
      Doc → Position → Entry Value → Option ℕ → Server Value Inst Error Parsed → Turn host × Reply
  complete_within doc position e (some limit) s = ((s, []), completion_items [])
  complete_within doc position e none s =
      let (instances, answer) = get_instance host e s in
      let (items, logs) = offered e doc position answer in
      ((record s { instances = instances }, logs), completion_items items)

  abbrev pub complete_with :
      Doc → Position → Option (Entry Value) → Server Value Inst Error Parsed → Turn host × Reply
  complete_with doc position none s = ((s, []), completion_items [])
  complete_with doc position (some e) s =
      complete_within doc position e (over s.config.max_document_bytes (byte_len doc.text)) s

  abbrev pub complete_on :
      Option Doc → Position → Server Value Inst Error Parsed → Turn host × Reply
  complete_on none position s = ((s, []), completion_items [])
  complete_on (some doc) position s = complete_with doc position (served host doc s) s

  unfoldable pub completion_at :
      Text → Position → Server Value Inst Error Parsed → Turn host × Reply
  unfolding get_doc served over
  completion_at uri position s = complete_on (get_doc s.docs uri) position s

  abbrev pub hover_reply : Option Hover → Reply
  hover_reply none = null_result
  hover_reply (some h) = hover_result h

  abbrev pub hover_with : Position → Doc → Analysis Error Parsed → Option (Entry Value) → Reply
  hover_with position doc analysis none = null_result
  hover_with position doc analysis (some e) = hover_reply (hover analysis.reconciled e doc position)

  abbrev pub hover_on :
      Position
      → Option Doc
      → Option (Analysis Error Parsed)
      → Server Value Inst Error Parsed
      → Reply
  hover_on position (some doc) (some analysis) s =
      hover_with position doc analysis (served host doc s)
  hover_on position _ _ s = null_result

  -- Server::hover
  unfoldable pub hover_over : Text → Position → Server Value Inst Error Parsed → Reply
  unfolding get_doc current_analysis served
  hover_over uri position s = hover_on position (get_doc s.docs uri) (current_analysis host s uri) s

  abbrev pub status_of : Server Value Inst Error Parsed → Entry Value → LanguageStatus
  status_of s e = record {
    language_id = language_id e;
    enabled = is_enabled e;
    source = source_name e.source;
    quarantined = quarantined host.identity s.instances e none;
    lex_stream = lex_stream e;
  }

  unfoldable pub status : Server Value Inst Error Parsed → Reply
  unfolding all_entries
  status s = languages (map (status_of s) (all_entries s.router))
