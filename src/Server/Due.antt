-- ===== src/Server/Due.antt =====
-- rs/src/server.rs: `schedule`, `next_deadline`, `analyze_due`, `flush` and `current_analysis`.
use lsp.Base.{
  ℕ, ◌+◌, min, Bool, true, false, ◌&&◌, ◌||◌, Option, none, some, List, [], ◌∷◌, ◌++◌, ltb, leb,
  ◌==◌, if◌then◌else◌, map, filter,
}
use lsp.Base.Sort.{sort}
use lsp.Base.Text.{Text, text_eq}
use lsp.Base.Maps.{lookup, erase, put}
use lsp.Types.{ℤ, pos, negsuc, Doc}
use lsp.Documents.Store.{get_doc}
use lsp.Analyze.{Analysis}
use lsp.Server.State.{Host, Server}
use lsp.Server.Analyses.{Turn, run_analysis}

abbrev pub same_version : ℤ → ℤ → Bool
same_version (pos a) (pos b) = a == b
same_version (negsuc a) (negsuc b) = a == b
same_version _ _ = false

-- `==` and `<` of texts decide in which order equal deadlines come
unfoldable pub text_le : Text → Text → Bool
text_le [] t = true
text_le (c ∷ s) [] = false
text_le (c ∷ s) (d ∷ t) = let rest = text_le s t in ltb c d || (c == d && rest)

abbrev pub due_order : ℕ × Text → ℕ × Text → Bool
due_order a b = ltb a.0 b.0 || (a.0 == b.0 && text_le a.1 b.1)

-- `.map(|(uri, at)| (at, uri))`
abbrev pub deadline_first : Text × ℕ → ℕ × Text
deadline_first p = (p.1, p.0)

abbrev pub earliest : List (Text × ℕ) → Option ℕ → Option ℕ
earliest [] found = found
earliest ((uri, at) ∷ pending) none = earliest pending (some at)
earliest ((uri, at) ∷ pending) (some best) = earliest pending (some (min best at))

module _ {Value Inst Error Parsed : Type 0} (host : Host Value Inst Error Parsed) where
  unfoldable pub schedule :
      ℕ → Text → Server Value Inst Error Parsed → Server Value Inst Error Parsed
  schedule now uri s = record s { pending = put text_eq uri (now + s.config.debounce) s.pending }

  -- the loops of `analyze_due` and `flush`; a drained document is not pending already
  unfoldable pub run_all : List (ℕ × Text) → Server Value Inst Error Parsed → Turn host
  unfolding run_analysis
  run_all [] s = (s, [])
  run_all ((at, uri) ∷ due) s =
      let (s', sent) = run_analysis host uri (record s { pending = erase text_eq uri s.pending }) in
      let (s'', more) = run_all due s' in (s'', sent ++ more)

  -- what is due, by its deadline
  abbrev pub due_by : ℕ → Server Value Inst Error Parsed → List (ℕ × Text)
  due_by now s =
      sort due_order (map deadline_first (filter (λ (p : Text × ℕ). leb p.1 now) s.pending))

  unfoldable pub analyze_due : ℕ → Server Value Inst Error Parsed → Turn host
  unfolding run_all
  analyze_due now s = run_all (due_by now s) s

  unfoldable pub flush : Server Value Inst Error Parsed → Turn host
  unfolding run_all
  flush s = run_all (sort due_order (map deadline_first s.pending)) (record s { pending = [] })

  unfoldable pub next_deadline : Server Value Inst Error Parsed → Option ℕ
  next_deadline s = earliest s.pending none

  abbrev pub of_version : Doc → Option (ℤ × Analysis Error Parsed) → Option (Analysis Error Parsed)
  of_version doc none = none
  of_version doc (some (version, analysis)) =
      if same_version version doc.version then some analysis else none

  abbrev pub current_for :
      Option Doc → Option (ℤ × Analysis Error Parsed) → Option (Analysis Error Parsed)
  current_for none cached = none
  current_for (some doc) cached = of_version doc cached

  unfoldable pub current_analysis :
      Server Value Inst Error Parsed → Text → Option (Analysis Error Parsed)
  unfolding get_doc
  current_analysis s uri = current_for (get_doc s.docs uri) (lookup text_eq uri s.analyses)
