-- ===== src/Tests/Server.antt =====
-- The theorems on the server, at inputs that meet their hypotheses.
use lsp.Base.{
  ℕ, ◌<◌, ◌≡◌, refl, ◌⊎◌, inl, inr, true, false, Option, none, some, [], ◌∷◌, if◌then◌else◌, filter,
}
use lsp.Base.Text.{Text, codes, text_eq, bytes, utf8}
use lsp.Types.{pos, Doc, new_doc, with_encoding, utf16_units}
use lsp.Documents.Store.{get_doc}
use lsp.Registry.Entries.{Entry, new_entry}
use lsp.Instances.Cache.{Identity}
use lsp.Instances.Mux.{nothing_collected}
use lsp.Analyze.{Analysis, Recovery, analyze}
use lsp.Loaders.{root_dir, parent_dir, normal, lexical_resolve, is_absolute, pop}
use lsp.Jsonrpc.{Message}
use lsp.Base.Maps.{lookup, erase, put}
use lsp.Base.Text.{len_utf8, utf8, bytes, byte_len}
use lsp.Base.Sort.{insert_sorted, sort}
use lsp.Base.{find}
use lsp.Registry.Entries.{language_id, is_routable, load, is_workspace}
use lsp.Registry.Router.{put_global, global_entry, candidates}
use lsp.Registry.Paths.{ext_of, fs_path_of}
use lsp.Instances.Cache.{failures_under, get_under}
use lsp.Server.State.{new_server}
use lsp.Server.Analyses.{run_analysis}
use lsp.Server.Due.{schedule, run_all}
use lsp.Server.Dispatch.{perform}
use lsp.Server.Editing.{did_open}
use lsp.Base.Utf8.{from_utf8}
use lsp.Server.State.{Config, Host, Server, with_trust}
use lsp.Server.Due.{analyze_due, flush, next_deadline, current_analysis}
use lsp.Server.Queries.{completion_at}
use lsp.Server.Dispatch.{Protocol, OpenParams, read_call, handle}
use lsp.Registry.Paths.{is_hexdigit, hex_value}
use lsp.Server.Uris.{
  percent_decode, percent_bytes, radix_16, normalize, normalize_from, normalize_component, climb,
}
use lsp.Server.Freshness.{IsMadeFrom}
use lsp.Server.Reachable.{IsReachable, current_analysis-IsMadeFrom}
use lsp.Server.Responses.{responses, owed}
use lsp.Server.Answered.{responses-handle}
use lsp.Server.Deadlines.{next_deadline-analyze_due}
use lsp.Server.Trust.{runs_workspace_code, made_by, untrusted_runs_no_workspace_code}
use lsp.Server.Normal.{normalize-lexical_resolve}

abbrev json_entry : Entry ℕ
json_entry = new_entry (codes "json")

abbrev config : Config ℕ
config = record {
  entries = json_entry ∷ [];
  user_entries = [];
  workspace_entries = [];
  trust_workspace_modules = false;
  debounce = 150;
  max_document_bytes = some 9;
  server_name = codes "tabnas-lsp";
}

abbrev identity : Identity (Entry ℕ) Text
identity = record { entry_prefix = λ e. e.name; dir = λ e. e.dir; path_string = λ t. t }

-- the parse of every text goes well and collects nothing
abbrev parsed : Recovery ℕ ℕ
parsed = record { value = some 1; errors = []; fatal = none }

abbrev host : Host ℕ ℕ ℕ ℕ
host = record {
  identity = identity;
  make_instance = λ e. inr 4;
  install = λ inst. inst;
  parse = λ inst text. inl (parsed, nothing_collected);
  same_error = λ a b. true;
  read_error = λ error. none;
  error_code = λ error. [];
  error_detail = λ error. [];
  continuations = λ inst text. some [];
  fixed_source = λ inst name. none;
  to_lowercase = λ t. t;
  current_dir = none;
  language_entry = λ value dir. inl json_entry;
  read_manifest = λ folder. inl [];
}

abbrev uri : Text
uri = codes "file:///a"

abbrev opening : OpenParams
opening = record { uri = uri; language_id = codes "json"; version = pos 1; text = codes "[]" }

abbrev protocol : Protocol ℕ
protocol = record {
  null = 0;
  read_initialize = λ params. record {
    trusts = false;
    folder_uris = [];
    root_uri = none;
    init_entries = [];
    position_encodings = [];
  };
  read_open = λ params. inl opening;
  read_change = λ params. inr [];
  read_document = λ params. inl uri;
  read_files = λ params. inl [];
  read_position =
      λ params. inl (record { uri = uri; position = record { line = 0; character = 0 } });
}

abbrev message : Option ℕ → Text → Message ℕ
message id method = record {
  jsonrpc = codes "2.0";
  id = id;
  method = some method;
  params = some 7;
  result = none;
  error = none;
}

abbrev did_open_message : Message ℕ
did_open_message = message none (codes "textDocument/didOpen")

abbrev started_server : Server ℕ ℕ ℕ ℕ
started_server = with_trust config false

abbrev opened_server : Server ℕ ℕ ℕ ℕ
opened_server = (handle host protocol 10 did_open_message started_server).0

abbrev analyzed_server : Server ℕ ℕ ℕ ℕ
analyzed_server = (analyze_due host 160 opened_server).0

abbrev opened_doc : Doc
opened_doc = with_encoding (new_doc uri (codes "json") (pos 1) (codes "[]")) utf16_units

abbrev made : Analysis ℕ ℕ
made = analyze host.same_error host.read_error parsed nothing_collected json_entry opened_doc

anew : (p : OpenParams) → get_doc started_server.docs p.uri ≡ none
unfolding with_trust get_doc lookup
anew p = refl

analyzed_server-IsReachable : IsReachable host protocol analyzed_server
analyzed_server-IsReachable = IsReachable.analyzed 160 opened_server (
    IsReachable.handled 10 did_open_message started_server (λ method h p e. anew p)
      (IsReachable.started config false))

current_analysis-analyzed : current_analysis host analyzed_server uri ≡ some made
unfolding len_utf8 utf8 bytes byte_len lookup erase put sort filter find new_entry language_id
    is_routable load is_workspace put_global global_entry candidates ext_of fs_path_of
    failures_under get_under new_server analyze_due handle from_utf8
current_analysis-analyzed = refl

current_analysis-IsMadeFrom_example :
    (doc : Doc) × (get_doc analyzed_server.docs uri ≡ some doc) × IsMadeFrom host doc made
current_analysis-IsMadeFrom_example =
    current_analysis-IsMadeFrom host protocol analyzed_server uri made analyzed_server-IsReachable
      current_analysis-analyzed

responses-handle_example :
    responses
      (handle host protocol 10 (message (some 3) (codes "textDocument/hover")) started_server).1
    ≡ owed protocol (message (some 3) (codes "textDocument/hover"))
responses-handle_example =
    responses-handle host protocol 10 (message (some 3) (codes "textDocument/hover")) started_server

-- one deadline is past and one is to come
abbrev waiting_server : Server ℕ ℕ ℕ ℕ
waiting_server = record started_server { pending = (uri, 5) ∷ (codes "file:///b", 20) ∷ [] }

next_deadline-later : next_deadline host (analyze_due host 10 waiting_server).0 ≡ some 20
unfolding next_deadline analyze_due filter sort insert_sorted run_all run_analysis erase text_eq
    with_trust get_doc lookup
next_deadline-later = refl

next_deadline-analyze_due_example : 10 < 20
next_deadline-analyze_due_example =
    next_deadline-analyze_due host 10 waiting_server 20 next_deadline-later

-- a maker that would run what the workspace names
abbrev reckless : Entry ℕ → Text ⊎ ℕ
reckless e = if runs_workspace_code e then inr 13 else inr 4

reckless-agrees : (e : Entry ℕ) → runs_workspace_code e ≡ false → reckless e ≡ host.make_instance e
reckless-agrees e h = rw h refl

untrusted-opened : opened_server.trust ≡ false
unfolding with_trust handle perform read_call text_eq did_open schedule
untrusted-opened = refl

untrusted_runs_no_workspace_code_example :
    (analyze_due host 160 opened_server ≡ analyze_due (made_by reckless host) 160 opened_server)
    × (flush host opened_server ≡ flush (made_by reckless host) opened_server)
    × (completion_at host uri (record { line = 0; character = 1 }) opened_server
        ≡ completion_at
            (made_by reckless host)
            uri
            (record { line = 0; character = 1 })
            opened_server)
untrusted_runs_no_workspace_code_example =
    untrusted_runs_no_workspace_code host reckless reckless-agrees 160 uri
      (record { line = 0; character = 1 }) opened_server untrusted-opened

root_is_absolute : is_absolute (root_dir ∷ parent_dir ∷ normal (codes "a") ∷ []) ≡ true
unfolding is_absolute
root_is_absolute = refl

normalize-lexical_resolve_example :
    normalize (root_dir ∷ parent_dir ∷ normal (codes "a") ∷ [])
    ≡ lexical_resolve [] (root_dir ∷ parent_dir ∷ normal (codes "a") ∷ [])
normalize-lexical_resolve_example =
    normalize-lexical_resolve [] (root_dir ∷ parent_dir ∷ normal (codes "a") ∷ []) root_is_absolute

-- two steps up from a relative path are none
normalize-climbs :
    normalize (parent_dir ∷ parent_dir ∷ normal (codes "a") ∷ []) ≡ normal (codes "a") ∷ []
unfolding normalize normalize_from normalize_component climb pop is_absolute
normalize-climbs = refl

-- a sign is read as a digit of an escape
percent_decode-sign : percent_decode (codes "%+1") ≡ some (1 ∷ [])
unfolding percent_decode bytes utf8 percent_bytes from_utf8 radix_16 is_hexdigit hex_value
percent_decode-sign = refl
