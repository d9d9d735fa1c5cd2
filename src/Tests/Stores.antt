-- ===== src/Tests/Stores.antt =====
-- The theorems on the stores and on the outline's nesting, at inputs that meet their hypotheses.
use lsp.Base.{
  false, if◌then◌else◌, none, some, [], ℕ, ◌+◌, ◌≡◌, ◌⊎◌, inl, inr, refl, Option, List, ◌∷◌, map,
  min, leb, length,
}
use lsp.Base.Sort.{sort}
use lsp.Base.Text.{Text, codes, text_eq, starts_with, take_bytes}
use lsp.Base.Maps.{lookup}
use lsp.Types.{Position, pos, Range, Doc, new_doc, with_encoding, utf8_bytes}
use lsp.Documents.{offset_at}
use lsp.Outline.Nesting.{Spanned, symbol, no_symbols, before, walk}
use lsp.Outline.Containment.{place_all, walk_sorted-place_all}
use lsp.Instances.Cache.{
  quarantine_limit, Instances, Answer, ready, Identity, key, failures_under, get, quarantined,
  invalidate, new_instances,
}
use lsp.Instances.Quarantine.{after_gets, failing_gets-quarantined, get-ready_again, invalidate_lem}
use lsp.Completion.{completion, OffersFor, completion-Offers}

abbrev uri : Text
uri = codes "file:///a"

abbrev opened_doc : Doc
opened_doc = with_encoding (new_doc uri (codes "json") (pos 1) (codes "[]")) utf8_bytes

abbrev nowhere : Range
nowhere = record {
  start = record { line = 0; character = 0 };
  end = record { line = 0; character = 0 };
}

abbrev bracket : ℕ → ℕ → Spanned
bracket start end = record {
  symbol_of = symbol (codes "Array") 18 nowhere nowhere no_symbols;
  start = start;
  end = end;
}

-- the outer list closes last, and two lists overlap
abbrev brackets : List Spanned
brackets = bracket 3 8 ∷ bracket 1 5 ∷ bracket 4 5 ∷ bracket 0 9 ∷ []

walk_sorted-place_all_example :
    walk 0 (sort before brackets) [] ≡ place_all 0 (sort before brackets) []
walk_sorted-place_all_example = walk_sorted-place_all brackets

-- entries are their prefixes, folders their names, and an instance is a number
abbrev plain_identity : Identity Text Text
plain_identity = record {
  entry_prefix = λ (entry : Text). entry;
  dir = λ (entry : Text). none;
  path_string = λ (folder : Text). folder;
}

abbrev grammar : Text
grammar = codes "json {} "

abbrev folder : Option Text
folder = some (codes "/w")

abbrev no_instances : Instances ℕ
no_instances = new_instances

abbrev install_mux : ℕ → ℕ
install_mux n = n + 1

none_yet : lookup text_eq (key plain_identity grammar folder) no_instances.cache ≡ none
unfolding lookup
none_yet = refl

no_failures : failures_under no_instances (key plain_identity grammar folder) ≡ 0
unfolding failures_under lsp.Instances.Cache.count_of lookup
no_failures = refl

abbrev errors : List Text
errors = codes "a" ∷ codes "b" ∷ codes "c" ∷ codes "d" ∷ []

failing_gets-quarantined_example :
    (failures_under
        (after_gets install_mux (map inl errors) no_instances (key plain_identity grammar folder))
        (key plain_identity grammar folder)
      ≡ min (length errors) quarantine_limit)
    × (quarantined plain_identity
          (after_gets install_mux (map inl errors) no_instances (key plain_identity grammar folder))
          grammar
          folder
        ≡ leb quarantine_limit (length errors))
failing_gets-quarantined_example =
    failing_gets-quarantined plain_identity install_mux errors no_instances grammar folder none_yet
      no_failures

abbrev make : Text → Text ⊎ ℕ
make entry = inr 6

abbrev make_other : Text → Text ⊎ ℕ
make_other entry = inl (codes "gone")

made-ready : (get plain_identity install_mux make no_instances grammar folder).1 ≡ ready 7
unfolding get lsp.Instances.Cache.get_under lsp.Instances.Cache.build failures_under
    lsp.Instances.Cache.count_of lookup
made-ready = refl

get-ready_again_example :
    get plain_identity install_mux make_other
      (get plain_identity install_mux make no_instances grammar folder).0
      grammar
      folder
    ≡ ((get plain_identity install_mux make no_instances grammar folder).0, ready 7)
get-ready_again_example =
    get-ready_again plain_identity install_mux make make_other no_instances grammar folder 7
      made-ready

abbrev two_instances : Instances ℕ
two_instances = record {
  cache = (codes "json {} /w", 1) ∷ (codes "csv {} /w", 2) ∷ [];
  failures = (codes "json {} /v", 3) ∷ (codes "csv {} /v", 1) ∷ [];
}

other-prefix : starts_with grammar (codes "csv {} /v") ≡ false
unfolding starts_with
other-prefix = refl

invalidate_lem_example :
    (lookup text_eq
        (key plain_identity grammar folder)
        (invalidate plain_identity two_instances grammar).cache
      ≡ none)
    × (failures_under
          (invalidate plain_identity two_instances grammar)
          (key plain_identity grammar folder)
        ≡ 0)
    × (lookup text_eq (codes "csv {} /v") (invalidate plain_identity two_instances grammar).cache
        ≡ lookup text_eq (codes "csv {} /v") two_instances.cache)
    × (failures_under (invalidate plain_identity two_instances grammar) (codes "csv {} /v")
        ≡ failures_under two_instances (codes "csv {} /v"))
invalidate_lem_example =
    invalidate_lem plain_identity two_instances grammar folder (codes "csv {} /v") other-prefix

abbrev fixed : Text → Option Text
fixed name = if text_eq name (codes "#CA") then some (codes ",") else none

abbrev following : Text → Option (List Text)
following prefix = some (codes "#ZZ" ∷ codes "#CA" ∷ codes "#NR" ∷ [])

abbrev after_bracket : Position
after_bracket = record { line = 0; character = 1 }

completion-Offers_example :
    OffersFor fixed
      (following (take_bytes (offset_at opened_doc after_bracket) opened_doc.text))
      (completion fixed following opened_doc after_bracket)
completion-Offers_example = completion-Offers fixed following opened_doc after_bracket
