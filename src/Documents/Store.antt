-- ===== src/Documents/Store.antt =====
-- rs/src/documents.rs: `DocumentStore`, the open documents by URI.
use lsp.Base.{
  ℕ, ◌≡◌, refl, ap, ◌∙◌, Bool, false, Option, some, List, [], ◌∷◌, ◌==◌, length, arith, inl, inr,
  if◌then◌else◌, Bool-cases,
}
use lsp.Base.Text.{Text, text_eq, text_eq_sound, text_eq_reflexive}
use lsp.Base.Maps.{lookup, erase, put, lookup-erase_other, lookup-put_other}
use lsp.Types.{ℤ, PositionEncoding, utf16_units, Doc, new_doc, with_encoding}

pub record DocumentStore : Type 0 where
  pub docs : List (Text × Doc)
  pub encoding : PositionEncoding

-- DocumentStore::new
abbrev pub new_store : DocumentStore
new_store = record { docs = []; encoding = utf16_units }

-- DocumentStore::with_encoding
abbrev pub new_store_in : PositionEncoding → DocumentStore
new_store_in encoding = record { docs = []; encoding = encoding }

unfoldable pub set_encoding : DocumentStore → PositionEncoding → DocumentStore
set_encoding s encoding = record s { encoding = encoding }

unfoldable pub open_doc : DocumentStore → Text → Text → ℤ → Text → DocumentStore
open_doc s uri language_id version text = record s {
  docs = put text_eq uri (with_encoding (new_doc uri language_id version text) s.encoding) s.docs;
}

-- a document built elsewhere, with its own encoding
unfoldable pub insert_doc : DocumentStore → Doc → DocumentStore
insert_doc s d = record s { docs = put text_eq d.uri d s.docs }

unfoldable pub get_doc : DocumentStore → Text → Option Doc
get_doc s uri = lookup text_eq uri s.docs

-- what a caller of `get_mut` leaves behind
unfoldable pub replace_doc : List (Text × Doc) → Text → (Doc → Doc) → List (Text × Doc)
replace_doc [] uri change = []
replace_doc ((key, d) ∷ docs) uri change =
    if text_eq key uri then (key, change d) ∷ docs else (key, d) ∷ replace_doc docs uri change

unfoldable pub change_doc : DocumentStore → Text → (Doc → Doc) → DocumentStore
unfolding replace_doc
change_doc s uri change = record s { docs = replace_doc s.docs uri change }

unfoldable pub close_doc : DocumentStore → Text → DocumentStore × Option Doc
close_doc s uri = (record s { docs = erase text_eq uri s.docs }, lookup text_eq uri s.docs)

unfoldable pub store_len : DocumentStore → ℕ
store_len s = length s.docs

unfoldable pub store_is_empty : DocumentStore → Bool
store_is_empty s = length s.docs == 0

lookup-replace_doc_same :
    (docs : List (Text × Doc)) (uri : Text) (change : Doc → Doc) (d : Doc)
    → lookup text_eq uri docs ≡ some d
    → lookup text_eq uri (replace_doc docs uri change) ≡ some (change d)
unfolding lookup replace_doc
lookup-replace_doc_same [] uri change d h = ground arith
lookup-replace_doc_same ((key, c) ∷ docs) uri change d h = elim (Bool-cases (text_eq key uri)) [
  | inl e ↦ rw (e, e) (let found : some c ≡ some d = rw e at h in cc)
  | inr e ↦ rw (e, e) (lookup-replace_doc_same docs uri change d (rw e at h))
]

lookup-replace_doc_other :
    (docs : List (Text × Doc)) (uri other : Text) (change : Doc → Doc)
    → text_eq uri other ≡ false
    → lookup text_eq other (replace_doc docs uri change) ≡ lookup text_eq other docs
unfolding lookup replace_doc
lookup-replace_doc_other [] uri other change apart = refl
lookup-replace_doc_other ((key, c) ∷ docs) uri other change apart =
    elim (Bool-cases (text_eq key uri)) [
      | inl e ↦
          let f : text_eq key other ≡ false =
            ap (λ (i : Text). text_eq i other) (text_eq_sound key uri e) ∙ apart in
          rw (e, f) refl
      | inr e ↦ rw e (
          ap (λ (found : Option Doc). if text_eq key other then some c else found)
            (lookup-replace_doc_other docs uri other change apart))
    ]

-- Opening, changing or closing a document leaves the document under any other URI as it was.
pub store_keeps_others :
    (s : DocumentStore) (uri language_id : Text) (version : ℤ) (text : Text) (change : Doc → Doc)
    (other : Text)
    → text_eq uri other ≡ false
    → (get_doc (open_doc s uri language_id version text) other ≡ get_doc s other)
      × (get_doc (change_doc s uri change) other ≡ get_doc s other)
      × (get_doc (close_doc s uri).0 other ≡ get_doc s other)
unfolding get_doc open_doc change_doc close_doc
store_keeps_others s uri language_id version text change other apart = (
  lookup-put_other text_eq text_eq_sound text_eq_reflexive uri other
      (with_encoding (new_doc uri language_id version text) s.encoding) s.docs apart,
  lookup-replace_doc_other s.docs uri other change apart,
  lookup-erase_other text_eq text_eq_sound text_eq_reflexive uri other s.docs apart,
)
