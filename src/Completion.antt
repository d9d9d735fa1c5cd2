-- ===== src/Completion.antt =====
-- rs/src/completion.rs: completion items from the engine's continuations. The engine's answers, its continuations of a
-- prefix (none where the query panics) and the fixed source of a token name, are parameters.
use lsp.Base.{
  ℕ, ◌≡◌, ap, ◌∙◌, ◌⊎◌, sym, inl, inr, refl, Bool, true, false, not, Bool-cases, Option, none, some,
  List, [], ◌∷◌, if◌then◌else◌, ◌||◌,
}
use lsp.Base.Text.{Char, Text, codes, text_eq, text_eq_sound, take_bytes}
use lsp.Types.{Position, Doc}
use lsp.Documents.{offset_at}

abbrev pub sentinel_tokens : List Text
sentinel_tokens = codes "#ZZ" ∷ codes "#AA" ∷ codes "#BD" ∷ []

abbrev pub completion_kind_keyword : ℕ
completion_kind_keyword = 14

abbrev pub completion_kind_operator : ℕ
completion_kind_operator = 24

pub record CompletionItem : Type 0 where
  pub label : Text
  pub kind : ℕ
  pub detail : Option Text
  pub insert_text : Option Text

unfoldable pub contains : List Text → Text → Bool
contains [] name = false
contains (t ∷ ts) name = text_eq t name || contains ts name

unfoldable pub is_sentinel : Text → Bool
is_sentinel name = contains sentinel_tokens name

-- `filter(|source| !source.is_empty())`
unfoldable pub non_empty : Option Text → Option Text
non_empty none = none
non_empty (some []) = none
non_empty (some (c ∷ source)) = some (c ∷ source)

unfoldable pub item_of : Option Text → Text → CompletionItem
item_of (some source) name = record {
  label = source;
  kind = completion_kind_operator;
  detail = some name;
  insert_text = some source;
}
item_of none name = record {
  label = name;
  kind = completion_kind_keyword;
  detail = some name;
  insert_text = none;
}

abbrev pub IsSentinel : Text → Type 0
IsSentinel name = (name ≡ codes "#ZZ") ⊎ ((name ≡ codes "#AA") ⊎ (name ≡ codes "#BD"))

sentinel_cases :
    (z a b : Bool) → z || (a || (b || false)) ≡ true → (z ≡ true) ⊎ ((a ≡ true) ⊎ (b ≡ true))
sentinel_cases true a b h = inl refl
sentinel_cases false true b h = inr (inl refl)
sentinel_cases false false true h = inr (inr refl)
sentinel_cases false false false h = cc

is_sentinel-IsSentinel : (name : Text) → is_sentinel name ≡ true → IsSentinel name
unfolding is_sentinel contains
is_sentinel-IsSentinel name h =
    elim (sentinel_cases (text_eq (codes "#ZZ") name) (text_eq (codes "#AA") name)
      (text_eq (codes "#BD") name) h) [
        | inl e ↦ inl (sym (text_eq_sound (codes "#ZZ") name e))
        | inr rest ↦ elim rest [
          | inl e ↦ inr (inl (sym (text_eq_sound (codes "#AA") name e)))
          | inr e ↦ inr (inr (sym (text_eq_sound (codes "#BD") name e)))
        ]
      ]

apart : true ≡ false → ⊥
apart h = cc

names_no_sentinel : (name : Text) → is_sentinel name ≡ false → IsSentinel name → ⊥
unfolding is_sentinel contains text_eq
names_no_sentinel name h (inl e) = apart (ap is_sentinel (sym e) ∙ h)
names_no_sentinel name h (inr (inl e)) = apart (ap is_sentinel (sym e) ∙ h)
names_no_sentinel name h (inr (inr e)) = apart (ap is_sentinel (sym e) ∙ h)

module _ (fixed_source : Text → Option Text) where
  unfoldable pub item : Text → CompletionItem
  unfolding non_empty item_of
  item name = item_of (non_empty (fixed_source name)) name

  unfoldable pub items : List Text → List CompletionItem
  unfolding item is_sentinel
  items [] = []
  items (name ∷ names) = if not (is_sentinel name) then item name ∷ items names else items names

  unfoldable pub completion : (Text → Option (List Text)) → Doc → Position → List CompletionItem
  completion continuations d position =
      elim (continuations (take_bytes (offset_at d position) d.text)) [
        | none ↦ []
        | some names ↦ items names
      ]

  -- what the editor shows for a token: its fixed source as an operator, or without one its name as a keyword
  abbrev pub IsOffer : Text → CompletionItem → Type 0
  IsOffer name i =
      (i.detail ≡ some name)
      × (((c : Char) × (source : Text) × (fixed_source name ≡ some (c ∷ source))
            × (i.label ≡ c ∷ source)
            × (i.insert_text ≡ some (c ∷ source))
            × (i.kind ≡ completion_kind_operator))
          ⊎ (((fixed_source name ≡ none) ⊎ (fixed_source name ≡ some []))
              × (i.label ≡ name)
              × (i.insert_text ≡ none)
              × (i.kind ≡ completion_kind_keyword)))

  -- one item for each name in order, the sentinels left out
  abbrev pub Offers : List Text → List CompletionItem → Type 0
  Offers [] found = found ≡ []
  Offers (name ∷ names) found =
      (IsSentinel name × Offers names found)
      ⊎ ((IsSentinel name → ⊥)
          × (i : CompletionItem) × (rest : List CompletionItem) × (found ≡ i ∷ rest)
          × IsOffer name i
          × Offers names rest)

  -- the same of the engine's answer, where a query that panics offers nothing
  abbrev pub OffersFor : Option (List Text) → List CompletionItem → Type 0
  OffersFor none found = found ≡ []
  OffersFor (some names) found = Offers names found

  item-IsOffer : (name : Text) → IsOffer name (item name)
  unfolding item
  item-IsOffer name = go (fixed_source name) refl
    where
      go : (o : Option Text) → fixed_source name ≡ o → IsOffer name (item_of (non_empty o) name)
      go none h = (refl, inr (inl h, refl, refl, refl))
      go (some []) h = (refl, inr (inr h, refl, refl, refl))
      go (some (c ∷ source)) h = (refl, inl (c, source, h, refl, refl, refl))

  items-Offers : (names : List Text) → Offers names (items names)
  unfolding items
  items-Offers [] = refl
  items-Offers (name ∷ names) = elim (Bool-cases (is_sentinel name)) [
    | inl e ↦ rw e (inl (is_sentinel-IsSentinel name e, items-Offers names))
    | inr e ↦ rw e (
        inr (
          names_no_sentinel name e,
          item name,
          items names,
          refl,
          item-IsOffer name,
          items-Offers names,
        ))
  ]

  -- Completion asks for what continues the text before the position and offers, in the order of
  -- the engine's answer, one item for each name that is no sentinel: an operator that shows and
  -- inserts the token's fixed source where that is there and not empty, and a keyword that shows
  -- the name otherwise; where the query panics it offers nothing.
  pub completion-Offers :
      (continuations : Text → Option (List Text)) (d : Doc) (position : Position)
      → OffersFor
          (continuations (take_bytes (offset_at d position) d.text))
          (completion continuations d position)
  unfolding completion
  completion-Offers continuations d position =
      by_answer (continuations (take_bytes (offset_at d position) d.text))
    where
      by_answer :
          (o : Option (List Text)) → OffersFor o (elim o [ none ↦ [] | some names ↦ items names ])
      by_answer none = refl
      by_answer (some names) = items-Offers names
