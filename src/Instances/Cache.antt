-- ===== src/Instances/Cache.antt =====
-- rs/src/instances.rs: `Instances`, the cache by key and the failure counts. What the registry says of an entry (its
-- prefix and its folder), the host's `MakeInstance` and the engine's instances are parameters; a panic of the host's
-- function is an error here, as `get` makes it one.
use lsp.Base.{
  ℕ, ◌+◌, Bool, not, Option, none, some, List, [], ◌∷◌, ◌++◌, leb, ◌==◌, ◌⊎◌, inl, inr,
  if◌then◌else◌, length,
}
use lsp.Base.Text.{Text, text_eq, starts_with}
use lsp.Base.Maps.{lookup, put}

abbrev pub quarantine_limit : ℕ
quarantine_limit = 3

pub record Instances (Inst : Type 0) : Type 0 where
  pub cache : List (Text × Inst)
  pub failures : List (Text × ℕ)

-- what `get` answers: nothing for a quarantined entry
pub data Answer (Inst Failure : Type 0) : Type 0 where
  disabled : Answer Inst Failure
  ready : Inst → Answer Inst Failure
  failed : Failure → Answer Inst Failure

unfoldable pub count_of : Option ℕ → ℕ
count_of none = 0
count_of (some n) = n

-- HashMap::retain of the keys without the prefix
unfoldable pub retain_others : {V : Type 0} → Text → List (Text × V) → List (Text × V)
retain_others prefix [] = []
retain_others prefix ((key, v) ∷ m) =
    if not (starts_with prefix key)
    then (key, v) ∷ retain_others prefix m
    else retain_others prefix m

-- what the registry says of an entry: its prefix, its own folder, and how a folder is spelt
pub record Identity (Entry Folder : Type 0) : Type 0 where
  pub entry_prefix : Entry → Text
  pub dir : Entry → Option Folder
  pub path_string : Folder → Text

module _ {Entry Folder : Type 0} (identity : Identity Entry Folder) where
  unfoldable pub folder_name : Option Folder → Option Folder → Text
  folder_name (some folder) own = identity.path_string folder
  folder_name none (some own) = identity.path_string own
  folder_name none none = []

  unfoldable pub key : Entry → Option Folder → Text
  unfolding folder_name
  key entry folder = identity.entry_prefix entry ++ folder_name folder (identity.dir entry)

module _ {Inst : Type 0} where
  -- Instances::new
  abbrev pub new_instances : Instances Inst
  new_instances = record { cache = []; failures = [] }

  unfoldable pub failures_under : Instances Inst → Text → ℕ
  unfolding count_of
  failures_under s k = count_of (lookup text_eq k s.failures)

  -- `*entry(key).or_insert(0) += 1`
  unfoldable pub count_failure : Instances Inst → Text → Instances Inst
  count_failure s k = record s { failures = put text_eq k (failures_under s k + 1) s.failures }

  unfoldable pub cached_len : Instances Inst → ℕ
  cached_len s = length s.cache

  unfoldable pub none_cached : Instances Inst → Bool
  none_cached s = length s.cache == 0

  -- the answer of `MakeInstance` built into the cache; `install` puts the mux on an instance
  unfoldable pub build :
      {Failure : Type 0}
      → (Inst → Inst)
      → Failure ⊎ Inst
      → Instances Inst
      → Text
      → Instances Inst × Answer Inst Failure
  build install (inl error) s k = (count_failure s k, failed error)
  build install (inr inst) s k =
      (record s { cache = put text_eq k (install inst) s.cache }, ready (install inst))

  -- `get` under its key
  unfoldable pub get_under :
      {Failure : Type 0}
      → (Inst → Inst)
      → Failure ⊎ Inst
      → Instances Inst
      → Text
      → Instances Inst × Answer Inst Failure
  unfolding build
  get_under install made s k =
      if leb quarantine_limit (failures_under s k)
      then (s, disabled)
      else elim (lookup text_eq k s.cache) [
        | some inst ↦ (s, ready inst)
        | none ↦ build install made s k
      ]

module _ {Entry Folder Inst : Type 0} (identity : Identity Entry Folder) where
  unfoldable pub quarantined : Instances Inst → Entry → Option Folder → Bool
  quarantined s entry folder = leb quarantine_limit (failures_under s (key identity entry folder))

  unfoldable pub record_failure : Instances Inst → Entry → Option Folder → Instances Inst
  record_failure s entry folder = count_failure s (key identity entry folder)

  unfoldable pub failures_of : Instances Inst → Entry → Option Folder → ℕ
  failures_of s entry folder = failures_under s (key identity entry folder)

  unfoldable pub get :
      {Failure : Type 0}
      → (Inst → Inst)
      → (Entry → Failure ⊎ Inst)
      → Instances Inst
      → Entry
      → Option Folder
      → Instances Inst × Answer Inst Failure
  get install make s entry folder = get_under install (make entry) s (key identity entry folder)

  unfoldable pub invalidate : Instances Inst → Entry → Instances Inst
  unfolding retain_others
  invalidate s entry = record {
    cache = retain_others (identity.entry_prefix entry) s.cache;
    failures = retain_others (identity.entry_prefix entry) s.failures;
  }
