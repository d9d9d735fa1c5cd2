-- ===== src/Instances/Quarantine.antt =====
-- instances.rs: what failures do to an entry, and what a reload undoes.
use lsp.Base.{
  ◌+◌, ◌≤◌, ◌<◌, ◌≡◌, min, refl, sym, ap, ◌∙◌, Bool, true, false, not, Bool-cases, Option-cases,
  Option, none, some, List, [], ◌∷◌, ◌++◌, leb, ◌⊎◌, inl, inr, if◌then◌else◌, length, map, arith,
}
use lsp.Base.Text.{Text, text_eq, text_eq_sound, text_eq_reflexive, starts_with}
use lsp.Base.Maps.{lookup, lookup-put_same, lookup-put_other}
use lsp.Instances.Cache.{
  quarantine_limit, Instances, Answer, disabled, ready, failed, count_of, retain_others, Identity,
  folder_name, key, failures_under, count_failure, build, get_under, get, quarantined, invalidate,
}

module _ {Inst Failure : Type 0} where
  abbrev instance_of : Answer Inst Failure → Option Inst
  instance_of (ready inst) = some inst
  instance_of _ = none

  failed-not-ready : (error : Failure) (inst : Inst) → failed error ≡ ready inst → ⊥
  failed-not-ready error inst h = cc

  disabled-not-ready : (inst : Inst) → ◌≡◌ {A = Answer Inst Failure} disabled (ready inst) → ⊥
  disabled-not-ready inst h = cc

module _ {Inst : Type 0} where
  failures_under-count_failure :
      (s : Instances Inst) (k : Text)
      → failures_under (count_failure s k) k ≡ failures_under s k + 1
  unfolding failures_under count_failure
  failures_under-count_failure s k =
      ap count_of (lookup-put_same text_eq text_eq_sound text_eq_reflexive k _ s.failures)

  failures_under-count_failure_other :
      (s : Instances Inst) (k k' : Text)
      → text_eq k k' ≡ false
      → failures_under (count_failure s k) k' ≡ failures_under s k'
  unfolding failures_under count_failure
  failures_under-count_failure_other s k k' apart =
      ap count_of (lookup-put_other text_eq text_eq_sound text_eq_reflexive k k' _ s.failures apart)

  cache-count_failure :
      (s : Instances Inst) (k : Text)
      → lookup text_eq k (count_failure s k).cache ≡ lookup text_eq k s.cache
  unfolding count_failure
  cache-count_failure s k = refl

  -- calls of `get` under one key, the answers of `MakeInstance` given
  unfoldable pub after_gets :
      {Failure : Type 0}
      → (Inst → Inst)
      → List (Failure ⊎ Inst)
      → Instances Inst
      → Text
      → Instances Inst
  after_gets install [] s k = s
  after_gets install (made ∷ rest) s k = after_gets install rest (get_under install made s k).0 k

  -- One failing call: a count more, unless the limit is reached; nothing is cached.
  get_under-failed :
      {Failure : Type 0} (install : Inst → Inst) (error : Failure) (s : Instances Inst) (k : Text)
      → lookup text_eq k s.cache ≡ none
      → failures_under s k ≤ quarantine_limit
      → (lookup text_eq k (get_under install (inl error) s k).0.cache ≡ none)
        × (failures_under (get_under install (inl error) s k).0 k
            ≡ min (failures_under s k + 1) quarantine_limit)
  unfolding get_under build
  get_under-failed install error s k h below =
      elim (Bool-cases (leb quarantine_limit (failures_under s k))) [
        | inl e ↦ rw e (h, ground (arith, e, below))
        | inr e ↦
            rw (e, h, failures_under-count_failure s k)
              (cache-count_failure s k ∙ h, ground (arith, e, below))
      ]

  failed_gets :
      {Failure : Type 0} (install : Inst → Inst) (errors : List Failure) (s : Instances Inst)
      (k : Text)
      → lookup text_eq k s.cache ≡ none
      → failures_under s k ≤ quarantine_limit
      → failures_under (after_gets install (map inl errors) s k) k
        ≡ min (failures_under s k + length errors) quarantine_limit
  unfolding after_gets
  failed_gets install [] s k h below = omega arith
  failed_gets install (error ∷ errors) s k h below =
      let (none_yet, counted) = get_under-failed install error s k h below in
      omega (
        arith,
        counted,
        failed_gets install errors (get_under install (inl error) s k).0 k none_yet
            (omega (arith, counted)),
      )

  get_under-found :
      {Failure : Type 0} (install : Inst → Inst) (made : Failure ⊎ Inst) (s : Instances Inst)
      (k : Text) (inst : Inst)
      → failures_under s k < quarantine_limit
      → lookup text_eq k s.cache ≡ some inst
      → get_under install made s k ≡ (s, ready inst)
  unfolding get_under
  get_under-found install made s k inst low h =
      let e : leb quarantine_limit (failures_under s k) ≡ false = ground (arith, low) in
      rw (e, h) refl

  get_under-built :
      {Failure : Type 0} (install : Inst → Inst) (made : Failure ⊎ Inst) (s : Instances Inst)
      (k : Text) (inst : Inst)
      → (build install made s k).1 ≡ ready inst
      → (lookup text_eq k (build install made s k).0.cache ≡ some inst)
        × (failures_under (build install made s k).0 k ≡ failures_under s k)
  unfolding build failures_under
  get_under-built install (inl error) s k inst h = absurd (failed-not-ready error inst h)
  get_under-built install (inr i) s k inst h = (
    lookup-put_same text_eq text_eq_sound text_eq_reflexive k (install i) s.cache
        ∙ ap instance_of h,
    refl,
  )

  get_under-ready :
      {Failure : Type 0} (install : Inst → Inst) (made : Failure ⊎ Inst) (s : Instances Inst)
      (k : Text) (inst : Inst)
      → (get_under install made s k).1 ≡ ready inst
      → (lookup text_eq k (get_under install made s k).0.cache ≡ some inst)
        × (failures_under (get_under install made s k).0 k < quarantine_limit)
  unfolding get_under
  get_under-ready install made s k inst h =
      elim (Bool-cases (leb quarantine_limit (failures_under s k))) [
        | inl e ↦ absurd (disabled-not-ready inst (rw e at h))
        | inr e ↦ elim (Option-cases (lookup text_eq k s.cache)) [
          | inl n ↦
              let built = get_under-built install made s k inst (rw (e, n) at h) in
              rw (e, n) (built.0, ground (arith, built.1, e))
          | inr (i, n) ↦
              let same : some i ≡ some inst = ap instance_of (rw (e, n) at h) in
              rw (e, n) (n ∙ same, ground (arith, e))
        ]
      ]

module _ {Entry Folder Inst Failure : Type 0} (identity : Identity Entry Folder)
    (install : Inst → Inst) where
  -- From an entry not cached and without failures, failing calls of `get` under its key leave a
  -- count of that many failures, and at most the limit, and the entry is quarantined from the
  -- limit on.
  pub failing_gets-quarantined :
      (errors : List Failure) (s : Instances Inst) (entry : Entry) (folder : Option Folder)
      → lookup text_eq (key identity entry folder) s.cache ≡ none
      → failures_under s (key identity entry folder) ≡ 0
      → (failures_under
            (after_gets install (map inl errors) s (key identity entry folder))
            (key identity entry folder)
          ≡ min (length errors) quarantine_limit)
        × (quarantined identity
              (after_gets install (map inl errors) s (key identity entry folder))
              entry
              folder
            ≡ leb quarantine_limit (length errors))
  unfolding quarantined
  failing_gets-quarantined errors s entry folder h none_yet =
      let counted = failed_gets install errors s (key identity entry folder) h (omega arith) in
      (omega arith, ground (arith, counted, none_yet))

  -- An instance that `get` handed out is handed out again by the next call for the entry and
  -- folder, whatever the host would make then, and that call changes nothing.
  pub get-ready_again :
      (make make' : Entry → Failure ⊎ Inst) (s : Instances Inst) (entry : Entry)
      (folder : Option Folder) (inst : Inst)
      → (get identity install make s entry folder).1 ≡ ready inst
      → get identity install make' (get identity install make s entry folder).0 entry folder
        ≡ ((get identity install make s entry folder).0, ready inst)
  unfolding get
  get-ready_again make make' s entry folder inst h =
      let k = key identity entry folder in
      let (found, low) = get_under-ready install (make entry) s k inst h in
      get_under-found install (make' entry) (get_under install (make entry) s k).0 k inst low found

starts_with-append : (prefix rest : Text) → starts_with prefix (prefix ++ rest) ≡ true
unfolding starts_with
starts_with-append [] rest = refl
starts_with-append (c ∷ prefix) rest = ground (arith, starts_with-append prefix rest)

-- keys on two sides of a prefix differ
apart_by_prefix :
    (prefix j k : Text) (b : Bool)
    → starts_with prefix j ≡ b
    → starts_with prefix k ≡ not b
    → text_eq j k ≡ false
apart_by_prefix prefix j k b hj hk = elim (Bool-cases (text_eq j k)) [
  | inl e ↦
      let same : starts_with prefix j ≡ starts_with prefix k =
        ap (starts_with prefix) (text_eq_sound j k e) in
      absurd (differ b (sym hj ∙ same ∙ hk))
  | inr e ↦ e
]
  where
    differ : (b : Bool) → b ≡ not b → ⊥
    differ true h = cc
    differ false h = cc

lookup-retain_others_mine :
    {V : Type 0} (prefix k : Text) (m : List (Text × V))
    → starts_with prefix k ≡ true
    → lookup text_eq k (retain_others prefix m) ≡ none
unfolding lookup retain_others
lookup-retain_others_mine prefix k [] mine = refl
lookup-retain_others_mine prefix k ((j, v) ∷ m) mine = elim (Bool-cases (starts_with prefix j)) [
  | inl h ↦ rw h (lookup-retain_others_mine prefix k m mine)
  | inr h ↦
      rw (h, apart_by_prefix prefix j k false h mine) (lookup-retain_others_mine prefix k m mine)
]

lookup-retain_others_kept :
    {V : Type 0} (prefix k : Text) (m : List (Text × V))
    → starts_with prefix k ≡ false
    → lookup text_eq k (retain_others prefix m) ≡ lookup text_eq k m
unfolding lookup retain_others
lookup-retain_others_kept prefix k [] other = refl
lookup-retain_others_kept prefix k ((j, v) ∷ m) other = elim (Bool-cases (starts_with prefix j)) [
  | inl h ↦
      rw (h, apart_by_prefix prefix j k true h other) (lookup-retain_others_kept prefix k m other)
  | inr h ↦ rw h (
      ap (λ found. if text_eq j k then some v else found)
        (lookup-retain_others_kept prefix k m other))
]

module _ {Entry Folder Inst : Type 0} (identity : Identity Entry Folder) where
  -- A reload forgets the instance and the failures of the entry under every folder, and nothing
  -- under a key without the entry's prefix.
  pub invalidate_lem :
      (s : Instances Inst) (entry : Entry) (folder : Option Folder) (k : Text)
      → starts_with (identity.entry_prefix entry) k ≡ false
      → (lookup text_eq (key identity entry folder) (invalidate identity s entry).cache ≡ none)
        × (failures_under (invalidate identity s entry) (key identity entry folder) ≡ 0)
        × (lookup text_eq k (invalidate identity s entry).cache ≡ lookup text_eq k s.cache)
        × (failures_under (invalidate identity s entry) k ≡ failures_under s k)
  unfolding invalidate failures_under key
  invalidate_lem s entry folder k other =
      let prefix = identity.entry_prefix entry in
      let mine = starts_with-append prefix (folder_name identity folder (identity.dir entry)) in
      (
        lookup-retain_others_mine prefix (key identity entry folder) s.cache mine,
        ap count_of (lookup-retain_others_mine prefix (key identity entry folder) s.failures mine),
        lookup-retain_others_kept prefix k s.cache other,
        ap count_of (lookup-retain_others_kept prefix k s.failures other),
      )
