-- ===== src/Instances/Gate.antt =====
-- rs/src/instances.rs: `Gate`, the re-entrant lock that serializes parses, under any interleaving of threads. A step is
-- what one thread does while it holds the inner mutex; a thread that would wait takes none.
use lsp.Base.{
  ℕ, ◌+◌, ◌-◌, ◌<◌, ◌≡◌, refl, subst, false, Bool-cases, inl, inr, Option, none, some, ◌==◌,
  if◌then◌else◌, arith,
}

pub record Holder : Type 0 where
  pub thread : Option ℕ
  pub depth : ℕ

abbrev pub open_gate : Holder
open_gate = record { thread = none; depth = 0 }

abbrev pub enter_as : ℕ → Option ℕ → ℕ → Option Holder
enter_as me none depth = some (record { thread = some me; depth = depth + 1 })
enter_as me (some holder) depth =
    if holder == me then some (record { thread = some holder; depth = depth + 1 }) else none

-- Gate::enter, where it does not wait
unfoldable pub enter : ℕ → Holder → Option Holder
enter me held = enter_as me held.thread held.depth

-- a Turn dropped
unfoldable pub leave : Holder → Holder
leave held =
    if (held.depth - 1) == 0
    then record { thread = none; depth = held.depth - 1 }
    else record held { depth = held.depth - 1 }

-- the gate, and how many turns each thread has
pub record Threads : Type 0 where
  pub held : Holder
  pub turns : ℕ → ℕ

abbrev pub set_turns : (ℕ → ℕ) → ℕ → ℕ → ℕ → ℕ
set_turns f i n j = if i == j then n else f j

pub data Step (s : Threads) : Threads → Type 0 where
  entered :
      (i : ℕ) (held : Holder)
      → enter i s.held ≡ some held
      → Step s (record { held = held; turns = set_turns s.turns i (s.turns i + 1) })
  left :
      (i : ℕ)
      → 0 < s.turns i
      → Step s (record { held = leave s.held; turns = set_turns s.turns i (s.turns i - 1) })

abbrev pub at_start : Threads
at_start = record { held = open_gate; turns = λ i. 0 }

pub data Reach : Threads → Type 0 where
  start : Reach at_start
  later : {s t : Threads} → Reach s → Step s t → Reach t

-- The holder has as many turns as the gate is deep, and every other thread has none.
abbrev Agrees : Option ℕ → ℕ → (ℕ → ℕ) → Type 0
Agrees none depth turns = (depth ≡ 0) × ((j : ℕ) → turns j ≡ 0)
Agrees (some i) depth turns =
    (0 < depth) × (turns i ≡ depth) × ((j : ℕ) → (i == j) ≡ false → turns j ≡ 0)

abbrev IsConsistent : Threads → Type 0
IsConsistent s = Agrees s.held.thread s.held.depth s.turns

some-eq : (a b : Holder) → some a ≡ some b → a ≡ b
some-eq a b h = cc

none-not-some : (a : Holder) → none ≡ some a → ⊥
none-not-some a h = cc

self_or_other :
    (turns : ℕ → ℕ) (i n j : ℕ) → (i == j) ≡ false → turns j ≡ 0 → set_turns turns i n j ≡ 0
self_or_other turns i n j apart h = rw apart h

entered-Agrees :
    (i : ℕ) (thread : Option ℕ) (depth : ℕ) (turns : ℕ → ℕ) (held : Holder)
    → Agrees thread depth turns
    → enter_as i thread depth ≡ some held
    → Agrees held.thread held.depth (set_turns turns i (turns i + 1))
entered-Agrees i none depth turns held (empty, idle) h =
    subst (λ (x : Holder). Agrees x.thread x.depth (set_turns turns i (turns i + 1)))
      (some-eq (record { thread = some i; depth = depth + 1 }) held h)
      (
        omega arith,
        ground (arith, idle i, empty),
        λ j apart. self_or_other turns i (turns i + 1) j apart (idle j),
      )
entered-Agrees i (some k) depth turns held (deep, own, idle) h = elim (Bool-cases (k == i)) [
  | inl e ↦
      subst (λ (x : Holder). Agrees x.thread x.depth (set_turns turns i (turns i + 1)))
        (some-eq (record { thread = some k; depth = depth + 1 }) held (rw e at h))
        (
          omega arith,
          ground (arith, own, e),
          λ j apart.
              self_or_other turns i (turns i + 1) j (ground (arith, e, apart)) (idle j apart),
        )
  | inr e ↦ absurd (none-not-some held (rw e at h))
]

left-Agrees :
    (i : ℕ) (thread : Option ℕ) (depth : ℕ) (turns : ℕ → ℕ)
    → Agrees thread depth turns
    → 0 < turns i
    → Agrees
        (leave (record { thread = thread; depth = depth })).thread
        (leave (record { thread = thread; depth = depth })).depth
        (set_turns turns i (turns i - 1))
unfolding leave
left-Agrees i none depth turns (empty, idle) h = absurd (omega (arith, idle i))
left-Agrees i (some k) depth turns (deep, own, idle) h = elim (Bool-cases (k == i)) [
  | inr e ↦ absurd (omega (arith, idle i e))
  | inl e ↦
      let self : turns i ≡ depth = ground (arith, own, e) in
      elim (Bool-cases ((depth - 1) == 0)) [
        | inl last ↦ rw last (
          ground (arith, last),
          λ j. elim (Bool-cases (i == j)) [
            | inl t ↦ rw t (ground (arith, self, last))
            | inr t ↦ rw t (idle j (ground (arith, e, t)))
          ],
        )
        | inr more ↦ rw more (
          ground (arith, more),
          ground (arith, self, e),
          λ j apart.
              self_or_other turns i (turns i - 1) j (ground (arith, e, apart)) (idle j apart),
        )
      ]
]

Reach-IsConsistent : {s : Threads} → Reach s → IsConsistent s
unfolding enter
Reach-IsConsistent start = (refl, λ j. refl)
Reach-IsConsistent (later {s} r (entered i held h)) =
    entered-Agrees i s.held.thread s.held.depth s.turns held (Reach-IsConsistent r) h
Reach-IsConsistent (later {s} r (left i h)) =
    left-Agrees i s.held.thread s.held.depth s.turns (Reach-IsConsistent r) h

alone :
    (thread : Option ℕ) (depth : ℕ) (turns : ℕ → ℕ) (i j : ℕ)
    → Agrees thread depth turns
    → 0 < turns i
    → 0 < turns j
    → i ≡ j
alone none depth turns i j (empty, idle) hi hj = absurd (omega (arith, idle i))
alone (some k) depth turns i j (deep, own, idle) hi hj = elim (Bool-cases (k == i)) [
  | inr e ↦ absurd (omega (arith, idle i e))
  | inl e ↦ elim (Bool-cases (k == j)) [
    | inr d ↦ absurd (omega (arith, idle j d))
    | inl d ↦ ground (arith, e, d)
  ]
]

-- In every state that threads reach by entering and leaving in any order, re-entering included,
-- two threads that both have a turn are one.
pub mutual_exclusion : {s : Threads} → Reach s → (i j : ℕ) → 0 < s.turns i → 0 < s.turns j → i ≡ j
mutual_exclusion {s} r i j hi hj =
    alone s.held.thread s.held.depth s.turns i j (Reach-IsConsistent r) hi hj

passes :
    (thread : Option ℕ) (depth : ℕ) (turns : ℕ → ℕ) (i : ℕ)
    → Agrees thread depth turns
    → ((j : ℕ) → (i == j) ≡ false → turns j ≡ 0)
    → enter_as i thread depth ≡ some (record { thread = some i; depth = turns i + 1 })
passes none depth turns i (empty, idle) quiet = rw (idle i, empty) refl
passes (some k) depth turns i (deep, own, idle) quiet = elim (Bool-cases (k == i)) [
  | inl e ↦ (let same : k ≡ i = ground (arith, e) in rw (e, same, ← own, same) refl)
  | inr e ↦ absurd (omega (arith, own, quiet k (ground (arith, e))))
]

-- In every reachable state where no other thread has a turn, a thread that enters passes without
-- waiting, one turn deeper than it was.
pub enter_when_quiet :
    {s : Threads}
    → Reach s
    → (i : ℕ) → ((j : ℕ) → (i == j) ≡ false → s.turns j ≡ 0)
    → enter i s.held ≡ some (record { thread = some i; depth = s.turns i + 1 })
unfolding enter
enter_when_quiet {s} r i quiet =
    passes s.held.thread s.held.depth s.turns i (Reach-IsConsistent r) quiet
