-- ===== src/Persistence/Memory/Reader.antt =====
-- The reading methods of app/persistence/memory.py. They change nothing, so they are functions of
-- the repository. Limits and offsets are not negative (the routes of app/api/routes bound them).
use mathlib.Core.List.{Perm}
use native.Mathlib.Decide.{dec_le}
use native.Mathlib.Nat.{zero-add, suc-add}
use mini_alpha.Common.{
  ℕ, zero, suc, ◌+◌, ◌≤◌, ◌<◌, ◌≡◌, ◌⊎◌, inl, inr, refl, All, Option-cases, Bool, true, false,
  Option, none, some, List, [], ◌∷◌, ◌++◌, arith, nat_eq, ◌==◌, if◌then◌else◌, ltb, leb, take, drop,
  length, select, map, length-take-le, is_some,
}
use mini_alpha.Common.Dict.{get, values}
use mini_alpha.Common.Sort.{sorted, IsSorted, sorted-perm, sorted-IsSorted}
use mini_alpha.Persistence.Memory.State.{Repository, Result, ok, err}
use mini_alpha.Persistence.Models.{
  ConversationThread, ConversationRun, ConversationTurn, StoredArtifact, ThreadPage,
  thread_not_found,
}

unfoldable pub get_thread : ℕ → Repository → Option ConversationThread
get_thread t s = get t s.threads

-- `key=updated_at, reverse=True`
abbrev pub newer : ConversationThread → ConversationThread → Bool
newer a b = leb b.updated_at a.updated_at

unfoldable pub list_threads : ℕ → ℕ → Repository → ThreadPage
list_threads limit offset s =
    let ordered = sorted newer (values s.threads) in
    record {
      threads = take limit (drop offset ordered);
      total = length ordered;
      limit = limit;
      offset = offset;
    }

unfoldable pub get_run_by_request_key : ℕ → Repository → Option ConversationRun
get_run_by_request_key k s = elim (get k s.request_keys) [ none ↦ none | some r ↦ get r s.runs ]

abbrev artifacts_or_none : Option (List StoredArtifact) → List StoredArtifact
artifacts_or_none none = []
artifacts_or_none (some xs) = xs

abbrev pub turn_of : Repository → ConversationRun → ConversationTurn
turn_of s run = record { run = run; artifacts = artifacts_or_none (get run.run_id s.artifacts) }

unfoldable pub get_turn : ℕ → Repository → Option ConversationTurn
get_turn r s = elim (get r s.runs) [
  | none ↦ none
  | some run ↦ some (record { run = run; artifacts = artifacts_or_none (get r s.artifacts) })
]

-- `key=(turn_index, attempt_no)`
abbrev pub earlier : ConversationRun → ConversationRun → Bool
earlier a b =
    if ltb a.turn_index b.turn_index
    then true
    else if a.turn_index == b.turn_index
    then leb a.attempt_no b.attempt_no
    else false

abbrev pub runs_of : ℕ → Repository → List ConversationRun
runs_of t s = select (λ run. run.thread_id == t) (values s.runs)

unfoldable pub list_turns : ℕ → Repository → Result (List ConversationTurn)
list_turns t s =
    if is_some (get t s.threads)
    then ok (map (turn_of s) (sorted earlier (runs_of t s)))
    else err thread_not_found

earlier_total : (x y : ConversationRun) → earlier x y ≡ false → earlier y x ≡ true
earlier_total x y h = ground arith

earlier_trans :
    (x y z : ConversationRun) → earlier x y ≡ true → earlier y z ≡ true → earlier x z ≡ true
earlier_trans x y z h k = ground arith

newer_total : (x y : ConversationThread) → newer x y ≡ false → newer y x ≡ true
newer_total x y h = ground arith

newer_trans : (x y z : ConversationThread) → newer x y ≡ true → newer y z ≡ true → newer x z ≡ true
newer_trans x y z h k = ground arith

-- The turn index first, then the attempt number
abbrev pub Precedes : ConversationRun → ConversationRun → Type 0
Precedes a b =
    (a.turn_index < b.turn_index) ⊎ (a.turn_index ≡ b.turn_index) × (a.attempt_no ≤ b.attempt_no)

earlier-Precedes : (a b : ConversationRun) → earlier a b ≡ true → Precedes a b
earlier-Precedes a b h = elim (dec_le (a.turn_index + 1) b.turn_index) [
  | yes lt ↦ inl (omega (arith, lt))
  | no ge ↦ inr (ground (arith, h, ge), ground (arith, h, ge))
]

-- Each turn precedes all that follow it.
abbrev pub InOrder : List ConversationTurn → Type 0
InOrder [] = Unit
InOrder (x ∷ xs) = All (λ y. Precedes x.run y.run) xs × InOrder xs

-- The artifacts are those that the table holds for the run, and none where it holds nothing.
abbrev pub HasArtifacts : Repository → ConversationTurn → Type 0
HasArtifacts s turn =
    (get turn.run.run_id s.artifacts ≡ some turn.artifacts)
    ⊎ (get turn.run.run_id s.artifacts ≡ none) × (turn.artifacts ≡ [])

turn_of-HasArtifacts : (s : Repository) (run : ConversationRun) → HasArtifacts s (turn_of s run)
turn_of-HasArtifacts s run = elim (Option-cases (get run.run_id s.artifacts)) [
  | inl e ↦ inr (e, rw e refl)
  | inr (xs, e) ↦ inl (rw e refl)
]

each-HasArtifacts :
    (s : Repository) (runs : List ConversationRun) → All (HasArtifacts s) (map (turn_of s) runs)
each-HasArtifacts s [] = tt
each-HasArtifacts s (run ∷ runs) = (turn_of-HasArtifacts s run, each-HasArtifacts s runs)

runs_of_turns :
    (s : Repository) (runs : List ConversationRun)
    → map (λ (turn : ConversationTurn). turn.run) (map (turn_of s) runs) ≡ runs
runs_of_turns s [] = refl
runs_of_turns s (run ∷ runs) = rw (runs_of_turns s runs) refl

precede-All :
    (s : Repository) (x : ConversationRun) (runs : List ConversationRun)
    → All (λ y. earlier x y ≡ true) runs
    → All (λ (y : ConversationTurn). Precedes x y.run) (map (turn_of s) runs)
precede-All s x [] h = tt
precede-All s x (run ∷ runs) h = (earlier-Precedes x run h.0, precede-All s x runs h.1)

IsSorted-InOrder :
    (s : Repository) (runs : List ConversationRun)
    → IsSorted earlier runs
    → InOrder (map (turn_of s) runs)
IsSorted-InOrder s [] h = tt
IsSorted-InOrder s (run ∷ runs) h = (precede-All s run runs h.0, IsSorted-InOrder s runs h.1)

-- The transcript of a thread that is there holds the runs of the table that are in the thread, each as
-- often as the table, by turn index and then by attempt number, and each with the artifacts that are
-- stored for it.
pub list_turns-transcript :
    (t : ℕ) (s : Repository) (thread : ConversationThread)
    → get t s.threads ≡ some thread
    → (turns : List ConversationTurn) × (list_turns t s ≡ ok turns)
      × Perm (map (λ turn. turn.run) turns) (select (λ run. run.thread_id == t) (values s.runs))
      × InOrder turns
      × All (HasArtifacts s) turns
unfolding list_turns
list_turns-transcript t s thread h =
    let runs = sorted earlier (runs_of t s) in
    (
      map (turn_of s) runs,
      ground arith,
      rw (runs_of_turns s runs) (sorted-perm earlier (runs_of t s)),
      IsSorted-InOrder s runs (sorted-IsSorted earlier earlier_total earlier_trans (runs_of t s)),
      each-HasArtifacts s runs,
    )

take-nil {ℓ} : {A : Type ℓ} (n : ℕ) → ◌≡◌ {A = List A} (take n []) []
take-nil zero = refl
take-nil (suc n) = refl

drop-nil {ℓ} : {A : Type ℓ} (n : ℕ) → ◌≡◌ {A = List A} (drop n []) []
drop-nil zero = refl
drop-nil (suc n) = refl

take-all {ℓ} : {A : Type ℓ} (xs : List A) → take (length xs) xs ≡ xs
take-all [] = refl
take-all (x ∷ xs) = rw (take-all xs)

take-split {ℓ} :
    {A : Type ℓ} (n m : ℕ) (xs : List A) → take n xs ++ take m (drop n xs) ≡ take (n + m) xs
take-split zero m xs = rw zero-add
take-split (suc n) m [] = rw (suc-add, take-nil)
take-split (suc n) m (x ∷ xs) = rw (suc-add, take-split n m xs)

drop-drop {ℓ} : {A : Type ℓ} (n m : ℕ) (xs : List A) → drop m (drop n xs) ≡ drop (n + m) xs
drop-drop zero m xs = rw zero-add
drop-drop (suc n) m [] = rw (suc-add, drop-nil)
drop-drop (suc n) m (x ∷ xs) = rw (suc-add, drop-drop n m xs)

-- A page of threads has at most its limit; consecutive pages join to the longer page that covers
-- both; and the page of all threads holds every thread as often as the table, newest first.
pub list_threads-pages :
    (limit more offset : ℕ) (s : Repository)
    → (length (list_threads limit offset s).threads ≤ limit)
      × ((list_threads limit offset s).threads ++ (list_threads more (offset + limit) s).threads
          ≡ (list_threads (limit + more) offset s).threads)
      × Perm (list_threads (list_threads 0 0 s).total 0 s).threads (values s.threads)
      × IsSorted
          (λ a b. leb b.updated_at a.updated_at)
          (list_threads (list_threads 0 0 s).total 0 s).threads
unfolding list_threads
list_threads-pages limit more offset s =
    let ordered = sorted newer (values s.threads) in
    (
      length-take-le limit (drop offset ordered),
      rw (← drop-drop offset limit ordered) (take-split limit more (drop offset ordered)),
      rw (take-all ordered) (sorted-perm newer (values s.threads)),
      rw (take-all ordered) (sorted-IsSorted newer newer_total newer_trans (values s.threads)),
    )
