-- ===== src/Persistence/Memory/Recovery.antt =====
-- `recover_abandoned_runs` of app/persistence/memory.py.
use mini_alpha.Common.{
  ℕ, ◌≡◌, inl, inr, refl, Bool, true, false, Option, none, some, arith, any, nat_eq, ◌==◌, List, [],
  ◌∷◌, Option-cases, Bool-cases, length, select, ap,
}
use mini_alpha.Common.Dict.{get, put, get-put, Distinct, values}
use mini_alpha.Persistence.Memory.Invariant.{Runs, IsValid}
use mini_alpha.Persistence.Memory.Effects.{Active, home_of, ended}
use mini_alpha.Persistence.Memory.Transition.{
  Transition, Transition-IsValid, Reach, here, next, Reach-trans,
}
use mini_alpha.Persistence.Memory.{recover_abandoned_runs, recover_run, recover_each, active_ids}
use mini_alpha.Persistence.Memory.State.{Repository, Result, ok, is_active, active_run}
use mini_alpha.Persistence.Models.{ConversationRun}

abbrev active_value : Option ConversationRun → Bool
active_value none = false
active_value (some x) = is_active x.status

-- Whether the run of an id is there and active
abbrev pub active_at : ℕ → Runs → Bool
active_at r runs = active_value (get r runs)

abbrev is_in : ℕ → List ℕ → Bool
is_in r ids = any (λ q. q == r) ids

-- The runs that the loop still has to end: active, and each once
abbrev Pending : Runs → List ℕ → Type 0
Pending runs [] = Unit
Pending runs (r ∷ ids) = (active_at r runs ≡ true) × (is_in r ids ≡ false) × Pending runs ids

Pending-put :
    (r : ℕ) (y : ConversationRun) (runs : Runs) (ids : List ℕ)
    → is_in r ids ≡ false
    → Pending runs ids
    → Pending (put r y runs) ids
Pending-put r y runs [] h p = tt
Pending-put r y runs (q ∷ ids) h p =
    (ground (arith, get-put r q y runs, p.0), p.1, Pending-put r y runs ids (ground arith) p.2)

Pending-cons :
    (j : ℕ) (w : ConversationRun) (runs : Runs) (ids : List ℕ)
    → get j runs ≡ none
    → Pending runs ids
    → Pending ((j, w) ∷ runs) ids × (is_in j ids ≡ false)
unfolding get
Pending-cons j w runs [] h p = (tt, refl)
Pending-cons j w runs (q ∷ ids) h p =
    let (rest, absent) = Pending-cons j w runs ids h p.2 in
    ((ground (arith, p.0), p.1, rest), ground (arith, p.0))

active_ids-Pending : (runs : Runs) → Distinct runs → Pending runs (active_ids runs)
unfolding active_ids get
active_ids-Pending [] d = tt
active_ids-Pending ((j, w) ∷ runs) d =
    let (rest, absent) =
      Pending-cons j w runs (active_ids runs) d.0 (active_ids-Pending runs d.1) in
    elim (Bool-cases (is_active w.status)) [
      | inl a ↦ rw a (ground arith, absent, rest)
      | inr a ↦ rw a rest
    ]

is_in-active_ids :
    (r : ℕ) (runs : Runs) → active_at r runs ≡ true → is_in r (active_ids runs) ≡ true
unfolding active_ids get
is_in-active_ids r [] h = cc
is_in-active_ids r ((j, w) ∷ runs) h = ground (arith, is_in-active_ids r runs)

-- One round ends the run and touches no other.
record Round (s : Repository) (r : ℕ) (m : Result (Unit {0}) × Repository) : Type 0 where
  y : ConversationRun
  returns : m.0 ≡ ok tt
  step : Transition s m.1
  runs : m.1.runs ≡ put r y s.runs
  over : is_active y.status ≡ false

recover_run-Round :
    (now : ℕ) (s : Repository) (v : IsValid s) (r : ℕ)
    → active_at r s.runs ≡ true
    → Round s r (recover_run now r s)
unfolding recover_run active_run
recover_run-Round now s v r h = elim (Option-cases (get r s.runs)) [
  | inl e ↦ absurd (ground arith)
  | inr (x, e) ↦
      let (t, home) = home_of s v r x e in
      let a : Active s r = record {
        run = x;
        thread = t;
        there = e;
        active = ground arith;
        home = home;
        accepted = ground arith;
      } in
      rw (e, home)
        (record {
          y = _;
          returns = refl;
          step = ended a _ _ _ (ground arith) refl (ground arith) (inr refl) refl refl refl;
          runs = refl;
          over = refl;
        })
]

record Recovered (s : Repository) (ids : List ℕ) (m : Result (Unit {0}) × Repository) : Type 0 where
  returns : m.0 ≡ ok tt
  steps : Reach s m.1
  left : (r : ℕ) → active_at r m.1.runs ≡ true → (active_at r s.runs ≡ true) × (is_in r ids ≡ false)
  others : (r : ℕ) → is_in r ids ≡ false → get r m.1.runs ≡ get r s.runs

recover_each-Recovered :
    (now : ℕ) (ids : List ℕ) (s : Repository) (v : IsValid s)
    → Pending s.runs ids
    → Recovered s ids (recover_each now ids s)
unfolding recover_each
recover_each-Recovered now [] s v p = record {
  returns = refl;
  steps = here;
  left = λ r h. (h, refl);
  others = λ r h. refl;
}
recover_each-Recovered now (r ∷ ids) s v p =
    let round = recover_run-Round now s v r p.0 in
    let s' = (recover_run now r s).1 in
    let rest =
      recover_each-Recovered now ids s' (Transition-IsValid round.step v)
        (rw round.runs (Pending-put r round.y s.runs ids p.1 p.2)) in
    rw round.returns (record {
      returns = rest.returns;
      steps = Reach-trans (next here round.step) rest.steps;
      left =
          λ q h. ground (arith, rest.left q h, round.runs, round.over, get-put r q round.y s.runs);
      others = λ q h. ground (arith, rest.others q, round.runs, get-put r q round.y s.runs);
    })

active_of_is_in :
    (r : ℕ) (runs : Runs) (ids : List ℕ)
    → Pending runs ids
    → is_in r ids ≡ true
    → active_at r runs ≡ true
active_of_is_in r runs [] p h = cc
active_of_is_in r runs (q ∷ ids) p h = ground (arith, p.0, active_of_is_in r runs ids p.2)

abbrev pub active_runs : Runs → List ConversationRun
active_runs runs = select (λ x. is_active x.status) (values runs)

length-active_ids : (runs : Runs) → length (active_ids runs) ≡ length (active_runs runs)
unfolding active_ids
length-active_ids [] = refl
length-active_ids ((j, w) ∷ runs) = ground (arith, length-active_ids runs)

module _ (now : ℕ) (s : Repository) (v : IsValid s) where
  recovered : Recovered s (active_ids s.runs) (recover_each now (active_ids s.runs) s)
  recovered =
      recover_each-Recovered now (active_ids s.runs) s v (active_ids-Pending s.runs v.distinct)

  pub recover_abandoned_runs-Reach : Reach s (recover_abandoned_runs now s).1
  unfolding recover_abandoned_runs
  recover_abandoned_runs-Reach = rw recovered.returns recovered.steps

  -- From a valid repository the recovery returns the number of active runs; afterwards no run is
  -- active, and every run that was not active is as it was.
  pub recover_abandoned_runs_lem :
      ((recover_abandoned_runs now s).0 ≡ ok (length (active_runs s.runs)))
      × ((r : ℕ) → active_at r (recover_abandoned_runs now s).1.runs ≡ false)
      × ((r : ℕ)
          → active_at r s.runs ≡ false
          → get r (recover_abandoned_runs now s).1.runs ≡ get r s.runs)
  unfolding recover_abandoned_runs
  recover_abandoned_runs_lem = rw recovered.returns (
    ap ok (length-active_ids s.runs),
    λ r. elim (Bool-cases (active_at r (recover_each now (active_ids s.runs) s).1.runs)) [
      | inl a ↦
          let (was, absent) = recovered.left r a in
          absurd (ground (arith, is_in-active_ids r s.runs was))
      | inr a ↦ a
    ],
    λ r h. recovered.others r (not_in r h),
  )
    where
      not_in : (r : ℕ) → active_at r s.runs ≡ false → is_in r (active_ids s.runs) ≡ false
      not_in r h = elim (Bool-cases (is_in r (active_ids s.runs))) [
        | inl i ↦ absurd (
            ground (
              arith,
              active_of_is_in r s.runs (active_ids s.runs) (active_ids-Pending s.runs v.distinct) i,
            ))
        | inr i ↦ i
      ]
