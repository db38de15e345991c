-- ===== src/Persistence/Memory/Admitting.antt =====
-- What an admission of app/persistence/memory.py that starts a run hands its caller.
use mini_alpha.Common.{
  ℕ, ◌≡◌, inl, inr, true, false, Option, none, some, arith, nat_eq, String, Option-cases,
  Bool-cases,
}
use mini_alpha.Common.Dict.{get, get-put_self}
use mini_alpha.Persistence.Memory.Effects.{Active, Active-cases}
use mini_alpha.Persistence.Memory.Invariant.{IsValid}
use mini_alpha.Persistence.Memory.{
  FreshIds, admit_run, known_run, new_admission, replay_admission, differs,
}
use mini_alpha.Persistence.Memory.State.{Repository, ok, active_run}
use mini_alpha.Persistence.Models.{RunAdmission, in_progress}

pub record IsNew (fresh : FreshIds) (a : RunAdmission) (s' : Repository) : Type 0 where
  pub there : get fresh.run_id s'.runs ≡ some a.run
  pub own : a.run.run_id ≡ fresh.run_id
  pub active : a.run.status ≡ in_progress

module _ (fresh : FreshIds) (now : ℕ) (message : String) (s : Repository) where
  new_admission-IsNew :
      (thread_id key : Option ℕ) (a : RunAdmission)
      → (new_admission fresh now thread_id message key s).0 ≡ ok a
      → IsNew fresh a (new_admission fresh now thread_id message key s).1
  unfolding new_admission
  new_admission-IsNew none none a h = ground (arith, get-put_self fresh.run_id a.run s.runs)
  new_admission-IsNew none (some k) a h = ground (arith, get-put_self fresh.run_id a.run s.runs)
  new_admission-IsNew (some t) none a h = ground (arith, get-put_self fresh.run_id a.run s.runs)
  new_admission-IsNew (some t) (some k) a h = ground (arith, get-put_self fresh.run_id a.run s.runs)

  replay_admission-replayed :
      (r : ℕ) (thread_id : Option ℕ) (a : RunAdmission)
      → (replay_admission r thread_id message s).0 ≡ ok a
      → a.replayed ≡ true
  unfolding replay_admission
  replay_admission-replayed r thread_id a h = elim (Option-cases (get r s.runs)) [
    | inl e ↦ absurd (ground arith)
    | inr (x, e) ↦ elim (Bool-cases (differs x thread_id message)) [
      | inl d ↦ absurd (ground arith)
      | inr d ↦ ground arith
    ]
  ]

  pub admit_run-IsNew :
      (thread_id key : Option ℕ) (a : RunAdmission)
      → (admit_run fresh now thread_id message key s).0 ≡ ok a
      → a.replayed ≡ false
      → IsNew fresh a (admit_run fresh now thread_id message key s).1
  unfolding admit_run
  admit_run-IsNew thread_id key a h new = elim (Option-cases (known_run key s)) [
    | inl e ↦ rw (admit_run, e) (new_admission-IsNew thread_id key a (rw (admit_run, e) at h))
    | inr (r, e) ↦
        let again = replay_admission-replayed r thread_id a (rw (admit_run, e) at h) in
        absurd (ground (arith, again, new))
  ]

pub new-Active :
    (fresh : FreshIds) (a : RunAdmission) (s : Repository)
    → IsValid s
    → IsNew fresh a s
    → Active s fresh.run_id
unfolding active_run
new-Active fresh a s v n = elim (Active-cases s v fresh.run_id) [
  | inl (e, refusal) ↦ absurd (ground (arith, n.there, n.active, refusal))
  | inr active ↦ active
]
