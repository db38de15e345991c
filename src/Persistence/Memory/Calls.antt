-- ===== src/Persistence/Memory/Calls.antt =====
-- Sequences of calls of app/persistence/memory.py's repository. The writing methods are the calls;
-- the reading ones change nothing.
use mini_alpha.Common.{
  ℕ, ◌≡◌, ◌⊎◌, refl, ap, ◌∙◌, Bool, true, false, Option, none, some, arith, nat_eq, String, List,
  [], ◌∷◌, eq_iff, string_eq,
}
use mini_alpha.Common.Dict.{get}
use mini_alpha.Common.Value.{Fields, Value}
use mini_alpha.Persistence.Memory.Invariant.{IsValid}
use mini_alpha.Persistence.Memory.Effects.{
  IsFresh, fail_run-Transition, cancel_run-Transition, complete_run-Transition,
  admit_run-Transition,
}
use mini_alpha.Persistence.Memory.Recovery.{recover_abandoned_runs-Reach}
use mini_alpha.Persistence.Memory.Histories.{
  Reach-ended, Bound, Reach-Kept, Reach-key, admit_run-Bound, replayed,
}
use mini_alpha.Persistence.Memory.Transition.{
  Transition-IsValid, Reach-IsValid, Reach, here, next, Reach-trans,
}
use mini_alpha.Persistence.Memory.{
  FreshIds, recover_abandoned_runs, admit_run, fail_run, complete_run, cancel_run, differs,
}
use mini_alpha.Persistence.Memory.State.{Repository, ok, is_active, empty}
use mini_alpha.Persistence.Models.{ConversationRun, RunAdmission}

pub data Call : Type 0 where
  admit : FreshIds → ℕ → Option ℕ → String → Option ℕ → Call
  complete : ℕ → ℕ → Option String → String → String → List Fields → List Fields → Call
  fail : ℕ → ℕ → String → String → Call
  cancel : ℕ → ℕ → String → List Fields → List Fields → Call
  recover : ℕ → Call

-- The ids that a call draws are not in use.
abbrev pub CallIsFresh : Call → Repository → Type 0
CallIsFresh (admit fresh now t m k) s = IsFresh fresh s
CallIsFresh _ s = Unit

abbrev active_there : ℕ → Repository → Bool
active_there r s = elim (get r s.runs) [ none ↦ false | some x ↦ is_active x.status ]

-- A request that names no thread or the run's, and has the run's message, is the same request.
pub same-differs :
    (again : Option ℕ) (t : ℕ) (message : String) (x : ConversationRun)
    → (again ≡ none) ⊎ (again ≡ some t)
    → x.thread_id ≡ t
    → x.message ≡ message
    → differs x again message ≡ false
same-differs none t message x h home text = ground (arith, eq_iff x.message message)
same-differs (some j) t message x h home text = ground (arith, eq_iff x.message message)

module _ (parse_uuid : Value → Option ℕ) (uuid4 : ℕ → ℕ) where
  -- The repository after a call, whether the call returns or raises
  unfoldable pub perform : Call → Repository → Repository
  perform (admit fresh now t m k) s = (admit_run fresh now t m k s).1
  perform (complete now r expected checkpoint answer tools artifacts) s =
      (complete_run parse_uuid uuid4 now r expected checkpoint answer tools artifacts s).1
  perform (fail now r code message) s = (fail_run now r code message s).1
  perform (cancel now r partial tools artifacts) s =
      (cancel_run parse_uuid uuid4 now r partial tools artifacts s).1
  perform (recover now) s = (recover_abandoned_runs now s).1

  unfoldable pub perform_all : List Call → Repository → Repository
  perform_all [] s = s
  perform_all (c ∷ calls) s = perform_all calls (perform c s)

  abbrev pub AllFresh : List Call → Repository → Type 0
  AllFresh [] s = Unit
  AllFresh (c ∷ calls) s = CallIsFresh c s × AllFresh calls (perform c s)

  perform-Reach : (c : Call) (s : Repository) → IsValid s → CallIsFresh c s → Reach s (perform c s)
  unfolding perform
  perform-Reach (admit fresh now t m k) s v f =
      next here (admit_run-Transition fresh now m s v f t k)
  perform-Reach (complete now r expected checkpoint answer tools artifacts) s v f = next here (
      complete_run-Transition s v now r parse_uuid uuid4 tools artifacts expected checkpoint answer)
  perform-Reach (fail now r code message) s v f =
      next here (fail_run-Transition s v now r code message)
  perform-Reach (cancel now r partial tools artifacts) s v f =
      next here (cancel_run-Transition s v now r parse_uuid uuid4 tools artifacts partial)
  perform-Reach (recover now) s v f = recover_abandoned_runs-Reach now s v

  perform_all-Reach :
      (calls : List Call) (s : Repository)
      → IsValid s
      → AllFresh calls s
      → Reach s (perform_all calls s)
  unfolding perform_all
  perform_all-Reach [] s v f = here
  perform_all-Reach (c ∷ calls) s v f =
      let r = perform-Reach c s v f.0 in
      Reach-trans r (perform_all-Reach calls (perform c s) (Reach-IsValid r v) f.1)

  empty-IsValid : IsValid empty
  unfolding get
  empty-IsValid = ground arith

  -- After any calls on the empty repository, failing calls included, whose drawn ids are not in
  -- use: a run stands under its id, has a thread that is there and a turn index below the thread's
  -- next, no thread has two active runs or two runs with one turn index, and a request key leads to
  -- a run that was admitted under it.
  pub perform_all-IsValid :
      (calls : List Call) → AllFresh calls empty → IsValid (perform_all calls empty)
  perform_all-IsValid calls f =
      Reach-IsValid (perform_all-Reach calls empty empty-IsValid f) empty-IsValid

  -- From a valid repository, a run that has ended keeps its record unchanged through any calls
  -- whose drawn ids are not in use.
  pub ended_run_unchanged :
      (calls : List Call) (s : Repository) (r : ℕ) (x : ConversationRun)
      → IsValid s
      → AllFresh calls s
      → get r s.runs ≡ some x
      → is_active x.status ≡ false
      → get r (perform_all calls s).runs ≡ some x
  ended_run_unchanged calls s r x v f = Reach-ended r x (perform_all-Reach calls s v f)

  -- When an admission under a request key is accepted, then after any calls whose drawn ids are not
  -- in use a second admission with the same key and message, to no thread or to the run's, changes
  -- nothing and returns the same run, marked as replayed.
  pub admit_run_idempotent :
      (s : Repository) (v : IsValid s) (fresh fresh' : FreshIds) (now now' : ℕ)
      (thread_id : Option ℕ) (message : String) (k : ℕ) (a : RunAdmission) (calls : List Call)
      → IsFresh fresh s
      → (admit_run fresh now thread_id message (some k) s).0 ≡ ok a
      → AllFresh calls (admit_run fresh now thread_id message (some k) s).1
      → (again : Option ℕ) → (again ≡ none) ⊎ (again ≡ some a.run.thread_id)
      → let s' = perform_all calls (admit_run fresh now thread_id message (some k) s).1 in
        (b : RunAdmission) × (admit_run fresh' now' again message (some k) s' ≡ (ok b, s'))
        × (b.run.run_id ≡ a.run.run_id)
        × (b.replayed ≡ true)
  admit_run_idempotent s v fresh fresh' now now' thread_id message k a calls f accepted all again
        same =
      let s₁ = (admit_run fresh now thread_id message (some k) s).1 in
      let v₁ =
        Transition-IsValid (admit_run-Transition fresh now message s v f thread_id (some k)) v in
      let path = perform_all-Reach calls s₁ v₁ all in
      let (b, _) = admit_run-Bound fresh now message k s v thread_id a accepted in
      let kept = Reach-Kept a.run.run_id b.run path (record {
        run = b.run;
        there = b.there;
        same = record {
          run_id = refl;
          thread_id = refl;
          turn_index = refl;
          request_key = refl;
          message = refl;
        };
      }) in
      let later : Bound (perform_all calls s₁) k a.run.run_id a.run.thread_id message = record {
        run = kept.run;
        key = Reach-key k a.run.run_id path b.key;
        there = kept.there;
        text = kept.same.message ∙ b.text;
        home = kept.same.thread_id ∙ b.home;
        id = kept.same.run_id ∙ b.id;
      } in
      let (c, eq, run, flag) =
        replayed fresh' now' again message k a.run.run_id a.run.thread_id (perform_all calls s₁)
          (Reach-IsValid path v₁) later
          (same-differs again a.run.thread_id message later.run same later.home later.text) in
      (c, eq, ap (λ (x : ConversationRun). x.run_id) run ∙ later.id, flag)
