-- ===== src/Persistence/Memory/Histories.antt =====
-- Sequences of calls of app/persistence/memory.py's repository, failing calls included.
use mini_alpha.Common.{
  ℕ, ◌≡◌, inl, inr, refl, sym, subst, true, false, Option, none, some, arith, nat_eq, ◌==◌, String,
  Option-cases, Bool-cases, eq_iff, string_eq,
}
use mini_alpha.Common.Dict.{get, get-put, get-put_self}
use mini_alpha.Persistence.Memory.Invariant.{IsValid, SameRun}
use mini_alpha.Persistence.Memory.Effects.{home_of, replay_admission-unchanged}
use mini_alpha.Persistence.Memory.Transition.{Transition, stay, finish, start, Reach, here, next}
use mini_alpha.Persistence.Memory.{FreshIds, admit_run, replay_admission, differs, new_admission}
use mini_alpha.Persistence.Memory.State.{Repository, ok, is_active}
use mini_alpha.Persistence.Models.{ConversationRun, RunAdmission}

-- A run that has ended keeps its record through every transition.
Transition-ended :
    {s s' : Repository} (r : ℕ) (x : ConversationRun)
    → Transition s s'
    → get r s.runs ≡ some x
    → is_active x.status ≡ false
    → get r s'.runs ≡ some x
Transition-ended r x stay h e = h
Transition-ended {s} r x (finish q t) h e = rw (t.runs, get-put) (ground (arith, t.there, t.active))
Transition-ended {s} r x (start a) h e = rw (a.runs, get-put) (ground (arith, a.unused))

pub Reach-ended :
    {s s' : Repository} (r : ℕ) (x : ConversationRun)
    → Reach s s'
    → get r s.runs ≡ some x
    → is_active x.status ≡ false
    → get r s'.runs ≡ some x
Reach-ended r x here h e = h
Reach-ended r x (next p t) h e = Transition-ended r x t (Reach-ended r x p h e) e

-- A run stays in the table with its identity, and a request key stays bound to its run.
pub record Kept (s : Repository) (r : ℕ) (x : ConversationRun) : Type 0 where
  pub run : ConversationRun
  pub there : get r s.runs ≡ some run
  pub same : SameRun run x

Transition-Kept :
    {s s' : Repository} (r : ℕ) (x : ConversationRun) → Transition s s' → Kept s r x → Kept s' r x
Transition-Kept r x stay k = k
Transition-Kept {s} r x (finish q t) k = elim (Bool-cases (q == r)) [
  | inl e ↦ record {
    run = t.after;
    there = rw (t.runs, get-put) (ground arith);
    same = ground (arith, k.same, t.same, k.there, t.there);
  }
  | inr e ↦ record {
    run = k.run;
    there = rw (t.runs, get-put) (ground (arith, k.there));
    same = k.same;
  }
]
Transition-Kept {s} r x (start a) k = record {
  run = k.run;
  there = rw (a.runs, get-put) (ground (arith, k.there, a.unused));
  same = k.same;
}

pub Reach-Kept :
    {s s' : Repository} (r : ℕ) (x : ConversationRun) → Reach s s' → Kept s r x → Kept s' r x
Reach-Kept r x here k = k
Reach-Kept r x (next p t) k = Transition-Kept r x t (Reach-Kept r x p k)

Transition-key :
    {s s' : Repository} (k r : ℕ)
    → Transition s s'
    → get k s.request_keys ≡ some r
    → get k s'.request_keys ≡ some r
Transition-key k r stay h = h
Transition-key k r (finish q t) h = rw t.keys h
Transition-key k r (start a) h = elim a.keys [
  | inl e ↦ rw e h
  | inr (j, own, absent, e) ↦ rw (e, get-put) (ground arith)
]

pub Reach-key :
    {s s' : Repository} (k r : ℕ)
    → Reach s s'
    → get k s.request_keys ≡ some r
    → get k s'.request_keys ≡ some r
Reach-key k r here h = h
Reach-key k r (next p t) h = Transition-key k r t (Reach-key k r p h)

-- What an accepted admission under a key leaves: the key leads to the run, which has the message.
pub record Bound (s : Repository) (k r t : ℕ) (message : String) : Type 0 where
  pub run : ConversationRun
  pub key : get k s.request_keys ≡ some r
  pub there : get r s.runs ≡ some run
  pub text : run.message ≡ message
  pub home : run.thread_id ≡ t
  pub id : run.run_id ≡ r

replay_admission-run :
    (r : ℕ) (thread_id : Option ℕ) (message : String) (s : Repository) (a : RunAdmission)
    → (replay_admission r thread_id message s).0 ≡ ok a
    → (get r s.runs ≡ some a.run) × (a.run.message ≡ message)
unfolding replay_admission
replay_admission-run r none message s a h = elim (Option-cases (get r s.runs)) [
  | inl e ↦ absurd (ground arith)
  | inr (x, e) ↦ ground (arith, eq_iff x.message message)
]
replay_admission-run r (some t) message s a h = elim (Option-cases (get r s.runs)) [
  | inl e ↦ absurd (ground arith)
  | inr (x, e) ↦ ground (arith, eq_iff x.message message)
]

record Started (message : String) (k : ℕ) (a : RunAdmission) (m : Repository) : Type 0 where
  key : get k m.request_keys ≡ some a.run.run_id
  there : get a.run.run_id m.runs ≡ some a.run
  text : a.run.message ≡ message

module _ (fresh : FreshIds) (now : ℕ) (message : String) (k : ℕ) (s : Repository) where
  new_admission-Started :
      (thread_id : Option ℕ) (a : RunAdmission)
      → (new_admission fresh now thread_id message (some k) s).0 ≡ ok a
      → Started message k a (new_admission fresh now thread_id message (some k) s).1
  unfolding new_admission
  new_admission-Started none a h =
      ground
        (arith, get-put_self k fresh.run_id s.request_keys, get-put_self fresh.run_id a.run s.runs)
  new_admission-Started (some t) a h =
      ground
        (arith, get-put_self k fresh.run_id s.request_keys, get-put_self fresh.run_id a.run s.runs)

  pub admit_run-Bound :
      (v : IsValid s) (thread_id : Option ℕ) (a : RunAdmission)
      → (admit_run fresh now thread_id message (some k) s).0 ≡ ok a
      → (b : Bound
          (admit_run fresh now thread_id message (some k) s).1
          k
          a.run.run_id
          a.run.thread_id
          message)
        × (b.run ≡ a.run)
  unfolding admit_run
  admit_run-Bound v thread_id a h = elim (Option-cases (get k s.request_keys)) [
    | inl e ↦
        let st = new_admission-Started thread_id a (rw (admit_run, e) at h) in
        rw (admit_run, e)
          (
            record {
              run = a.run;
              key = st.key;
              there = st.there;
              text = st.text;
              home = refl;
              id = refl;
            },
            refl,
          )
    | inr (r, e) ↦
        let (there, text) = replay_admission-run r thread_id message s a (rw (admit_run, e) at h) in
        let id = v.run_key r a.run there in
        rw (admit_run, e, replay_admission-unchanged)
          (
            record {
              run = a.run;
              key = rw id e;
              there = subst (λ q. get q s.runs ≡ some a.run) (sym id) there;
              text = text;
              home = refl;
              id = refl;
            },
            refl,
          )
  ]

module _ (fresh : FreshIds) (now : ℕ) (thread_id : Option ℕ) (message : String) (k r t : ℕ)
    (s : Repository) (v : IsValid s) where
  pub replayed :
      (b : Bound s k r t message)
      → differs b.run thread_id message ≡ false
      → (a : RunAdmission) × (admit_run fresh now thread_id message (some k) s ≡ (ok a, s))
        × (a.run ≡ b.run)
        × (a.replayed ≡ true)
  unfolding admit_run replay_admission
  replayed b same =
      let (thread, home) = home_of s v r b.run b.there in
      (
        record { run = b.run; from_checkpoint_id = thread.latest_checkpoint_id; replayed = true },
        rw (admit_run, b.key, b.there, same, home),
        refl,
        refl,
      )
