-- ===== src/Persistence/Memory/State.antt =====
-- The repository's state and the actions that its methods are made of.
use mini_alpha.Common.{ℕ, Bool, true, false, Option, none, some, List, [], nat_eq, if◌then◌else◌}
use mini_alpha.Common.Dict.{Dict, get, put}
use mini_alpha.Persistence.Models.{
  Status, in_progress, ConversationThread, ConversationRun, StoredArtifact, RepositoryError,
  run_not_found, run_lifecycle_conflict, key_error,
}

pub record Repository : Type 0 where
  pub threads : Dict ℕ ConversationThread
  pub runs : Dict ℕ ConversationRun
  pub request_keys : Dict ℕ ℕ
  pub artifacts : Dict ℕ (List StoredArtifact)

abbrev pub empty : Repository
empty = record { threads = []; runs = []; request_keys = []; artifacts = [] }

pub data Result {ℓ} (A : Type ℓ) : Type ℓ where
  ok : A → Result A
  err : RepositoryError → Result A

abbrev pub Exec : Type 0 → Type 0
Exec A = Repository → Result A × Repository

abbrev continue : {A B : Type 0} → Result A → (A → Exec B) → Exec B
continue (ok a) f s = f a s
continue (err e) f s = (err e, s)

infixl 5 ◌>>=◌ ◌>>◌
abbrev pub ◌>>=◌ : {A B : Type 0} → Exec A → (A → Exec B) → Exec B
◌>>=◌ m f s = let (r, s') = m s in continue r f s'

abbrev pub ◌>>◌ : {A B : Type 0} → Exec A → Exec B → Exec B
m >> n = m >>= λ _. n

abbrev pub pure : {A : Type 0} → A → Exec A
pure a s = (ok a, s)

abbrev pub raise : {A : Type 0} → RepositoryError → Exec A
raise e s = (err e, s)

abbrev found {ℓ} : {A : Type ℓ} → Option A → RepositoryError → Result A
found none e = err e
found (some a) e = ok a

-- `self._runs[run_id]` and `self._threads[thread_id]`
abbrev pub run_at : ℕ → Exec ConversationRun
run_at r s = (found (get r s.runs) key_error, s)

abbrev pub thread_at : ℕ → Exec ConversationThread
thread_at t s = (found (get t s.threads) key_error, s)

abbrev pub set_run : ℕ → ConversationRun → Exec (Unit {0})
set_run r run s = (ok tt, record s { runs = put r run s.runs })

abbrev pub set_thread : ℕ → ConversationThread → Exec (Unit {0})
set_thread t thread s = (ok tt, record s { threads = put t thread s.threads })

abbrev pub set_artifacts : ℕ → List StoredArtifact → Exec (Unit {0})
set_artifacts r xs s = (ok tt, record s { artifacts = put r xs s.artifacts })

-- `if request_key is not None: self._request_keys[request_key] = run_id`
abbrev pub set_request_key : Option ℕ → ℕ → Exec (Unit {0})
set_request_key none r s = (ok tt, s)
set_request_key (some k) r s = (ok tt, record s { request_keys = put k r s.request_keys })

abbrev pub is_active : Status → Bool
is_active in_progress = true
is_active _ = false

unfoldable pub active_run : Option ConversationRun → Result ConversationRun
active_run none = err run_not_found
active_run (some run) = if is_active run.status then ok run else err run_lifecycle_conflict

abbrev pub require_active_run : ℕ → Exec ConversationRun
require_active_run r s = (active_run (get r s.runs), s)
