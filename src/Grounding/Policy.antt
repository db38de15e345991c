-- ===== src/Grounding/Policy.antt =====
-- app/grounding/policy.py: what is delivered of an answer whose claims were verified.
use mini_alpha.Common.{
  ℕ, ◌≤◌, ◌<◌, ◌≡◌, ◌≢◌, refl, ap, sym, subst, ◌∙◌, String, Bool, true, false, List, [], ◌∷◌, any,
  arith, ◌==◌, string_eq, ltb, if◌then◌else◌, Bool-cases, inl, inr, ◌||◌, eq_iff, nat_eq,
}
use mini_alpha.Grounding.Contracts.{
  VerificationIssue, VerificationReport, is_blocking, passed, IssueCode, fabricated_citation,
  unauthorized_citation, unavailable_evidence, calculation_artifact_required,
}

pub data DeliveryAction : Type 0 where
  deliver revise soften_or_remove limitation : DeliveryAction

pub record RepairPolicy : Type 0 where
  pub max_attempts : ℕ

-- `__post_init__`
unfoldable pub is_policy : RepairPolicy → Bool
is_policy policy = policy.max_attempts == 1 || policy.max_attempts == 2

pub record DeliveryDecision : Type 0 where
  pub action : DeliveryAction
  pub blocking_claim_ids : List String

abbrev pub is_in : String → List String → Bool
is_in t ts = any (λ s. s == t) ts

-- `dict.fromkeys` over the claims of the blocking issues: each once, where it stands first. `seen` are
-- the keys so far.
unfoldable pub blocking_ids : List String → List VerificationIssue → List String
blocking_ids seen [] = []
blocking_ids seen (issue ∷ issues) =
    let skipped = blocking_ids seen issues in
    let taken = blocking_ids (issue.claim_id ∷ seen) issues in
    if is_blocking issue
    then (if is_in issue.claim_id seen then skipped else issue.claim_id ∷ taken)
    else skipped

abbrev pub is_severe : IssueCode → Bool
is_severe fabricated_citation = true
is_severe unauthorized_citation = true
is_severe unavailable_evidence = true
is_severe calculation_artifact_required = true
is_severe _ = false

abbrev pub has_severe : List VerificationIssue → Bool
has_severe issues = any (λ issue. if is_blocking issue then is_severe issue.code else false) issues

abbrev decided : List String → List VerificationIssue → Bool → DeliveryDecision
decided [] issues can_revise = record { action = deliver; blocking_claim_ids = [] }
decided (c ∷ ids) issues can_revise =
    if can_revise then record { action = revise; blocking_claim_ids = c ∷ ids } else record {
      action = if has_severe issues then limitation else soften_or_remove;
      blocking_claim_ids = c ∷ ids;
    }

unfoldable pub decide_delivery : VerificationReport → ℕ → RepairPolicy → DeliveryDecision
decide_delivery report attempts_used policy =
    decided (blocking_ids [] report.issues) report.issues (ltb attempts_used policy.max_attempts)

-- Whether a claim has a blocking issue
abbrev pub is_blocked : String → List VerificationIssue → Bool
is_blocked c issues = any (λ issue. if is_blocking issue then issue.claim_id == c else false) issues

blocking_ids-is_in :
    (c : String) (issues : List VerificationIssue) (seen : List String)
    → is_in c seen ≡ false
    → is_in c (blocking_ids seen issues) ≡ is_blocked c issues
unfolding blocking_ids
blocking_ids-is_in c [] seen h = refl
blocking_ids-is_in c (issue ∷ issues) seen h = elim (Bool-cases (is_blocking issue)) [
  | inr b ↦ ground (arith, b, blocking_ids-is_in c issues seen h)
  | inl b ↦ elim (Bool-cases (is_in issue.claim_id seen)) [
    | inl s ↦ ground (arith, b, s, h, eq_iff issue.claim_id c, blocking_ids-is_in c issues seen h)
    | inr s ↦ elim (Bool-cases (issue.claim_id == c)) [
      | inl e ↦ ground (arith, b, s, e)
      | inr e ↦
          ground (arith, b, s, e, blocking_ids-is_in c issues (issue.claim_id ∷ seen) (rw e h))
    ]
  ]
]

blocking_ids-empty :
    (issues : List VerificationIssue) → blocking_ids [] issues ≡ [] → any is_blocking issues ≡ false
unfolding blocking_ids
blocking_ids-empty [] h = refl
blocking_ids-empty (issue ∷ issues) h = elim (Bool-cases (is_blocking issue)) [
  | inl b ↦ absurd (ground (arith, b, h))
  | inr b ↦ rw b (blocking_ids-empty issues (rw (blocking_ids, b) at h))
]

blocking_ids-unseen :
    (c : String) (issues : List VerificationIssue) (seen : List String)
    → is_in c seen ≡ true
    → is_in c (blocking_ids seen issues) ≡ false
unfolding blocking_ids
blocking_ids-unseen c [] seen h = refl
blocking_ids-unseen c (issue ∷ issues) seen h = elim (Bool-cases (is_blocking issue)) [
  | inr b ↦ ground (arith, b, blocking_ids-unseen c issues seen h)
  | inl b ↦ elim (Bool-cases (is_in issue.claim_id seen)) [
    | inl s ↦ ground (arith, b, s, blocking_ids-unseen c issues seen h)
    | inr s ↦ elim (Bool-cases (issue.claim_id == c)) [
      | inl e ↦ absurd (ground (arith, s, h, e, eq_iff issue.claim_id c))
      | inr e ↦
          ground (arith, b, s, e, blocking_ids-unseen c issues (issue.claim_id ∷ seen) (rw e h))
    ]
  ]
]

-- No text stands twice.
abbrev pub IsDistinct : List String → Type 0
IsDistinct [] = Unit
IsDistinct (c ∷ ids) = (is_in c ids ≡ false) × IsDistinct ids

blocking_ids-IsDistinct :
    (issues : List VerificationIssue) (seen : List String) → IsDistinct (blocking_ids seen issues)
unfolding blocking_ids
blocking_ids-IsDistinct [] seen = tt
blocking_ids-IsDistinct (issue ∷ issues) seen = elim (Bool-cases (is_blocking issue)) [
  | inr b ↦ rw b (blocking_ids-IsDistinct issues seen)
  | inl b ↦ elim (Bool-cases (is_in issue.claim_id seen)) [
    | inl s ↦ rw (b, s) (blocking_ids-IsDistinct issues seen)
    | inr s ↦
        rw (b, s)
          (
            blocking_ids-unseen issue.claim_id issues (issue.claim_id ∷ seen)
                (ground (arith, eq_iff issue.claim_id issue.claim_id)),
            blocking_ids-IsDistinct issues (issue.claim_id ∷ seen),
          )
  ]
]

some-blocked :
    (i : String) (ids : List String) (issues : List VerificationIssue)
    → blocking_ids [] issues ≡ i ∷ ids
    → any is_blocking issues ≡ true
unfolding blocking_ids
some-blocked i ids [] h = absurd (ground (arith, h))
some-blocked i ids (issue ∷ issues) h = elim (Bool-cases (is_blocking issue)) [
  | inl b ↦ rw b refl
  | inr b ↦ rw b (some-blocked i ids issues (rw (blocking_ids, b) at h))
]

abbrev gentle : Bool → DeliveryAction
gentle severe = if severe then limitation else soften_or_remove

undelivered : (severe : Bool) → gentle severe ≢ deliver
undelivered true h = absurd (ground (arith, h))
undelivered false h = absurd (ground (arith, h))

unrevised : (severe : Bool) → gentle severe ≢ revise
unrevised true h = absurd (ground (arith, h))
unrevised false h = absurd (ground (arith, h))

-- What a decision says of a report: `attempts` revisions are used.
pub record Decides (report : VerificationReport) (attempts : ℕ) (policy : RepairPolicy)
    (decision : DeliveryDecision) : Type 0 where
  pub delivered : decision.action ≡ deliver → passed report ≡ true
  pub passes : passed report ≡ true → decision.action ≡ deliver
  pub in_budget : decision.action ≡ revise → attempts < policy.max_attempts
  pub revised : passed report ≡ false → attempts < policy.max_attempts → decision.action ≡ revise
  pub exhausted :
      passed report ≡ false
      → policy.max_attempts ≤ attempts
      → decision.action ≡ (if has_severe report.issues then limitation else soften_or_remove)
  pub members : (c : String) → is_in c decision.blocking_claim_ids ≡ is_blocked c report.issues
  pub once : IsDistinct decision.blocking_claim_ids

module _ (report : VerificationReport) (attempts : ℕ) (policy : RepairPolicy) where
  decided-Decides :
      (ids : List String)
      → blocking_ids [] report.issues ≡ ids
      → Decides report attempts policy
          (decided ids report.issues (ltb attempts policy.max_attempts))
  unfolding passed
  decided-Decides [] e =
      let none_blocks = blocking_ids-empty report.issues e in
      record {
        delivered = λ h. rw none_blocks refl;
        passes = λ h. refl;
        in_budget = λ h. absurd (ground (arith, h));
        revised = λ h lt. absurd (ground (arith, h, none_blocks));
        exhausted = λ h le. absurd (ground (arith, h, none_blocks));
        members = λ c. ap (is_in c) (sym e) ∙ blocking_ids-is_in c report.issues [] refl;
        once = tt;
      }
  decided-Decides (i ∷ ids) e =
      let some_blocks = some-blocked i ids report.issues e in
      elim (Bool-cases (ltb attempts policy.max_attempts)) [
        | inl l ↦ rw l (record {
          delivered = λ h. absurd (ground (arith, h));
          passes = λ h. absurd (ground (arith, h, some_blocks));
          in_budget = λ h. ground (arith, l);
          revised = λ h lt. refl;
          exhausted = λ h le. absurd (ground (arith, l, le));
          members = λ c. ap (is_in c) (sym e) ∙ blocking_ids-is_in c report.issues [] refl;
          once = subst IsDistinct e (blocking_ids-IsDistinct report.issues []);
        })
        | inr l ↦ rw l (record {
          delivered = λ h. absurd (undelivered (has_severe report.issues) h);
          passes = λ h. absurd (ground (arith, h, some_blocks));
          in_budget = λ h. absurd (unrevised (has_severe report.issues) h);
          revised = λ h lt. absurd (ground (arith, l, lt));
          exhausted = λ h le. refl;
          members = λ c. ap (is_in c) (sym e) ∙ blocking_ids-is_in c report.issues [] refl;
          once = subst IsDistinct e (blocking_ids-IsDistinct report.issues []);
        })
      ]

  -- An answer is delivered as it is just where its report passes. One whose report does not is revised
  -- just while attempts are left, and afterwards softened or, where a citation or a calculation is at
  -- fault, replaced by a limitation; and the decision names each claim with a blocking issue once and no other.
  pub decide_delivery-Decides :
      Decides report attempts policy (decide_delivery report attempts policy)
  unfolding decide_delivery
  decide_delivery-Decides = decided-Decides (blocking_ids [] report.issues) refl
