-- ===== src/Grounding/Verifier/Grounded.antt =====
-- What a report of app/grounding/verifier.py that blocks nothing shows of the claims.
use mini_alpha.Common.{
  ℕ, ◌≡◌, ◌≢◌, inl, inr, refl, ap, sym, ◌∙◌, subst, String, true, false, Option, some, List, [],
  ◌∷◌, ◌++◌, All, arith, Bool-cases, Option-cases, nat_eq,
}
use mini_alpha.Common.Dict.{get}
use mini_alpha.Grounding.Contracts.{
  Decimals, Claim, Citation, NumericValue, VerificationIssue, VerificationReport, is_blocking,
  passed, ClaimType, limitation, calculated_number, retrieved_fact, comparison, interpretation,
}
use mini_alpha.Grounding.Verifier.Agreement.{
  blocked, silent_append, SomeAgrees, verify_number-SomeAgrees,
}
use mini_alpha.Grounding.Verifier.Numbers.{Cited}
use mini_alpha.Grounding.Verifier.Report.{
  ClaimVerifier, is_authorized, is_limitation, is_calculated, Verdict, rejected, accepted, judge,
  judged, judge_each, any_calculation, calculation_issues, number_issues, with_numbers, issues_of,
  claim_issues, all_issues, verify,
}
use mini_alpha.Grounding.Verifier.{
  EvidenceArtifact, is_ok, entity_matches, period_matches, alignment_issues,
}

module _ (decimals : Decimals) (upper : String → String) (as_index : String → Option ℕ)
    (repr : String → String) (verifier : ClaimVerifier) (claim : Claim decimals) where
  -- The cited artifact is there, in scope and successful, and of the claim's entity and period.
  pub record Supports (citation : Citation) (artifact : EvidenceArtifact) : Type 0 where
    pub known : get citation.artifact_id verifier.artifacts ≡ some artifact
    pub allowed : is_authorized verifier citation.artifact_id ≡ true
    pub successful : is_ok artifact ≡ true
    pub entity : entity_matches decimals upper claim artifact ≡ true
    pub period : period_matches decimals upper claim artifact ≡ true

  -- Each citation with the artifact that supports it
  pub data IsBacked : List Citation → Cited → Type 0 where
    nothing : IsBacked [] []
    backed :
        {citation : Citation} {citations : List Citation} {artifact : EvidenceArtifact}
        {cited : Cited}
        → Supports citation artifact
        → IsBacked citations cited
        → IsBacked (citation ∷ citations) ((citation, artifact) ∷ cited)

  alignment-quiet :
      (artifact : EvidenceArtifact)
      → blocked (alignment_issues decimals upper claim artifact) ≡ false
      → (entity_matches decimals upper claim artifact ≡ true)
        × (period_matches decimals upper claim artifact ≡ true)
  unfolding alignment_issues
  alignment-quiet artifact h = elim (Bool-cases (entity_matches decimals upper claim artifact)) [
    | inr e ↦ absurd (ground (arith, h, e))
    | inl e ↦ elim (Bool-cases (period_matches decimals upper claim artifact)) [
      | inr p ↦ absurd (ground (arith, h, e, p))
      | inl p ↦ (e, p)
    ]
  ]

  data Judged (i : ℕ) : Verdict → Type 0 where
    refused : {x : VerificationIssue} → is_blocking x ≡ true → Judged i (rejected x)
    taken :
        {a : EvidenceArtifact}
        → get i verifier.artifacts ≡ some a
        → is_authorized verifier i ≡ true
        → is_ok a ≡ true
        → Judged i (accepted a)

  judge-Judged : (i : ℕ) → Judged i (judge decimals upper as_index repr verifier claim i)
  unfolding judge
  judge-Judged i = elim (Option-cases (get i verifier.artifacts)) [
    | inl e ↦ rw (judge, e) (refused refl)
    | inr (artifact, e) ↦ elim (Bool-cases (is_authorized verifier i)) [
      | inr b ↦ rw (judge, e, b) (refused refl)
      | inl b ↦ elim (Bool-cases (is_ok artifact)) [
        | inr k ↦ rw (judge, e, b, k) (refused refl)
        | inl k ↦ rw (judge, e, b, k) (taken e b k)
      ]
    ]
  ]

  abbrev Answer : Type 0
  Answer = List VerificationIssue × Cited

  judged-IsBacked :
      (citation : Citation) (citations : List Citation) (rest : Answer) (verdict : Verdict)
      → Judged citation.artifact_id verdict
      → (blocked rest.0 ≡ false → IsBacked citations rest.1)
      → blocked (judged decimals upper as_index repr verifier claim citation verdict rest).0 ≡ false
      → IsBacked
          (citation ∷ citations)
          (judged decimals upper as_index repr verifier claim citation verdict rest).1
  judged-IsBacked citation citations rest (rejected x) (refused b) backs h =
      absurd (ground (arith, h, b))
  judged-IsBacked citation citations rest (accepted a) (taken known allowed successful) backs h =
      let (aligned, quiet) =
        silent_append is_blocking (alignment_issues decimals upper claim a) rest.0 h in
      let (entity, period) = alignment-quiet a aligned in
      backed
        (record {
          known = known;
          allowed = allowed;
          successful = successful;
          entity = entity;
          period = period;
        })
        (backs quiet)

  judge_each-IsBacked :
      (citations : List Citation)
      → blocked (judge_each decimals upper as_index repr verifier claim citations).0 ≡ false
      → IsBacked citations (judge_each decimals upper as_index repr verifier claim citations).1
  unfolding judge_each
  judge_each-IsBacked [] h = nothing
  judge_each-IsBacked (citation ∷ citations) h =
      judged-IsBacked citation citations _ _ (judge-Judged citation.artifact_id)
        (judge_each-IsBacked citations) h

  -- What stands behind a claim: citations unless it is a limitation, each with an artifact that
  -- supports it; a calculation among these for a calculated number; and among these for a number a
  -- value that agrees with it.
  pub record IsGrounded : Type 0 where
    pub cited : Cited
    pub backing : IsBacked claim.citations cited
    pub sourced : is_limitation claim.claim_type ≡ false → claim.citations ≢ []
    pub calculated :
        is_calculated claim.claim_type ≡ true
        → any_calculation decimals upper as_index repr verifier cited ≡ true
    pub agreeing :
        (value : NumericValue decimals)
        → claim.numeric_value ≡ some value
        → claim.citations ≢ []
        → SomeAgrees decimals upper as_index repr claim value cited

  calculation-quiet :
      (q : Citation × EvidenceArtifact) (cited : Cited)
      → blocked (calculation_issues decimals upper as_index repr verifier claim (q ∷ cited)) ≡ false
      → is_calculated claim.claim_type ≡ true
      → any_calculation decimals upper as_index repr verifier (q ∷ cited) ≡ true
  unfolding calculation_issues
  calculation-quiet q cited h c = ground (arith, h, c)

  numbers-quiet :
      (q : Citation × EvidenceArtifact) (cited : Cited) (issues : List VerificationIssue)
      (value : NumericValue decimals)
      → number_issues decimals upper as_index repr verifier claim (q ∷ cited) ≡ some issues
      → blocked issues ≡ false
      → claim.numeric_value ≡ some value
      → SomeAgrees decimals upper as_index repr claim value (q ∷ cited)
  unfolding number_issues
  numbers-quiet q cited issues value h quiet e =
      verify_number-SomeAgrees decimals upper as_index repr claim value (q ∷ cited) issues
        (rw (number_issues, e) at h) quiet

  limitation-calculated : (t : ClaimType) → is_limitation t ≡ true → is_calculated t ≡ true → ⊥
  limitation-calculated limitation h c = absurd (ground (arith, c))
  limitation-calculated calculated_number h c = absurd (ground (arith, h))
  limitation-calculated retrieved_fact h c = absurd (ground (arith, h))
  limitation-calculated comparison h c = absurd (ground (arith, h))
  limitation-calculated interpretation h c = absurd (ground (arith, h))

  -- A claim without citations
  uncited-IsGrounded : claim.citations ≡ [] → is_limitation claim.claim_type ≡ true → IsGrounded
  uncited-IsGrounded e t = record {
    cited = [];
    backing = rw e nothing;
    sourced = λ f. absurd (ground (arith, t, f));
    calculated = λ c. absurd (limitation-calculated claim.claim_type t c);
    agreeing = λ value v n. absurd (n e);
  }

  unbacked :
      (citation : Citation) (citations : List Citation) → IsBacked (citation ∷ citations) [] → ⊥
  unbacked citation citations b = elim b [ ]

  cited-IsGrounded :
      (citation : Citation) (citations : List Citation) (answer : Answer)
      (issues : List VerificationIssue)
      → claim.citations ≡ citation ∷ citations
      → (blocked answer.0 ≡ false → IsBacked claim.citations answer.1)
      → with_numbers decimals upper as_index repr verifier claim answer ≡ some issues
      → blocked issues ≡ false
      → IsGrounded
  unfolding number_issues calculation_issues
  cited-IsGrounded citation citations (xs, []) issues e backs h quiet =
      let (left, last) = silent_append is_blocking (xs ++ []) [] (ground (arith, h, quiet)) in
      let (first, middle) = silent_append is_blocking xs [] left in
      absurd (unbacked citation citations (subst (λ cs. IsBacked cs []) e (backs first)))
  cited-IsGrounded citation citations (xs, q ∷ cited) issues e backs h quiet =
      elim (Option-cases (number_issues decimals upper as_index repr verifier claim (q ∷ cited))) [
        | inl absent ↦ absurd (ground (arith, h, absent))
        | inr (numbers, found) ↦
            let calculation =
              calculation_issues decimals upper as_index repr verifier claim (q ∷ cited) in
            let all : blocked (xs ++ calculation ++ numbers) ≡ false =
              ground (arith, h, found, quiet) in
            let (left, last) = silent_append is_blocking (xs ++ calculation) numbers all in
            let (first, middle) = silent_append is_blocking xs calculation left in
            record {
              cited = q ∷ cited;
              backing = backs first;
              sourced = λ f n. absurd (ground (arith, e, n));
              calculated = calculation-quiet q cited middle;
              agreeing = λ value v n. numbers-quiet q cited numbers value found last v;
            }
      ]

  opened :
      {citation : Citation} {citations : List Citation} {issues : List VerificationIssue}
      → claim.citations ≡ citation ∷ citations
      → claim_issues decimals upper as_index repr verifier claim ≡ some issues
      → with_numbers decimals upper as_index repr verifier claim
          (judge_each decimals upper as_index repr verifier claim claim.citations)
        ≡ some issues
  unfolding claim_issues
  opened e h = ap (issues_of decimals upper as_index repr verifier claim) (sym e) ∙ h

  claim_issues-cases :
      (citations : List Citation) (issues : List VerificationIssue)
      → claim.citations ≡ citations
      → claim_issues decimals upper as_index repr verifier claim ≡ some issues
      → blocked issues ≡ false
      → IsGrounded
  unfolding claim_issues
  claim_issues-cases [] issues e h quiet = elim (Bool-cases (is_limitation claim.claim_type)) [
    | inl t ↦ uncited-IsGrounded e t
    | inr f ↦ absurd (ground (arith, h, e, f, quiet))
  ]
  claim_issues-cases (citation ∷ citations) issues e h quiet =
      cited-IsGrounded citation citations
        (judge_each decimals upper as_index repr verifier claim claim.citations) issues e
        (judge_each-IsBacked claim.citations) (opened e h) quiet

module _ (decimals : Decimals) (upper : String → String) (as_index : String → Option ℕ)
    (repr : String → String) (verifier : ClaimVerifier) where
  all_issues-IsGrounded :
      (claims : List (Claim decimals)) (issues : List VerificationIssue)
      → all_issues decimals upper as_index repr verifier claims ≡ some issues
      → blocked issues ≡ false
      → All (IsGrounded decimals upper as_index repr verifier) claims
  unfolding all_issues
  all_issues-IsGrounded [] issues h quiet = tt
  all_issues-IsGrounded (claim ∷ claims) issues h quiet =
      elim (Option-cases (claim_issues decimals upper as_index repr verifier claim)) [
        | inl absent ↦ absurd (ground (arith, h, absent))
        | inr (xs, found) ↦
            elim (Option-cases (all_issues decimals upper as_index repr verifier claims)) [
              | inl absent ↦ absurd (ground (arith, h, found, absent))
              | inr (ys, rest) ↦
                  let both : blocked (xs ++ ys) ≡ false = ground (arith, h, found, rest, quiet) in
                  let (left, right) = silent_append is_blocking xs ys both in
                  (
                    claim_issues-cases decimals upper as_index repr verifier claim claim.citations
                        xs refl found left,
                    all_issues-IsGrounded claims ys rest right,
                  )
            ]
      ]

  -- When the verification of some claims returns a report that passes, every claim is grounded: it has
  -- a citation unless it is a limitation; every artifact that it cites is there, in scope and
  -- successful, and of the claim's entity and period where the claim names one; a calculated number
  -- cites a calculation; and a number that has citations agrees, within the claim's tolerances, with a
  -- cited value of a compatible unit and currency.
  pub verify-IsGrounded :
      (claims : List (Claim decimals)) (report : VerificationReport)
      → verify decimals upper as_index repr verifier claims ≡ some report
      → passed report ≡ true
      → All (IsGrounded decimals upper as_index repr verifier) claims
  unfolding verify passed
  verify-IsGrounded claims report h good =
      elim (Option-cases (all_issues decimals upper as_index repr verifier claims)) [
        | inl absent ↦ absurd (ground (arith, h, absent))
        | inr (issues, found) ↦
            all_issues-IsGrounded claims issues found (ground (arith, h, found, good))
      ]
