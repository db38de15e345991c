-- ===== src/Grounding/Verifier/Report.antt =====
-- app/grounding/verifier.py: `verify`, the report on a sequence of claims.
use mini_alpha.Common.{
  ℕ, ◌+◌, String, Bool, true, false, Option, none, some, List, [], ◌∷◌, ◌++◌, any, length, ◌==◌,
  nat_eq, if◌then◌else◌,
}
use mini_alpha.Common.Dict.{Dict, get, put}
use mini_alpha.Grounding.Contracts.{
  Decimals, Claim, Citation, VerificationIssue, VerificationReport, blocking, ClaimType, limitation,
  calculated_number, missing_citation, fabricated_citation, unauthorized_citation,
  unavailable_evidence, calculation_artifact_required,
}
use mini_alpha.Grounding.Verifier.{
  EvidenceArtifact, ◌>>=◌, issue, is_ok, has_calculation, alignment_issues,
}
use mini_alpha.Grounding.Verifier.Numbers.{Cited, verify_number}

-- `DeterministicClaimVerifier`: the artifacts by their ids, and the ids that may be cited
pub record ClaimVerifier : Type 0 where
  pub artifacts : Dict ℕ EvidenceArtifact
  pub authorized : List ℕ

abbrev by_id : List EvidenceArtifact → Dict ℕ EvidenceArtifact → Dict ℕ EvidenceArtifact
by_id [] known = known
by_id (artifact ∷ rest) known = by_id rest (put artifact.artifact_id artifact known)

abbrev keys : Dict ℕ EvidenceArtifact → List ℕ
keys [] = []
keys ((i, artifact) ∷ rest) = i ∷ keys rest

unfoldable pub new_verifier : List EvidenceArtifact → Option (List ℕ) → ClaimVerifier
new_verifier parsed authorized =
    let artifacts = by_id parsed [] in
    record {
      artifacts = artifacts;
      authorized = elim authorized [ none ↦ keys artifacts | some ids ↦ ids ];
    }

abbrev pub is_authorized : ClaimVerifier → ℕ → Bool
is_authorized verifier i = any (λ j. j == i) verifier.authorized

abbrev pub is_limitation : ClaimType → Bool
is_limitation limitation = true
is_limitation _ = false

abbrev pub is_calculated : ClaimType → Bool
is_calculated calculated_number = true
is_calculated _ = false

-- What becomes of one citation
pub data Verdict : Type 0 where
  rejected : VerificationIssue → Verdict
  accepted : EvidenceArtifact → Verdict

module _ (decimals : Decimals) (upper : String → String) (as_index : String → Option ℕ)
    (repr : String → String) (verifier : ClaimVerifier) where
  abbrev pub judge_found : Claim decimals → ℕ → EvidenceArtifact → Verdict
  judge_found claim i artifact =
      if is_authorized verifier i
      then (if is_ok artifact
          then accepted artifact
          else rejected (
              issue decimals claim unavailable_evidence blocking
                "The cited artifact contains no successful evidence." (some i)))
      else rejected (
          issue decimals claim unauthorized_citation blocking
            "The cited artifact is outside the current run/thread scope." (some i))

  unfoldable pub judge : Claim decimals → ℕ → Verdict
  judge claim i = elim (get i verifier.artifacts) [
    | none ↦ rejected (
        issue decimals claim fabricated_citation blocking "The cited artifact does not exist."
          (some i))
    | some artifact ↦ judge_found claim i artifact
  ]

  abbrev pub judged :
      Claim decimals
      → Citation
      → Verdict
      → List VerificationIssue × Cited
      → List VerificationIssue × Cited
  judged claim citation (rejected x) (issues, cited) = (x ∷ issues, cited)
  judged claim citation (accepted artifact) (issues, cited) =
      (alignment_issues decimals upper claim artifact ++ issues, (citation, artifact) ∷ cited)

  -- The loop over a claim's citations: the issues in order, and the citations that are accepted
  unfoldable pub judge_each : Claim decimals → List Citation → List VerificationIssue × Cited
  judge_each claim [] = ([], [])
  judge_each claim (citation ∷ citations) =
      judged claim citation (judge claim citation.artifact_id) (judge_each claim citations)

  abbrev pub any_calculation : Cited → Bool
  any_calculation cited = any (λ q. has_calculation q.1) cited

  unfoldable pub calculation_issues : Claim decimals → Cited → List VerificationIssue
  calculation_issues claim [] = []
  calculation_issues claim cited =
      if is_calculated claim.claim_type
      then (if any_calculation cited
          then []
          else issue decimals claim calculation_artifact_required blocking
              "Calculated claims require a deterministic calculation artifact." none
            ∷ [])
      else []

  unfoldable pub number_issues : Claim decimals → Cited → Option (List VerificationIssue)
  number_issues claim [] = some []
  number_issues claim cited = elim claim.numeric_value [
    | none ↦ some []
    | some value ↦ verify_number decimals upper as_index repr claim value cited
  ]

  abbrev pub with_numbers :
      Claim decimals → List VerificationIssue × Cited → Option (List VerificationIssue)
  with_numbers claim (issues, cited) = do
    numbers ← number_issues claim cited
    some (issues ++ calculation_issues claim cited ++ numbers)

  abbrev pub issues_of : Claim decimals → List Citation → Option (List VerificationIssue)
  issues_of claim [] =
      if is_limitation claim.claim_type
      then some []
      else some (
          issue decimals claim missing_citation blocking
            "The claim requires at least one artifact citation." none
          ∷ [])
  issues_of claim (citation ∷ citations) = with_numbers claim (judge_each claim claim.citations)

  -- The body of the loop over the claims
  unfoldable pub claim_issues : Claim decimals → Option (List VerificationIssue)
  claim_issues claim = issues_of claim claim.citations

  unfoldable pub all_issues : List (Claim decimals) → Option (List VerificationIssue)
  all_issues [] = some []
  all_issues (claim ∷ claims) =
      let rest = all_issues claims in
      do issues ← claim_issues claim; others ← rest; some (issues ++ others)

  abbrev citation_count : List (Claim decimals) → ℕ
  citation_count [] = 0
  citation_count (claim ∷ claims) = length claim.citations + citation_count claims

  unfoldable pub verify : List (Claim decimals) → Option VerificationReport
  verify claims = do
    issues ← all_issues claims
    some (record {
      issues = issues;
      checked_claims = length claims;
      checked_citations = citation_count claims;
    })
