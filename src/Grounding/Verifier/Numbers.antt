-- ===== src/Grounding/Verifier/Numbers.antt =====
-- app/grounding/verifier.py: `_verify_number`, the check of a claim's number against its citations.
use mini_alpha.Common.{
  ℕ, String, Bool, true, false, Option, none, some, List, [], ◌∷◌, ◌++◌, any, ◌==◌, string_eq,
  if◌then◌else◌, ◌||◌,
}
use mathlib.Core.Option
use mini_alpha.Common.Text.{join}
use mini_alpha.Common.Value.{Value, is_null}
use mini_alpha.Grounding.Contracts.{
  Decimals, Claim, Citation, NumericValue, VerificationIssue, IssueCode, blocking,
  missing_evidence_value, non_numeric_evidence, unit_mismatch, currency_mismatch,
  unsupported_number,
}
use mini_alpha.Grounding.Verifier.{
  EvidenceArtifact, issue, read_path, agrees, units_compatible, currency_of, present,
}

-- One citation of a number: it agrees, it has nothing to say, or there is an issue.
pub data Check : Type 0 where
  agreed silent : Check
  objection : VerificationIssue → Check

abbrev pub Cited : Type 0
Cited = List (Citation × EvidenceArtifact)

abbrev pub is_evidence_issue : VerificationIssue → Bool
is_evidence_issue x = elim x.code [
  | missing_evidence_value ↦ true
  | non_numeric_evidence ↦ true
  | unit_mismatch ↦ true
  | currency_mismatch ↦ true
  | _ ↦ false
]

module _ (decimals : Decimals) (upper : String → String) (as_index : String → Option ℕ)
    (repr : String → String) where
  open decimals use {Decimal, parse}

  abbrev number_issue : Claim decimals → IssueCode → String → ℕ → VerificationIssue
  number_issue claim code message artifact_id =
      issue decimals claim code blocking message (some artifact_id)

  abbrev pub currencies_differ : Option String → Option String → Bool
  currencies_differ (some a) (some b) = if upper a == upper b then false else true
  currencies_differ _ _ = false

  abbrev pub agreement : Bool → Check
  agreement true = agreed
  agreement false = silent

  abbrev pub evidence_value : Citation → EvidenceArtifact → Decimal → NumericValue decimals
  evidence_value citation artifact value = record {
    value = value;
    unit = citation.value_unit;
    scale = citation.value_scale;
    currency = currency_of artifact.provenance;
  }

  abbrev pub compare_value :
      Claim decimals → NumericValue decimals → ℕ → NumericValue decimals → Option Check
  compare_value claim value artifact_id evidence =
      if units_compatible value.unit evidence.unit
      then (if currencies_differ (present value.currency) (present evidence.currency)
          then some (
              objection (
                number_issue claim currency_mismatch
                  "The claim and cited artifact use different currencies." artifact_id))
          else Option.map agreement (agrees decimals claim value evidence))
      else some (
          objection (
            number_issue claim unit_mismatch "The claim and cited value use incompatible units."
              artifact_id))

  abbrev pub check_raw :
      Claim decimals
      → NumericValue decimals
      → Citation
      → EvidenceArtifact
      → String
      → Value
      → Option Check
  check_raw claim value citation artifact path raw =
      if is_null raw
      then some (
          objection (
            number_issue claim missing_evidence_value
              (join ("No value exists at citation path " ∷ repr path ∷ "." ∷ []))
              artifact.artifact_id))
      else elim (parse raw) [
        | none ↦ some (
            objection (
              number_issue claim non_numeric_evidence "The cited evidence value is not numeric."
                artifact.artifact_id))
        | some d ↦
            compare_value claim value artifact.artifact_id (evidence_value citation artifact d)
      ]

  -- The body of the loop of `_verify_number`
  unfoldable pub check_citation :
      Claim decimals → NumericValue decimals → Citation → EvidenceArtifact → Option Check
  check_citation claim value citation artifact = elim citation.path [
    | none ↦ some silent
    | some path ↦
        check_raw claim value citation artifact path (read_path as_index artifact.payload path)
  ]

  abbrev pub add_objection :
      VerificationIssue → List VerificationIssue × Bool → List VerificationIssue × Bool
  add_objection x (issues, matched) = (x ∷ issues, matched)

  -- The loop: the issues in order, and whether a citation agreed, at which it stops
  unfoldable pub check_numbers :
      Claim decimals → NumericValue decimals → Cited → Option (List VerificationIssue × Bool)
  check_numbers claim value [] = some ([], false)
  check_numbers claim value ((citation, artifact) ∷ cited) =
      let rest = check_numbers claim value cited in
      elim (check_citation claim value citation artifact) [
        | none ↦ none
        | some agreed ↦ some ([], true)
        | some silent ↦ rest
        | some (objection x) ↦ Option.map (add_objection x) rest
      ]

  abbrev pub concluded : Claim decimals → List VerificationIssue × Bool → List VerificationIssue
  concluded claim (issues, matched) =
      if matched || any is_evidence_issue issues
      then issues
      else issues
        ++ issue decimals claim unsupported_number blocking
            "The structured claim value does not match its cited evidence." none
          ∷ []

  unfoldable pub verify_number :
      Claim decimals → NumericValue decimals → Cited → Option (List VerificationIssue)
  verify_number claim value cited = Option.map (concluded claim) (check_numbers claim value cited)
