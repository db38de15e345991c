-- ===== src/Tests/Claims.antt =====
-- Runs of the models of app/grounding.
use mini_alpha.Common.{
  ℕ, ◌≡◌, ◌+◌, ◌-◌, ◌*◌, ◌/◌, refl, String, true, Option, none, some, [], ◌∷◌, All, leb, nat_eq,
  max,
}
use mini_alpha.Common.Dict.{get}
use mini_alpha.Common.Text.{split}
use mini_alpha.Common.Value.{Value, str, int, pos, list, nil, cons, end, field}
use mini_alpha.Grounding.Contracts.{
  Decimals, Claim, VerificationReport, VerificationIssue, passed, calculated_number, number, one,
  fabricated_citation, blocking,
}
use mini_alpha.Grounding.Policy.{Decides, decide_delivery, decide_delivery-Decides}
use mini_alpha.Grounding.Verifier.{
  EvidenceArtifact, read_path, scale_of, units_compatible, currency_of, canonical, agrees,
  alignment_issues,
}
use mini_alpha.Grounding.Verifier.Grounded.{IsGrounded, verify-IsGrounded}
use mini_alpha.Grounding.Verifier.Numbers.{check_citation, check_numbers, verify_number}
use mini_alpha.Grounding.Verifier.Report.{
  ClaimVerifier, verify, judge, judge_each, calculation_issues, number_issues, claim_issues,
  all_issues,
}

-- Natural numbers, the distance of two for their difference
abbrev natural : Value → Option ℕ
natural (int (pos n)) = some n
natural _ = none

abbrev naturals : Decimals
naturals = record {
  Decimal = ℕ;
  parse = natural;
  times = λ a b. some (a * b);
  quotient = λ a b. some (a / b);
  minus = λ a b. some ((a - b) + (b - a));
  abs = λ a. some a;
  max = λ a b. some (max a b);
  at_most = λ a b. some (leb a b);
  of_nat = λ n. n;
}

abbrev same_text : String → String
same_text t = t

abbrev no_index : String → Option ℕ
no_index part = none

abbrev evidence : EvidenceArtifact
evidence = record {
  artifact_id = 1;
  artifact_type = "return_statistics";
  status = "ok";
  payload = some (field "total" (int (pos 12)) end);
  provenance =
      field "entities" (list (cons (str "ACME") nil))
        (field "calculation_name" (str "return_statistics") end);
}

abbrev claim : Claim naturals
claim = record {
  claim_id = "c";
  text = "The total is 12.";
  claim_type = calculated_number;
  citations =
      record { artifact_id = 1; path = some "total"; value_unit = number; value_scale = one } ∷ [];
  entity = some "ACME";
  period = none;
  numeric_value = some (record { value = 12; unit = number; scale = one; currency = none });
  absolute_tolerance = 0;
  relative_tolerance = 0;
}

abbrev verifier : ClaimVerifier
verifier = record { artifacts = (1, evidence) ∷ []; authorized = 1 ∷ [] }

abbrev report : VerificationReport
report = record { issues = []; checked_claims = 1; checked_citations = 1 }

verified : verify naturals same_text no_index same_text verifier (claim ∷ []) ≡ some report
unfolding verify all_issues claim_issues judge_each judge get alignment_issues calculation_issues
    number_issues verify_number check_numbers check_citation read_path split units_compatible
    currency_of agrees canonical scale_of
verified = refl

report-passes : passed report ≡ true
unfolding passed
report-passes = refl

verify-IsGrounded_example :
    All (IsGrounded naturals same_text no_index same_text verifier) (claim ∷ [])
verify-IsGrounded_example =
    verify-IsGrounded naturals same_text no_index same_text verifier (claim ∷ []) report verified
      report-passes

abbrev fabricated : VerificationIssue
fabricated = record {
  code = fabricated_citation;
  severity = blocking;
  message = "The cited artifact does not exist.";
  claim_id = "c";
  artifact_id = some 9;
}

abbrev failing_report : VerificationReport
failing_report = record {
  issues = fabricated ∷ fabricated ∷ [];
  checked_claims = 1;
  checked_citations = 2;
}

decide_delivery-Decides_example :
    Decides failing_report 2
      (record { max_attempts = 2 })
      (decide_delivery failing_report 2 (record { max_attempts = 2 }))
decide_delivery-Decides_example =
    decide_delivery-Decides failing_report 2 (record { max_attempts = 2 })
