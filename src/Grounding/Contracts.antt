-- ===== src/Grounding/Contracts.antt =====
-- app/grounding/contracts.py: claims, citations and the report of a verification. The codes of issues
-- are the texts of app/grounding/verifier.py. `Decimal` is Python's, a parameter: an operation
-- that answers none raises `InvalidOperation` or another signal of the decimal context.
use mini_alpha.Common.{
  ℕ, String, Bool, true, false, Option, List, any, ◌==◌, string_eq, select, if◌then◌else◌,
}
use mini_alpha.Common.Value.{Value}

pub record Decimals : Type 1 where
  pub Decimal : Type 0
  -- `Decimal(str(value))`
  pub parse : Value → Option Decimal
  pub times : Decimal → Decimal → Option Decimal
  pub quotient : Decimal → Decimal → Option Decimal
  pub minus : Decimal → Decimal → Option Decimal
  pub abs : Decimal → Option Decimal
  pub max : Decimal → Decimal → Option Decimal
  pub at_most : Decimal → Decimal → Option Bool
  -- the decimal of a natural number
  pub of_nat : ℕ → Decimal

pub data ClaimType : Type 0 where
  retrieved_fact calculated_number comparison interpretation limitation : ClaimType

pub data NumericUnit : Type 0 where
  number decimal percent : NumericUnit

pub data NumericScale : Type 0 where
  one thousand million billion trillion : NumericScale

pub data IssueSeverity : Type 0 where
  info warning blocking : IssueSeverity

pub data IssueCode : Type 0 where
  missing_citation fabricated_citation unauthorized_citation unavailable_evidence : IssueCode
  calculation_artifact_required entity_mismatch period_mismatch stale_evidence : IssueCode
  missing_evidence_value non_numeric_evidence unit_mismatch currency_mismatch : IssueCode
  unsupported_number : IssueCode

pub record Citation : Type 0 where
  pub artifact_id : ℕ
  pub path : Option String
  pub value_unit : NumericUnit
  pub value_scale : NumericScale

pub record VerificationIssue : Type 0 where
  pub code : IssueCode
  pub severity : IssueSeverity
  pub message : String
  pub claim_id : String
  pub artifact_id : Option ℕ

pub record VerificationReport : Type 0 where
  pub issues : List VerificationIssue
  pub checked_claims : ℕ
  pub checked_citations : ℕ

abbrev pub is_blocking : VerificationIssue → Bool
is_blocking issue = elim issue.severity [ blocking ↦ true | _ ↦ false ]

unfoldable pub passed : VerificationReport → Bool
passed report = if any is_blocking report.issues then false else true

unfoldable pub issues_for : String → VerificationReport → List VerificationIssue
issues_for claim_id report = select (λ issue. issue.claim_id == claim_id) report.issues

module _ (decimals : Decimals) where
  open decimals use {Decimal}

  pub record NumericValue : Type 0 where
    pub value : Decimal
    pub unit : NumericUnit
    pub scale : NumericScale
    pub currency : Option String

  pub record Claim : Type 0 where
    pub claim_id : String
    pub text : String
    pub claim_type : ClaimType
    pub citations : List Citation
    pub entity : Option String
    pub period : Option String
    pub numeric_value : Option NumericValue
    pub absolute_tolerance : Decimal
    pub relative_tolerance : Decimal
