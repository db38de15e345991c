-- ===== src/Grounding/Verifier.antt =====
-- app/grounding/verifier.py: `DeterministicClaimVerifier`. Of Python's texts, `upper` and `str` are
-- parameters, `as_index` is `int(part)` where `part.isdigit()`, and `repr` quotes a path in a
-- message; a digit that `int` refuses raises there, and leads to nothing here. A verification that
-- raises is none. `data` is the field `payload`.
pub mod Numbers
pub mod Agreement
pub mod Report
pub mod Grounded
use mini_alpha.Common.{
  ℕ, ◌+◌, String, Bool, true, false, Option, none, some, List, [], ◌∷◌, ◌++◌, any, length, ◌==◌,
  nat_eq, string_eq, if◌then◌else◌, map, zero, suc, is_some, ◌||◌,
}
use mathlib.Core.Option
use mini_alpha.Common.Dict.{Dict, get, put}
use mini_alpha.Common.Text.{join, split}
use mini_alpha.Common.Value.{
  Value, null, str, list, dict, Items, nil, cons, Fields, end, field, get_field, is_null,
}
use mini_alpha.Grounding.Contracts.{
  Decimals, Claim, Citation, NumericValue, VerificationIssue, VerificationReport, IssueCode,
  IssueSeverity, warning, blocking, ClaimType, limitation, calculated_number, NumericUnit, number,
  decimal, percent, NumericScale, one, thousand, million, billion, trillion, missing_citation,
  fabricated_citation, unauthorized_citation, unavailable_evidence, calculation_artifact_required,
  entity_mismatch, period_mismatch, stale_evidence, missing_evidence_value, non_numeric_evidence,
  unit_mismatch, currency_mismatch, unsupported_number,
}

pub record EvidenceArtifact : Type 0 where
  pub artifact_id : ℕ
  pub artifact_type : String
  pub status : String
  pub payload : Option Fields
  pub provenance : Fields

-- The chain of binds over what may raise
infixl 5 ◌>>=◌
abbrev pub ◌>>=◌ {ℓ κ} : {A : Type ℓ} {B : Type κ} → Option A → (A → Option B) → Option B
none >>= f = none
some a >>= f = f a

-- A value's member under one part of a path; `null` where there is none
abbrev item_at : ℕ → Items → Value
item_at n nil = null
item_at zero (cons v items) = v
item_at (suc n) (cons v items) = item_at n items

abbrev indexed : Option ℕ → Items → Value
indexed none items = null
indexed (some n) items = item_at n items

abbrev data_value : Option Fields → Value
data_value none = null
data_value (some fields) = dict fields

abbrev texts : Items → List String
texts nil = []
texts (cons (str s) items) = s ∷ texts items
texts (cons _ items) = texts items

abbrev pub is_text : String → Value → Bool
is_text t (str s) = s == t
is_text t _ = false

-- A text that is there and not empty
abbrev pub present : Option String → Option String
present none = none
present (some t) = if t == "" then none else some t

abbrev pub unit_beq : NumericUnit → NumericUnit → Bool
unit_beq number number = true
unit_beq decimal decimal = true
unit_beq percent percent = true
unit_beq _ _ = false

unfoldable pub units_compatible : NumericUnit → NumericUnit → Bool
units_compatible decimal percent = true
units_compatible percent decimal = true
units_compatible left right = unit_beq left right

unfoldable pub currency_of : Fields → Option String
currency_of provenance = elim (get_field "currency" provenance) [ str c ↦ some c | _ ↦ none ]

abbrev pub is_ok : EvidenceArtifact → Bool
is_ok artifact = if artifact.status == "ok" then is_some artifact.payload else false

abbrev pub has_calculation : EvidenceArtifact → Bool
has_calculation artifact = elim (get_field "calculation_name" artifact.provenance) [
  | str name ↦ if name == "" then false else true
  | _ ↦ false
]

-- `from_mapping`: what `UUID` and `str` make of a value are arguments.
abbrev mapping : Value → Option Fields
mapping (dict fields) = some fields
mapping _ = none

abbrev fields_or_empty : Option Fields → Fields
fields_or_empty none = end
fields_or_empty (some fields) = fields

-- `artifact.get(key, "")`
abbrev get_or_empty : String → Fields → Value
get_or_empty k end = str ""
get_or_empty k (field j v fields) = if j == k then v else get_or_empty k fields

module _ (parse_uuid : Value → Option ℕ) (text_of : Value → String) where
  unfoldable pub from_mapping : Fields → Option EvidenceArtifact
  from_mapping artifact = elim (parse_uuid (get_field "artifact_id" artifact)) [
    | none ↦ none
    | some i ↦ some (record {
      artifact_id = i;
      artifact_type = text_of (get_or_empty "artifact_type" artifact);
      status = text_of (get_or_empty "status" artifact);
      payload = mapping (get_field "data" artifact);
      provenance = fields_or_empty (mapping (get_field "provenance" artifact));
    })
  ]

module _ (as_index : String → Option ℕ) where
  step : Value → String → Value
  step (dict fields) part = get_field part fields
  step (list items) part = indexed (as_index part) items
  step _ part = null

  follow : Value → List String → Value
  follow value [] = value
  follow value (part ∷ parts) = follow (step value part) parts

  -- `_read_path`, 46 being the code of the dot; `null` for `None`
  unfoldable pub read_path : Option Fields → String → Value
  unfolding step follow
  read_path payload path = follow (data_value payload) (split 46 path)

module _ (decimals : Decimals) where
  open decimals use {Decimal, times, quotient, minus, abs, max, at_most, of_nat}

  abbrev pub issue :
      Claim decimals → IssueCode → IssueSeverity → String → Option ℕ → VerificationIssue
  issue claim code severity message artifact_id = record {
    code = code;
    severity = severity;
    message = message;
    claim_id = claim.claim_id;
    artifact_id = artifact_id;
  }

  unfoldable pub scale_of : NumericScale → Decimal
  scale_of one = of_nat 1
  scale_of thousand = of_nat 1000
  scale_of million = of_nat 1000000
  scale_of billion = of_nat 1000000000
  scale_of trillion = of_nat 1000000000000

  abbrev as_fraction : NumericUnit → Decimal → Option Decimal
  as_fraction percent scaled = quotient scaled (of_nat 100)
  as_fraction _ scaled = some scaled

  unfoldable pub canonical : NumericValue decimals → Option Decimal
  canonical value = do
    scaled ← times value.value (scale_of value.scale)
    as_fraction value.unit scaled

  -- Whether two values agree up to the tolerances of the claim
  unfoldable pub agrees :
      Claim decimals → NumericValue decimals → NumericValue decimals → Option Bool
  unfolding canonical
  agrees claim value evidence = do
    expected ← canonical value
    actual ← canonical evidence
    offset ← minus expected actual
    difference ← abs offset
    size ← abs actual
    relative ← times size claim.relative_tolerance
    allowed ← max claim.absolute_tolerance relative
    at_most difference allowed

  module _ (upper : String → String) where
    abbrev pub entities : Value → List String
    entities (list items) = map upper (texts items)
    entities _ = []

    abbrev pub entity_matches : Claim decimals → EvidenceArtifact → Bool
    entity_matches claim artifact = elim (present claim.entity) [
      | none ↦ true
      | some entity ↦
          any (λ t. t == upper entity) (entities (get_field "entities" artifact.provenance))
    ]

    abbrev pub period_matches : Claim decimals → EvidenceArtifact → Bool
    period_matches claim artifact = elim (present claim.period) [
      | none ↦ true
      | some period ↦ is_text period (get_field "reporting_period" artifact.provenance)
    ]

    -- An issue where the test fails
    abbrev pub unless : Bool → VerificationIssue → List VerificationIssue
    unless holds x = if holds then [] else x ∷ []

    unfoldable pub alignment_issues : Claim decimals → EvidenceArtifact → List VerificationIssue
    alignment_issues claim artifact =
        unless (entity_matches claim artifact) (
          issue claim entity_mismatch blocking "The cited artifact does not match the claim entity."
            (some artifact.artifact_id))
        ++ unless (period_matches claim artifact) (
            issue claim period_mismatch blocking
              "The cited artifact does not match the claim period." (some artifact.artifact_id))
        ++ (if is_text "stale" (get_field "freshness_status" artifact.provenance)
            then issue claim stale_evidence warning "The cited artifact is marked stale."
                (some artifact.artifact_id)
              ∷ []
            else [])
