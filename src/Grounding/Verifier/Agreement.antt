-- ===== src/Grounding/Verifier/Agreement.antt =====
-- When `_verify_number` of app/grounding/verifier.py finds nothing to block.
use mini_alpha.Common.{
  ℕ, ◌≡◌, inl, inr, refl, String, Bool, true, false, Option, none, some, List, [], ◌∷◌, ◌++◌, any,
  any-append, arith, Bool-cases, Option-cases,
}
use mathlib.Core.Option
use mini_alpha.Common.Value.{Value, is_null}
use mini_alpha.Grounding.Contracts.{
  Decimals, Claim, Citation, NumericValue, VerificationIssue, is_blocking,
}
use mini_alpha.Grounding.Verifier.Numbers.{
  Check, agreed, silent, objection, Cited, currencies_differ, evidence_value, agreement,
  compare_value, check_raw, check_citation, check_numbers, is_evidence_issue, concluded,
  verify_number, add_objection,
}
use mini_alpha.Grounding.Verifier.{
  EvidenceArtifact, read_path, agrees, units_compatible, present, currency_of,
}

abbrev pub blocked : List VerificationIssue → Bool
blocked issues = any is_blocking issues

pub silent_append {ℓ} :
    {A : Type ℓ} (p : A → Bool) (xs ys : List A)
    → any p (xs ++ ys) ≡ false
    → (any p xs ≡ false) × (any p ys ≡ false)
silent_append p xs ys h =
    let both = any-append p xs ys in (ground (arith, h, both), ground (arith, h, both))

module _ (decimals : Decimals) (upper : String → String) (as_index : String → Option ℕ)
    (repr : String → String) (claim : Claim decimals) (value : NumericValue decimals) where
  open decimals use {Decimal, parse}

  -- The value at the path of a citation is a number of a compatible unit and currency that agrees
  -- with the claim's.
  pub record AgreesWith (citation : Citation) (artifact : EvidenceArtifact) : Type 0 where
    pub path : String
    pub amount : Decimal
    pub given : citation.path ≡ some path
    pub numeric : parse (read_path as_index artifact.payload path) ≡ some amount
    pub units : units_compatible value.unit citation.value_unit ≡ true
    pub currencies :
        currencies_differ decimals upper as_index repr
          (present value.currency)
          (present (currency_of artifact.provenance))
        ≡ false
    pub close :
        agrees decimals claim value
          (evidence_value decimals upper as_index repr citation artifact amount)
        ≡ some true

  pub data SomeAgrees : Cited → Type 0 where
    here :
        {citation : Citation} {artifact : EvidenceArtifact} {cited : Cited}
        → AgreesWith citation artifact
        → SomeAgrees ((citation, artifact) ∷ cited)
    there :
        {citation : Citation} {artifact : EvidenceArtifact} {cited : Cited}
        → SomeAgrees cited
        → SomeAgrees ((citation, artifact) ∷ cited)

  agreement-true :
      (o : Option Bool)
      → Option.map (agreement decimals upper as_index repr) o ≡ some agreed
      → o ≡ some true
  agreement-true none h = absurd (ground (arith, h))
  agreement-true (some true) h = refl
  agreement-true (some false) h = absurd (ground (arith, h))

  agreement-objection :
      (o : Option Bool) (x : VerificationIssue)
      → Option.map (agreement decimals upper as_index repr) o ≡ some (objection x)
      → is_blocking x ≡ true
  agreement-objection none x h = absurd (ground (arith, h))
  agreement-objection (some true) x h = absurd (ground (arith, h))
  agreement-objection (some false) x h = absurd (ground (arith, h))

  module _ (i : ℕ) (evidence : NumericValue decimals) where
    compare_value-agreed :
        compare_value decimals upper as_index repr claim value i evidence ≡ some agreed
        → (units_compatible value.unit evidence.unit ≡ true)
          × (currencies_differ decimals upper as_index repr
                (present value.currency)
                (present evidence.currency)
              ≡ false)
          × (agrees decimals claim value evidence ≡ some true)
    compare_value-agreed h = elim (Bool-cases (units_compatible value.unit evidence.unit)) [
      | inr u ↦ absurd (ground (arith, h, u))
      | inl u ↦
          elim (Bool-cases (
            currencies_differ decimals upper as_index repr (present value.currency)
              (present evidence.currency))) [
                | inl c ↦ absurd (ground (arith, h, u, c))
                | inr c ↦
                    (u, c, agreement-true (agrees decimals claim value evidence) (rw (u, c) at h))
              ]
    ]

    compare_value-blocking :
        (x : VerificationIssue)
        → compare_value decimals upper as_index repr claim value i evidence ≡ some (objection x)
        → is_blocking x ≡ true
    compare_value-blocking x h = elim (Bool-cases (units_compatible value.unit evidence.unit)) [
      | inr u ↦ ground (arith, h, u)
      | inl u ↦
          elim (Bool-cases (
            currencies_differ decimals upper as_index repr (present value.currency)
              (present evidence.currency))) [
                | inl c ↦ ground (arith, h, u, c)
                | inr c ↦
                    agreement-objection (agrees decimals claim value evidence) x (rw (u, c) at h)
              ]
    ]

  module _ (citation : Citation) (artifact : EvidenceArtifact) where
    check_raw-agreed :
        (path : String) (raw : Value)
        → check_raw decimals upper as_index repr claim value citation artifact path raw
          ≡ some agreed
        → (d : Decimal) × (parse raw ≡ some d)
          × (compare_value decimals upper as_index repr claim value artifact.artifact_id
                (evidence_value decimals upper as_index repr citation artifact d)
              ≡ some agreed)
    check_raw-agreed path raw h = elim (Bool-cases (is_null raw)) [
      | inl n ↦ absurd (ground (arith, h, n))
      | inr n ↦ elim (Option-cases (parse raw)) [
        | inl e ↦ absurd (ground (arith, h, n, e))
        | inr (d, e) ↦ (d, e, rw (n, e) at h)
      ]
    ]

    check_raw-blocking :
        (path : String) (raw : Value) (x : VerificationIssue)
        → check_raw decimals upper as_index repr claim value citation artifact path raw
          ≡ some (objection x)
        → is_blocking x ≡ true
    check_raw-blocking path raw x h = elim (Bool-cases (is_null raw)) [
      | inl n ↦ ground (arith, h, n)
      | inr n ↦ elim (Option-cases (parse raw)) [
        | inl e ↦ ground (arith, h, n, e)
        | inr (d, e) ↦
            compare_value-blocking artifact.artifact_id
              (evidence_value decimals upper as_index repr citation artifact d) x (rw (n, e) at h)
      ]
    ]

    check_citation-agreed :
        check_citation decimals upper as_index repr claim value citation artifact ≡ some agreed
        → AgreesWith citation artifact
    unfolding check_citation
    check_citation-agreed h = elim (Option-cases citation.path) [
      | inl e ↦ absurd (ground (arith, h, e))
      | inr (path, e) ↦
          let (d, numeric, compared) =
            check_raw-agreed path (read_path as_index artifact.payload path)
              (rw (check_citation, e) at h) in
          let (units, currencies, close) = compare_value-agreed artifact.artifact_id _ compared in
          record {
            path = path;
            amount = d;
            given = e;
            numeric = numeric;
            units = units;
            currencies = currencies;
            close = close;
          }
    ]

    check_citation-blocking :
        (x : VerificationIssue)
        → check_citation decimals upper as_index repr claim value citation artifact
          ≡ some (objection x)
        → is_blocking x ≡ true
    unfolding check_citation
    check_citation-blocking x h = elim (Option-cases citation.path) [
      | inl e ↦ absurd (ground (arith, h, e))
      | inr (path, e) ↦
          check_raw-blocking path (read_path as_index artifact.payload path) x
            (rw (check_citation, e) at h)
    ]

  abbrev Checked : Type 0
  Checked = Option (List VerificationIssue × Bool)

  abbrev picked : Checked → Option Check → Checked
  picked rest o = elim o [
    | none ↦ none
    | some agreed ↦ some ([], true)
    | some silent ↦ rest
    | some (objection x) ↦ Option.map (add_objection decimals upper as_index repr x) rest
  ]

  -- What a loop may answer: a match is one of a citation, and an issue blocks.
  record IsFaithful (cited : Cited) (answer : List VerificationIssue × Bool) : Type 0 where
    witness : answer.1 ≡ true → SomeAgrees cited
    blocks : any is_evidence_issue answer.0 ≡ true → blocked answer.0 ≡ true

  picked-IsFaithful :
      (citation : Citation) (artifact : EvidenceArtifact) (cited : Cited) (rest : Checked)
      (o : Option Check) (answer : List VerificationIssue × Bool)
      → ((a : List VerificationIssue × Bool) → rest ≡ some a → IsFaithful cited a)
      → check_citation decimals upper as_index repr claim value citation artifact ≡ o
      → picked rest o ≡ some answer
      → IsFaithful ((citation, artifact) ∷ cited) answer
  picked-IsFaithful citation artifact cited rest none answer f e h = absurd (ground (arith, h))
  picked-IsFaithful citation artifact cited rest (some agreed) answer f e h = record {
    witness = λ t. here (check_citation-agreed citation artifact e);
    blocks = λ t. ground (arith, h, t);
  }
  picked-IsFaithful citation artifact cited rest (some silent) answer f e h =
      let g = f answer h in record { witness = λ t. there (g.witness t); blocks = g.blocks }
  picked-IsFaithful citation artifact cited (some (xs, m)) (some (objection x)) answer f e h =
      let g = f (xs, m) refl in
      record {
        witness = λ t. there (g.witness (ground (arith, h, t)));
        blocks = λ t. ground (arith, h, check_citation-blocking citation artifact x e);
      }
  picked-IsFaithful citation artifact cited none (some (objection x)) answer f e h =
      absurd (ground (arith, h))

  check_numbers-IsFaithful :
      (cited : Cited) (answer : List VerificationIssue × Bool)
      → check_numbers decimals upper as_index repr claim value cited ≡ some answer
      → IsFaithful cited answer
  unfolding check_numbers
  check_numbers-IsFaithful [] answer h = record {
    witness = λ t. absurd (ground (arith, h, t));
    blocks = λ t. ground (arith, h, t);
  }
  check_numbers-IsFaithful ((citation, artifact) ∷ cited) answer h =
      picked-IsFaithful citation artifact cited
        (check_numbers decimals upper as_index repr claim value cited)
        (check_citation decimals upper as_index repr claim value citation artifact) answer
        (check_numbers-IsFaithful cited) refl h

  concluded-SomeAgrees :
      (cited : Cited) (xs : List VerificationIssue) (m : Bool)
      → IsFaithful cited (xs, m)
      → blocked (concluded decimals upper as_index repr claim (xs, m)) ≡ false
      → SomeAgrees cited
  concluded-SomeAgrees cited xs true f h = f.witness refl
  concluded-SomeAgrees cited xs false f h = elim (Bool-cases (any is_evidence_issue xs)) [
    | inl e ↦ absurd (ground (arith, f.blocks e, h, e))
    | inr e ↦
        let (left, right) = silent_append is_blocking xs _ (rw e at h) in
        absurd (ground (arith, right))
  ]

  -- A check of a number that has nothing to block has found a citation that agrees.
  pub verify_number-SomeAgrees :
      (cited : Cited) (issues : List VerificationIssue)
      → verify_number decimals upper as_index repr claim value cited ≡ some issues
      → blocked issues ≡ false
      → SomeAgrees cited
  unfolding verify_number
  verify_number-SomeAgrees cited issues h quiet =
      elim (Option-cases (check_numbers decimals upper as_index repr claim value cited)) [
        | inl e ↦ absurd (ground (arith, h, e))
        | inr ((xs, m), e) ↦
            concluded-SomeAgrees cited xs m (check_numbers-IsFaithful cited (xs, m) e)
              (ground (arith, h, e, quiet))
      ]
