-- ===== src/Cache/Policy/Types.antt =====
-- The artifact types that app/cache/policy.py recognizes, and its table of times to live.
use mini_alpha.Cache.Models.{CachePolicyDecision}
use mini_alpha.Cache.Policy.{
  artifact_ttl_seconds, artifact_type_aliases, starts_with, canonical_name, canonical_artifact_type,
  overflow, Instant, too_far, Evaluation, raises, decided, get_or,
}
use mini_alpha.Common.Dict
use mini_alpha.Common.Value.{
  Value, Fields, null, bool, int, float, uuid, list, str, datetime, dict, get_field,
}
use mini_alpha.Common.{
  ℕ, String, ◌≡◌, ◌≢◌, refl, true, none, some, List, [], ◌∷◌, ◌==◌, nat_eq, string_eq, is_some, All,
  arith, Bool-cases, Option-cases, subst, inl, inr, ◌⊎◌,
}

abbrev pub IsKnown : String → Type 0
IsKnown name = (base : ℕ) × (Dict.get name artifact_ttl_seconds ≡ some base)

get-none :
    (name : String)
    → Dict.get name artifact_ttl_seconds ≡ none
    → is_some (Dict.get name artifact_ttl_seconds) ≢ true
get-none name e h = ground arith

get-IsKnown : (name : String) → is_some (Dict.get name artifact_ttl_seconds) ≡ true → IsKnown name
get-IsKnown name h = elim (Option-cases (Dict.get name artifact_ttl_seconds)) [
  | inl e ↦ absurd (get-none name e h)
  | inr e ↦ e
]

get-All {κ} :
    (P : String → Type κ) (k v : String) (d : Dict.Dict String String)
    → All (λ e. P e.1) d
    → Dict.get k d ≡ some v
    → P v
unfolding Dict.get
get-All P k v [] h g = absurd cc
get-All P k v ((j, w) ∷ d) h g = elim (Bool-cases (j == k)) [
  | inl e ↦ let q : w ≡ v = ground arith in subst P q h.0
  | inr e ↦ get-All P k v d h.1 (ground arith)
]

alias-IsKnown :
    (value name : String) → Dict.get value artifact_type_aliases ≡ some name → IsKnown name
unfolding Dict.get artifact_type_aliases artifact_ttl_seconds
alias-IsKnown value name h =
    get-All IsKnown value name artifact_type_aliases
      ((3600, refl), ((3600, refl), ((3600, refl), tt))) h

statements-IsKnown : IsKnown "financial_statements"
unfolding Dict.get artifact_ttl_seconds
statements-IsKnown = (86400, refl)

canonical_name-IsKnown : (value name : String) → canonical_name value ≡ some name → IsKnown name
unfolding canonical_name
canonical_name-IsKnown value name h =
    elim (Bool-cases (is_some (Dict.get value artifact_ttl_seconds))) [
      | inl e ↦ let q : value ≡ name = ground arith in subst IsKnown q (get-IsKnown value e)
      | inr e ↦ elim (Bool-cases (starts_with "financial_statements_" value)) [
        | inl f ↦
            let q : "financial_statements" ≡ name = ground arith in
            subst IsKnown q statements-IsKnown
        | inr f ↦ alias-IsKnown value name (ground arith)
      ]
    ]

pub canonical_artifact_type-IsKnown :
    (value : Value) (name : String) → canonical_artifact_type value ≡ some name → IsKnown name
unfolding canonical_artifact_type
canonical_artifact_type-IsKnown (str value) name h = canonical_name-IsKnown value name h
canonical_artifact_type-IsKnown null name h = cc
canonical_artifact_type-IsKnown (bool _) name h = cc
canonical_artifact_type-IsKnown (int _) name h = cc
canonical_artifact_type-IsKnown (float _ _) name h = cc
canonical_artifact_type-IsKnown (uuid _) name h = cc
canonical_artifact_type-IsKnown (datetime _) name h = cc
canonical_artifact_type-IsKnown (list _) name h = cc
canonical_artifact_type-IsKnown (dict _) name h = cc

module _ (from_iso : String → Instant) (current : ℕ) where
  -- The source of an artifact is given by a text whose time is too far.
  pub record IsTooFar (artifact : Fields) : Type 0 where
    pub contents : Fields
    pub there : get_field "data" artifact ≡ dict contents
    pub text : String
    pub source :
        get_or (get_field "retrieved_at" contents) "source_retrieved_at" contents ≡ str text
    pub overflows : from_iso text ≡ too_far

  -- The source of one of the artifacts is too far.
  pub data SomeTooFar : List Fields → Type 0 where
    here : {a : Fields} {artifacts : List Fields} → IsTooFar a → SomeTooFar (a ∷ artifacts)
    next :
        {a : Fields} {artifacts : List Fields} → SomeTooFar artifacts → SomeTooFar (a ∷ artifacts)

  -- The policy has decided, or an `OverflowError` has left it.
  abbrev pub Settles : List Fields → Evaluation → Type 0
  Settles artifacts evaluation =
      ((d : CachePolicyDecision) × (evaluation ≡ decided d))
      ⊎ (evaluation ≡ raises overflow) × SomeTooFar artifacts
