-- ===== src/Persistence/Memory/Storing.antt =====
-- The artifacts that the finishing methods of app/persistence/memory.py store.
use mini_alpha.Common.{ℕ, suc, ◌≡◌, subst, inl, inr, Option, List, [], ◌∷◌, arith}
use mini_alpha.Common.Value.{Fields, Value}
use mini_alpha.Persistence.Artifacts
use mini_alpha.Persistence.Artifacts.{ParsedArtifact, parse_artifact}
use mini_alpha.Persistence.Memory.Effects.{stored_cases}
use mini_alpha.Persistence.Memory.{store_artifact, store_artifacts}
use mini_alpha.Persistence.Models.{StoredArtifact}

module _ (parse_uuid : Value → Option ℕ) (r now : ℕ) where
  -- What is stored at a place for an artifact that was given
  pub record IsStored (ordinal : ℕ) (artifact : Fields) (x : StoredArtifact) : Type 0 where
    pub parsed : ParsedArtifact
    pub accepted : parse_artifact parse_uuid artifact ≡ Artifacts.ok parsed
    pub owned : x.run_id ≡ r
    pub placed : x.ordinal ≡ ordinal
    pub typed : x.artifact_type ≡ parsed.artifact_type
    pub versioned : x.schema_version ≡ parsed.schema_version
    pub status : x.status ≡ parsed.status
    pub payload : x.payload ≡ parsed.payload
    pub error : x.error ≡ parsed.error
    pub failure : x.failure ≡ parsed.failure
    pub provenance : x.provenance ≡ parsed.provenance
    pub created : x.created_at ≡ now

  -- Each artifact is stored once, in its place.
  abbrev pub AreStored : ℕ → List Fields → List StoredArtifact → Type 0
  AreStored ordinal [] [] = Unit
  AreStored ordinal (a ∷ artifacts) (x ∷ xs) =
      IsStored ordinal a x × AreStored (suc ordinal) artifacts xs
  AreStored ordinal [] (x ∷ xs) = ⊥
  AreStored ordinal (a ∷ artifacts) [] = ⊥

  module _ (uuid4 : ℕ → ℕ) where
    store_artifact-IsStored :
        (ordinal : ℕ) (a : Fields) (x : StoredArtifact)
        → store_artifact parse_uuid uuid4 r ordinal now a ≡ Artifacts.ok x
        → IsStored ordinal a x
    unfolding store_artifact
    store_artifact-IsStored ordinal a x h = elim (stored_cases (parse_artifact parse_uuid a)) [
      | inl (e, bad) ↦ absurd (ground (arith, h, bad))
      | inr (p, good) ↦ record {
        parsed = p;
        accepted = good;
        owned = ground (arith, h, good);
        placed = ground (arith, h, good);
        typed = ground (arith, h, good);
        versioned = ground (arith, h, good);
        status = ground (arith, h, good);
        payload = ground (arith, h, good);
        error = ground (arith, h, good);
        failure = ground (arith, h, good);
        provenance = ground (arith, h, good);
        created = ground (arith, h, good);
      }
    ]

    pub store_artifacts-AreStored :
        (ordinal : ℕ) (artifacts : List Fields) (xs : List StoredArtifact)
        → store_artifacts parse_uuid uuid4 r now ordinal artifacts ≡ Artifacts.ok xs
        → AreStored ordinal artifacts xs
    unfolding store_artifacts
    store_artifacts-AreStored ordinal [] [] h = tt
    store_artifacts-AreStored ordinal [] (x ∷ xs) h = absurd (ground (arith, h))
    store_artifacts-AreStored ordinal (a ∷ artifacts) xs h =
        elim (stored_cases (store_artifact parse_uuid uuid4 r ordinal now a)) [
          | inl (e, bad) ↦ absurd (ground (arith, h, bad))
          | inr (y, good) ↦
              elim (stored_cases (store_artifacts parse_uuid uuid4 r now (suc ordinal) artifacts)) [
                | inl (e, bad) ↦ absurd (ground (arith, h, good, bad))
                | inr (ys, rest) ↦
                    let same : y ∷ ys ≡ xs = ground (arith, h, good, rest) in
                    subst (AreStored ordinal (a ∷ artifacts)) same (
                      store_artifact-IsStored ordinal a y good,
                      store_artifacts-AreStored (suc ordinal) artifacts ys rest,
                    )
              ]
        ]
