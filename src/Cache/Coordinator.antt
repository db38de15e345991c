-- ===== src/Cache/Coordinator.antt =====
-- app/cache/stores.py: `CacheCoordinator`, exact before semantic caching, over any two tiers and any
-- embedder. What their calls raise is their answer; tracing spans are left out.
pub mod Hits
pub mod Write
use mini_alpha.Cache.Models.{
  QueryFingerprint, CachePolicyDecision, SemanticCacheHit, CacheFailure, CacheLookup,
  CacheWriteResult, CacheTier, CacheOperation,
}
use mini_alpha.Cache.Policy.{seconds}
use mini_alpha.Common.Value.{Fields}
use mini_alpha.Common.{
  ℕ, String, ◌+◌, ◌-◌, ◌/◌, Bool, true, false, not, ◌&&◌, Option, none, some, List, [], ◌∷◌, ◌++◌,
  ◌==◌, ltb, leb, if◌then◌else◌,
}

-- What an awaited call does: it raises an exception of the named type, or returns.
pub data Answer (A : Type 0) : Type 0 where
  raised : String → Answer A
  returned : A → Answer A

-- The protocols `ExactCacheStore`, `SemanticCacheStore` and `Embedder`, with the states of the two
-- stores. A store's own clock is its affair; `is_finite` is the test of `_validate_embedding`.
pub record Tiers : Type 1 where
  pub Exact : Type 0
  pub Semantic : Type 0
  pub Embedding : Type 0
  pub Similarity : Type 0
  pub exact_get : String → Exact → Answer (Option Fields) × Exact
  pub exact_set : String → Fields → ℕ → Exact → Answer Unit × Exact
  pub semantic_lookup :
      String
      → Fields
      → Embedding
      → Similarity
      → ℕ
      → Semantic
      → Answer (Option (SemanticCacheHit Similarity))
  pub semantic_put :
      QueryFingerprint → Embedding → Fields → ℕ → Option ℕ → Semantic → Answer Unit × Semantic
  pub embed_query : String → Answer Embedding
  pub embed_document : String → Answer Embedding
  pub is_finite : Embedding → Bool

-- `math.ceil` of the seconds up to a time, where that is after now, and zero where it is not
abbrev pub seconds_until : ℕ → ℕ → ℕ
seconds_until now time = (time - now + 999999) / 1000000

abbrev pub failure_of : CacheTier → CacheOperation → String → CacheFailure
failure_of tier operation error_type = record {
  tier = tier;
  operation = operation;
  error_type = error_type;
}

module _ (tiers : Tiers) where
  open tiers use {Exact, Semantic, Embedding, Similarity}

  -- The semantic store and the embedder are configured together.
  pub record Coordinator : Type 0 where
    pub exact : Option Exact
    pub semantic : Option Semantic
    pub threshold : Similarity

  abbrev missed : List CacheFailure → CacheLookup Similarity
  missed failures = record {
    tier = CacheTier.miss;
    payload = none;
    similarity = none;
    failures = failures;
  }

  -- The embedding of a text, checked: `ValueError` where it is refused
  unfoldable pub validated : Answer Embedding → Answer Embedding
  validated (raised error) = raised error
  validated (returned embedding) =
      if tiers.is_finite embedding then returned embedding else raised "ValueError"

  -- A hit is written through to the exact tier, for the seconds that it has left.
  unfoldable pub write_through :
      QueryFingerprint
      → ℕ
      → SemanticCacheHit Similarity
      → Option Exact
      → List CacheFailure × Option Exact
  write_through fingerprint now hit none = ([], none)
  write_through fingerprint now hit (some exact) =
      let remaining = seconds_until now hit.expires_at in
      if ltb 0 remaining
      then (let (answer, exact') =
            tiers.exact_set fingerprint.exact_key hit.payload remaining exact in
          elim answer [
            | raised error ↦ (failure_of CacheTier.exact CacheOperation.set error ∷ [], some exact')
            | returned _ ↦ ([], some exact')
          ])
      else ([], some exact)

  unfoldable pub semantic_answer :
      QueryFingerprint
      → ℕ
      → List CacheFailure
      → Answer (Option (SemanticCacheHit Similarity))
      → Coordinator
      → CacheLookup Similarity × Coordinator
  unfolding write_through
  semantic_answer fingerprint now failures (raised error) c =
      (missed (failures ++ failure_of CacheTier.semantic CacheOperation.lookup error ∷ []), c)
  semantic_answer fingerprint now failures (returned none) c = (missed failures, c)
  semantic_answer fingerprint now failures (returned (some hit)) c =
      let (more, exact) = write_through fingerprint now hit c.exact in
      (
        record {
          tier = CacheTier.semantic;
          payload = some hit.payload;
          similarity = some hit.similarity;
          failures = failures ++ more;
        },
        record c { exact = exact },
      )

  unfoldable pub embedded_lookup :
      QueryFingerprint
      → ℕ
      → ℕ
      → List CacheFailure
      → Answer Embedding
      → Semantic
      → Coordinator
      → CacheLookup Similarity × Coordinator
  unfolding semantic_answer
  embedded_lookup fingerprint now later failures (raised error) semantic c =
      (missed (failures ++ failure_of CacheTier.embedding CacheOperation.embed error ∷ []), c)
  embedded_lookup fingerprint now later failures (returned embedding) semantic c =
      semantic_answer fingerprint later failures
        (tiers.semantic_lookup fingerprint.namespace fingerprint.constraints embedding c.threshold
          now semantic)
        c

  -- The lookup from the semantic tier on
  unfoldable pub semantic_part :
      QueryFingerprint
      → ℕ
      → ℕ
      → List CacheFailure
      → Option Semantic
      → Coordinator
      → CacheLookup Similarity × Coordinator
  unfolding embedded_lookup validated
  semantic_part fingerprint now later failures none c = (missed failures, c)
  semantic_part fingerprint now later failures (some semantic) c =
      if fingerprint.semantic_eligible
      then embedded_lookup fingerprint now later failures
          (validated (tiers.embed_query fingerprint.semantic_text)) semantic c
      else (missed failures, c)

  unfoldable pub exact_answer :
      QueryFingerprint
      → ℕ
      → ℕ
      → Answer (Option Fields)
      → Coordinator
      → CacheLookup Similarity × Coordinator
  unfolding semantic_part
  exact_answer fingerprint now later (raised error) c =
      semantic_part fingerprint now later (failure_of CacheTier.exact CacheOperation.get error ∷ [])
        c.semantic c
  exact_answer fingerprint now later (returned none) c =
      semantic_part fingerprint now later [] c.semantic c
  exact_answer fingerprint now later (returned (some payload)) c = (
    record { tier = CacheTier.exact; payload = some payload; similarity = none; failures = [] },
    c,
  )

  unfoldable pub exact_part :
      QueryFingerprint → ℕ → ℕ → Option Exact → Coordinator → CacheLookup Similarity × Coordinator
  unfolding exact_answer
  exact_part fingerprint now later none c = semantic_part fingerprint now later [] c.semantic c
  exact_part fingerprint now later (some exact) c =
      let (answer, exact') = tiers.exact_get fingerprint.exact_key exact in
      exact_answer fingerprint now later answer (record c { exact = some exact' })

  -- `lookup`: `now` is the time of the semantic search, `later` that of the write-through.
  unfoldable pub lookup :
      QueryFingerprint → ℕ → ℕ → Coordinator → CacheLookup Similarity × Coordinator
  unfolding exact_part
  lookup fingerprint now later c = exact_part fingerprint now later c.exact c
