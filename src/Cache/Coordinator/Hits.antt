-- ===== src/Cache/Coordinator/Hits.antt =====
-- Where an answer of `CacheCoordinator.lookup` comes from.
use mini_alpha.Cache.Coordinator.{
  Answer, raised, returned, Tiers, Coordinator, validated, semantic_answer, embedded_lookup,
  semantic_part, exact_answer, exact_part, lookup,
}
use mini_alpha.Cache.Models.{
  QueryFingerprint, CacheFailure, CacheLookup, SemanticCacheHit, CacheTier,
}
use mini_alpha.Common.Value.{Fields}
use mini_alpha.Common.{
  ℕ, true, Option, none, some, List, [], ◌≡◌, inl, inr, refl, arith, Bool-cases, subst, ap,
}

module _ (tiers : Tiers) (fingerprint : QueryFingerprint) (now later : ℕ) where
  open tiers use {Exact, Semantic, Similarity}

  -- The payload is what the exact store returned under the query's key.
  abbrev pub FromExact : Option Exact → Fields → Type 0
  FromExact exact payload =
      (s : Exact) × (exact ≡ some s)
      × ((tiers.exact_get fingerprint.exact_key s).0 ≡ returned (some payload))

  -- The query is eligible, its embedding is valid, and the payload is that of the semantic store's hit
  -- within the query's namespace and constraints.
  abbrev pub FromSemantic : Option Semantic → Similarity → Fields → Type 0
  FromSemantic semantic threshold payload =
      (s : Semantic) × (embedding : tiers.Embedding) × (hit : SemanticCacheHit Similarity)
      × (semantic ≡ some s)
      × (fingerprint.semantic_eligible ≡ true)
      × (tiers.embed_query fingerprint.semantic_text ≡ returned embedding)
      × (tiers.is_finite embedding ≡ true)
      × (tiers.semantic_lookup fingerprint.namespace fingerprint.constraints embedding threshold now
            s
          ≡ returned (some hit))
      × (payload ≡ hit.payload)

  -- What the tier of a result says of its payload
  abbrev pub Explained :
      Option Exact → Option Semantic → Similarity → CacheLookup Similarity → Type 0
  Explained exact semantic threshold r = elim r.tier [
    | CacheTier.exact ↦ (payload : Fields) × (r.payload ≡ some payload) × FromExact exact payload
    | CacheTier.semantic ↦
        (payload : Fields) × (r.payload ≡ some payload) × FromSemantic semantic threshold payload
    | CacheTier.miss ↦ r.payload ≡ none
    | CacheTier.embedding ↦ ⊥
  ]

  validated-returned :
      (answer : Answer tiers.Embedding) (e : tiers.Embedding)
      → validated tiers answer ≡ returned e
      → (answer ≡ returned e) × (tiers.is_finite e ≡ true)
  unfolding validated
  validated-returned (raised error) e h = absurd cc
  validated-returned (returned d) e h = elim (Bool-cases (tiers.is_finite d)) [
    | inl q ↦
        let k : d ≡ e = ground arith in (ap returned k, subst (λ x. tiers.is_finite x ≡ true) k q)
    | inr q ↦ absurd (ground arith)
  ]

  semantic_answer-Explained :
      (exact : Option Exact) (s : Semantic) (e : tiers.Embedding) (failures : List CacheFailure)
      (answer : Answer (Option (SemanticCacheHit Similarity))) (c : Coordinator tiers)
      → fingerprint.semantic_eligible ≡ true
      → tiers.embed_query fingerprint.semantic_text ≡ returned e
      → tiers.is_finite e ≡ true
      → tiers.semantic_lookup fingerprint.namespace fingerprint.constraints e c.threshold now s
        ≡ answer
      → Explained exact
          (some s)
          c.threshold
          (semantic_answer tiers fingerprint later failures answer c).0
  unfolding semantic_answer
  semantic_answer-Explained exact s e failures (raised error) c g q f h = refl
  semantic_answer-Explained exact s e failures (returned none) c g q f h = refl
  semantic_answer-Explained exact s e failures (returned (some hit)) c g q f h =
      (hit.payload, refl, (s, e, hit, refl, g, q, f, h, refl))

  embedded_lookup-Explained :
      (exact : Option Exact) (s : Semantic) (failures : List CacheFailure)
      (answer : Answer tiers.Embedding) (c : Coordinator tiers)
      → fingerprint.semantic_eligible ≡ true
      → validated tiers (tiers.embed_query fingerprint.semantic_text) ≡ answer
      → Explained exact
          (some s)
          c.threshold
          (embedded_lookup tiers fingerprint now later failures answer s c).0
  unfolding embedded_lookup
  embedded_lookup-Explained exact s failures (raised error) c g h = refl
  embedded_lookup-Explained exact s failures (returned e) c g h =
      let (q, f) = validated-returned (tiers.embed_query fingerprint.semantic_text) e h in
      semantic_answer-Explained exact s e failures _ c g q f refl

  semantic_part-Explained :
      (exact : Option Exact) (failures : List CacheFailure) (semantic : Option Semantic)
      (c : Coordinator tiers)
      → Explained exact semantic c.threshold
          (semantic_part tiers fingerprint now later failures semantic c).0
  unfolding semantic_part
  semantic_part-Explained exact failures none c = refl
  semantic_part-Explained exact failures (some s) c =
      elim (Bool-cases fingerprint.semantic_eligible) [
        | inl g ↦ simp g (embedded_lookup-Explained exact s failures _ c g refl)
        | inr g ↦ simp g refl
      ]

  exact_answer-Explained :
      (exact : Exact) (answer : Answer (Option Fields)) (c : Coordinator tiers)
      → (tiers.exact_get fingerprint.exact_key exact).0 ≡ answer
      → Explained
          (some exact)
          c.semantic
          c.threshold
          (exact_answer tiers fingerprint now later answer c).0
  unfolding exact_answer
  exact_answer-Explained exact (raised error) c h =
      semantic_part-Explained (some exact) _ c.semantic c
  exact_answer-Explained exact (returned none) c h =
      semantic_part-Explained (some exact) _ c.semantic c
  exact_answer-Explained exact (returned (some payload)) c h = (payload, refl, (exact, refl, h))

  exact_part-Explained :
      (exact : Option Exact) (c : Coordinator tiers)
      → Explained exact c.semantic c.threshold (exact_part tiers fingerprint now later exact c).0
  unfolding exact_part
  exact_part-Explained none c = semantic_part-Explained none [] c.semantic c
  exact_part-Explained (some exact) c = exact_answer-Explained exact _ _ refl

  -- Whatever the two stores and the embedder raise, a lookup ends with a result whose tier tells the
  -- truth: an exact result carries the payload that the exact store returned under the query's key, a
  -- semantic one that of the semantic store's hit for the query's own namespace and constraints and a
  -- valid embedding of an eligible query, and a miss carries no payload.
  pub lookup-Explained :
      (c : Coordinator tiers)
      → Explained c.exact c.semantic c.threshold (lookup tiers fingerprint now later c).0
  unfolding lookup
  lookup-Explained c = exact_part-Explained c.exact c
