-- ===== src/Cache/Coordinator/Write.antt =====
-- app/cache/stores.py: `CacheCoordinator.store`, which writes one tier after the other.
use mini_alpha.Cache.Coordinator.{
  Answer, raised, returned, Tiers, Coordinator, seconds_until, failure_of, validated,
}
use mini_alpha.Cache.Models.{
  QueryFingerprint, CachePolicyDecision, CacheFailure, CacheWriteResult, CacheTier, CacheOperation,
}
use mini_alpha.Common.Value.{Fields}
use mini_alpha.Common.{
  ℕ, Bool, true, false, Option, none, some, List, [], ◌∷◌, ◌++◌, ltb, if◌then◌else◌, ◌≡◌, refl,
  Bool-cases, Option-cases, inl, inr,
}

abbrev pub nothing_written : CacheWriteResult
nothing_written = record { exact_written = false; semantic_written = false; failures = [] }

module _ (tiers : Tiers) where
  open tiers use {Exact, Semantic, Embedding}

  -- One tier's write: whether it was written, the failures, and the store after it
  abbrev pub Written : Type 0 → Type 0
  Written S = Bool × List CacheFailure × Option S

  abbrev outcome : {S : Type 0} → CacheTier → CacheOperation → Answer Unit × S → Written S
  outcome tier operation (raised error, s) = (false, failure_of tier operation error ∷ [], some s)
  outcome tier operation (returned _, s) = (true, [], some s)

  unfoldable pub write_exact : QueryFingerprint → Fields → ℕ → Option Exact → Written Exact
  write_exact fingerprint payload remaining none = (false, [], none)
  write_exact fingerprint payload remaining (some exact) =
      outcome CacheTier.exact CacheOperation.set
        (tiers.exact_set fingerprint.exact_key payload remaining exact)

  abbrev put_embedded :
      QueryFingerprint → Fields → ℕ → Option ℕ → Answer Embedding → Semantic → Written Semantic
  put_embedded fingerprint payload expires_at source (raised error) semantic =
      (false, failure_of CacheTier.embedding CacheOperation.embed error ∷ [], some semantic)
  put_embedded fingerprint payload expires_at source (returned embedding) semantic =
      outcome CacheTier.semantic CacheOperation.put
        (tiers.semantic_put fingerprint embedding payload expires_at source semantic)

  unfoldable pub write_semantic :
      QueryFingerprint → Fields → ℕ → Option ℕ → Option Semantic → Written Semantic
  unfolding validated
  write_semantic fingerprint payload expires_at source none = (false, [], none)
  write_semantic fingerprint payload expires_at source (some semantic) =
      if fingerprint.semantic_eligible
      then put_embedded fingerprint payload expires_at source
          (validated tiers (tiers.embed_document fingerprint.semantic_text)) semantic
      else (false, [], some semantic)

  unfoldable pub write_tiers :
      QueryFingerprint
      → Fields
      → ℕ
      → ℕ
      → Option ℕ
      → Coordinator tiers
      → CacheWriteResult × Coordinator tiers
  unfolding write_exact write_semantic
  write_tiers fingerprint payload remaining expires_at source c =
      let (exact_written, exact_failures, exact) =
        write_exact fingerprint payload remaining c.exact in
      let (semantic_written, semantic_failures, semantic) =
        write_semantic fingerprint payload expires_at source c.semantic in
      (
        record {
          exact_written = exact_written;
          semantic_written = semantic_written;
          failures = exact_failures ++ semantic_failures;
        },
        record c { exact = exact; semantic = semantic },
      )

  abbrev store_until :
      QueryFingerprint
      → Fields
      → CachePolicyDecision
      → ℕ
      → Option ℕ
      → Coordinator tiers
      → CacheWriteResult × Coordinator tiers
  store_until fingerprint payload decision now none c = (nothing_written, c)
  store_until fingerprint payload decision now (some expires_at) c =
      let remaining = seconds_until now expires_at in
      if ltb 0 remaining
      then write_tiers fingerprint payload remaining expires_at decision.source_retrieved_at c
      else (nothing_written, c)

  unfoldable pub store :
      QueryFingerprint
      → Fields
      → CachePolicyDecision
      → ℕ
      → Coordinator tiers
      → CacheWriteResult × Coordinator tiers
  unfolding write_tiers
  store fingerprint payload decision now c =
      if decision.cacheable
      then store_until fingerprint payload decision now decision.expires_at c
      else (nothing_written, c)

  module _ (fingerprint : QueryFingerprint) (payload : Fields) (decision : CachePolicyDecision)
      (now : ℕ) where
    abbrev SameExact : Coordinator tiers → Coordinator tiers → Type 0
    SameExact c d =
        ((store fingerprint payload decision now c).0.exact_written
          ≡ (store fingerprint payload decision now d).0.exact_written)
        × ((store fingerprint payload decision now c).1.exact
            ≡ (store fingerprint payload decision now d).1.exact)

    -- What a write does to the exact tier, and what it reports of it, does not depend on the semantic
    -- tier: two coordinators with the same exact store report the same and end with the same store.
    pub store-exact : (c d : Coordinator tiers) → c.exact ≡ d.exact → SameExact c d
    unfolding store write_tiers
    store-exact c d h = elim (Bool-cases decision.cacheable) [
      | inl e ↦ elim (Option-cases decision.expires_at) [
        | inl f ↦ simp (e, f, h) (refl, refl)
        | inr (t, f) ↦ elim (Bool-cases (ltb 0 (seconds_until now t))) [
          | inl g ↦ simp (e, f, g, h) (refl, refl)
          | inr g ↦ simp (e, f, g, h) (refl, refl)
        ]
      ]
      | inr e ↦ simp (e, h) (refl, refl)
    ]

    abbrev SameSemantic : Coordinator tiers → Coordinator tiers → Type 0
    SameSemantic c d =
        ((store fingerprint payload decision now c).0.semantic_written
          ≡ (store fingerprint payload decision now d).0.semantic_written)
        × ((store fingerprint payload decision now c).1.semantic
            ≡ (store fingerprint payload decision now d).1.semantic)

    -- What a write does to the semantic tier, and what it reports of it, does not depend on the exact
    -- tier: two coordinators with the same semantic store report the same and end with the same store.
    pub store-semantic : (c d : Coordinator tiers) → c.semantic ≡ d.semantic → SameSemantic c d
    unfolding store write_tiers
    store-semantic c d h = elim (Bool-cases decision.cacheable) [
      | inl e ↦ elim (Option-cases decision.expires_at) [
        | inl f ↦ simp (e, f, h) (refl, refl)
        | inr (t, f) ↦ elim (Bool-cases (ltb 0 (seconds_until now t))) [
          | inl g ↦ simp (e, f, g, h) (refl, refl)
          | inr g ↦ simp (e, f, g, h) (refl, refl)
        ]
      ]
      | inr e ↦ simp (e, h) (refl, refl)
    ]
