-- ===== src/Cache/Models.antt =====
-- app/cache/models.py: what the cache's parts hand to each other. A datetime is its microseconds
-- since the epoch in UTC; a similarity stands in the type that a client chooses.
use mini_alpha.Common.{ℕ, String, Bool, Option, List}
use mini_alpha.Common.Value.{Fields}

pub record QueryFingerprint : Type 0 where
  pub original_query : String
  pub normalized_query : String
  pub query_hash : String
  pub exact_key : String
  pub namespace : String
  pub constraints : Fields
  pub semantic_eligible : Bool
  pub semantic_text : String
  pub semantic_ineligibility_reasons : List String

pub record CachePolicyDecision : Type 0 where
  pub cacheable : Bool
  pub ttl_seconds : ℕ
  pub expires_at : Option ℕ
  pub source_retrieved_at : Option ℕ
  pub artifact_types : List String
  pub reason : String

pub record SemanticCacheHit (Similarity : Type 0) : Type 0 where
  pub payload : Fields
  pub similarity : Similarity
  pub query_hash : String
  pub normalized_query : String
  pub expires_at : ℕ
  pub source_retrieved_at : Option ℕ

-- `CacheTier`, with the tier that a failure alone can name
pub data CacheTier : Type 0 where
  exact semantic embedding miss : CacheTier

pub data CacheOperation : Type 0 where
  get set lookup put embed : CacheOperation

pub record CacheFailure : Type 0 where
  pub tier : CacheTier
  pub operation : CacheOperation
  pub error_type : String

pub record CacheLookup (Similarity : Type 0) : Type 0 where
  pub tier : CacheTier
  pub payload : Option Fields
  pub similarity : Option Similarity
  pub failures : List CacheFailure

pub record CacheWriteResult : Type 0 where
  pub exact_written : Bool
  pub semantic_written : Bool
  pub failures : List CacheFailure
