-- ===== src/Cache/Stores.antt =====
-- app/cache/stores.py: the exact and the semantic cache in memory. Times are microseconds; the cosine
-- similarity of two embeddings is a parameter, since it is computed in floating point.
pub mod Exact
pub mod Nearest
use mini_alpha.Cache.Models.{SemanticCacheHit}
use mini_alpha.Cache.Policy.{seconds}
use mini_alpha.Common.Dict
use mini_alpha.Common.Dict.{Dict}
use mini_alpha.Common.Value.{Fields}
use mini_alpha.Common.{
  ℕ, String, ◌+◌, Bool, true, false, not, ◌||◌, Option, none, some, List, [], ◌∷◌, ◌++◌, ◌==◌,
  string_eq, ltb, leb, if◌then◌else◌,
}

pub record ExactEntry : Type 0 where
  pub payload : Fields
  pub expires_at : ℕ

abbrev pub ExactCache : Type 0
ExactCache = Dict String ExactEntry

-- `InMemoryExactCache.get`, at the clock's time: the answer, and the entries after it.
abbrev pub unexpired : ℕ → String → ExactCache → Option ExactEntry → Option Fields × ExactCache
unexpired now key entries none = (none, entries)
unexpired now key entries (some entry) =
    if leb entry.expires_at now then (none, Dict.del key entries) else (some entry.payload, entries)

unfoldable pub get : ℕ → String → ExactCache → Option Fields × ExactCache
get now key entries = unexpired now key entries (Dict.get key entries)

unfoldable pub set : ℕ → String → Fields → ℕ → ExactCache → ExactCache
set now key payload ttl_seconds entries =
    if ltb ttl_seconds 1
    then entries
    else Dict.put key (record { payload = payload; expires_at = now + seconds ttl_seconds }) entries

-- The arithmetic on embeddings: `cosine` has no answer where `_cosine_similarity` raises, `equal` is
-- `==` on dicts and `lt` is `<` on floats.
pub record Vectors : Type 1 where
  pub Embedding : Type 0
  pub Similarity : Type 0
  pub is_valid : Embedding → Bool
  pub cosine : Embedding → Embedding → Option Similarity
  pub lt : Similarity → Similarity → Bool
  pub equal : Fields → Fields → Bool

module _ (vectors : Vectors) where
  open vectors use {Embedding, Similarity, is_valid, cosine, lt, equal}

  pub record SemanticEntry : Type 0 where
    pub namespace : String
    pub query_hash : String
    pub normalized_query : String
    pub constraints : Fields
    pub embedding : Embedding
    pub payload : Fields
    pub expires_at : ℕ
    pub source_retrieved_at : Option ℕ

  -- An entry of the namespace and the constraints that has not expired
  unfoldable pub is_eligible : String → Fields → ℕ → SemanticEntry → Bool
  is_eligible namespace constraints now entry =
      if not (entry.namespace == namespace)
        || not (equal entry.constraints constraints)
        || leb entry.expires_at now
      then false
      else true

  unfoldable pub better :
      Similarity
      → SemanticEntry
      → Option (Similarity × SemanticEntry)
      → Option (Similarity × SemanticEntry)
  better similarity entry none = some (similarity, entry)
  better similarity entry (some best) =
      if lt best.0 similarity then some (similarity, entry) else some best

  module _ (namespace : String) (constraints : Fields) (embedding : Embedding)
      (threshold : Similarity) (now : ℕ) where
    -- The loop's body for one eligible entry
    unfoldable pub consider :
        SemanticEntry
        → Option Similarity
        → Option (Similarity × SemanticEntry)
        → Option (Option (Similarity × SemanticEntry))
    unfolding better
    consider entry none best = none
    consider entry (some similarity) best =
        if lt similarity threshold then some best else some (better similarity entry best)

    unfoldable pub step :
        SemanticEntry
        → Option (Similarity × SemanticEntry)
        → Option (Option (Similarity × SemanticEntry))
    unfolding is_eligible consider
    step entry best =
        if is_eligible namespace constraints now entry
        then consider entry (cosine embedding entry.embedding) best
        else some best

    -- The loop; it has no result where `_cosine_similarity` raises.
    unfoldable pub nearest :
        Option (Similarity × SemanticEntry)
        → List SemanticEntry
        → Option (Option (Similarity × SemanticEntry))
    unfolding step
    nearest best [] = some best
    nearest best (entry ∷ entries) = elim (step entry best) [
      | none ↦ none
      | some next ↦ nearest next entries
    ]

  abbrev pub hit_of : Similarity × SemanticEntry → SemanticCacheHit Similarity
  hit_of (similarity, entry) = record {
    payload = entry.payload;
    similarity = similarity;
    query_hash = entry.query_hash;
    normalized_query = entry.normalized_query;
    expires_at = entry.expires_at;
    source_retrieved_at = entry.source_retrieved_at;
  }

  -- `lookup`: no result where it raises, and no hit where no entry is near enough.
  unfoldable pub lookup :
      String
      → Fields
      → Embedding
      → Similarity
      → ℕ
      → List SemanticEntry
      → Option (Option (SemanticCacheHit Similarity))
  unfolding nearest
  lookup namespace constraints embedding threshold now entries =
      elim (nearest namespace constraints embedding threshold now none entries) [
        | none ↦ none
        | some none ↦ some none
        | some (some best) ↦ some (some (hit_of best))
      ]

  -- `put`: the entries after it, and none where the embedding is refused.
  unfoldable pub put : SemanticEntry → List SemanticEntry → Option (List SemanticEntry)
  put entry entries = if is_valid entry.embedding then some (entries ++ entry ∷ []) else none
