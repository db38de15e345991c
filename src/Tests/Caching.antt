-- ===== src/Tests/Caching.antt =====
-- Runs of app/cache's models.
use mini_alpha.Cache.Coordinator.Hits.{Explained, lookup-Explained}
use mini_alpha.Cache.Coordinator.Write.{store, store-exact, store-semantic}
use mini_alpha.Cache.Coordinator.{Answer, raised, returned, Tiers, Coordinator}
use mini_alpha.Cache.Coordinator
use mini_alpha.Cache.Models.{QueryFingerprint, CachePolicyDecision, SemanticCacheHit}
use mini_alpha.Cache.Policy.Sources.{Supports, evaluate_artifact_ttl-supported}
use mini_alpha.Cache.Policy.{evaluate_artifact_ttl, decided, seconds}
use mini_alpha.Cache.Policy
use mini_alpha.Cache.Stores.Exact.{get-set}
use mini_alpha.Cache.Stores.Nearest.{IsOrder, Best, lookup-Best}
use mini_alpha.Cache.Stores.{Vectors, SemanticEntry, ExactCache, hit_of}
use mini_alpha.Cache.Stores
use mini_alpha.Common.Dict
use mini_alpha.Common.Value.{Fields, end, field, str, datetime, dict}
use mini_alpha.Common.{
  ℕ, String, ◌≡◌, ◌≤◌, ◌+◌, refl, true, none, some, [], ◌∷◌, All, arith, ◌==◌, string_eq, nat_eq,
  if◌then◌else◌, ltb, leb,
}

abbrev no_iso : String → Policy.Instant
no_iso s = Policy.not_iso

-- An ownership table that was retrieved ten seconds before `current`
abbrev current : ℕ
current = 1000000000

abbrev artifact : Fields
artifact = field "status" (str "ok") (
    field "artifact_type" (str "ownership")
      (field "data" (dict (field "retrieved_at" (datetime 990000000) end)) end))

abbrev decision : CachePolicyDecision
decision = record {
  cacheable = true;
  ttl_seconds = 86390;
  expires_at = some (current + seconds 86390);
  source_retrieved_at = some 990000000;
  artifact_types = "ownership" ∷ [];
  reason = "data_specific_ttl";
}

decision_is_made : evaluate_artifact_ttl no_iso current true (artifact ∷ []) ≡ decided decision
unfolding evaluate_artifact_ttl Policy.scan Policy.check_artifact Policy.canonical_artifact_type
    Policy.canonical_name Dict.get Policy.artifact_ttl_seconds Policy.source_timestamp Policy.get_or
decision_is_made = refl

evaluate_artifact_ttl-supported_example :
    (true ≡ true)
    × (1 ≤ 86390)
    × (decision.expires_at ≡ some (current + seconds 86390))
    × All (Supports no_iso current 86390) (artifact ∷ [])
evaluate_artifact_ttl-supported_example =
    evaluate_artifact_ttl-supported no_iso current true artifact [] decision decision_is_made refl

abbrev key : String
key = "key"

-- A text whose time is before the year 1 in UTC
abbrev far_iso : String → Policy.Instant
far_iso s = Policy.too_far

abbrev far_artifact : Fields
far_artifact = field "status" (str "ok") (
    field "artifact_type" (str "price_history")
      (field "data" (dict (field "retrieved_at" (str "0001-01-01T00:00:00+05:00") end)) end))

far_artifact_raises :
    evaluate_artifact_ttl far_iso current true (far_artifact ∷ []) ≡ Policy.raises Policy.overflow
unfolding evaluate_artifact_ttl Policy.scan Policy.check_artifact Policy.canonical_artifact_type
    Policy.canonical_name Dict.get Policy.artifact_ttl_seconds Policy.source_timestamp Policy.get_or
far_artifact_raises = refl

get-set_example : (Stores.get 20 key (Stores.set 10 key end 5 [])).0 ≡ (
    if ltb 5 1
    then (Stores.get 20 key []).0
    else if key == key
    then (if leb (10 + seconds 5) 20 then none else some end)
    else (Stores.get 20 key []).0)
get-set_example = get-set 10 20 key key end 5 []

-- Embeddings of one number, as near as the number is large
abbrev numbers : Vectors
numbers = record {
  Embedding = ℕ;
  Similarity = ℕ;
  is_valid = λ e. true;
  cosine = λ a b. some b;
  lt = ltb;
  equal = λ a b. true;
}

numbers-IsOrder : IsOrder numbers
numbers-IsOrder = record {
  lt_irreflexive = λ a. ground arith;
  not_lt_transitive = λ a b c h k. ground arith;
  lt_asymmetric = λ a b h. ground arith;
}

abbrev entry_at : ℕ → SemanticEntry numbers
entry_at n = record {
  namespace = "n";
  query_hash = "h";
  normalized_query = "q";
  constraints = end;
  embedding = n;
  payload = end;
  expires_at = 100;
  source_retrieved_at = none;
}

abbrev nearest_hit : SemanticCacheHit ℕ
nearest_hit = hit_of numbers (9, entry_at 9)

found :
    Stores.lookup numbers "n" end 0 8 50 (entry_at 7 ∷ entry_at 9 ∷ []) ≡ some (some nearest_hit)
unfolding Stores.lookup
found = refl

lookup-Best_example :
    Best numbers numbers-IsOrder "n" end 0 8 50 (entry_at 7 ∷ entry_at 9 ∷ []) (some nearest_hit)
lookup-Best_example =
    lookup-Best numbers numbers-IsOrder "n" end 0 8 50 (entry_at 7 ∷ entry_at 9 ∷ [])
      (some nearest_hit) found

-- An exact tier that is down and a semantic tier that always has a hit
abbrev tiers : Tiers
tiers = record {
  Exact = ℕ;
  Semantic = ℕ;
  Embedding = ℕ;
  Similarity = ℕ;
  exact_get = λ key s. (raised "ConnectionError", s);
  exact_set = λ key payload ttl s. (raised "ConnectionError", s);
  semantic_lookup = λ namespace constraints embedding threshold now s. returned (some nearest_hit);
  semantic_put = λ fingerprint embedding payload expires_at source s. (returned tt, s + 1);
  embed_query = λ text. returned 1;
  embed_document = λ text. returned 1;
  is_finite = λ e. true;
}

abbrev coordinator : Coordinator tiers
coordinator = record { exact = some 0; semantic = some 0; threshold = 8 }

abbrev without_semantic : Coordinator tiers
without_semantic = record { exact = some 0; semantic = none; threshold = 8 }

abbrev without_exact : Coordinator tiers
without_exact = record { exact = none; semantic = some 0; threshold = 8 }

abbrev fingerprint : QueryFingerprint
fingerprint = record {
  original_query = "Q";
  normalized_query = "q";
  query_hash = "h";
  exact_key = "k";
  namespace = "n";
  constraints = end;
  semantic_eligible = true;
  semantic_text = "q";
  semantic_ineligibility_reasons = [];
}

lookup-Explained_example :
    Explained tiers fingerprint 50 51
      (some 0)
      (some 0)
      8
      (Coordinator.lookup tiers fingerprint 50 51 coordinator).0
lookup-Explained_example = lookup-Explained tiers fingerprint 50 51 coordinator

store-exact_example :
    ((store tiers fingerprint end decision 60 coordinator).0.exact_written
      ≡ (store tiers fingerprint end decision 60 without_semantic).0.exact_written)
    × ((store tiers fingerprint end decision 60 coordinator).1.exact
        ≡ (store tiers fingerprint end decision 60 without_semantic).1.exact)
store-exact_example =
    store-exact tiers fingerprint end decision 60 coordinator without_semantic refl

store-semantic_example :
    ((store tiers fingerprint end decision 60 coordinator).0.semantic_written
      ≡ (store tiers fingerprint end decision 60 without_exact).0.semantic_written)
    × ((store tiers fingerprint end decision 60 coordinator).1.semantic
        ≡ (store tiers fingerprint end decision 60 without_exact).1.semantic)
store-semantic_example =
    store-semantic tiers fingerprint end decision 60 coordinator without_exact refl
