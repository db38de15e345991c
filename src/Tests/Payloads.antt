-- ===== src/Tests/Payloads.antt =====
-- A cached research result, written and read back.
use mini_alpha.Cache.Results.{serialize_research_result, deserialize_research_result}
use mini_alpha.Cache.Results.RoundTrip.{IsCacheable, deserialize-serialize, deserialize-IsCacheable}
use mini_alpha.Common.{◌≡◌, refl, none, some, [], ◌∷◌}
use mini_alpha.Common.Value.{str, end, field, is_blank, is_space}
use mini_alpha.Research.Models.{ResearchResult, ok}

abbrev kept : ResearchResult
kept = record {
  answer = "answer";
  tool_calls = record { name = "quote"; arguments = end; status = some ok; summary = none } ∷ [];
  tool_results = record { name = "quote"; content = "12"; artifact = none } ∷ [];
  artifacts = field "status" (str "ok") end ∷ [];
  checkpoint_id = some "c1";
  usage = record { input_tokens = 1; output_tokens = 2; total_tokens = 3 };
  cache = none;
}

kept-IsCacheable : IsCacheable kept
unfolding is_blank is_space
kept-IsCacheable = record { answered = refl; named = (refl, tt); successful = refl }

deserialize-serialize_example :
    deserialize_research_result (serialize_research_result kept)
    ≡ some (record kept { checkpoint_id = none; cache = none })
deserialize-serialize_example = deserialize-serialize kept kept-IsCacheable

deserialize-IsCacheable_example :
    IsCacheable (record kept { checkpoint_id = none; cache = none })
    × (deserialize_research_result
          (serialize_research_result (record kept { checkpoint_id = none; cache = none }))
        ≡ some (record kept { checkpoint_id = none; cache = none }))
deserialize-IsCacheable_example =
    deserialize-IsCacheable (serialize_research_result kept)
      (record kept { checkpoint_id = none; cache = none }) deserialize-serialize_example
