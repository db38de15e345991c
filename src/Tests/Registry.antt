-- ===== src/Tests/Registry.antt =====
-- The registry of app/agent/tool_registry.py on three tools.
use mini_alpha.Common.{◌≡◌, refl, inr, String, true, List, [], ◌∷◌, any, select, All}
use mini_alpha.Common.Dict.{get, put}
use mini_alpha.Agent.ToolRegistry.{
  ToolRegistry, contains, register, new_registry, resolve, names_for_groups,
}
use mini_alpha.Agent.ToolRegistry.Groups.{is_group, is_of_group, resolve-names_for_groups}

-- A tool with a name and a number to tell it by
record Numbered : Type 0 where
  called : String
  number : String

abbrev called_by : Numbered → String
called_by tool = tool.called

abbrev price_tool : Numbered
price_tool = record { called = "get_price_history"; number = "1" }

abbrev news_tool : Numbered
news_tool = record { called = "get_company_news"; number = "2" }

abbrev ownership_tool : Numbered
ownership_tool = record { called = "get_ownership"; number = "3" }

abbrev three_tools : List Numbered
three_tools = price_tool ∷ news_tool ∷ ownership_tool ∷ []

abbrev two_groups : List String
two_groups = "ownership" ∷ "price_history" ∷ []

abbrev three_registry : ToolRegistry called_by
three_registry = record {
  tools = three_tools;
  by_name =
      ("get_price_history", price_tool)
      ∷ ("get_company_news", news_tool)
      ∷ ("get_ownership", ownership_tool)
      ∷ [];
}

three_tools-accepted : new_registry called_by three_tools ≡ inr three_registry
unfolding new_registry register get put
three_tools-accepted = refl

two_groups-known : All (λ group. is_group group ≡ true) two_groups
unfolding get
two_groups-known = (refl, (refl, tt))

two_groups_selected :
    resolve called_by ("get_price_history" ∷ "get_ownership" ∷ []) three_registry
    ≡ inr (price_tool ∷ ownership_tool ∷ [])
unfolding resolve get contains
two_groups_selected = refl

resolve-names_for_groups_example :
    (selected : List String) × (names_for_groups called_by two_groups three_registry ≡ inr selected)
    × (resolve called_by selected three_registry
        ≡ inr (select (λ tool. any (is_of_group (called_by tool)) two_groups) three_tools))
resolve-names_for_groups_example =
    resolve-names_for_groups called_by three_tools three_registry two_groups three_tools-accepted
      two_groups-known
