-- ===== src/Agent/ToolRegistry.antt =====
-- app/agent/tool_registry.py: the groups of tools, and `ToolRegistry` over any tools that have a name.
-- A set of names is the list of what was added to it.
pub mod Groups
use mini_alpha.Common.{
  ◌⊎◌, inl, inr, String, Bool, not, Option, none, some, List, [], ◌∷◌, ◌++◌, map, any, select, ◌==◌,
  string_eq, if◌then◌else◌, is_some,
}
use mini_alpha.Common.Dict.{Dict, get, put}

-- The messages of the `ValueError`s, without the names that they list
pub data RegistryError : Type 0 where
  unnamed_tool duplicate_name unknown_names unknown_group : RegistryError

-- `TOOL_NAMES_BY_GROUP`
abbrev pub tool_names_by_group : Dict String (List String)
tool_names_by_group =
    ("company_overview", "get_company_overview" ∷ [])
    ∷ ("price_history", "get_price_history" ∷ [])
    ∷ ("financial_statements", "get_financial_statements" ∷ [])
    ∷ ("fundamental_ratios", "get_fundamental_ratios" ∷ [])
    ∷ ("analyst_estimates", "get_analyst_estimates" ∷ [])
    ∷ ("sec_filings", "get_sec_filings" ∷ [])
    ∷ ("ownership", "get_ownership" ∷ [])
    ∷ ("insider_activity", "get_insider_activity" ∷ [])
    ∷ ("company_news", "get_company_news" ∷ [])
    ∷ ("company_comparison", "compare_companies" ∷ [])
    ∷ ("return_statistics", "calculate_return_statistics" ∷ [])
    ∷ ("volatility", "calculate_volatility" ∷ [])
    ∷ ("drawdown", "analyze_drawdowns" ∷ [])
    ∷ ("correlation", "calculate_correlations" ∷ [])
    ∷ ("technical_indicators", "calculate_technical_indicators" ∷ [])
    ∷ ("moving_average_backtest", "backtest_moving_average" ∷ [])
    ∷ []

unfoldable pub contains : String → List String → Bool
contains name names = any (λ other. other == name) names

-- One round of the loop over the groups, with the rounds after it
abbrev pub added : Option (List String) → RegistryError ⊎ List String → RegistryError ⊎ List String
added none rest = inl unknown_group
added (some names) (inl e) = inl e
added (some names) (inr selected) = inr (names ++ selected)

unfoldable pub collect : List String → RegistryError ⊎ List String
collect [] = inr []
collect (group ∷ groups) = added (get group tool_names_by_group) (collect groups)

module _ {Tool : Type 0} (name : Tool → String) where
  pub record ToolRegistry : Type 0 where
    pub tools : List Tool
    pub by_name : Dict String Tool

  unfoldable pub register : List Tool → Dict String Tool → RegistryError ⊎ Dict String Tool
  register [] by_name = inr by_name
  register (tool ∷ tools) by_name =
      if name tool == "" then inl unnamed_tool else elim (get (name tool) by_name) [
        | some known ↦ inl duplicate_name
        | none ↦ register tools (put (name tool) tool by_name)
      ]

  abbrev pub registered :
      List Tool → RegistryError ⊎ Dict String Tool → RegistryError ⊎ ToolRegistry
  registered tools (inl e) = inl e
  registered tools (inr by_name) = inr (record { tools = tools; by_name = by_name })

  -- `__init__`
  unfoldable pub new_registry : List Tool → RegistryError ⊎ ToolRegistry
  new_registry tools = registered tools (register tools [])

  abbrev pub names : ToolRegistry → List String
  names registry = map name registry.tools

  abbrev pub is_unknown : Dict String Tool → String → Bool
  is_unknown by_name wanted = not (is_some (get wanted by_name))

  unfoldable pub resolve : List String → ToolRegistry → RegistryError ⊎ List Tool
  resolve selected registry =
      if any (is_unknown registry.by_name) selected
      then inl unknown_names
      else inr (select (λ tool. contains (name tool) selected) registry.tools)

  abbrev pub selected_names :
      ToolRegistry → RegistryError ⊎ List String → RegistryError ⊎ List String
  selected_names registry (inl e) = inl e
  selected_names registry (inr selected) =
      inr (select (λ other. contains other selected) (names registry))

  unfoldable pub names_for_groups : List String → ToolRegistry → RegistryError ⊎ List String
  names_for_groups groups registry = selected_names registry (collect groups)
