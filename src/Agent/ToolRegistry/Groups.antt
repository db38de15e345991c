-- ===== src/Agent/ToolRegistry/Groups.antt =====
-- app/agent/tool_registry.py: from the groups of an intent to the tools that a request is given.
use mini_alpha.Common.{
  ◌≡◌, refl, ◌∙◌, sym, ap, ◌⊎◌, inl, inr, String, Bool, true, false, ◌&&◌, not, Option, none, some,
  List, [], ◌∷◌, ◌++◌, map, any, any-append, select, All, ◌==◌, string_eq, eq_iff, is_some,
  Bool-cases, Option-cases, arith,
}
use mini_alpha.Common.Dict.{Dict, get, put, get-put, get-put_self}
use mini_alpha.Agent.ToolRegistry.{
  ToolRegistry, RegistryError, tool_names_by_group, contains, added, collect, register, registered,
  new_registry, selected_names, is_unknown, resolve, names_for_groups,
}

abbrev pub is_among : String → Option (List String) → Bool
is_among tool_name none = false
is_among tool_name (some tool_names) = contains tool_name tool_names

-- A name of a group's tools; of no tool where the group is unknown
abbrev pub is_of_group : String → String → Bool
is_of_group tool_name group = is_among tool_name (get group tool_names_by_group)

each_All : {A : Type 0} {P : A → Type 0} (xs : List A) → ((x : A) → P x) → All P xs
each_All [] h = tt
each_All (x ∷ xs) h = (h x, each_All xs h)

select-cong :
    {A : Type 0} (p q : A → Bool) (xs : List A)
    → All (λ x. p x ≡ q x) xs
    → select p xs ≡ select q xs
select-cong p q [] h = refl
select-cong p q (x ∷ xs) h = ground (arith, h.0, select-cong p q xs h.1)

added-inr :
    (o : Option (List String)) (rest : RegistryError ⊎ List String) (selected : List String)
    → added o rest ≡ inr selected
    → (known : List String) × (more : List String) × (o ≡ some known)
      × (rest ≡ inr more)
      × (selected ≡ known ++ more)
added-inr none rest selected h = absurd (ground (arith, h))
added-inr (some known) (inl e) selected h = absurd (ground (arith, h))
added-inr (some known) (inr more) selected h = (known, more, refl, refl, ground (arith, h))

collect-contains :
    (groups selected : List String) (tool_name : String)
    → collect groups ≡ inr selected
    → contains tool_name selected ≡ any (is_of_group tool_name) groups
unfolding collect contains
collect-contains [] selected tool_name h =
    let empty : selected ≡ [] = ground (arith, h) in ap (contains tool_name) empty
collect-contains (group ∷ groups) selected tool_name h =
    let (known, more, found, rest, both) =
      added-inr (get group tool_names_by_group) (collect groups) selected h in
    let here : is_of_group tool_name group ≡ contains tool_name known =
      ap (is_among tool_name) found in
    ap (contains tool_name) both
    ∙ any-append (λ other. other == tool_name) known more
    ∙ ground (arith, here, collect-contains groups more tool_name rest)

abbrev pub is_group : String → Bool
is_group group = is_some (get group tool_names_by_group)

collect-known :
    (groups : List String)
    → All (λ group. is_group group ≡ true) groups
    → (selected : List String) × (collect groups ≡ inr selected)
unfolding collect
collect-known [] h = ([], refl)
collect-known (group ∷ groups) h = elim (Option-cases (get group tool_names_by_group)) [
  | inl unknown ↦ absurd (ground (arith, h.0, unknown))
  | inr (known, found) ↦
      let (more, rest) = collect-known groups h.1 in (known ++ more, rw (found, rest) refl)
]

-- Whether a name is among those of a list that pass a test
contains-select :
    (p : String → Bool) (x : String) (xs : List String)
    → contains x (select p xs) ≡ (p x && contains x xs)
unfolding contains
contains-select p x [] = ground arith
contains-select p x (y ∷ ys) = grind (arith, eq_iff y x, contains-select p x ys)

module _ {Tool : Type 0} (name : Tool → String) where
  register-keeps :
      (tools : List Tool) (d e : Dict String Tool) (key : String)
      → register name tools d ≡ inr e
      → is_some (get key d) ≡ true
      → is_some (get key e) ≡ true
  unfolding register
  register-keeps [] d e key h k =
      let same : d ≡ e = ground (arith, h) in ap (λ x. is_some (get key x)) (sym same) ∙ k
  register-keeps (tool ∷ tools) d e key h k = elim (Bool-cases (name tool == "")) [
    | inl u ↦ absurd (ground (arith, h, u))
    | inr u ↦ elim (Option-cases (get (name tool) d)) [
      | inr (known, found) ↦ absurd (ground (arith, h, u, found))
      | inl new ↦
          register-keeps tools (put (name tool) tool d) e key (rw (u, new) at h)
            (ground (arith, k, get-put (name tool) key tool d))
    ]
  ]

  register-known :
      (tools : List Tool) (d e : Dict String Tool)
      → register name tools d ≡ inr e
      → All (λ tool. is_unknown name e (name tool) ≡ false) tools
  unfolding register
  register-known [] d e h = tt
  register-known (tool ∷ tools) d e h = elim (Bool-cases (name tool == "")) [
    | inl u ↦ absurd (ground (arith, h, u))
    | inr u ↦ elim (Option-cases (get (name tool) d)) [
      | inr (known, found) ↦ absurd (ground (arith, h, u, found))
      | inl new ↦
          let rest = rw (u, new) at h in
          let here =
            register-keeps tools (put (name tool) tool d) e (name tool) rest
              (ap is_some (get-put_self (name tool) tool d)) in
          (ap not here, register-known tools (put (name tool) tool d) e rest)
    ]
  ]

  -- Each of the tools is named among the names of more.
  All-contains :
      (tools : List Tool) (all : List String)
      → ((x : String) → contains x (map name tools) ≡ true → contains x all ≡ true)
      → All (λ tool. contains (name tool) all ≡ true) tools
  unfolding contains
  All-contains [] all h = tt
  All-contains (tool ∷ tools) all h = (
    h (name tool) (ground (arith, eq_iff (name tool) (name tool))),
    All-contains tools all (λ x k. h x (ground (arith, k))),
  )

  select-contains :
      (p : String → Bool) (tools all : List Tool)
      → All (λ tool. contains (name tool) (map name all) ≡ true) tools
      → select (λ tool. contains (name tool) (select p (map name all))) tools
        ≡ select (λ tool. p (name tool)) tools
  select-contains p [] all h = refl
  select-contains p (tool ∷ tools) all h =
      ground
        (arith, h.0, contains-select p (name tool) (map name all), select-contains p tools all h.1)

  any-select :
      (f p : String → Bool) (tools : List Tool)
      → All (λ tool. f (name tool) ≡ false) tools
      → any f (select p (map name tools)) ≡ false
  any-select f p [] h = refl
  any-select f p (tool ∷ tools) h = ground (arith, h.0, any-select f p tools h.1)

  registered-kept :
      (tools : List Tool) (made : RegistryError ⊎ Dict String Tool) (registry : ToolRegistry name)
      → registered name tools made ≡ inr registry
      → (registry.tools ≡ tools) × (made ≡ inr registry.by_name)
  registered-kept tools (inl e) registry h = absurd (ground (arith, h))
  registered-kept tools (inr d) registry h =
      let same : record { tools = tools; by_name = d } ≡ registry = ground (arith, h) in
      (sym (ap (λ r. r.tools) same), ap (λ r. inr r.by_name) same)

  -- A registry that the constructor accepts gives for known groups names that it resolves, to the tools
  -- whose names belong to one of the groups, in the order of registration.
  pub resolve-names_for_groups :
      (tools : List Tool) (registry : ToolRegistry name) (groups : List String)
      → new_registry name tools ≡ inr registry
      → All (λ group. is_group group ≡ true) groups
      → (selected : List String) × (names_for_groups name groups registry ≡ inr selected)
        × (resolve name selected registry
            ≡ inr (select (λ tool. any (is_of_group (name tool)) groups) tools))
  unfolding new_registry resolve names_for_groups
  resolve-names_for_groups tools registry groups h known =
      let (same, made) = registered-kept tools (register name tools []) registry h in
      let (wanted, given) = collect-known groups known in
      let p : String → Bool = λ other. contains other wanted in
      let no_unknown =
        any-select (is_unknown name registry.by_name) p tools
          (register-known tools [] registry.by_name made) in
      let chosen = select-contains p tools tools (All-contains tools (map name tools) (λ x k. k)) in
      let meant =
        select-cong (λ tool. p (name tool)) (λ tool. any (is_of_group (name tool)) groups) tools
          (each_All tools (λ tool. collect-contains groups wanted (name tool) given)) in
      (
        select p (map name tools),
        ap (selected_names name registry) given ∙ ap (λ all. inr (select p (map name all))) same,
        rw (no_unknown, same) (ap inr (chosen ∙ meant)),
      )
