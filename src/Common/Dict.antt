-- ===== src/Common/Dict.antt =====
-- Python's `dict` and `OrderedDict`: an association list in insertion order. Assignment to a key
-- that is there keeps its place; a new key goes to the end.
use Prim.Native.Nat.{suc}
use mathlib.Core.Path.{◌≡◌, refl}
use mathlib.Core.Bool.{Bool, true, false}
use mathlib.Core.Logic.{inl, inr}
use mathlib.Core.List.{List, [], ◌∷◌, ◌++◌, map}
use mathlib.Core.Option.{Option, none, some}
use native.Mathlib.Omega.{arith}
use mini_alpha.Common.Lists.{length, any}
use mini_alpha.Common.Tests.{Eq, ◌==◌, if◌then◌else◌, is_some, Bool-cases}

abbrev pub Dict {ℓ κ} : Type ℓ → Type κ → Type (ℓ ⊔ κ)
Dict K V = List (K × V)

module _ {ℓ κ} {K : Type ℓ} {V : Type κ} ⦃e : Eq K⦄ where
  -- `d.get(k)`
  unfoldable pub get : K → Dict K V → Option V
  get k [] = none
  get k ((j, v) ∷ d) = if j == k then some v else get k d

  -- `d[k] = v`
  unfoldable pub put : K → V → Dict K V → Dict K V
  put k v [] = (k, v) ∷ []
  put k v ((j, w) ∷ d) = if j == k then (j, v) ∷ d else (j, w) ∷ put k v d

  -- `del d[k]` of a dict that holds a key once
  unfoldable pub del : K → Dict K V → Dict K V
  del k [] = []
  del k ((j, w) ∷ d) = if j == k then d else (j, w) ∷ del k d

  pub get-put :
      (k j : K) (v : V) (d : Dict K V) → get j (put k v d) ≡ (if k == j then some v else get j d)
  unfolding get put
  get-put k j v [] = refl
  get-put k j v ((i, w) ∷ d) =
      ground (arith, e.beq_iff k j, e.beq_iff i k, e.beq_iff i j, get-put k j v d)

  pub get-put_self : (k : K) (v : V) (d : Dict K V) → get k (put k v d) ≡ some v
  get-put_self k v d = ground (arith, get-put k k v d, e.beq_iff k k)

  -- Writing back what is there changes nothing.
  pub put-get : (k : K) (v : V) (d : Dict K V) → get k d ≡ some v → put k v d ≡ d
  unfolding get put
  put-get k v [] h = cc
  put-get k v ((i, w) ∷ d) h = ground (arith, put-get k v d)

  pub length-put :
      (k : K) (v : V) (d : Dict K V)
      → length (put k v d) ≡ (if is_some (get k d) then length d else suc (length d))
  unfolding get put
  length-put k v [] = refl
  length-put k v ((i, w) ∷ d) = ground (arith, length-put k v d)

  pub length-del :
      (k : K) (d : Dict K V)
      → length d ≡ (if is_some (get k d) then suc (length (del k d)) else length (del k d))
  unfolding get del
  length-del k [] = refl
  length-del k ((i, w) ∷ d) = ground (arith, length-del k d)

  pub get-del_ne : (k j : K) (d : Dict K V) → (k == j) ≡ false → get j (del k d) ≡ get j d
  unfolding get del
  get-del_ne k j [] h = refl
  get-del_ne k j ((i, w) ∷ d) h =
      ground (arith, get-del_ne k j d, e.beq_iff i k, e.beq_iff i j, e.beq_iff k j)

-- `d.values()`
abbrev pub values {ℓ κ} : {K : Type ℓ} {V : Type κ} → Dict K V → List V
values = map (λ e. e.1)

module _ {ℓ κ} {K : Type ℓ} {V : Type κ} ⦃e : Eq K⦄ where
  -- A dict holds a key once.
  abbrev pub Distinct : Dict K V → Type κ
  Distinct [] = Unit
  Distinct ((k, v) ∷ d) = (get k d ≡ none) × Distinct d

  pub put-Distinct : (k : K) (v : V) (d : Dict K V) → Distinct d → Distinct (put k v d)
  unfolding get put
  put-Distinct k v [] h = (refl, tt)
  put-Distinct k v ((j, w) ∷ d) h = elim (Bool-cases (j == k)) [
    | inl p ↦ rw p h
    | inr p ↦
        rw p (ground (arith, get-put k j v d, e.beq_iff k j, e.beq_iff j k), put-Distinct k v d h.1)
  ]

  -- A value that a search over the values finds stands under a key.
  pub any-values :
      (p : V → Bool) (d : Dict K V)
      → Distinct d
      → any p (values d) ≡ true
      → (k : K) × (v : V) × (get k d ≡ some v) × (p v ≡ true)
  unfolding get
  any-values p [] h a = cc
  any-values p ((j, w) ∷ d) h a = elim (Bool-cases (p w)) [
    | inl q ↦ (j, w, ground (arith, e.beq_iff j j), q)
    | inr q ↦
        let (k, v, there, good) = any-values p d h.1 (ground arith) in
        (k, v, ground (arith, e.beq_iff j k), good)
  ]

  pub get-del :
      (k j : K) (d : Dict K V) → Distinct d → get j (del k d) ≡ (if k == j then none else get j d)
  unfolding get del
  get-del k j [] h = ground arith
  get-del k j ((i, w) ∷ d) h =
      ground (arith, get-del k j d h.1, h.0, e.beq_iff i k, e.beq_iff i j, e.beq_iff k j)

  pub del-Distinct : (k : K) (d : Dict K V) → Distinct d → Distinct (del k d)
  unfolding get del
  del-Distinct k [] h = tt
  del-Distinct k ((j, w) ∷ d) h = elim (Bool-cases (j == k)) [
    | inl p ↦ rw p h.1
    | inr p ↦ rw p (ground (arith, get-del k j d h.1, h.0), del-Distinct k d h.1)
  ]

  -- `move_to_end` of a key, with its value: the key goes to the end.
  get-move :
      (k j : K) (v : V) (d : Dict K V)
      → get k d ≡ none
      → get j (d ++ (k, v) ∷ []) ≡ (if k == j then some v else get j d)
  unfolding get
  get-move k j v [] h = refl
  get-move k j v ((i, w) ∷ d) h =
      ground (arith, get-move k j v d, e.beq_iff i k, e.beq_iff i j, e.beq_iff k j)

  move-Distinct :
      (k : K) (v : V) (d : Dict K V) → get k d ≡ none → Distinct d → Distinct (d ++ (k, v) ∷ [])
  unfolding get
  move-Distinct k v [] h p = (refl, tt)
  move-Distinct k v ((j, w) ∷ d) h p = (
    ground (arith, get-move k j v d, p.0, e.beq_iff k j, e.beq_iff j k),
    move-Distinct k v d (ground arith) p.1,
  )

  module _ (k : K) (v : V) (d : Dict K V) (h : Distinct d) where
    gone : get k (del k d) ≡ none
    gone = ground (arith, get-del k k d h, e.beq_iff k k)

    pub get-del-append :
        (j : K) → get j (del k d ++ (k, v) ∷ []) ≡ (if k == j then some v else get j d)
    get-del-append j = ground (arith, get-move k j v (del k d) gone, get-del k j d h)

    pub del-append-Distinct : Distinct (del k d ++ (k, v) ∷ [])
    del-append-Distinct = move-Distinct k v (del k d) gone (del-Distinct k d h)
