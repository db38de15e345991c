-- ===== src/Events/Store/Ascending.antt =====
-- Lists of events of app/events/store.py whose ids increase: the events after a cursor, and the last
-- of them.
use mini_alpha.Common.{
  ℕ, ◌<◌, ◌≤◌, ◌≡◌, refl, ap, subst, sym, ◌∙◌, Bool, true, false, none, some, List, [], ◌∷◌, ◌++◌,
  nat_eq, any, arith, select, last?, All, All-append, Bool-cases, Option-cases, inl, inr,
}
use mini_alpha.Events.Models.{RunEvent}
use mini_alpha.Events.Store.{is_after}

-- The ids strictly increase.
abbrev pub Increasing : List RunEvent → Type 0
Increasing [] = Unit
Increasing (e ∷ es) = All (λ f. e.event_id < f.event_id) es × Increasing es

some_same : (x y : RunEvent) → some x ≡ some y → x ≡ y
some_same x y h = ground arith

module _ (p : RunEvent → Bool) (P : RunEvent → Type 0) where
  pub All-select : (xs : List RunEvent) → All P xs → All P (select p xs)
  All-select [] h = tt
  All-select (x ∷ xs) h = elim (Bool-cases (p x)) [
    | inl e ↦ rw e (h.0, All-select xs h.1)
    | inr e ↦ rw e (All-select xs h.1)
  ]

module _ (P : RunEvent → Type 0) where
  pub All-last : (xs : List RunEvent) (f : RunEvent) → All P xs → last? xs ≡ some f → P f
  All-last [] f h e = absurd (ground arith)
  All-last (x ∷ []) f h e = subst P (some_same x f e) h.0
  All-last (x ∷ y ∷ xs) f h e = All-last (y ∷ xs) f h.1 e

pub none_of_any : (p : RunEvent → Bool) (xs : List RunEvent) → any p xs ≡ false → select p xs ≡ []
none_of_any p [] h = refl
none_of_any p (x ∷ xs) h = ground (arith, none_of_any p xs)

pub select-true : (p : RunEvent → Bool) (xs : List RunEvent) → All (λ x. p x ≡ true) (select p xs)
select-true p [] = tt
select-true p (x ∷ xs) = elim (Bool-cases (p x)) [
  | inl e ↦ rw e (e, select-true p xs)
  | inr e ↦ rw e (select-true p xs)
]

select_mono :
    (c d : ℕ) (xs : List RunEvent)
    → c ≤ d
    → select (is_after c) xs ≡ []
    → select (is_after d) xs ≡ []
select_mono c d [] h e = refl
select_mono c d (x ∷ xs) h e = ground (arith, select_mono c d xs)

last-cons : (x f : RunEvent) (xs : List RunEvent) → last? xs ≡ some f → last? (x ∷ xs) ≡ some f
last-cons x f [] e = absurd (ground arith)
last-cons x f (y ∷ xs) e = e

pub last-none : (xs : List RunEvent) → last? xs ≡ none → xs ≡ []
last-none [] e = refl
last-none (x ∷ []) e = absurd (ground arith)
last-none (x ∷ y ∷ xs) e = absurd (ground (arith, last-none (y ∷ xs) e))

-- No event stands after the last one that is selected.
pub drained_of_last :
    (c : ℕ) (xs : List RunEvent) (f : RunEvent)
    → Increasing xs
    → last? (select (is_after c) xs) ≡ some f
    → select (is_after f.event_id) xs ≡ []
drained_of_last c [] f inc e = refl
drained_of_last c (x ∷ xs) f inc e = elim (Bool-cases (is_after c x)) [
  | inr skip ↦
      let e' : last? (select (is_after c) xs) ≡ some f = ground arith in
      ground (
        arith,
        drained_of_last c xs f inc.1 e',
        All-last (λ g. is_after c g ≡ true) (select (is_after c) xs) f (select-true (is_after c) xs)
            e',
      )
  | inl take ↦ elim (Option-cases (last? (select (is_after c) xs))) [
    | inl none' ↦
        let empty = last-none (select (is_after c) xs) none' in
        let same : x ≡ f = some_same x f (rw (take, empty) at e) in
        subst (λ (g : RunEvent). select (is_after g.event_id) (x ∷ xs) ≡ []) same
          (ground (arith, select_mono c x.event_id xs (ground arith) empty))
    | inr (g, more) ↦
        let same : g ≡ f =
          some_same g f (sym (last-cons x g (select (is_after c) xs) more) ∙ (rw take at e)) in
        let e' = more ∙ ap some same in
        ground (
          arith,
          drained_of_last c xs f inc.1 e',
          All-last (λ g. x.event_id < g.event_id) (select (is_after c) xs) f
              (All-select (is_after c) (λ g. x.event_id < g.event_id) xs inc.0) e',
        )
  ]
]

pub Increasing-append :
    (n : ℕ) (xs : List RunEvent) (e : RunEvent)
    → Increasing xs
    → All (λ f. f.event_id ≤ n) xs
    → n < e.event_id
    → Increasing (xs ++ e ∷ [])
Increasing-append n [] e i b h = (tt, tt)
Increasing-append n (x ∷ xs) e i b h = (
  All-append (λ f. x.event_id < f.event_id) xs (e ∷ []) i.0 (omega (arith, b.0), tt),
  Increasing-append n xs e i.1 b.1 h,
)

pub All-weaken :
    (n k : ℕ) (xs : List RunEvent)
    → n ≤ k
    → All (λ f. f.event_id ≤ n) xs
    → All (λ f. f.event_id ≤ k) xs
All-weaken n k [] h a = tt
All-weaken n k (x ∷ xs) h a = (omega (arith, a.0), All-weaken n k xs h a.1)
