-- ===== src/Cache/Stores/Nearest.antt =====
-- What the semantic lookup of app/cache/stores.py finds, against the entries it may use.
use mini_alpha.Cache.Models.{SemanticCacheHit}
use mini_alpha.Cache.Stores.{
  Vectors, SemanticEntry, is_eligible, better, consider, step, nearest, lookup, hit_of,
}
use mini_alpha.Common.Value.{Fields}
use mini_alpha.Common.{
  ℕ, String, ◌≡◌, ◌<◌, eq_iff, ◌⊎◌, refl, sym, ◌∙◌, subst, true, false, Option, none, some, List,
  [], ◌∷◌, All, arith, Bool-cases, Option-cases, inl, inr,
}

-- `lt` is a strict order whose complement is transitive, as `<` is on floats that are no NaN.
pub record IsOrder (vectors : Vectors) : Type 0 where
  pub lt_irreflexive : (a : vectors.Similarity) → vectors.lt a a ≡ false
  pub not_lt_transitive :
      (a b c : vectors.Similarity)
      → vectors.lt a b ≡ false
      → vectors.lt b c ≡ false
      → vectors.lt a c ≡ false
  pub lt_asymmetric : (a b : vectors.Similarity) → vectors.lt a b ≡ true → vectors.lt b a ≡ false

some_same {ℓ} : {A : Type ℓ} {a b : A} → some a ≡ some b → a ≡ b
some_same h = ground arith

module _ (vectors : Vectors) (order : IsOrder vectors) (namespace : String) (constraints : Fields)
    (embedding : vectors.Embedding) (threshold : vectors.Similarity) (now : ℕ) where
  open vectors use {Embedding, Similarity, cosine, lt}

  abbrev pub Entry : Type 0
  Entry = SemanticEntry vectors

  -- The entry is of the namespace and the constraints and has not expired.
  abbrev pub IsUsable : Entry → Type 0
  IsUsable entry =
      (entry.namespace ≡ namespace)
      × (vectors.equal entry.constraints constraints ≡ true)
      × (now < entry.expires_at)

  is_eligible-IsUsable :
      (entry : Entry) → is_eligible vectors namespace constraints now entry ≡ true → IsUsable entry
  unfolding is_eligible
  is_eligible-IsUsable entry h =
      (ground (arith, h, eq_iff entry.namespace namespace), ground (arith, h), ground (arith, h))

  IsUsable-is_eligible :
      (entry : Entry) → IsUsable entry → is_eligible vectors namespace constraints now entry ≡ true
  unfolding is_eligible
  IsUsable-is_eligible entry (named, alike, live) =
      ground (arith, named, alike, live, eq_iff entry.namespace namespace)

  -- The entry may be used and is at least as near as the threshold asks.
  abbrev pub Matches : Similarity → Entry → Type 0
  Matches similarity entry =
      IsUsable entry
      × (cosine embedding entry.embedding ≡ some similarity)
      × (lt similarity threshold ≡ false)

  -- No entry that matches is nearer than the best.
  abbrev pub Dominates : Option (Similarity × Entry) → Entry → Type 0
  Dominates none entry = (s : Similarity) → ¬ (Matches s entry)
  Dominates (some best) entry = (s : Similarity) → Matches s entry → lt best.0 s ≡ false

  -- Whether the new best is as near as the old one.
  abbrev Improves : Option (Similarity × Entry) → Option (Similarity × Entry) → Type 0
  Improves none next = Unit
  Improves (some best) none = ⊥
  Improves (some best) (some next) = lt next.0 best.0 ≡ false

  Improves-refl : (best : Option (Similarity × Entry)) → Improves best best
  Improves-refl none = tt
  Improves-refl (some best) = order.lt_irreflexive best.0

  Improves-trans :
      (a b c : Option (Similarity × Entry)) → Improves a b → Improves b c → Improves a c
  Improves-trans none b c h k = tt
  Improves-trans (some a) none c h k = absurd h
  Improves-trans (some a) (some b) none h k = absurd k
  Improves-trans (some a) (some b) (some c) h k = order.not_lt_transitive c.0 b.0 a.0 k h

  Dominates-Improves :
      (a b : Option (Similarity × Entry)) (e : Entry) → Improves a b → Dominates a e → Dominates b e
  Dominates-Improves none none e h d = d
  Dominates-Improves none (some b) e h d = λ s m. absurd (d s m)
  Dominates-Improves (some a) none e h d = absurd h
  Dominates-Improves (some a) (some b) e h d = λ s m. order.not_lt_transitive b.0 a.0 s h (d s m)

  -- What one entry does to the best so far
  abbrev Stepped : Entry → Option (Similarity × Entry) → Option (Similarity × Entry) → Type 0
  Stepped e best next =
      Improves best next
      × Dominates next e
      × ((next ≡ best) ⊎ ((s : Similarity) × (next ≡ some (s, e)) × Matches s e))

  the_similarity : {s r : Similarity} (e : Entry) → Matches s e → Matches r e → s ≡ r
  the_similarity e m k = some_same (sym m.1 ∙ k.1)

  same_order : {a s r : Similarity} → lt a s ≡ false → s ≡ r → lt a r ≡ false
  same_order {a = a} h e = subst (λ x. lt a x ≡ false) e h

  better-Stepped :
      (s : Similarity) (e : Entry) (best : Option (Similarity × Entry))
      → Matches s e
      → Stepped e best (better vectors s e best)
  unfolding better
  better-Stepped s e none m =
      (tt, λ r k. same_order (order.lt_irreflexive s) (the_similarity e m k), inr (s, refl, m))
  better-Stepped s e (some best) m = elim (Bool-cases (lt best.0 s)) [
    | inl q ↦ rw q (
      order.lt_asymmetric best.0 s q,
      λ r k. same_order (order.lt_irreflexive s) (the_similarity e m k),
      inr (s, refl, m),
    )
    | inr q ↦
        rw q (order.lt_irreflexive best.0, λ r k. same_order q (the_similarity e m k), inl refl)
  ]

  unmatched :
      (e : Entry) (best next : Option (Similarity × Entry))
      → ((s : Similarity) → ¬ (Matches s e))
      → best ≡ next
      → Stepped e best next
  unmatched e best next m h =
      subst (Stepped e best) h (Improves-refl best, not_matched-Dominates best, inl refl)
    where
      not_matched-Dominates : (b : Option (Similarity × Entry)) → Dominates b e
      not_matched-Dominates none = m
      not_matched-Dominates (some b) = λ s k. absurd (m s k)

  step-Stepped :
      (e : Entry) (best next : Option (Similarity × Entry))
      → step vectors namespace constraints embedding threshold now e best ≡ some next
      → Stepped e best next
  unfolding step consider
  step-Stepped e best next h = elim (Bool-cases (is_eligible vectors namespace constraints now e)) [
    | inl p ↦ elim (Option-cases (cosine embedding e.embedding)) [
      | inl q ↦ absurd (ground arith)
      | inr (s, q) ↦ elim (Bool-cases (lt s threshold)) [
        | inl r ↦ unmatched e best next (λ x m. ground arith) (ground arith)
        | inr r ↦
            subst (Stepped e best) (ground arith)
              (better-Stepped s e best (is_eligible-IsUsable e p, q, r))
      ]
    ]
    | inr p ↦
        unmatched e best next (λ x m. ground (arith, p, IsUsable-is_eligible e m.0)) (ground arith)
  ]

  abbrev pub Among : Entry → List Entry → Type 0
  Among e [] = ⊥
  Among e (d ∷ entries) = (d ≡ e) ⊎ Among e entries

  abbrev From : List Entry → Option (Similarity × Entry) → Option (Similarity × Entry) → Type 0
  From entries best next =
      (next ≡ best)
      ⊎ ((s : Similarity) × (e : Entry) × (next ≡ some (s, e)) × Matches s e × Among e entries)

  From-step :
      (e : Entry) (entries : List Entry) (best middle next : Option (Similarity × Entry))
      → (middle ≡ best) ⊎ ((s : Similarity) × (middle ≡ some (s, e)) × Matches s e)
      → From entries middle next
      → From (e ∷ entries) best next
  From-step e entries best middle next (inl h) (inl k) = inl (k ∙ h)
  From-step e entries best middle next (inr (s, h, m)) (inl k) = inr (s, e, k ∙ h, m, inl refl)
  From-step e entries best middle next o (inr (s, d, h, m, a)) = inr (s, d, h, m, inr a)

  -- The loop ends on a best that is at least as near as the one it began with, that no matching
  -- entry surpasses, and that is the one it began with or a matching entry of the list.
  abbrev Searched : List Entry → Option (Similarity × Entry) → Option (Similarity × Entry) → Type 0
  Searched entries best next =
      Improves best next × All (Dominates next) entries × From entries best next

  nearest-Searched :
      (entries : List Entry) (best next : Option (Similarity × Entry))
      → nearest vectors namespace constraints embedding threshold now best entries ≡ some next
      → Searched entries best next
  unfolding nearest
  nearest-Searched [] best next h =
      subst (Searched [] best) (some_same h) (Improves-refl best, tt, inl refl)
  nearest-Searched (e ∷ entries) best next h =
      elim (Option-cases (step vectors namespace constraints embedding threshold now e best)) [
        | inl q ↦ absurd (ground arith)
        | inr (middle, q) ↦
            let (i, d, o) = step-Stepped e best middle q in
            let (j, a, w) = nearest-Searched entries middle next (ground arith) in
            (
              Improves-trans best middle next i j,
              (Dominates-Improves middle next e j d, a),
              From-step e entries best middle next o w,
            )
      ]

  -- What a lookup promises: with no answer to give, no entry matches; a hit copies an entry that
  -- matches, and no entry that matches is nearer.
  abbrev pub Best : List Entry → Option (SemanticCacheHit Similarity) → Type 0
  Best entries none = All (λ e. (s : Similarity) → ¬ (Matches s e)) entries
  Best entries (some hit) =
      (e : Entry) × (hit ≡ hit_of vectors (hit.similarity, e))
      × Matches hit.similarity e
      × Among e entries
      × All (λ d. (s : Similarity) → Matches s d → lt hit.similarity s ≡ false) entries

  Searched-Best :
      (entries : List Entry) (next : Option (Similarity × Entry))
      → Searched entries none next
      → Best entries (elim next [ none ↦ none | some b ↦ some (hit_of vectors b) ])
  Searched-Best entries none (i, a, f) = a
  Searched-Best entries (some b) (i, a, inl f) = absurd cc
  Searched-Best entries (some b) (i, a, inr (s, e, h, m, w)) =
      subst (λ x. Best entries (some (hit_of vectors x))) (sym (some_same h))
        (e, refl, m, w, subst (λ x. All (Dominates (some x)) entries) (some_same h) a)

  -- When the semantic lookup answers, it finds nothing just where no entry of the namespace and the
  -- constraints is unexpired and at least as near as the threshold; otherwise it gives the content of
  -- such an entry with its similarity, and none of them is nearer.
  pub lookup-Best :
      (entries : List Entry) (answer : Option (SemanticCacheHit Similarity))
      → lookup vectors namespace constraints embedding threshold now entries ≡ some answer
      → Best entries answer
  unfolding lookup
  lookup-Best entries answer h =
      elim (Option-cases
        (nearest vectors namespace constraints embedding threshold now none entries)) [
          | inl q ↦ absurd (ground arith)
          | inr (none, q) ↦
              let k : none ≡ answer = ground arith in
              subst (Best entries) k
                (Searched-Best entries none (nearest-Searched entries none none q))
          | inr (some b, q) ↦
              let k : some (hit_of vectors b) ≡ answer = ground arith in
              subst (Best entries) k
                (Searched-Best entries (some b) (nearest-Searched entries none (some b) q))
        ]
