-- ===== src/Cache/Policy/Sources.antt =====
-- How long app/cache/policy.py lets an answer live, against the ages of the answer's sources.
use mini_alpha.Cache.Models.{CachePolicyDecision}
use mini_alpha.Cache.Policy.Types.{IsKnown, canonical_artifact_type-IsKnown}
use mini_alpha.Cache.Policy.{
  artifact_ttl_seconds, canonical_artifact_type, seconds, Check, Instant, not_iso, too_far, instant,
  refused, failed, fresh, Scan, stopped, raised, scanned, decided, source_timestamp, check_age,
  check_source, check_data, check_type, check_artifact, append_check, decide_scan, scan, min_of,
  evaluate_artifact_ttl, is_ok, text_or_empty,
}
use mini_alpha.Common.Dict
use mini_alpha.Common.Value.{
  Value, Fields, null, bool, int, float, uuid, list, str, datetime, dict, get_field,
}
use mini_alpha.Common.{
  ℕ, String, ◌+◌, ◌-◌, ◌*◌, ◌/◌, ◌≤◌, ◌≡◌, refl, Bool, true, false, Option, none, some, List, [],
  ◌∷◌, nat_eq, string_eq, ltb, leb, map, All, arith, Bool-cases, subst, sym, inl, inr,
  if◌then◌else◌,
}

is_ok-true : (v : Value) → is_ok v ≡ true → v ≡ str "ok"
unfolding is_ok
is_ok-true (str s) h = ground (arith, string_eq.beq_iff s "ok")
is_ok-true null h = cc
is_ok-true (bool _) h = cc
is_ok-true (int _) h = cc
is_ok-true (float _ _) h = cc
is_ok-true (uuid _) h = cc
is_ok-true (datetime _) h = cc
is_ok-true (list _) h = cc
is_ok-true (dict _) h = cc

All-below-min_of : (m x : ℕ) (ys : List ℕ) → m ≤ min_of x ys → (m ≤ x) × All (λ y. m ≤ y) ys
unfolding min_of
All-below-min_of m x [] h = (h, tt)
All-below-min_of m x (y ∷ ys) h =
    let (u, v) = All-below-min_of m (if ltb y x then y else x) ys h in
    (ground arith, (ground arith, v))

le-min_of : (n x : ℕ) (ys : List ℕ) → n ≤ x → All (λ y. n ≤ y) ys → n ≤ min_of x ys
unfolding min_of
le-min_of n x [] h k = h
le-min_of n x (y ∷ ys) h k = elim (Bool-cases (ltb y x)) [
  | inl e ↦ rw e (le-min_of n y ys k.0 k.1)
  | inr e ↦ rw e (le-min_of n x ys h k.1)
]

check_age-fresh :
    (current : ℕ) (name : String) (base t remaining time : ℕ) (type : String)
    → check_age current name (some base) t ≡ fresh remaining time type
    → (remaining + (current - t) / 1000000 ≤ base) × (1 ≤ remaining)
unfolding check_age
check_age-fresh current name base t remaining time type h =
    elim (Bool-cases (leb base ((current - t) / 1000000))) [
      | inl e ↦ absurd (ground arith)
      | inr e ↦ (ground arith, ground arith)
    ]

check_source-fresh :
    (current : ℕ) (name : String) (base : ℕ) (source : Instant) (remaining time : ℕ) (type : String)
    → check_source current name (some base) source ≡ fresh remaining time type
    → (t : ℕ) × (source ≡ instant t)
      × (t ≤ current + seconds (5 * 60))
      × (remaining + (current - t) / 1000000 ≤ base)
      × (1 ≤ remaining)
unfolding check_source
check_source-fresh current name base not_iso remaining time type h = absurd cc
check_source-fresh current name base too_far remaining time type h = absurd cc
check_source-fresh current name base (instant t) remaining time type h =
    elim (Bool-cases (ltb (current + seconds (5 * 60)) t)) [
      | inl e ↦ absurd (ground arith)
      | inr e ↦
          let (u, v) = check_age-fresh current name base t remaining time type (ground arith) in
          (t, refl, ground arith, u, v)
    ]

the_list : {xs ys : List (ℕ × ℕ × String)} → scanned xs ≡ scanned ys → xs ≡ ys
the_list h = ground arith

module _ (from_iso : String → Instant) (current : ℕ) where
  -- The artifact succeeded, and reusing it for that many more seconds keeps its source, which the
  -- table knows, within the time that the table gives.
  abbrev pub Supports : ℕ → Fields → Type 0
  Supports ttl artifact =
      (get_field "status" artifact ≡ str "ok")
      × (d : Fields) × (retrieved_at : ℕ) × (name : String) × (base : ℕ) × (get_field "data"
            artifact
          ≡ dict d)
      × (source_timestamp from_iso d ≡ instant retrieved_at)
      × (canonical_artifact_type (get_field "artifact_type" artifact) ≡ some name)
      × (Dict.get name artifact_ttl_seconds ≡ some base)
      × (retrieved_at ≤ current + seconds (5 * 60))
      × (ttl + (current - retrieved_at) / 1000000 ≤ base)

  Supports-le : (m n : ℕ) (a : Fields) → m ≤ n → Supports n a → Supports m a
  Supports-le m n a h (s, d, t, name, base, e, f, g, k, l, u) =
      (s, d, t, name, base, e, f, g, k, l, omega arith)

  abbrev Sourced : ℕ → String → Value → Type 0
  Sourced remaining canonical_type contents =
      (d : Fields) × (t : ℕ) × (base : ℕ) × (contents ≡ dict d)
      × (source_timestamp from_iso d ≡ instant t)
      × (Dict.get canonical_type artifact_ttl_seconds ≡ some base)
      × (t ≤ current + seconds (5 * 60))
      × (remaining + (current - t) / 1000000 ≤ base)
      × (1 ≤ remaining)

  check_data-fresh :
      (name canonical_type : String) (contents : Value) (remaining time : ℕ) (type : String)
      → IsKnown canonical_type
      → check_data from_iso current name canonical_type contents ≡ fresh remaining time type
      → Sourced remaining canonical_type contents
  unfolding check_data
  check_data-fresh name canonical_type (dict d) remaining time type (base, k) h =
      let (t, e, u, v, w) =
        check_source-fresh current name base (source_timestamp from_iso d) remaining time type (
          subst
            (λ b.
              check_source current name b (source_timestamp from_iso d) ≡ fresh remaining time type)
            k h) in
      (d, t, base, refl, e, k, u, v, w)
  check_data-fresh name canonical_type null remaining time type k h = absurd cc
  check_data-fresh name canonical_type (bool _) remaining time type k h = absurd cc
  check_data-fresh name canonical_type (int _) remaining time type k h = absurd cc
  check_data-fresh name canonical_type (float _ _) remaining time type k h = absurd cc
  check_data-fresh name canonical_type (str _) remaining time type k h = absurd cc
  check_data-fresh name canonical_type (uuid _) remaining time type k h = absurd cc
  check_data-fresh name canonical_type (datetime _) remaining time type k h = absurd cc
  check_data-fresh name canonical_type (list _) remaining time type k h = absurd cc

  check_type-fresh :
      (name : String) (canonical_type : Option String) (contents : Value) (remaining time : ℕ)
      (type : String)
      → ((c : String) → canonical_type ≡ some c → IsKnown c)
      → check_type from_iso current name canonical_type contents ≡ fresh remaining time type
      → (c : String) × (canonical_type ≡ some c) × Sourced remaining c contents
  unfolding check_type
  check_type-fresh name none contents remaining time type k h = absurd cc
  check_type-fresh name (some c) contents remaining time type k h =
      (c, refl, check_data-fresh name c contents remaining time type (k c refl) h)

  check_artifact-fresh :
      (a : Fields) (remaining time : ℕ) (type : String)
      → check_artifact from_iso current a ≡ fresh remaining time type
      → Supports remaining a × (1 ≤ remaining)
  unfolding check_artifact
  check_artifact-fresh a remaining time type h = elim (Bool-cases (is_ok (get_field "status" a))) [
    | inl e ↦
        let (c, q, (d, t, base, f, g, b, u, v, w)) =
          check_type-fresh (text_or_empty (get_field "artifact_type" a)) _ (get_field "data" a)
            remaining time type (canonical_artifact_type-IsKnown (get_field "artifact_type" a))
            (ground arith) in
        ((is_ok-true _ e, d, t, c, base, f, g, q, b, u, v), w)
    | inr e ↦ absurd (ground arith)
  ]

  append_check-scanned :
      (c : Check) (s : Scan) (rs : List (ℕ × ℕ × String))
      → append_check c s ≡ scanned rs
      → (r : ℕ) × (t : ℕ) × (n : String) × (rest : List (ℕ × ℕ × String)) × (c ≡ fresh r t n)
        × (s ≡ scanned rest)
        × (rs ≡ (r, t, n) ∷ rest)
  append_check-scanned (refused _) s rs h = absurd cc
  append_check-scanned (failed _) s rs h = absurd cc
  append_check-scanned (fresh r t n) (scanned rest) rs h = (r, t, n, rest, refl, refl, cc)
  append_check-scanned (fresh r t n) (stopped _) rs h = absurd cc
  append_check-scanned (fresh r t n) (raised _) rs h = absurd cc

  abbrev Within : ℕ → List (ℕ × ℕ × String) → Type 0
  Within ttl rs = All (λ r. ttl ≤ r) (map (λ r. r.0) rs)

  scan-scanned :
      (artifacts : List Fields) (rs : List (ℕ × ℕ × String))
      → scan from_iso current artifacts ≡ scanned rs
      → Within 1 rs × ((ttl : ℕ) → Within ttl rs → All (Supports ttl) artifacts)
  unfolding scan
  scan-scanned [] rs h = (subst (Within 1) (the_list h) tt, λ ttl k. tt)
  scan-scanned (a ∷ artifacts) rs h =
      let (r, t, n, rest, e, f, g) =
        append_check-scanned _ (scan from_iso current artifacts) rs h in
      let (u, v) = check_artifact-fresh a r t n e in
      let (w, x) = scan-scanned artifacts rest f in
      (
        subst (Within 1) (sym g) (v, w),
        λ ttl k.
            let l : Within ttl ((r, t, n) ∷ rest) = subst (Within ttl) g k in
            (Supports-le ttl r a l.0 u, x ttl l.1),
      )

  abbrev Answered : Fields → List Fields → CachePolicyDecision → Type 0
  Answered a artifacts d =
      (1 ≤ d.ttl_seconds)
      × (d.expires_at ≡ some (current + seconds d.ttl_seconds))
      × All (Supports d.ttl_seconds) (a ∷ artifacts)

  the_decision : {d e : CachePolicyDecision} → decided d ≡ decided e → d ≡ e
  the_decision h = ground arith

  Within-min :
      (first : ℕ × ℕ × String) (rest : List (ℕ × ℕ × String))
      → Within (min_of first.0 (map (λ r. r.0) rest)) (first ∷ rest)
  Within-min first rest = All-below-min_of _ first.0 (map (λ r. r.0) rest) (omega arith)

  decide_scan-Answered :
      (a : Fields) (artifacts : List Fields) (d : CachePolicyDecision) (s : Scan)
      → scan from_iso current (a ∷ artifacts) ≡ s
      → decide_scan current s ≡ decided d
      → d.cacheable ≡ true
      → Answered a artifacts d
  unfolding scan
  decide_scan-Answered a artifacts d (stopped reason) e h c =
      absurd (ground (arith, the_decision h))
  decide_scan-Answered a artifacts d (raised _) e h c = absurd cc
  decide_scan-Answered a artifacts d (scanned []) e h c = absurd (
      let (r, t, n, rest, x, y, z) =
        append_check-scanned _ (scan from_iso current artifacts) [] e in
      cc)
  decide_scan-Answered a artifacts d (scanned (first ∷ rest)) e h c =
      let (w, x) = scan-scanned (a ∷ artifacts) (first ∷ rest) e in
      subst (Answered a artifacts) (the_decision h) (
        le-min_of 1 first.0 (map (λ r. r.0) rest) w.0 w.1,
        refl,
        x (min_of first.0 (map (λ r. r.0) rest)) (Within-min first rest),
      )

  -- When the policy accepts an answer that has artifacts, the answer is complete, its time to live is
  -- positive and ends at the expiry that the policy gives, and every artifact succeeded and has a
  -- source whose age, when the answer expires, is still within the time that the table gives.
  pub evaluate_artifact_ttl-supported :
      (complete : Bool) (a : Fields) (artifacts : List Fields) (d : CachePolicyDecision)
      → evaluate_artifact_ttl from_iso current complete (a ∷ artifacts) ≡ decided d
      → d.cacheable ≡ true
      → (complete ≡ true)
        × (1 ≤ d.ttl_seconds)
        × (d.expires_at ≡ some (current + seconds d.ttl_seconds))
        × All (Supports d.ttl_seconds) (a ∷ artifacts)
  unfolding evaluate_artifact_ttl
  evaluate_artifact_ttl-supported false a artifacts d h c = absurd (ground (arith, the_decision h))
  evaluate_artifact_ttl-supported true a artifacts d h c =
      let (u, v, w) = decide_scan-Answered a artifacts d _ refl h c in (refl, u, v, w)
