-- ===== src/Cache/Stores/Exact.antt =====
-- What the exact cache of app/cache/stores.py answers after a write.
use mini_alpha.Cache.Policy.{seconds}
use mini_alpha.Cache.Stores.{ExactCache, ExactEntry, get, set, unexpired}
use mini_alpha.Common.Dict
use mini_alpha.Common.Value.{Fields}
use mini_alpha.Common.{
  ℕ, String, ◌+◌, ◌≡◌, refl, Option, none, some, ◌==◌, string_eq, ltb, leb, if◌then◌else◌,
  Bool-cases, inl, inr,
}

-- The answer to a read does not depend on the other entries.
unexpired-answer :
    (now : ℕ) (key : String) (a b : ExactCache) (o : Option ExactEntry)
    → (unexpired now key a o).0 ≡ (unexpired now key b o).0
unexpired-answer now key a b none = refl
unexpired-answer now key a b (some entry) = elim (Bool-cases (leb entry.expires_at now)) [
  | inl e ↦ rw e refl
  | inr e ↦ rw e refl
]

unexpired-some :
    (now : ℕ) (key : String) (entries : ExactCache) (payload : Fields) (t : ℕ)
    → (unexpired now key entries (some (record { payload = payload; expires_at = t }))).0
      ≡ (if leb t now then none else some payload)
unexpired-some now key entries payload t = elim (Bool-cases (leb t now)) [
  | inl e ↦ rw e refl
  | inr e ↦ rw e refl
]

-- A read after a write with a positive time to live answers, for the key written, the payload
-- strictly before the expiry and nothing from then on, and for any other key what it answered before
-- the write; a write with no time to live changes no answer.
pub get-set :
    (now later : ℕ) (key other : String) (payload : Fields) (ttl : ℕ) (entries : ExactCache)
    → (get later other (set now key payload ttl entries)).0 ≡ (
        if ltb ttl 1
        then (get later other entries).0
        else if key == other
        then (if leb (now + seconds ttl) later then none else some payload)
        else (get later other entries).0)
unfolding get set
get-set now later key other payload ttl entries =
    let entry : ExactEntry = record { payload = payload; expires_at = now + seconds ttl } in
    elim (Bool-cases (ltb ttl 1)) [
      | inl e ↦ rw e refl
      | inr e ↦ elim (Bool-cases (key == other)) [
        | inl f ↦
            rw (e, Dict.get-put key other entry entries, f)
              (unexpired-some later other (Dict.put key entry entries) payload (now + seconds ttl))
        | inr f ↦
            rw (e, Dict.get-put key other entry entries, f)
              (unexpired-answer later other (Dict.put key entry entries) entries
                (Dict.get other entries))
      ]
    ]
