-- ===== src/Common/Value.antt =====
-- Python objects as they stand in artifacts and JSON payloads, and the builtins that the validators
-- call on them. A float is the decimal fraction m / 10 ^ e that it denotes; a UUID is its number, a
-- datetime its microseconds since the epoch in UTC.
use Prim.Native.Char.{code}
use Prim.Native.Nat.{ℕ, ◌^◌}
use Prim.Native.String.{String, [], ◌∷◌}
use mathlib.Core.Bool.{Bool, true, false, ◌&&◌, ◌||◌}
use mathlib.Core.List.{List}
use mini_alpha.Common.Lists.{any}
use mini_alpha.Common.Tests.{leb, ◌==◌, if◌then◌else◌, nat_eq, string_eq}

-- `negsuc n` is -(n + 1).
pub data ℤ : Type 0 where
  pos : ℕ → ℤ
  negsuc : ℕ → ℤ

mutual
  pub data Value : Type 0 where
    null : Value
    bool : Bool → Value
    int : ℤ → Value
    float : ℤ → ℕ → Value
    str : String → Value
    uuid : ℕ → Value
    datetime : ℕ → Value
    list : Items → Value
    dict : Fields → Value

  pub data Items : Type 0 where
    nil : Items
    cons : Value → Items → Items

  pub data Fields : Type 0 where
    end : Fields
    field : String → Value → Fields → Fields

-- `mapping.get(key)`: `None` for a key that is missing.
abbrev pub get_field : String → Fields → Value
get_field k end = null
get_field k (field j v fs) = if j == k then v else get_field k fs

abbrev pub is_null : Value → Bool
is_null null = true
is_null _ = false

-- Whether every key of a mapping passes the test.
abbrev pub all_keys : (String → Bool) → Fields → Bool
all_keys p end = true
all_keys p (field k v fs) = if p k then all_keys p fs else false

-- The code points of a text.
abbrev pub codes : String → List ℕ
codes [] = List.[]
codes (c ∷ s) = List.◌∷◌ (code c) (codes s)

-- `character.isspace()`.
unfoldable pub is_space : ℕ → Bool
is_space c =
    (leb 9 c && leb c 13)
    || (leb 28 c && leb c 32)
    || c == 133
    || c == 160
    || c == 5760
    || (leb 8192 c && leb c 8202)
    || c == 8232
    || c == 8233
    || c == 8239
    || c == 8287
    || c == 12288

-- `any(character.isspace() for character in text)`.
unfoldable pub has_space : String → Bool
has_space s = any is_space (codes s)

-- `not text.strip()`: stripping leaves nothing just where every character is white space.
unfoldable pub is_blank : String → Bool
is_blank s = if any (λ c. if is_space c then false else true) (codes s) then false else true

-- `value == 1` for a value that is no bool.
abbrev pub is_one : Value → Bool
is_one (int (pos n)) = n == 1
is_one (float (pos m) e) = m == 10 ^ e
is_one _ = false
