-- ===== src/Session/Decoding.antt =====
-- What the standard library reads back: `hex.DecodeString`, `base64.RawStdEncoding.DecodeString`,
-- `strconv.ParseBool`, and `strconv.ParseUint` and `strconv.ParseInt` to the base ten. `none` is an
-- error.

use ani_session_gateway.Prelude.{
  ℕ, ◌+◌, ◌-◌, ◌*◌, ◌/◌, ◌%◌, ◌^◌, Bool, ◌&&◌, ◌||◌, Option, none, some, [], ◌∷◌, Str, Bytes, str,
  str_eq, leb, ◌==◌, if◌then◌else◌,
}

abbrev pub both {ℓ} : {A B C : Type ℓ} → (A → B → C) → Option A → Option B → Option C
both f (some a) (some b) = some (f a b)
both f (some a) none = none
both f none o = none

abbrev between : ℕ → ℕ → ℕ → Bool
between lo hi c = leb lo c && leb c hi

unfoldable pub hex_value : ℕ → Option ℕ
hex_value c =
    if between b'0' b'9' c
    then some (c - b'0')
    else if between b'a' b'f' c
    then some (c - b'a' + 10)
    else if between b'A' b'F' c
    then some (c - b'A' + 10)
    else none

unfoldable pub hex_decode : Str → Option Bytes
unfolding hex_value
hex_decode [] = some []
hex_decode (c ∷ []) = none
hex_decode (c ∷ d ∷ rest) =
    both (λ b bs. b ∷ bs) (both (λ h l. h * 16 + l) (hex_value c) (hex_value d)) (hex_decode rest)

unfoldable pub sextet : ℕ → Option ℕ
sextet c =
    if between b'A' b'Z' c
    then some (c - b'A')
    else if between b'a' b'z' c
    then some (c - b'a' + 26)
    else if between b'0' b'9' c
    then some (c - b'0' + 52)
    else if c == b'+'
    then some 62
    else if c == b'/'
    then some 63
    else none

-- Line breaks are skipped.
unfoldable pub drop_breaks : Str → Str
drop_breaks [] = []
drop_breaks (c ∷ cs) = let rest = drop_breaks cs in if c == 10 || c == 13 then rest else c ∷ rest

abbrev pub one_byte : Option ℕ → Option ℕ → Option Bytes
one_byte (some x) (some y) = some ((x * 4 + y / 16) ∷ [])
one_byte _ _ = none

abbrev pub two_bytes : Option ℕ → Option ℕ → Option ℕ → Option Bytes
two_bytes (some x) (some y) (some z) = some ((x * 4 + y / 16) ∷ (y % 16 * 16 + z / 4) ∷ [])
two_bytes _ _ _ = none

abbrev pub three_bytes : Option ℕ → Option ℕ → Option ℕ → Option ℕ → Option Bytes → Option Bytes
three_bytes (some x) (some y) (some z) (some w) (some rest) =
    some ((x * 4 + y / 16) ∷ (y % 16 * 16 + z / 4) ∷ (z % 4 * 64 + w) ∷ rest)
three_bytes _ _ _ _ _ = none

unfoldable pub base64_groups : Str → Option Bytes
unfolding sextet
base64_groups [] = some []
base64_groups (a ∷ []) = none
base64_groups (a ∷ b ∷ []) = one_byte (sextet a) (sextet b)
base64_groups (a ∷ b ∷ c ∷ []) = two_bytes (sextet a) (sextet b) (sextet c)
base64_groups (a ∷ b ∷ c ∷ d ∷ rest) =
    three_bytes (sextet a) (sextet b) (sextet c) (sextet d) (base64_groups rest)

unfoldable pub base64_std_decode : Str → Option Bytes
unfolding drop_breaks base64_groups
base64_std_decode s = base64_groups (drop_breaks s)

unfoldable pub digits_from : ℕ → Str → Option ℕ
digits_from n [] = some n
digits_from n (c ∷ cs) =
    let rest = digits_from (n * 10 + (c - b'0')) cs in if between b'0' b'9' c then rest else none

abbrev digits : Str → Option ℕ
digits [] = none
digits (c ∷ cs) = digits_from 0 (c ∷ cs)

abbrev or_else_zero : Option ℕ → ℕ
or_else_zero none = 0
or_else_zero (some n) = n

abbrev at_most : ℕ → ℕ → ℕ
at_most limit n = if leb n limit then n else limit

-- The value beside the error too, which the code drops: 0 for a text that is no number, and the
-- largest value for a number out of range.
unfoldable pub parse_uint16 : Str → ℕ
unfolding digits_from
parse_uint16 s = at_most 65535 (or_else_zero (digits s))

-- The model has no times before the epoch, so a text with a minus sign reads as 0 here.
unfoldable pub parse_int64 : Str → ℕ
unfolding digits_from
parse_int64 [] = 0
parse_int64 (c ∷ cs) =
    at_most (2 ^ 63 - 1)
      (or_else_zero (if c == b'-' then none else if c == b'+' then digits cs else digits (c ∷ cs)))

unfoldable pub parse_bool : Str → Bool
parse_bool s =
    str_eq s (str "1")
    || str_eq s (str "t")
    || str_eq s (str "T")
    || str_eq s (str "true")
    || str_eq s (str "TRUE")
    || str_eq s (str "True")
