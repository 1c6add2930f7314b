-- ===== src/Session/Reads.antt =====
-- The decoders read back what the encoders write.
use ani_session_gateway.Prelude.{
  ℕ, zero, suc, ◌+◌, ◌*◌, ◌/◌, ◌%◌, ◌^◌, ◌<◌, ◌≤◌, ◌≡◌, refl, some, [], ◌∷◌, Bytes, Str, All, ltb,
  ◌==◌, arith, Bool-cases, false, subst, inl, inr, ◌∙◌,
}
use ani_session_gateway.Session.Encoding.{
  hex_digit, hex, base64_std_char, base64, base64_std, decimal_digits, decimal,
}
use ani_session_gateway.Session.Decoding.{
  hex_value, hex_decode, sextet, drop_breaks, base64_groups, base64_std_decode, digits_from,
  parse_uint16, parse_int64,
}

abbrev pub IsByte : ℕ → Type 0
IsByte b = b < 256

hex_value-hex_digit : (n : ℕ) → n < 16 → hex_value (hex_digit n) ≡ some n
unfolding hex_value hex_digit
hex_value-hex_digit n h = ground arith

pub hex_decode-hex : (bs : Bytes) → All IsByte bs → hex_decode (hex bs) ≡ some bs
unfolding hex_decode hex
hex_decode-hex [] h = refl
hex_decode-hex (b ∷ bs) (p, ps) =
    rw
      (
        hex_value-hex_digit (b / 16) (omega arith),
        hex_value-hex_digit (b % 16) (omega arith),
        hex_decode-hex bs ps,
      )
      (ground arith)

sextet-base64_std_char : (n : ℕ) → n < 64 → sextet (base64_std_char n) ≡ some n
unfolding sextet base64_std_char
sextet-base64_std_char n h = ground arith

drop_breaks-cons :
    (n : ℕ) (s : Str)
    → n < 64
    → drop_breaks (base64_std_char n ∷ s) ≡ base64_std_char n ∷ drop_breaks s
unfolding drop_breaks base64_std_char
drop_breaks-cons n s h = ground arith

drop_breaks-base64 :
    (bs : Bytes)
    → All IsByte bs
    → drop_breaks (base64 base64_std_char bs) ≡ base64 base64_std_char bs
unfolding base64
drop_breaks-base64 [] h = unfold drop_breaks in refl
drop_breaks-base64 (a ∷ []) (p, _) =
    rw (drop_breaks-cons (a / 4) _ (omega arith), drop_breaks-cons (a % 4 * 16) _ (omega arith))
      (unfold drop_breaks in refl)
drop_breaks-base64 (a ∷ b ∷ []) (p, (q, _)) =
    rw
      (
        drop_breaks-cons (a / 4) _ (omega arith),
        drop_breaks-cons (a % 4 * 16 + b / 16) _ (omega arith),
        drop_breaks-cons (b % 16 * 4) _ (omega arith),
      )
      (unfold drop_breaks in refl)
drop_breaks-base64 (a ∷ b ∷ c ∷ rest) (p, (q, (r, ps))) =
    rw
      (
        drop_breaks-cons (a / 4) _ (omega arith),
        drop_breaks-cons (a % 4 * 16 + b / 16) _ (omega arith),
        drop_breaks-cons (b % 16 * 4 + c / 64) _ (omega arith),
        drop_breaks-cons (c % 64) _ (omega arith),
        drop_breaks-base64 rest ps,
      )
      refl

base64_groups-base64 :
    (bs : Bytes) → All IsByte bs → base64_groups (base64 base64_std_char bs) ≡ some bs
unfolding base64 base64_groups
base64_groups-base64 [] h = refl
base64_groups-base64 (a ∷ []) (p, _) =
    rw
      (
        sextet-base64_std_char (a / 4) (omega arith),
        sextet-base64_std_char (a % 4 * 16) (omega arith),
      )
      (ground arith)
base64_groups-base64 (a ∷ b ∷ []) (p, (q, _)) =
    rw
      (
        sextet-base64_std_char (a / 4) (omega arith),
        sextet-base64_std_char (a % 4 * 16 + b / 16) (omega arith),
        sextet-base64_std_char (b % 16 * 4) (omega arith),
      )
      (ground arith)
base64_groups-base64 (a ∷ b ∷ c ∷ rest) (p, (q, (r, ps))) =
    rw
      (
        sextet-base64_std_char (a / 4) (omega arith),
        sextet-base64_std_char (a % 4 * 16 + b / 16) (omega arith),
        sextet-base64_std_char (b % 16 * 4 + c / 64) (omega arith),
        sextet-base64_std_char (c % 64) (omega arith),
        base64_groups-base64 rest ps,
      )
      (ground arith)

pub base64_std_decode-base64_std :
    (bs : Bytes) → All IsByte bs → base64_std_decode (base64_std bs) ≡ some bs
unfolding base64_std_decode base64_std
base64_std_decode-base64_std bs h = rw (drop_breaks-base64 bs h) (base64_groups-base64 bs h)

digits_from-decimal_digits :
    (fuel n : ℕ) (rest : Str)
    → n < fuel
    → digits_from 0 (decimal_digits fuel n rest) ≡ digits_from n rest
unfolding decimal_digits
digits_from-decimal_digits zero n rest h = elim h [ ]
digits_from-decimal_digits (suc fuel) n rest h = elim (Bool-cases (ltb n 10)) [
  | inl small ↦ rw small (unfold digits_from in ground arith)
  | inr large ↦ rw large (
      digits_from-decimal_digits fuel (n / 10) ((n % 10 + b'0') ∷ rest) (ground arith)
      ∙ unfold digits_from in ground arith)
]

-- A numeral begins with a digit.
Numeral : Str → Type 0
Numeral s = (c : ℕ) × (cs : Str) × (s ≡ c ∷ cs) × (b'0' ≤ c) × (c ≤ b'9')

decimal_digits-Numeral : (fuel n : ℕ) (rest : Str) → n < fuel → Numeral (decimal_digits fuel n rest)
unfolding decimal_digits Numeral
decimal_digits-Numeral zero n rest h = elim h [ ]
decimal_digits-Numeral (suc fuel) n rest h = elim (Bool-cases (ltb n 10)) [
  | inl small ↦ rw small (n + b'0', rest, refl, omega arith, ground arith)
  | inr large ↦
      rw large (decimal_digits-Numeral fuel (n / 10) ((n % 10 + b'0') ∷ rest) (ground arith))
]

pub digits_from-decimal : (n : ℕ) → digits_from 0 (decimal n) ≡ some n
unfolding decimal
digits_from-decimal n =
    digits_from-decimal_digits (suc n) n [] (omega arith) ∙ unfold digits_from in refl

decimal-Numeral : (n : ℕ) → Numeral (decimal n)
unfolding decimal
decimal-Numeral n = decimal_digits-Numeral (suc n) n [] (omega arith)

parse_uint16-eq :
    (n : ℕ) (s : Str) → n < 2 ^ 16 → Numeral s → digits_from 0 s ≡ some n → parse_uint16 s ≡ n
unfolding parse_uint16 Numeral
parse_uint16-eq n s h (c, cs, e, lo, hi) d =
    rw e (rw (subst (λ t. digits_from 0 t ≡ some n) e d) (ground arith))

pub parse_uint16-decimal : (n : ℕ) → n < 2 ^ 16 → parse_uint16 (decimal n) ≡ n
parse_uint16-decimal n h =
    parse_uint16-eq n (decimal n) h (decimal-Numeral n) (digits_from-decimal n)

parse_int64-eq :
    (n : ℕ) (s : Str) → n < 2 ^ 63 → Numeral s → digits_from 0 s ≡ some n → parse_int64 s ≡ n
unfolding parse_int64 Numeral
parse_int64-eq n s h (c, cs, e, lo, hi) d = rw e (
    let d' = subst (λ t. digits_from 0 t ≡ some n) e d in
    rw (unsigned c b'-' (omega arith), unsigned c b'+' (omega arith), d') (ground arith))
  where
    unsigned : (a b : ℕ) → (b < a) → (a == b) ≡ false
    unsigned a b lt = ground arith

pub parse_int64-decimal : (n : ℕ) → n < 2 ^ 63 → parse_int64 (decimal n) ≡ n
parse_int64-decimal n h = parse_int64-eq n (decimal n) h (decimal-Numeral n) (digits_from-decimal n)
