-- ===== src/Session/Encoding.antt =====
-- The encodings of the standard library that the code uses: unpadded base64 (`base64.RawURLEncoding`
-- and `base64.RawStdEncoding`), hexadecimal (`%x`), decimal (`%d`) and big-endian `uint32`.
use ani_session_gateway.Prelude.{
  ℕ, zero, suc, ◌+◌, ◌-◌, ◌*◌, ◌/◌, ◌%◌, ◌^◌, ◌≡◌, refl, [], ◌∷◌, Str, Bytes, str, ℤ, pos, negsuc,
  ltb, if◌then◌else◌,
}

-- The character of six bits, in the URL-safe alphabet and in the standard one.
pub base64_char : ℕ → ℕ
base64_char n =
    if ltb n 26
    then n + b'A'
    else if ltb n 52
    then n - 26 + b'a'
    else if ltb n 62
    then n - 52 + b'0'
    else if ltb n 63
    then b'-'
    else b'_'

unfoldable pub base64_std_char : ℕ → ℕ
base64_std_char n =
    if ltb n 26
    then n + b'A'
    else if ltb n 52
    then n - 26 + b'a'
    else if ltb n 62
    then n - 52 + b'0'
    else if ltb n 63
    then b'+'
    else b'/'

unfoldable pub base64 : (ℕ → ℕ) → Bytes → Str
base64 char [] = []
base64 char (a ∷ []) = char (a / 4) ∷ char (a % 4 * 16) ∷ []
base64 char (a ∷ b ∷ []) = char (a / 4) ∷ char (a % 4 * 16 + b / 16) ∷ char (b % 16 * 4) ∷ []
base64 char (a ∷ b ∷ c ∷ rest) =
    char (a / 4)
    ∷ char (a % 4 * 16 + b / 16)
    ∷ char (b % 16 * 4 + c / 64)
    ∷ char (c % 64)
    ∷ base64 char rest

unfoldable pub base64_url : Bytes → Str
unfolding base64 base64_char
base64_url = base64 base64_char

unfoldable pub base64_std : Bytes → Str
unfolding base64 base64_std_char
base64_std = base64 base64_std_char

unfoldable pub hex_digit : ℕ → ℕ
hex_digit n = if ltb n 10 then n + b'0' else n - 10 + b'a'

unfoldable pub hex : Bytes → Str
unfolding hex_digit
hex [] = []
hex (b ∷ bs) = hex_digit (b / 16) ∷ hex_digit (b % 16) ∷ hex bs

-- The digits of a number, most significant first, before those in `rest`.
unfoldable pub decimal_digits : ℕ → ℕ → Str → Str
decimal_digits zero n rest = rest
decimal_digits (suc fuel) n rest =
    let more = decimal_digits fuel (n / 10) ((n % 10 + b'0') ∷ rest) in
    if ltb n 10 then (n + b'0') ∷ rest else more

-- A number has fewer digits than itself plus one, which is the fuel.
unfoldable pub decimal : ℕ → Str
unfolding decimal_digits
decimal n = decimal_digits (suc n) n []

unfoldable pub decimal_int : ℤ → Str
unfolding decimal
decimal_int (pos n) = decimal n
decimal_int (negsuc n) = b'-' ∷ decimal (suc n)

-- `binary.BigEndian.PutUint32` of a length, which the conversion to `uint32` takes modulo 2 ^ 32.
unfoldable pub be_uint32 : ℕ → Bytes
be_uint32 n = n / 2 ^ 24 % 256 ∷ n / 2 ^ 16 % 256 ∷ n / 2 ^ 8 % 256 ∷ n % 256 ∷ []

base64_test : base64_url (str "Man ") ≡ str "TWFuIA"
unfolding base64_url
base64_test = refl

decimal_test : decimal 4096 ≡ str "4096"
unfolding decimal
decimal_test = refl

hex_test : hex (0 ∷ 255 ∷ 26 ∷ []) ≡ str "00ff1a"
unfolding hex
hex_test = refl
