-- ===== src/WebSocket/Headers.antt =====
-- The subprotocols that a client offers: `offersSubprotocol` of
-- internal/transport/websocket/handler.go, with the parts of package strings that it uses.
use ani_session_gateway.Prelude.{
  ℕ, ◌≡◌, refl, Bool, true, false, ◌&&◌, ◌||◌, ◌==◌, leb, if◌then◌else◌, List, [], ◌∷◌, ◌++◌, Str,
  str, str_eq,
}

-- The white space of Unicode in UTF-8, by its number of bytes.
abbrev space1 : ℕ → Bool
space1 a = (leb 9 a && leb a 13) || a == 32

abbrev space2 : ℕ → ℕ → Bool
space2 a b = a == 194 && (b == 133 || b == 160)

abbrev space3 : ℕ → ℕ → ℕ → Bool
space3 a b c =
    (a == 225 && (b == 154 && c == 128))
    || (a == 226
        && (b == 128 && ((leb 128 c && leb c 138) || (c == 168 || (c == 169 || c == 175)))))
    || (a == 226 && (b == 129 && c == 159))
    || (a == 227 && (b == 128 && c == 128))

-- The start of a string without its white space.
unfoldable pub trim_left : Str → Str
trim_left [] = []
trim_left (a ∷ []) = if space1 a then [] else a ∷ []
trim_left (a ∷ b ∷ []) =
    let one = trim_left (b ∷ []) in if space1 a then one else if space2 a b then [] else a ∷ b ∷ []
trim_left (a ∷ b ∷ c ∷ rest) =
    let one = trim_left (b ∷ c ∷ rest) in
    let two = trim_left (c ∷ rest) in
    let three = trim_left rest in
    if space1 a
    then one
    else if space2 a b
    then two
    else if space3 a b c
    then three
    else a ∷ b ∷ c ∷ rest

-- The same on a string that is read from its end.
unfoldable pub trim_reversed : Str → Str
trim_reversed [] = []
trim_reversed (a ∷ []) = if space1 a then [] else a ∷ []
trim_reversed (a ∷ b ∷ []) =
    let one = trim_reversed (b ∷ []) in
    if space1 a then one else if space2 b a then [] else a ∷ b ∷ []
trim_reversed (a ∷ b ∷ c ∷ rest) =
    let one = trim_reversed (b ∷ c ∷ rest) in
    let two = trim_reversed (c ∷ rest) in
    let three = trim_reversed rest in
    if space1 a
    then one
    else if space2 b a
    then two
    else if space3 c b a
    then three
    else a ∷ b ∷ c ∷ rest

unfoldable pub reverse_onto : Str → Str → Str
reverse_onto [] ys = ys
reverse_onto (x ∷ xs) ys = reverse_onto xs (x ∷ ys)

-- `strings.TrimSpace`.
unfoldable pub trim_space : Str → Str
unfolding trim_left trim_reversed reverse_onto
trim_space s = reverse_onto (trim_reversed (reverse_onto (trim_left s) [])) []

abbrev first_piece : ℕ → List Str → List Str
first_piece a [] = (a ∷ []) ∷ []
first_piece a (piece ∷ pieces) = (a ∷ piece) ∷ pieces

-- `strings.Split(s, ",")`: the pieces between the commas, at least one.
unfoldable pub split_commas : Str → List Str
split_commas [] = [] ∷ []
split_commas (a ∷ rest) =
    if a == b',' then [] ∷ split_commas rest else first_piece a (split_commas rest)

-- The loop over the pieces.
unfoldable pub any_offers : List Str → Str → Bool
any_offers [] expected = false
any_offers (candidate ∷ rest) expected =
    if str_eq (trim_space candidate) expected then true else any_offers rest expected

unfoldable pub offers_subprotocol : Str → Str → Bool
unfolding any_offers
offers_subprotocol raw expected = any_offers (split_commas raw) expected

-- The pieces put together again.
pub join : List Str → Str
join [] = []
join (piece ∷ []) = piece
join (piece ∷ next ∷ rest) = piece ++ (b',' ∷ join (next ∷ rest))

offers_test : offers_subprotocol (str "chat, \tani.vnc.v1 ") (str "ani.vnc.v1") ≡ true
unfolding offers_subprotocol any_offers split_commas trim_space trim_left trim_reversed reverse_onto
    str_eq
offers_test = refl
