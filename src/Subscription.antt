-- ===== src/Subscription.antt =====
-- app/utils/jwt.py: the tokens of subscriptions. A token is the list of its characters' codes, and a name the
-- list of the bytes of its UTF-8.
pub mod Base64
pub mod Decimal
pub mod Encoded
pub mod Printed
pub mod RoundTrip
pub mod Signed
use marzban.Common.{
  ℕ, zero, suc, ◌+◌, ◌-◌, Bool, true, false, not, ◌&&◌, ◌||◌, Option, none, some, List, [], ◌∷◌,
  ◌++◌, ltb, leb, ◌==◌, if◌then◌else◌, length, str_eq, String, All, ◌<◌, ◌≡◌,
}
use marzban.Common.Int.{ℤ, pos, negsuc}
use marzban.Subscription.Base64.{Bytes, b64encode, b64decode}
use marzban.Subscription.Decimal.{decimal, parse_int}

-- `{"username": ..., "created_at": ...}`; the time is in seconds since 1970.
pub record SubscriptionPayload : Type 0 where
  pub username : Bytes
  pub created_at : ℤ

-- What the function raises.
pub data TokenFault : Type 0 where
  index_error value_error key_error : TokenFault

pub data Reading : Type 0 where
  answer : Option SubscriptionPayload → Reading
  raises : TokenFault → Reading

-- The claims of a JWT, of which the payload may lack each.
pub record Claims : Type 0 where
  pub access : Option String
  pub sub : Option Bytes
  pub iat : Option ℤ

-- `s[:n]`, `s[n:]`
abbrev pub take_bytes : ℕ → Bytes → Bytes
take_bytes zero s = []
take_bytes (suc n) [] = []
take_bytes (suc n) (c ∷ s) = c ∷ take_bytes n s

abbrev pub drop_bytes : ℕ → Bytes → Bytes
drop_bytes zero s = s
drop_bytes (suc n) [] = []
drop_bytes (suc n) (c ∷ s) = drop_bytes n s

-- `s.startswith(p)`
abbrev pub starts_with : Bytes → Bytes → Bool
starts_with [] s = true
starts_with (c ∷ p) [] = false
starts_with (c ∷ p) (d ∷ s) = (c == d) && starts_with p s

abbrev pub bytes_eq : Bytes → Bytes → Bool
bytes_eq [] [] = true
bytes_eq (c ∷ s) (d ∷ t) = (c == d) && bytes_eq s t
bytes_eq _ _ = false

-- `s.split(',')[0]`
unfoldable pub before_comma : Bytes → Bytes
before_comma [] = []
before_comma (c ∷ s) = let rest = c ∷ before_comma s in if c == b',' then [] else rest

-- What follows the first comma; `none` if there is none.
unfoldable pub after_comma : Bytes → Option Bytes
after_comma [] = none
after_comma (c ∷ s) = let rest = after_comma s in if c == b',' then some s else rest

-- A byte that continues a character.
abbrev continues : ℕ → Bool
continues c = leb 128 c && leb c 191

-- The ranges of the first two bytes of a character of two, three or four.
abbrev pub of_two : ℕ → ℕ → Bool
of_two a b = leb 194 a && leb a 223 && continues b

abbrev pub of_three : ℕ → ℕ → Bool
of_three a b =
    leb 224 a
    && leb a 239
    && continues b
    && not ((a == 224) && ltb b 160)
    && not ((a == 237) && leb 160 b)

abbrev pub of_four : ℕ → ℕ → Bool
of_four a b =
    leb 240 a
    && leb a 244
    && continues b
    && not ((a == 240) && ltb b 144)
    && not ((a == 244) && leb 144 b)

-- Whether `decode('utf-8')` accepts the bytes.
unfoldable pub is_utf8 : Bytes → Bool
is_utf8 [] = true
is_utf8 (a ∷ []) = ltb a 128
is_utf8 (a ∷ b ∷ []) = (ltb a 128 && is_utf8 (b ∷ [])) || of_two a b
is_utf8 (a ∷ b ∷ c ∷ []) =
    (ltb a 128 && is_utf8 (b ∷ c ∷ []))
    || (of_two a b && is_utf8 (c ∷ []))
    || (of_three a b && continues c)
is_utf8 (a ∷ b ∷ c ∷ d ∷ s) =
    (ltb a 128 && is_utf8 (b ∷ c ∷ d ∷ s))
    || (of_two a b && is_utf8 (c ∷ d ∷ s))
    || (of_three a b && continues c && is_utf8 (d ∷ s))
    || (of_four a b && continues c && continues d && is_utf8 s)

-- `eyJhbGciOiJIUzI1NiIsInR5cCI6IkpXVCJ9.`
abbrev pub jwt_prefix : Bytes
jwt_prefix =
    101 ∷ 121 ∷ 74 ∷ 104 ∷ 98 ∷ 71 ∷ 99 ∷ 105 ∷ 79 ∷ 105 ∷ 74 ∷ 73 ∷ 85 ∷ 122 ∷ 73 ∷ 49 ∷ 78 ∷ 105
    ∷ 73 ∷ 115 ∷ 73 ∷ 110 ∷ 82 ∷ 53 ∷ 99 ∷ 67 ∷ 73 ∷ 54 ∷ 73 ∷ 107 ∷ 112 ∷ 88 ∷ 86 ∷ 67 ∷ 74 ∷ 57
    ∷ 46 ∷ []

-- What is given: the secret key, sha256, which answers 32 bytes, and the claims of a JWT that PyJWT
-- accepts with that key.
pub record Secret : Type 0 where
  pub key : Bytes
  pub sha256 : Bytes → Bytes
  pub jwt : Bytes → Option Claims
  pub length-sha256 : (s : Bytes) → length (sha256 s) ≡ 32
  pub bytes-sha256 : (s : Bytes) → All (λ c. c < 256) (sha256 s)

-- The signature of an encoded text. The padding of a digest is behind its first ten characters.
unfoldable pub sign : Secret → Bytes → Bytes
unfolding b64encode
sign k s = take_bytes 10 (b64encode (k.sha256 (s ++ k.key)))

-- `create_subscription_token`, at a time that is rounded up.
unfoldable pub create_subscription_token : Secret → Bytes → ℕ → Bytes
unfolding b64encode decimal sign
create_subscription_token k username now =
    let text = b64encode (username ++ b',' ∷ decimal now) in text ++ sign k text

-- `datetime.utcfromtimestamp`, of the years 1 to 9999.
abbrev pub in_calendar : ℤ → Bool
in_calendar (pos n) = leb n 253402300799
in_calendar (negsuc n) = ltb n 62135596800

-- The answer for a name and a time. Outside the calendar is a ValueError, or an OverflowError far outside,
-- which is not told apart.
abbrev pub payload_of : Bytes → ℤ → Reading
payload_of name time =
    if in_calendar time
    then answer (some (record { username = name; created_at = time }))
    else raises value_error

abbrev pub read_time : Bytes → Option ℤ → Reading
read_time name none = raises value_error
read_time name (some time) = payload_of name time

-- The two parts of the text of a token that was signed. A text without a second part is the IndexError
-- of `[1]`.
unfoldable pub read_parts : Bytes → Option Bytes → Reading
unfolding before_comma parse_int
read_parts name none = raises index_error
read_parts name (some rest) = read_time name (parse_int (before_comma rest))

unfoldable pub read_data : Bytes → Reading
unfolding read_parts before_comma after_comma
read_data s = read_parts (before_comma s) (after_comma s)

unfoldable pub read_decoded : Bool → Option Bytes → Reading
unfolding is_utf8 read_data
read_decoded valid none = answer none
read_decoded valid (some s) = if is_utf8 s && valid then read_data s else answer none

-- The decoding, which answers None for what is no UTF-8 in base 64, and then the signature.
unfoldable pub read_signed : Secret → Bytes → Bytes → Reading
unfolding b64decode read_decoded sign
read_signed k data_part signature =
    read_decoded (bytes_eq signature (sign k data_part)) (b64decode data_part)

abbrev pub read_claims : Claims → Reading
read_claims c = elim c.sub [
  | none ↦ raises key_error
  | some name ↦ elim c.iat [ none ↦ raises key_error | some time ↦ payload_of name time ]
]

abbrev pub is_subscription : Option String → Bool
is_subscription none = false
is_subscription (some access) = str_eq access "subscription"

-- The tokens of earlier releases.
unfoldable pub read_jwt : Option Claims → Reading
read_jwt none = answer none
read_jwt (some c) = if is_subscription c.access then read_claims c else answer none

-- `get_subscription_payload`
unfoldable pub get_subscription_payload : Secret → Bytes → Reading
unfolding read_signed read_jwt
get_subscription_payload k token =
    let n = length token in
    if ltb n 15
    then answer none
    else if starts_with jwt_prefix token
    then read_jwt (k.jwt token)
    else read_signed k (take_bytes (n - 10) token) (drop_bytes (n - 10) token)
