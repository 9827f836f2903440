-- ===== src/Tests/Tokens.antt =====
-- app/utils/jwt.py: tokens of concrete names, and the witnesses.
use marzban.Common.{
  ℕ, zero, suc, ◌%◌, true, false, none, some, [], ◌∷◌, ◌++◌, All, ◌≡◌, refl, arith, length,
}
use marzban.Common.Int.{pos, negsuc}
use marzban.Subscription.{
  answer, raises, index_error, value_error, Secret, sign, take_bytes, drop_bytes,
  create_subscription_token, get_subscription_payload, read_data, is_utf8,
}
use marzban.Subscription.Base64.{Bytes, b64encode, b64decode}
use marzban.Subscription.Decimal.{parse_int, decimal}
use marzban.Subscription.Encoded.{IsByte}
use marzban.Subscription.RoundTrip.{get_subscription_payload-create_subscription_token}
use marzban.Subscription.Signed.{get_subscription_payload_signed}

underscores : parse_int (32 ∷ b'1' ∷ b'_' ∷ b'2' ∷ 10 ∷ []) ≡ some (pos 12)
unfolding parse_int
underscores = refl

two_underscores : parse_int (b'1' ∷ b'_' ∷ b'_' ∷ b'2' ∷ []) ≡ none
unfolding parse_int
two_underscores = refl

minus_five : parse_int (b'-' ∷ b'5' ∷ []) ≡ some (negsuc 4)
unfolding parse_int
minus_five = refl

printed : decimal 1203 ≡ b'1' ∷ b'2' ∷ b'0' ∷ b'3' ∷ []
unfolding decimal
printed = refl

abbrev repeated : ℕ → ℕ → Bytes
repeated zero c = []
repeated (suc n) c = c ∷ repeated n c

length-repeated : (n c : ℕ) → length (repeated n c) ≡ n
length-repeated zero c = refl
length-repeated (suc n) c = omega (arith, length-repeated n c)

repeated-IsByte : (n c : ℕ) → IsByte c → All IsByte (repeated n c)
repeated-IsByte zero c h = tt
repeated-IsByte (suc n) c h = (h, repeated-IsByte n c h)

-- A secret with a sum of the text's length in place of sha256.
abbrev secret : Secret
secret = record {
  key = b'k' ∷ b'e' ∷ b'y' ∷ [];
  sha256 = λ s. repeated 32 (length s % 256);
  jwt = λ s. none;
  length-sha256 = λ s. length-repeated 32 (length s % 256);
  bytes-sha256 = λ s. repeated-IsByte 32 (length s % 256) (omega arith);
}

abbrev bob : Bytes
bob = b'b' ∷ b'o' ∷ b'b' ∷ []

-- `Ym9iLDUw`
encoded : b64encode (bob ++ b',' ∷ decimal 50) ≡ 89 ∷ 109 ∷ 57 ∷ 105 ∷ 76 ∷ 68 ∷ 85 ∷ 119 ∷ []
unfolding b64encode decimal
encoded = refl

padded : b64decode (89 ∷ 109 ∷ 56 ∷ 61 ∷ []) ≡ some (b'b' ∷ b'o' ∷ [])
unfolding b64decode
padded = refl

too_short : get_subscription_payload secret bob ≡ answer none
unfolding get_subscription_payload
too_short = refl

wrong_signature :
    get_subscription_payload secret (create_subscription_token secret (b'B' ∷ []) 50 ++ b'x' ∷ [])
    ≡ answer none
unfolding get_subscription_payload create_subscription_token
wrong_signature = refl

no_comma : read_data bob ≡ raises index_error
unfolding read_data
no_comma = refl

no_time : read_data (bob ++ b',' ∷ b'o' ∷ []) ≡ raises value_error
unfolding read_data
no_time = refl

two_bytes : (is_utf8 (195 ∷ 169 ∷ []) ≡ true) × (is_utf8 (195 ∷ 40 ∷ []) ≡ false)
unfolding is_utf8
two_bytes = (refl, refl)

get_subscription_payload-create_subscription_token_example :
    get_subscription_payload secret (create_subscription_token secret bob 1700000000)
    ≡ answer (some (record { username = bob; created_at = pos 1700000000 }))
get_subscription_payload-create_subscription_token_example =
    get_subscription_payload-create_subscription_token secret bob 1700000000
      ((omega arith, refl), ((omega arith, refl), ((omega arith, refl), tt))) (omega arith)
      (omega arith)

-- The token of bob at 50.
abbrev token : Bytes
token =
    89 ∷ 109 ∷ 57 ∷ 105 ∷ 76 ∷ 68 ∷ 85 ∷ 119 ∷ 67 ∷ 119 ∷ 115 ∷ 76 ∷ 67 ∷ 119 ∷ 115 ∷ 76 ∷ 67 ∷ 119
    ∷ []

token_read :
    get_subscription_payload secret token
    ≡ answer (some (record { username = bob; created_at = pos 50 }))
unfolding get_subscription_payload
token_read = refl

get_subscription_payload_signed_example :
    (drop_bytes 8 token ≡ sign secret (take_bytes 8 token))
    × (s : Bytes) × (b64decode (take_bytes 8 token) ≡ some s)
    × (read_data s ≡ answer (some (record { username = bob; created_at = pos 50 })))
get_subscription_payload_signed_example =
    get_subscription_payload_signed secret token (record { username = bob; created_at = pos 50 })
      refl token_read
