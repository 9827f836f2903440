-- ===== src/Subscription/RoundTrip.antt =====
-- app/utils/jwt.py: the tokens that are created, read.
use marzban.Common.{
  ℕ, zero, suc, ◌+◌, ◌-◌, ◌≤◌, Bool, true, false, some, [], ◌∷◌, ◌++◌, ltb, ◌==◌, ◌≡◌, refl, sym,
  arith, All, All-map, ap, ◌∙◌, length, ◌&&◌, length-append, le→leb, Bool-cases, inl, inr,
}
use marzban.Common.Int.{ℤ, pos}
use mathlib.Core.Path.{subst}
use marzban.Subscription.{
  answer, Secret, sign, take_bytes, drop_bytes, starts_with, bytes_eq, jwt_prefix,
  create_subscription_token, get_subscription_payload, read_signed, read_data, read_parts,
  read_decoded, payload_of,
}
use marzban.Subscription.Base64.{Bytes, value_of, b64encode}
use marzban.Subscription.Decimal.{decimal, parse_int}
use marzban.Subscription.Encoded.{
  IsByte, InAlphabet, b64encode-InAlphabet, length-b64encode-ge, b64decode-b64encode,
}
use marzban.Subscription.Printed.{
  IsNameByte, IsAscii, decimal-IsDigit, parse_int-decimal, before_comma_id, before_comma-append,
  after_comma-append, is_utf8_of_ascii, text-IsAscii,
}

take_bytes-append : (s t : Bytes) → take_bytes (length s) (s ++ t) ≡ s
take_bytes-append [] t = refl
take_bytes-append (c ∷ s) t = ap (λ r. c ∷ r) (take_bytes-append s t)

drop_bytes-append : (s t : Bytes) → drop_bytes (length s) (s ++ t) ≡ t
drop_bytes-append [] t = refl
drop_bytes-append (c ∷ s) t = drop_bytes-append s t

length-take_bytes : (n : ℕ) (s : Bytes) → n ≤ length s → length (take_bytes n s) ≡ n
length-take_bytes zero s h = refl
length-take_bytes (suc n) [] h = absurd (omega arith)
length-take_bytes (suc n) (c ∷ s) h = omega (arith, length-take_bytes n s (omega arith))

length-sign : (k : Secret) (s : Bytes) → length (sign k s) ≡ 10
unfolding sign
length-sign k s =
    length-take_bytes 10 _
      (omega (arith, length-b64encode-ge (k.sha256 (s ++ k.key)), k.length-sha256 (s ++ k.key)))

take_bytes-All {κ} : (P : ℕ → Type κ) (n : ℕ) (s : Bytes) → All P s → All P (take_bytes n s)
take_bytes-All P zero s h = tt
take_bytes-All P (suc n) [] h = tt
take_bytes-All P (suc n) (c ∷ s) (h, hs) = (h, take_bytes-All P n s hs)

append-All {κ} : (P : ℕ → Type κ) (s t : Bytes) → All P s → All P t → All P (s ++ t)
append-All P [] t h ht = ht
append-All P (c ∷ s) t (h, hs) ht = (h, append-All P s t hs ht)

sign-InAlphabet : (k : Secret) (s : Bytes) → All InAlphabet (sign k s)
unfolding sign
sign-InAlphabet k s =
    take_bytes-All InAlphabet 10 _ (b64encode-InAlphabet _ (k.bytes-sha256 (s ++ k.key)))

and_true : {c d : ℕ} {b : Bool} → ((c == d) && b) ≡ true → (c ≡ d) × (b ≡ true)
and_true h = (ground arith, ground arith)

starts_with-All {κ} : (P : ℕ → Type κ) (p s : Bytes) → starts_with p s ≡ true → All P s → All P p
starts_with-All P [] s e h = tt
starts_with-All P (c ∷ p) [] e h = absurd (ground arith)
starts_with-All P (c ∷ p) (d ∷ s) e (h, hs) =
    let parts = and_true e in (subst P (sym (parts.0)) h, starts_with-All P p s parts.1 hs)

bytes_eq_self : (s : Bytes) → bytes_eq s s ≡ true
bytes_eq_self [] = refl
bytes_eq_self (c ∷ s) = ground (arith, bytes_eq_self s)

drop_bytes-All {κ} : (P : ℕ → Type κ) (n : ℕ) (s : Bytes) → All P s → All P (drop_bytes n s)
drop_bytes-All P zero s h = h
drop_bytes-All P (suc n) [] h = tt
drop_bytes-All P (suc n) (c ∷ s) (h, hs) = drop_bytes-All P n s hs

-- The prefix ends with a dot, which base 64 does not write.
no_dot : ¬ All InAlphabet (46 ∷ [])
unfolding value_of
no_dot h = omega (arith, h.0)

starts_with-jwt_prefix : (s : Bytes) → All InAlphabet s → starts_with jwt_prefix s ≡ false
starts_with-jwt_prefix s h = elim (Bool-cases (starts_with jwt_prefix s)) [
  | inl e ↦ absurd (
      no_dot
        (drop_bytes-All InAlphabet 36 jwt_prefix (starts_with-All InAlphabet jwt_prefix s e h)))
  | inr e ↦ e
]

nonempty_of_number : (s : Bytes) (z : ℤ) → parse_int s ≡ some z → 1 ≤ length s
unfolding parse_int
nonempty_of_number [] z h = absurd cc
nonempty_of_number (c ∷ s) z h = omega arith

-- The text of a token.
abbrev data_of : Bytes → ℕ → Bytes
data_of username now = username ++ b',' ∷ decimal now

length-data_of : (username : Bytes) (now : ℕ) → length username + 2 ≤ length (data_of username now)
length-data_of username now = omega (
  arith,
  length-append username (b',' ∷ decimal now),
  nonempty_of_number (decimal now) (pos now) (parse_int-decimal now),
)

read_data-data_of :
    (username : Bytes) (now : ℕ)
    → All IsNameByte username
    → now ≤ 253402300799
    → read_data (data_of username now) ≡ payload_of username (pos now)
unfolding read_data read_parts
read_data-data_of username now h le =
    rw
      (
        after_comma-append username (decimal now) h,
        before_comma_id (decimal now) (decimal-IsDigit now),
        parse_int-decimal now,
        before_comma-append username (decimal now) h,
      )
      refl

data_of-IsAscii :
    (username : Bytes) (now : ℕ) → All IsNameByte username → All IsAscii (data_of username now)
data_of-IsAscii username now h = text-IsAscii username (decimal now) h (decimal-IsDigit now)

data_of-IsByte :
    (username : Bytes) (now : ℕ) → All IsNameByte username → All IsByte (data_of username now)
data_of-IsByte username now h =
    All-map (λ c d. omega (arith, d)) (data_of username now) (data_of-IsAscii username now h)

read_signed_own :
    (k : Secret) (s : Bytes)
    → All IsAscii s
    → All IsByte s
    → read_signed k (b64encode s) (sign k (b64encode s)) ≡ read_data s
unfolding read_signed read_decoded
read_signed_own k s ha hb =
    rw (b64decode-b64encode s hb, is_utf8_of_ascii s ha, bytes_eq_self (sign k (b64encode s))) refl

length-parts :
    (text signature : Bytes) → length signature ≡ 10 → length (text ++ signature) ≡ length text + 10
length-parts text signature e = omega (arith, length-append text signature)

long_enough : (n : ℕ) → 5 ≤ n → ltb (n + 10) 15 ≡ false
long_enough n h = ground arith

ten_less : (n : ℕ) → n + 10 - 10 ≡ n
ten_less n = omega arith

-- A token that is long enough and in the alphabet is read in its two parts.
get_subscription_payload-append :
    (k : Secret) (text signature : Bytes)
    → 5 ≤ length text
    → length signature ≡ 10
    → All InAlphabet (text ++ signature)
    → get_subscription_payload k (text ++ signature) ≡ read_signed k text signature
unfolding get_subscription_payload
get_subscription_payload-append k text signature h e ha =
    rw
      (
        starts_with-jwt_prefix (text ++ signature) ha,
        length-parts text signature e,
        long_enough (length text) h,
        ten_less (length text),
        take_bytes-append text signature,
        drop_bytes-append text signature,
      )
      refl

-- For a name of three or more ASCII characters and no comma, and a time before the year 10000, the token that
-- is created for them is read as them, whatever the secret key.
pub get_subscription_payload-create_subscription_token :
    (k : Secret) (username : Bytes) (now : ℕ)
    → All IsNameByte username
    → 3 ≤ length username
    → now ≤ 253402300799
    → get_subscription_payload k (create_subscription_token k username now)
      ≡ answer (some (record { username = username; created_at = pos now }))
unfolding create_subscription_token
get_subscription_payload-create_subscription_token k username now h long le =
    let data_part = b64encode (data_of username now) in
    let bytes = data_of-IsByte username now h in
    get_subscription_payload-append k data_part (sign k data_part)
      (omega (arith, length-data_of username now, length-b64encode-ge (data_of username now)))
      (length-sign k data_part)
      (append-All InAlphabet data_part (sign k data_part) (b64encode-InAlphabet _ bytes)
        (sign-InAlphabet k data_part))
    ∙ read_signed_own k (data_of username now) (data_of-IsAscii username now h) bytes
    ∙ read_data-data_of username now h le
    ∙ rw (le→leb now 253402300799 le) refl
