-- ===== src/Subscription/Encoded.antt =====
-- app/utils/jwt.py: base 64, written and read.
use marzban.Common.{
  ℕ, ◌+◌, ◌*◌, ◌/◌, ◌%◌, ◌<◌, ◌≤◌, true, false, some, [], ◌∷◌, ◌==◌, ◌≡◌, refl, arith, All, ap, ap₂,
  lt→ltb, length, ◌∙◌,
}
use marzban.Subscription.Base64.{
  Bytes, char_of, value_of, value_of-char_of, b64encode, b64decode, in_alphabet, in_group,
  first_byte, second_byte, third_byte, cons_all,
}

abbrev pub IsByte : ℕ → Type 0
IsByte c = c < 256

-- A character of the alphabet.
abbrev pub InAlphabet : ℕ → Type 0
InAlphabet c = value_of c < 64

char_of-InAlphabet : (n : ℕ) → n < 64 → InAlphabet (char_of n)
unfolding value_of char_of
char_of-InAlphabet n h = omega (arith, value_of-char_of n h)

in_alphabet-char_of : (n : ℕ) → n < 64 → in_alphabet (char_of n) ≡ true
in_alphabet-char_of n h = lt→ltb (value_of (char_of n)) 64 (char_of-InAlphabet n h)

pub b64encode-InAlphabet : (s : Bytes) → All IsByte s → All InAlphabet (b64encode s)
unfolding b64encode
b64encode-InAlphabet [] h = tt
b64encode-InAlphabet (a ∷ []) h =
    (char_of-InAlphabet (a / 4) (omega arith), (char_of-InAlphabet (a % 4 * 16) (omega arith), tt))
b64encode-InAlphabet (a ∷ b ∷ []) (ha, (hb, h)) = (
  char_of-InAlphabet (a / 4) (omega arith),
  (
    char_of-InAlphabet (a % 4 * 16 + b / 16) (omega arith),
    (char_of-InAlphabet (b % 16 * 4) (omega arith), tt),
  ),
)
b64encode-InAlphabet (a ∷ b ∷ c ∷ s) (ha, (hb, (hc, h))) = (
  char_of-InAlphabet (a / 4) (omega arith),
  (
    char_of-InAlphabet (a % 4 * 16 + b / 16) (omega arith),
    (
      char_of-InAlphabet (b % 16 * 4 + c / 64) (omega arith),
      (char_of-InAlphabet (c % 64) (omega arith), b64encode-InAlphabet s h),
    ),
  ),
)

pub length-b64encode-ge : (s : Bytes) → length s ≤ length (b64encode s)
unfolding b64encode
length-b64encode-ge [] = omega arith
length-b64encode-ge (a ∷ []) = omega arith
length-b64encode-ge (a ∷ b ∷ []) = omega arith
length-b64encode-ge (a ∷ b ∷ c ∷ s) = omega (arith, length-b64encode-ge s)

-- The bytes that the characters of two numbers stand for.
first_byte-char_of :
    (m n : ℕ) → m < 64 → n < 64 → first_byte (char_of m) (char_of n) ≡ m * 4 + n / 16
first_byte-char_of m n hm hn = omega (arith, value_of-char_of m hm, value_of-char_of n hn)

second_byte-char_of :
    (m n : ℕ) → m < 64 → n < 64 → second_byte (char_of m) (char_of n) ≡ m % 16 * 16 + n / 4
second_byte-char_of m n hm hn = omega (arith, value_of-char_of m hm, value_of-char_of n hn)

third_byte-char_of :
    (m n : ℕ) → m < 64 → n < 64 → third_byte (char_of m) (char_of n) ≡ m % 4 * 64 + n
third_byte-char_of m n hm hn = omega (arith, value_of-char_of m hm, value_of-char_of n hn)

-- The groups of characters that are written, read.
decode_one :
    (m n a : ℕ)
    → m < 64
    → n < 64
    → m * 4 + n / 16 ≡ a
    → b64decode (char_of m ∷ char_of n ∷ []) ≡ some (a ∷ [])
unfolding b64decode
decode_one m n a hm hn e =
    rw (in_alphabet-char_of m hm, in_alphabet-char_of n hn)
      (ap (λ c. some (c ∷ [])) (first_byte-char_of m n hm hn ∙ e))

not_padding : (n : ℕ) → n < 64 → (char_of n == 61) ≡ false
unfolding char_of
not_padding n h = ground arith

decode_two :
    (m n o a b : ℕ)
    → m < 64
    → n < 64
    → o < 64
    → m * 4 + n / 16 ≡ a
    → n % 16 * 16 + o / 4 ≡ b
    → b64decode (char_of m ∷ char_of n ∷ char_of o ∷ []) ≡ some (a ∷ b ∷ [])
unfolding b64decode
decode_two m n o a b hm hn ho e f =
    rw
      (
        in_alphabet-char_of m hm,
        in_alphabet-char_of n hn,
        in_alphabet-char_of o ho,
        not_padding o ho,
      )
      (ap₂ (λ c d. some (c ∷ d ∷ [])) (first_byte-char_of m n hm hn ∙ e)
        (second_byte-char_of n o hn ho ∙ f))

in_group-char_of :
    (m n o p : ℕ)
    → m < 64
    → n < 64
    → o < 64
    → p < 64
    → in_group (char_of m) (char_of n) (char_of o) (char_of p) ≡ true
in_group-char_of m n o p hm hn ho hp =
    rw
      (
        in_alphabet-char_of m hm,
        in_alphabet-char_of n hn,
        in_alphabet-char_of o ho,
        in_alphabet-char_of p hp,
      )
      refl

decode_three :
    (m n o p : ℕ) (s : Bytes)
    → m < 64
    → n < 64
    → o < 64
    → p < 64
    → b64decode (char_of m ∷ char_of n ∷ char_of o ∷ char_of p ∷ s)
      ≡ cons_all (m * 4 + n / 16) (n % 16 * 16 + o / 4) (o % 4 * 64 + p) (b64decode s)
unfolding b64decode
decode_three m n o p s hm hn ho hp =
    rw
      (
        in_group-char_of m n o p hm hn ho hp,
        first_byte-char_of m n hm hn,
        second_byte-char_of n o hn ho,
        third_byte-char_of o p ho hp,
      )
      refl

b64decode_empty : b64decode [] ≡ some []
unfolding b64decode
b64decode_empty = refl

three_eq :
    {a b c x y z : ℕ} {s : Bytes}
    → x ≡ a
    → y ≡ b
    → z ≡ c
    → cons_all x y z (some s) ≡ some (a ∷ b ∷ c ∷ s)
three_eq e f g = rw (e, f, g) refl

pub b64decode-b64encode : (s : Bytes) → All IsByte s → b64decode (b64encode s) ≡ some s
unfolding b64encode
b64decode-b64encode [] h = b64decode_empty
b64decode-b64encode (a ∷ []) (ha, h) =
    decode_one (a / 4) (a % 4 * 16) a (omega arith) (omega arith) (omega arith)
b64decode-b64encode (a ∷ b ∷ []) (ha, (hb, h)) =
    decode_two (a / 4) (a % 4 * 16 + b / 16) (b % 16 * 4) a b (omega arith) (omega arith)
      (omega arith) (omega arith) (omega arith)
b64decode-b64encode (a ∷ b ∷ c ∷ s) (ha, (hb, (hc, h))) =
    decode_three (a / 4) (a % 4 * 16 + b / 16) (b % 16 * 4 + c / 64) (c % 64) (b64encode s)
      (omega arith) (omega arith) (omega arith) (omega arith)
    ∙ rw (b64decode-b64encode s h) (three_eq (omega arith) (omega arith) (omega arith))
