-- ===== src/Subscription/Base64.antt =====
-- Base 64 with `-` and `_`, without the padding: Python's `b64encode(s, altchars=b'-_')`, stripped of its
-- `=`, and `b64decode` of a text that is padded again.
use marzban.Common.{
  ℕ, ◌+◌, ◌-◌, ◌*◌, ◌/◌, ◌%◌, ◌<◌, Bool, true, false, ◌&&◌, ◌||◌, Option, none, some, List, [], ◌∷◌,
  ltb, leb, ◌==◌, if◌then◌else◌, ◌≡◌, arith,
}

abbrev pub Bytes : Type 0
Bytes = List ℕ

-- The character of a number below 64.
unfoldable pub char_of : ℕ → ℕ
char_of n =
    if ltb n 26
    then 65 + n
    else if ltb n 52
    then 71 + n
    else if ltb n 62
    then n - 4
    else if n == 62
    then 45
    else 95

-- The number of a character, and 64 for one that is not in the alphabet; `altchars` leaves `+` and `/`
-- readable.
unfoldable pub value_of : ℕ → ℕ
value_of c =
    if leb 65 c && leb c 90
    then c - 65
    else if leb 97 c && leb c 122
    then c - 71
    else if leb 48 c && leb c 57
    then c + 4
    else if (c == 45) || (c == 43)
    then 62
    else if (c == 95) || (c == 47)
    then 63
    else 64

unfoldable pub b64encode : Bytes → Bytes
unfolding char_of
b64encode [] = []
b64encode (a ∷ []) = char_of (a / 4) ∷ char_of (a % 4 * 16) ∷ []
b64encode (a ∷ b ∷ []) = char_of (a / 4) ∷ char_of (a % 4 * 16 + b / 16) ∷ char_of (b % 16 * 4) ∷ []
b64encode (a ∷ b ∷ c ∷ s) =
    char_of (a / 4)
    ∷ char_of (a % 4 * 16 + b / 16)
    ∷ char_of (b % 16 * 4 + c / 64)
    ∷ char_of (c % 64)
    ∷ b64encode s

abbrev pub in_alphabet : ℕ → Bool
in_alphabet c = ltb (value_of c) 64

abbrev pub first_byte : ℕ → ℕ → ℕ
first_byte w x = value_of w * 4 + value_of x / 16

abbrev pub second_byte : ℕ → ℕ → ℕ
second_byte x y = value_of x % 16 * 16 + value_of y / 4

abbrev pub third_byte : ℕ → ℕ → ℕ
third_byte y z = value_of y % 4 * 64 + value_of z

abbrev pub cons_all : ℕ → ℕ → ℕ → Option Bytes → Option Bytes
cons_all a b c none = none
cons_all a b c (some s) = some (a ∷ b ∷ c ∷ s)

abbrev pub in_group : ℕ → ℕ → ℕ → ℕ → Bool
in_group w x y z = in_alphabet w && in_alphabet x && in_alphabet y && in_alphabet z

abbrev is_nil : Bytes → Bool
is_nil [] = true
is_nil (c ∷ s) = false

-- The last group, of two characters with padding or of three.
abbrev pub last_group : ℕ → ℕ → ℕ → Option Bytes
last_group w x y =
    if in_alphabet w && in_alphabet x
    then if y == 61
      then some (first_byte w x ∷ [])
      else if in_alphabet y
      then some (first_byte w x ∷ second_byte x y ∷ [])
      else none
    else none

-- `b64decode(s + padding, altchars=b'-_', validate=True)`: `none` for a character that is not in the
-- alphabet, but for `=` in the last group, and for one character too many.
unfoldable pub b64decode : Bytes → Option Bytes
unfolding value_of
b64decode [] = some []
b64decode (w ∷ []) = none
b64decode (w ∷ x ∷ []) = if in_alphabet w && in_alphabet x then some (first_byte w x ∷ []) else none
b64decode (w ∷ x ∷ y ∷ []) = last_group w x y
b64decode (w ∷ x ∷ y ∷ z ∷ s) =
    let rest = b64decode s in
    if in_group w x y z
    then cons_all (first_byte w x) (second_byte x y) (third_byte y z) rest
    else if (z == 61) && is_nil s
    then last_group w x y
    else none

pub value_of-char_of : (n : ℕ) → n < 64 → value_of (char_of n) ≡ n
unfolding value_of char_of
value_of-char_of n h = ground arith
