-- ===== src/Subscription/Decimal.antt =====
-- Python's `str` of a natural number, and `int` of a text in ASCII.
use marzban.Common.{
  ℕ, zero, suc, ◌+◌, ◌-◌, ◌*◌, ◌/◌, ◌%◌, Bool, true, false, ◌&&◌, ◌||◌, Option, none, some, [], ◌∷◌,
  leb, ◌==◌, if◌then◌else◌,
}
use marzban.Common.Int.{ℤ, pos, negsuc}
use marzban.Subscription.Base64.{Bytes}

-- The digits of a number before some text; a number has no more digits than its value.
unfoldable pub digits : ℕ → ℕ → Bytes → Bytes
digits zero n out = out
digits (suc k) n out =
    let rest = digits k (n / 10) ((b'0' + n % 10) ∷ out) in if n == 0 then out else rest

-- `str(n)`
unfoldable pub decimal : ℕ → Bytes
unfolding digits
decimal n = if n == 0 then b'0' ∷ [] else digits n n []

abbrev pub is_digit : ℕ → Bool
is_digit c = leb b'0' c && leb c b'9'

abbrev pub is_blank : ℕ → Bool
is_blank c = (leb 9 c && leb c 13) || (leb 28 c && leb c 32)

unfoldable pub all_blank : Bytes → Bool
all_blank [] = true
all_blank (c ∷ s) = is_blank c && all_blank s

unfoldable pub drop_blank : Bytes → Bytes
drop_blank [] = []
drop_blank (c ∷ s) = let rest = drop_blank s in if is_blank c then rest else c ∷ s

-- The digits that follow a number, with single underscores between them and blanks behind; whether a
-- digit has to come next.
unfoldable pub scan : Bool → Bytes → ℕ → Option ℕ
unfolding all_blank
scan needed [] n = if needed then none else some n
scan needed (c ∷ s) n =
    let longer = scan false s (n * 10 + (c - b'0')) in
    let joined = scan true s n in
    if is_digit c
    then longer
    else if needed
    then none
    else if c == b'_'
    then joined
    else if all_blank (c ∷ s)
    then some n
    else none

abbrev pub positive : Option ℕ → Option ℤ
positive none = none
positive (some n) = some (pos n)

abbrev pub negative : Option ℕ → Option ℤ
negative none = none
negative (some zero) = some (pos 0)
negative (some (suc n)) = some (negsuc n)

abbrev pub signed : Bytes → Option ℤ
unfolding scan
signed [] = none
signed (c ∷ s) =
    if c == b'-'
    then negative (scan true s 0)
    else if c == b'+'
    then positive (scan true s 0)
    else positive (scan true (c ∷ s) 0)

-- `int(s)`; `none` is its ValueError.
unfoldable pub parse_int : Bytes → Option ℤ
unfolding drop_blank scan
parse_int s = signed (drop_blank s)
