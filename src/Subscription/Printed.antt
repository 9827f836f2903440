-- ===== src/Subscription/Printed.antt =====
-- app/utils/jwt.py: the decimal digits of a time, and the comma of a text.
use marzban.Common.{
  ℕ, zero, suc, ◌+◌, ◌/◌, ◌%◌, ◌<◌, ◌≤◌, Bool, true, false, some, [], ◌∷◌, ◌++◌, ◌==◌, ◌≡◌, refl,
  arith, All, ap, Bool-cases, inl, inr, ◌∙◌, sym, lt→ltb, All-map,
}
use marzban.Common.Int.{pos}
use marzban.Subscription.{before_comma, after_comma, is_utf8}
use marzban.Subscription.Base64.{Bytes}
use marzban.Subscription.Decimal.{
  digits, decimal, is_digit, is_blank, scan, parse_int, positive, drop_blank,
}

abbrev pub IsDigit : ℕ → Type 0
IsDigit c = is_digit c ≡ true

mod-IsDigit : (n : ℕ) → IsDigit (b'0' + n % 10)
mod-IsDigit n = ground arith

digits-IsDigit : (k n : ℕ) (out : Bytes) → All IsDigit out → All IsDigit (digits k n out)
unfolding digits
digits-IsDigit zero n out h = h
digits-IsDigit (suc k) n out h = elim (Bool-cases (n == 0)) [
  | inl e ↦ rw e h
  | inr e ↦ rw e (digits-IsDigit k (n / 10) ((b'0' + n % 10) ∷ out) (mod-IsDigit n, h))
]

pub decimal-IsDigit : (n : ℕ) → All IsDigit (decimal n)
unfolding decimal
decimal-IsDigit n = elim (Bool-cases (n == 0)) [
  | inl e ↦ rw e (refl, tt)
  | inr e ↦ rw e (digits-IsDigit n n [] tt)
]

-- Reading the last digit of a number behind the digits before it gives the number.
scan_last :
    (needed : Bool) (n : ℕ) (out : Bytes)
    → scan needed ((b'0' + n % 10) ∷ out) (n / 10) ≡ scan false out n
unfolding scan
scan_last needed n out = rw (mod-IsDigit n) (ap (λ m. scan false out m) (omega arith))

-- No digit is a blank, a sign or a comma.
digit_alone :
    (c : ℕ)
    → IsDigit c
    → (is_blank c ≡ false) × ((c == b'-') ≡ false) × ((c == b'+') ≡ false) × ((c == b',') ≡ false)
digit_alone c h = (ground arith, ground arith, ground arith, ground arith)

digits_zero : (k n : ℕ) (out : Bytes) → n ≡ 0 → digits k n out ≡ out
unfolding digits
digits_zero zero n out h = refl
digits_zero (suc k) n out h = ground arith

scan_first :
    (m : ℕ) (out : Bytes)
    → suc m / 10 ≡ 0
    → scan true ((b'0' + suc m % 10) ∷ out) 0 ≡ scan false out (suc m)
scan_first m out h =
    sym (ap (λ n. scan true ((b'0' + suc m % 10) ∷ out) n) h) ∙ scan_last true (suc m) out

suc_not_zero : (m : ℕ) → (suc m == 0) ≡ false
suc_not_zero m = ground arith

scan-digits :
    (k n : ℕ) (out : Bytes) → 0 < n → n ≤ k → scan true (digits k n out) 0 ≡ scan false out n
unfolding digits
scan-digits zero n out h le = absurd (omega arith)
scan-digits (suc k) zero out h le = absurd (omega arith)
scan-digits (suc k) (suc m) out h le = rw (suc_not_zero m) (elim (Bool-cases (suc m / 10 == 0)) [
  | inl e ↦
      rw (digits_zero k (suc m / 10) ((b'0' + suc m % 10) ∷ out) (ground arith))
        (scan_first m out (ground arith))
  | inr e ↦
      scan-digits k (suc m / 10) ((b'0' + suc m % 10) ∷ out) (ground arith) (omega arith)
      ∙ scan_last false (suc m) out
])

parse_int_of_digits : (s : Bytes) → All IsDigit s → parse_int s ≡ positive (scan true s 0)
unfolding parse_int drop_blank scan
parse_int_of_digits [] h = refl
parse_int_of_digits (c ∷ s) (h, hs) =
    let alone = digit_alone c h in rw (alone.0, alone.1, alone.2) refl

decimal-suc : (n : ℕ) → decimal (suc n) ≡ digits (suc n) (suc n) []
unfolding decimal digits
decimal-suc n = rw (suc_not_zero n) refl

scan-decimal : (n : ℕ) → scan true (decimal n) 0 ≡ some n
unfolding decimal scan
scan-decimal zero = refl
scan-decimal (suc n) =
    rw (decimal-suc n) (scan-digits (suc n) (suc n) [] (omega arith) (omega arith))

pub parse_int-decimal : (n : ℕ) → parse_int (decimal n) ≡ some (pos n)
parse_int-decimal n =
    parse_int_of_digits (decimal n) (decimal-IsDigit n) ∙ ap positive (scan-decimal n)

pub before_comma_id : (s : Bytes) → All IsDigit s → before_comma s ≡ s
unfolding before_comma
before_comma_id [] h = refl
before_comma_id (c ∷ s) (h, hs) = rw (digit_alone c h).3 (ap (λ t. c ∷ t) (before_comma_id s hs))

-- A name's bytes: the first part of a text is what stands before the first comma.
abbrev pub IsNameByte : ℕ → Type 0
IsNameByte c = (c < 128) × ((c == b',') ≡ false)

pub before_comma-append : (s t : Bytes) → All IsNameByte s → before_comma (s ++ b',' ∷ t) ≡ s
unfolding before_comma
before_comma-append [] t h = refl
before_comma-append (c ∷ s) t (h, hs) = rw h.1 (ap (λ r. c ∷ r) (before_comma-append s t hs))

pub after_comma-append : (s t : Bytes) → All IsNameByte s → after_comma (s ++ b',' ∷ t) ≡ some t
unfolding after_comma
after_comma-append [] t h = refl
after_comma-append (c ∷ s) t (h, hs) = rw h.1 (after_comma-append s t hs)

abbrev pub IsAscii : ℕ → Type 0
IsAscii c = c < 128

pub is_utf8_of_ascii : (s : Bytes) → All IsAscii s → is_utf8 s ≡ true
unfolding is_utf8
is_utf8_of_ascii [] h = refl
is_utf8_of_ascii (a ∷ []) (h, hs) = lt→ltb a 128 h
is_utf8_of_ascii (a ∷ b ∷ []) (h, hs) = rw (lt→ltb a 128 h, is_utf8_of_ascii (b ∷ []) hs) refl
is_utf8_of_ascii (a ∷ b ∷ c ∷ []) (h, hs) =
    rw (lt→ltb a 128 h, is_utf8_of_ascii (b ∷ c ∷ []) hs) refl
is_utf8_of_ascii (a ∷ b ∷ c ∷ d ∷ s) (h, hs) =
    rw (lt→ltb a 128 h, is_utf8_of_ascii (b ∷ c ∷ d ∷ s) hs) refl

pub text-IsAscii : (s t : Bytes) → All IsNameByte s → All IsDigit t → All IsAscii (s ++ b',' ∷ t)
text-IsAscii [] t h ht = (omega arith, All-map (λ c d. ground arith) t ht)
text-IsAscii (c ∷ s) t (h, hs) ht = (h.0, text-IsAscii s t hs ht)
