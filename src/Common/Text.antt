-- ===== src/Common/Text.antt =====
-- Python's `strip` and `[:n]` on texts.
use Prim.Native.Nat.{ℕ, zero, suc, ◌≤◌}
use Prim.Native.Char.{Char, code}
use Prim.Native.String.{String, [], ◌∷◌}
use mathlib.Core.Path.{◌≡◌, refl, sym, ap, ◌∙◌}
use mathlib.Core.Logic.{inl, inr}
use mathlib.Core.Bool.{Bool, true, false, ◌&&◌, ◌||◌}
use mathlib.Core.Bool.{false≢true}
use native.Mathlib.Omega.{arith}
use text.Mathlib.Text.{◌==◌ as str_eq}
use text.Mathlib.TextEquality.{eq_iff}
use marzban.Common.Tests.{leb, ◌==◌, if◌then◌else◌, Bool-cases}

-- `str.isspace` of one character.
unfoldable pub is_space : Char → Bool
is_space c =
    let n = code c in
    (leb 9 n && leb n 13)
    || (leb 28 n && leb n 32)
    || (n == 133)
    || (n == 160)
    || (n == 5760)
    || (leb 8192 n && leb n 8202)
    || (leb 8232 n && leb n 8233)
    || (n == 8239)
    || (n == 8287)
    || (n == 12288)

abbrev pub is_empty : String → Bool
is_empty [] = true
is_empty (c ∷ s) = false

-- `len(s)`
abbrev pub characters : String → ℕ
characters [] = 0
characters (c ∷ s) = suc (characters s)

-- `s[:n]`
abbrev pub take_text : ℕ → String → String
take_text n [] = []
take_text zero (c ∷ s) = []
take_text (suc n) (c ∷ s) = c ∷ take_text n s

-- `s.lstrip()`
unfoldable pub left_strip : String → String
left_strip [] = []
left_strip (c ∷ s) = let rest = left_strip s in if is_space c then rest else c ∷ s

-- `s.rstrip()`
unfoldable pub right_strip : String → String
right_strip [] = []
right_strip (c ∷ s) =
    let rest = right_strip s in if is_space c && is_empty rest then [] else c ∷ rest

unfoldable pub strip : String → String
unfolding left_strip right_strip
strip s = right_strip (left_strip s)

-- A text that begins with no space.
abbrev Unspaced : String → Type 0
Unspaced [] = Unit
Unspaced (c ∷ s) = is_space c ≡ false

left_strip-Unspaced : (s : String) → Unspaced (left_strip s)
unfolding left_strip
left_strip-Unspaced [] = tt
left_strip-Unspaced (c ∷ s) = elim (Bool-cases (is_space c)) [
  | inl e ↦ rw e (left_strip-Unspaced s)
  | inr e ↦ rw e e
]

left_strip_id : (s : String) → Unspaced s → left_strip s ≡ s
unfolding left_strip
left_strip_id [] h = refl
left_strip_id (c ∷ s) h = rw h refl

right_strip-Unspaced : (s : String) → Unspaced s → Unspaced (right_strip s)
unfolding right_strip
right_strip-Unspaced [] h = tt
right_strip-Unspaced (c ∷ s) h = rw h h

right_strip_twice : (s : String) → right_strip (right_strip s) ≡ right_strip s
unfolding right_strip
right_strip_twice [] = refl
right_strip_twice (c ∷ s) = elim (Bool-cases (is_space c && is_empty (right_strip s))) [
  | inl e ↦ rw e refl
  | inr e ↦ rw e (rw (right_strip_twice s) (rw e refl))
]

-- What is stripped has nothing more to strip.
pub strip-strip : (s : String) → strip (strip s) ≡ strip s
unfolding strip
strip-strip s =
    ap right_strip (
      left_strip_id (right_strip (left_strip s))
        (right_strip-Unspaced (left_strip s) (left_strip-Unspaced s)))
    ∙ right_strip_twice (left_strip s)

pub take_text_short : (n : ℕ) (s : String) → characters s ≤ n → take_text n s ≡ s
take_text_short n [] h = refl
take_text_short zero (c ∷ s) h = absurd (omega arith)
take_text_short (suc n) (c ∷ s) h = ap (λ t. c ∷ t) (take_text_short n s (omega arith))

pub take_text-le : (n : ℕ) (s : String) → characters (take_text n s) ≤ n
take_text-le n [] = omega arith
take_text-le zero (c ∷ s) = omega arith
take_text-le (suc n) (c ∷ s) = omega (arith, take_text-le n s)

pub str_eq_self : (s : String) → str_eq s s ≡ true
str_eq_self s = (eq_iff s s).1 refl

pub str_eq_sym : (s t : String) → str_eq s t ≡ false → str_eq t s ≡ false
str_eq_sym s t h = elim (Bool-cases (str_eq t s)) [
  | inr e ↦ e
  | inl e ↦ absurd (let same = (eq_iff s t).1 (sym ((eq_iff t s).0 e)) in false≢true (sym h ∙ same))
]
