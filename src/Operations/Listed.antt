-- ===== src/Operations/Listed.antt =====
-- Cores whose accounts are one list.
use marzban.Common.{
  ℕ, ◌≡◌, String, Bool, true, false, not, ◌&&◌, refl, List, [], ◌∷◌, ◌==◌, str_eq, keep, any_of,
  arith, eq_iff,
}
use marzban.Operations.{Email, Account}
use marzban.Operations.Calls.{Core}

pub record Entry : Type 0 where
  pub node : ℕ
  pub tag : String
  pub email : Email

abbrev is_at : ℕ → String → Email → Entry → Bool
is_at n t e x =
    x.node == n && str_eq x.tag t && x.email.id == e.id && str_eq x.email.username e.username

abbrev holds : ℕ → String → Email → List Entry → Bool
holds n t e l = any_of (is_at n t e) l

abbrev cut : ℕ → String → Email → List Entry → List Entry
cut n t e l = keep (λ x. not (is_at n t e x)) l

abbrev put : ℕ → String → Account → List Entry → List Entry
put n t a l = record { node = n; tag = t; email = a.email } ∷ l

pub holds-put :
    (n : ℕ) (t : String) (a : Account) (l : List Entry) → holds n t a.email (put n t a l) ≡ true
holds-put n t a l = ground (arith, eq_iff t t, eq_iff a.email.username a.email.username)

pub holds-put_more :
    (n m : ℕ) (t u : String) (a : Account) (e : Email) (l : List Entry)
    → holds m u e l ≡ true
    → holds m u e (put n t a l) ≡ true
holds-put_more n m t u a e l h = ground arith

pub holds-cut :
    (n : ℕ) (t : String) (e : Email) (l : List Entry) → holds n t e (cut n t e l) ≡ false
holds-cut n t e [] = refl
holds-cut n t e (x ∷ l) = ground (arith, holds-cut n t e l)

cut_apart :
    (n m : ℕ) (t u : String) (e f : Email) (x : Entry)
    → (n == m && str_eq t u) ≡ false
    → is_at m u f x ≡ true
    → is_at n t e x ≡ false
cut_apart n m t u e f x d h = ground (arith, eq_iff x.tag t, eq_iff x.tag u, eq_iff t u)

pub holds-cut_other :
    (n m : ℕ) (t u : String) (e f : Email) (l : List Entry)
    → (n == m && str_eq t u) ≡ false
    → holds m u f l ≡ true
    → holds m u f (cut n t e l) ≡ true
holds-cut_other n m t u e f [] d h = h
holds-cut_other n m t u e f (x ∷ l) d h =
    ground (arith, holds-cut_other n m t u e f l d, cut_apart n m t u e f x d)

pub holds-cut_less :
    (n m : ℕ) (t u : String) (e f : Email) (l : List Entry)
    → holds m u f l ≡ false
    → holds m u f (cut n t e l) ≡ false
holds-cut_less n m t u e f [] h = h
holds-cut_less n m t u e f (x ∷ l) h = ground (arith, holds-cut_less n m t u e f l)

abbrev pub listed : Core
listed = record {
  State = List Entry;
  add_inbound_user = put;
  remove_inbound_user = cut;
  has_user = holds;
  added = holds-put;
  removed = holds-cut;
  add_keeps = holds-put_more;
  remove_keeps = holds-cut_other;
  remove_adds_none = holds-cut_less;
}
