-- ===== src/Operations/Calls.antt =====
-- What the calls of app/xray/operations.py do to the accounts of the cores. A core is not part of
-- the program: it is an interface with what the program relies on.
use marzban.Common.{
  ℕ, ◌≡◌, ◌⊎◌, inl, inr, refl, String, Bool, true, false, ◌&&◌, List, [], ◌∷◌, ◌++◌, ◌==◌, str_eq,
  All,
}
use mathlib.Core.Path.{subst}
use marzban.Operations.{Email, Account, ApiCall, add, alter, remove}

-- The accounts of the cores of all nodes: `add_inbound_user` and `remove_inbound_user` of a node's
-- API for a tag, with their errors (the account is there already, or is not there) dropped as the
-- callers drop them.
pub record Core : Type 1 where
  pub State : Type 0
  pub add_inbound_user : ℕ → String → Account → State → State
  pub remove_inbound_user : ℕ → String → Email → State → State
  pub has_user : ℕ → String → Email → State → Bool
  pub added :
      (n : ℕ) (t : String) (a : Account) (s : State)
      → has_user n t a.email (add_inbound_user n t a s) ≡ true
  pub removed :
      (n : ℕ) (t : String) (e : Email) (s : State)
      → has_user n t e (remove_inbound_user n t e s) ≡ false
  pub add_keeps :
      (n m : ℕ) (t u : String) (a : Account) (e : Email) (s : State)
      → has_user m u e s ≡ true
      → has_user m u e (add_inbound_user n t a s) ≡ true
  pub remove_keeps :
      (n m : ℕ) (t u : String) (e f : Email) (s : State)
      → (n == m && str_eq t u) ≡ false
      → has_user m u f s ≡ true
      → has_user m u f (remove_inbound_user n t e s) ≡ true
  pub remove_adds_none :
      (n m : ℕ) (t u : String) (e f : Email) (s : State)
      → has_user m u f s ≡ false
      → has_user m u f (remove_inbound_user n t e s) ≡ false

-- `_alter_inbound_user` removes the account and adds it again.
unfoldable pub perform : (core : Core) → ApiCall → core.State → core.State
perform core (add n t a) s = core.add_inbound_user n t a s
perform core (alter n t a) s = core.add_inbound_user n t a (core.remove_inbound_user n t a.email s)
perform core (remove n t e) s = core.remove_inbound_user n t e s

unfoldable pub perform_all : (core : Core) → List ApiCall → core.State → core.State
unfolding perform
perform_all core [] s = s
perform_all core (x ∷ l) s = perform_all core l (perform core x s)

abbrev pub Among : {A : Type 0} → A → List A → Type 0
Among x [] = ⊥
Among x (y ∷ l) = (x ≡ y) ⊎ Among x l

pub Among-left : {A : Type 0} (x : A) (l r : List A) → Among x l → Among x (l ++ r)
Among-left x [] r h = absurd h
Among-left x (y ∷ l) r (inl e) = inl e
Among-left x (y ∷ l) r (inr h) = inr (Among-left x l r h)

pub Among-right : {A : Type 0} (x : A) (l r : List A) → Among x r → Among x (l ++ r)
Among-right x [] r h = h
Among-right x (y ∷ l) r h = inr (Among-right x l r h)

pub All-append {ℓ κ} :
    {A : Type ℓ} (P : A → Type κ) (l r : List A) → All P l → All P r → All P (l ++ r)
All-append P [] r h k = k
All-append P (x ∷ l) r h k = (h.0, All-append P l r h.1 k)

module _ (core : Core) (P : core.State → Type 0) (Q : ApiCall → Type 0)
    (keeps : (x : ApiCall) (s : core.State) → Q x → P s → P (perform core x s)) where
  pub perform_all-keeps :
      (l : List ApiCall) (s : core.State) → All Q l → P s → P (perform_all core l s)
  unfolding perform_all
  perform_all-keeps [] s h p = p
  perform_all-keeps (x ∷ l) s h p = perform_all-keeps l (perform core x s) h.1 (keeps x s h.0 p)

  -- A call that brings a property about, among calls that keep it.
  pub perform_all-reaches :
      (x : ApiCall)
      → ((s : core.State) → P (perform core x s))
      → (l : List ApiCall) (s : core.State) → All Q l
      → Among x l
      → P (perform_all core l s)
  unfolding perform_all
  perform_all-reaches x f [] s h m = absurd m
  perform_all-reaches x f (y ∷ l) s h (inl e) =
      perform_all-keeps l (perform core y s) h.1 (subst (λ z. P (perform core z s)) e (f s))
  perform_all-reaches x f (y ∷ l) s h (inr m) = perform_all-reaches x f l (perform core y s) h.1 m

pub perform_all-append :
    (core : Core) (l r : List ApiCall) (s : core.State)
    → perform_all core (l ++ r) s ≡ perform_all core r (perform_all core l s)
unfolding perform_all
perform_all-append core [] r s = refl
perform_all-append core (x ∷ l) r s = perform_all-append core l r (perform core x s)
