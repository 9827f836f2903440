-- ===== src/Admins/Tokens.antt =====
-- What a changed password does to tokens, and who keeps the rights of a sudoer.
use marzban.Common.{
  ℕ, ◌<◌, refl, ap, ap₂, ◌∙◌, ◌||◌, Bool-cases, All, inl, inr, ◌≡◌, ◌≢◌, String, true, false,
  Option, none, some, List, [], ◌∷◌, arith, eq_iff, count,
}
use marzban.World.{ok}
use marzban.Admins.{
  Admin, AdminModify, Draw, hashed_password, set_password, update_admin, get_admin, remove_admin,
  Payload, Current, known_name, current_admin, modify_admin, delete_admin, token_holds, same_hash,
}

same_hash→eq : (a b : Option String) → same_hash a b ≡ true → a ≡ b
same_hash→eq none none h = refl
same_hash→eq none (some b) h = cc
same_hash→eq (some a) none h = cc
same_hash→eq (some a) (some b) h = ap some ((eq_iff a b).0 h)

reset_at-set_password :
    (draw : Draw) (now : ℕ) (password : String) (a : Admin)
    → a.hashed_password ≢ hashed_password draw 0 password
    → (set_password draw now (some password) a).password_reset_at ≡ some now
unfolding set_password
reset_at-set_password draw now password a d =
    elim (Bool-cases (same_hash a.hashed_password (hashed_password draw 0 password))) [
      | inl e ↦ absurd (d (same_hash→eq _ _ e))
      | inr e ↦ rw e
    ]

reset_at-update_admin :
    (draw : Draw) (now : ℕ) (m : AdminModify) (a : Admin) (password : String)
    → m.password ≡ some password
    → a.hashed_password ≢ hashed_password draw 0 password
    → (update_admin draw now m a).password_reset_at ≡ some now
unfolding update_admin
reset_at-update_admin draw now m a password s d =
    ap
      (λ o.
        (set_password draw now o (record a { is_sudo = m.is_sudo || a.is_sudo })).password_reset_at)
      s
    ∙ reset_at-set_password draw now password (record a { is_sudo = m.is_sudo || a.is_sudo }) d

stored_token :
    (sudoers : List String) (p : Payload) (admins : List Admin) (a : Admin)
    → get_admin p.username admins ≡ some a
    → known_name p.username sudoers ≡ false
    → token_holds a.password_reset_at p.created_at ≡ false
    → current_admin sudoers p admins ≡ none
unfolding current_admin
stored_token sudoers p admins a f k t = ground arith

old_token : (now created : ℕ) → created < now → token_holds (some now) (some created) ≡ false
unfolding token_holds
old_token now created l = ground arith

-- A new password, of which the hash differs from the stored one, ends the tokens of an account of
-- the database that were made before it; the sudoers of the environment are excepted.
pub current_admin-new_password :
    (draw : Draw) (now created : ℕ) (m : AdminModify) (a : Admin) (password : String)
    (sudoers : List String) (p : Payload) (admins : List Admin)
    → m.password ≡ some password
    → a.hashed_password ≢ hashed_password draw 0 password
    → get_admin p.username admins ≡ some (update_admin draw now m a)
    → known_name p.username sudoers ≡ false
    → p.created_at ≡ some created
    → created < now
    → current_admin sudoers p admins ≡ none
current_admin-new_password draw now created m a password sudoers p admins s d f k t l =
    stored_token sudoers p admins (update_admin draw now m a) f k (
      ap₂ token_holds (reset_at-update_admin draw now m a password s d) t ∙ old_token now created l)

-- `modify_admin` changes a sudoer only at its own request, and the sudoer keeps its rights and its
-- name, whatever the details say.
pub modify_admin-sudo :
    (draw : Draw) (now : ℕ) (c : Current) (m : AdminModify) (a b : Admin)
    → a.is_sudo ≡ true
    → modify_admin draw now c m a ≡ ok b
    → (b.is_sudo ≡ true) × (b.username ≡ a.username) × (a.username ≡ c.username)
unfolding modify_admin
modify_admin-sudo draw now c m a b sudo h =
    (ground arith, ground arith, (eq_iff a.username c.username).0 (ground arith))

sudo-remove_admin :
    (a : Admin) (admins : List Admin)
    → a.is_sudo ≡ false
    → All (λ b. b.id ≡ a.id → b.is_sudo ≡ a.is_sudo) admins
    → count (λ b. b.is_sudo) (remove_admin a admins) ≡ count (λ b. b.is_sudo) admins
unfolding remove_admin
sudo-remove_admin a [] e u = refl
sudo-remove_admin a (b ∷ l) e u = ground (arith, sudo-remove_admin a l e u.1, u.0)

-- A deletion of an admin leaves as many sudoers as there were, where the rows of the admin's id
-- have the admin's rights.
pub delete_admin-sudo :
    (a : Admin) (admins left : List Admin)
    → delete_admin a admins ≡ ok left
    → All (λ b. b.id ≡ a.id → b.is_sudo ≡ a.is_sudo) admins
    → count (λ b. b.is_sudo) left ≡ count (λ b. b.is_sudo) admins
unfolding delete_admin
delete_admin-sudo a admins left h u = elim (Bool-cases a.is_sudo) [
  | inl e ↦ absurd (ground arith)
  | inr e ↦
      let same : left ≡ remove_admin a admins = ground arith in
      rw same (sudo-remove_admin a admins e u)
]
