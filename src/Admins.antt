-- ===== src/Admins.antt =====
-- app/db/crud/admins.py, the admin's row of app/db/models/admins.py and `Admin` of
-- app/models/admin.py.
pub mod Tokens
use marzban.Common.{
  ℕ, String, Bool, true, false, not, ◌&&◌, ◌||◌, Option, none, some, List, [], ◌∷◌, ◌++◌, ltb, ◌==◌,
  first, keep, str_eq, if◌then◌else◌,
}
use marzban.World.{Result, ok, err, http, integrity_error}

pub record AdminUsageLogs : Type 0 where
  pub used_traffic_at_reset : ℕ
  pub reset_at : ℕ

pub record Admin : Type 0 where
  pub id : ℕ
  pub username : String
  pub hashed_password : Option String
  pub is_sudo : Bool
  pub password_reset_at : Option ℕ
  pub telegram_id : Option ℕ
  pub discord_webhook : Option String
  pub users_usage : ℕ
  pub usage_logs : List AdminUsageLogs

-- `AdminModify` and `AdminPartialModify`. The hash of a password is salted, so each reading of
-- the property is another draw; a hash of an empty password is `None`.
pub record AdminModify : Type 0 where
  pub password : Option String
  pub is_sudo : Bool
  pub telegram_id : Option ℕ
  pub discord_webhook : Option String

pub record AdminPartialModify : Type 0 where
  pub password : Option String
  pub is_sudo : Option Bool
  pub telegram_id : Option ℕ
  pub discord_webhook : Option String

abbrev pub Draw : Type 0
Draw = ℕ → String → String

unfoldable pub hashed_password : Draw → ℕ → String → Option String
hashed_password draw i password = if str_eq password "" then none else some (draw i password)

abbrev same_hash : Option String → Option String → Bool
same_hash none none = true
same_hash none (some b) = false
same_hash (some a) none = false
same_hash (some a) (some b) = str_eq a b

-- `if password is not None and dbadmin.hashed_password != modified_admin.hashed_password`
unfoldable pub set_password : Draw → ℕ → Option String → Admin → Admin
unfolding hashed_password
set_password draw now none a = a
set_password draw now (some password) a =
    if same_hash a.hashed_password (hashed_password draw 0 password) then a else record a {
      hashed_password = hashed_password draw 1 password;
      password_reset_at = some now;
    }

-- `if value:` for a number and for a text.
abbrev if_number : Option ℕ → Option ℕ → Option ℕ
if_number none old = old
if_number (some n) old = if n == 0 then old else some n

abbrev if_text : Option String → Option String → Option String
if_text none old = old
if_text (some s) old = if str_eq s "" then old else some s

abbrev if_given {ℓ} : {A : Type ℓ} → Option A → Option A → Option A
if_given none old = old
if_given (some a) old = some a

unfoldable pub update_admin : Draw → ℕ → AdminModify → Admin → Admin
unfolding set_password
update_admin draw now m a =
    let a' = set_password draw now m.password (record a { is_sudo = m.is_sudo || a.is_sudo }) in
    record a' {
      telegram_id = if_number m.telegram_id a.telegram_id;
      discord_webhook = if_text m.discord_webhook a.discord_webhook;
    }

abbrev sudo_or : Option Bool → Bool → Bool
sudo_or none old = old
sudo_or (some b) old = b

unfoldable pub partial_update_admin : Draw → ℕ → AdminPartialModify → Admin → Admin
unfolding set_password
partial_update_admin draw now m a =
    let a' =
      set_password draw now m.password (record a { is_sudo = sudo_or m.is_sudo a.is_sudo }) in
    record a' {
      telegram_id = if_given m.telegram_id a.telegram_id;
      discord_webhook = if_given m.discord_webhook a.discord_webhook;
    }

unfoldable pub get_admin : String → List Admin → Option Admin
get_admin username = first (λ a. str_eq a.username username)

unfoldable pub remove_admin : Admin → List Admin → List Admin
remove_admin a = keep (λ b. not (b.id == a.id))

unfoldable pub reset_admin_usage : ℕ → Admin → Admin
reset_admin_usage now a = if a.users_usage == 0 then a else record a {
  users_usage = 0;
  usage_logs =
      a.usage_logs ++ record { used_traffic_at_reset = a.users_usage; reset_at = now } ∷ [];
}

-- What `get_admin_payload` of app/utils/jwt.py reads from a token that it accepts.
pub record Payload : Type 0 where
  pub username : String
  pub is_sudo : Bool
  pub created_at : Option ℕ

-- `Admin.get_admin`: the account behind a token, as its name and its rights.
pub record Current : Type 0 where
  pub username : String
  pub is_sudo : Bool

abbrev pub known_name : String → List String → Bool
known_name username [] = false
known_name username (s ∷ l) = str_eq s username || known_name username l

-- A password that was reset after the token was made, or a token without its time, ends it.
unfoldable pub token_holds : Option ℕ → Option ℕ → Bool
token_holds none created_at = true
token_holds (some reset) none = false
token_holds (some reset) (some created) = not (ltb created reset)

unfoldable pub current_admin : List String → Payload → List Admin → Option Current
unfolding get_admin token_holds
current_admin sudoers p admins =
    let stored : Option Current = elim (get_admin p.username admins) [
      | none ↦ none
      | some a ↦
          if token_holds a.password_reset_at p.created_at
          then some (record { username = a.username; is_sudo = a.is_sudo })
          else none
    ] in
    if known_name p.username sudoers && p.is_sudo
    then some (record { username = p.username; is_sudo = true })
    else stored

-- `check_sudo_admin`
unfoldable pub check_sudo_admin : List String → Payload → List Admin → Result Current
unfolding current_admin
check_sudo_admin sudoers p admins = elim (current_admin sudoers p admins) [
  | none ↦ err (http 401 "Could not validate credentials")
  | some c ↦ if c.is_sudo then ok c else err (http 403 "You're not allowed")
]

-- `modify_admin` and `remove_admin` of app/services/admin_service.py, for the admin that
-- `get_admin_by_username` has found.
unfoldable pub modify_admin : Draw → ℕ → Current → AdminModify → Admin → Result Admin
unfolding update_admin
modify_admin draw now c m a =
    if not (str_eq a.username c.username) && a.is_sudo
    then err (http 403 "You're not allowed to edit another sudoer's account.")
    else ok (update_admin draw now m a)

unfoldable pub delete_admin : Admin → List Admin → Result (List Admin)
unfolding remove_admin
delete_admin a admins =
    if a.is_sudo
    then err (http 403 "You're not allowed to delete sudo accounts.")
    else ok (remove_admin a admins)
