-- ===== src/Templates.antt =====
-- app/models/user_template.py, app/db/crud/templates.py and app/services/user_template_service.py: the
-- templates that users are made from.
pub mod Enabled
pub mod Listed
use marzban.Common.{
  ℕ, String, Bool, true, false, not, ◌&&◌, Option, none, some, List, [], ◌∷◌, ◌++◌, ◌==◌, str_eq,
  if◌then◌else◌, keep, first, is_some, map,
}
use marzban.User.{ProxyTypes}
use marzban.World.{Result, ok, err, value_error, integrity_error, http, ◌>>=◌}
use marzban.Registry.{
  Inbound, by_protocol, has_tag, from_keys, Selected, validate_selected_inbounds,
}
use marzban.Nodes.{or_kept}

-- A row, with the tags of its inbounds.
pub record UserTemplate : Type 0 where
  pub id : ℕ
  pub name : String
  pub data_limit : Option ℕ
  pub expire_duration : Option ℕ
  pub username_prefix : Option String
  pub username_suffix : Option String
  pub inbounds : List String

-- `UserTemplateCreate` and `UserTemplateModify`, which have the same fields.
pub record TemplateRequest : Type 0 where
  pub name : Option String
  pub data_limit : Option ℕ
  pub expire_duration : Option ℕ
  pub username_prefix : Option String
  pub username_suffix : Option String
  pub inbounds : Selected

-- What a template is made with: the enabled inbounds and the tags of the inbounds' table.
pub record Inbounds : Type 0 where
  pub enabled : List Inbound
  pub tags : List String

abbrev pub all_values : Selected → List String
all_values [] = []
all_values ((p, tags) ∷ l) = tags ++ all_values l

unfoldable pub flatten_inbound_tags : Selected → List String
unfolding from_keys
flatten_inbound_tags inbounds = from_keys [] (all_values inbounds)

-- The tags of a selection, and of every enabled inbound for an empty one.
unfoldable pub selected_tags : Inbounds → Selected → Result (List String)
unfolding from_keys flatten_inbound_tags validate_selected_inbounds
selected_tags i [] = ok (from_keys [] (map (λ e. e.tag) i.enabled))
selected_tags i (s ∷ l) =
    validate_selected_inbounds i.enabled (s ∷ l) >>= λ checked. ok (flatten_inbound_tags checked)

-- `query(ProxyInbound).filter(ProxyInbound.tag.in_(tags)).all()`
unfoldable pub inbounds_in : Inbounds → List String → List String
unfolding has_tag
inbounds_in i tags = keep (λ t. has_tag t tags) i.tags

unfoldable pub named : String → List UserTemplate → Option UserTemplate
named name rows = first (λ t. str_eq t.name name) rows

-- `default=0` of a column, for an INSERT in which it is None.
abbrev pub or_zero : Option ℕ → Option ℕ
or_zero none = some 0
or_zero (some n) = some n

abbrev pub new_template : ℕ → String → TemplateRequest → List String → UserTemplate
new_template id name r tags = record {
  id = id;
  name = name;
  data_limit = or_zero r.data_limit;
  expire_duration = or_zero r.expire_duration;
  username_prefix = r.username_prefix;
  username_suffix = r.username_suffix;
  inbounds = tags;
}

-- The commit of a new row: its name is not null, and unique.
unfoldable pub insert_template :
    ℕ → TemplateRequest → List String → List UserTemplate → Result (List UserTemplate)
unfolding named
insert_template id r tags rows = elim r.name [
  | none ↦ err integrity_error
  | some name ↦
      if is_some (named name rows)
      then err integrity_error
      else ok (rows ++ new_template id name r tags ∷ [])
]

-- `create_user_template`
unfoldable pub create_user_template :
    Inbounds → ℕ → TemplateRequest → List UserTemplate → Result (List UserTemplate)
unfolding selected_tags inbounds_in insert_template
create_user_template i id r rows =
    selected_tags i r.inbounds >>= λ tags. insert_template id r (inbounds_in i tags) rows

abbrev pub or_kept_optional {ℓ} : {A : Type ℓ} → Option A → Option A → Option A
or_kept_optional none kept = kept
or_kept_optional (some a) kept = some a

-- The inbounds of a template after a request: an empty selection leaves them.
unfoldable pub modified_inbounds : Inbounds → Selected → List String → Result (List String)
unfolding selected_tags inbounds_in
modified_inbounds i [] kept = ok kept
modified_inbounds i (s ∷ l) kept = selected_tags i (s ∷ l) >>= λ tags. ok (inbounds_in i tags)

-- The fields that the request sets.
abbrev pub modified : TemplateRequest → List String → UserTemplate → UserTemplate
modified r tags t = record t {
  name = or_kept r.name t.name;
  data_limit = or_kept_optional r.data_limit t.data_limit;
  expire_duration = or_kept_optional r.expire_duration t.expire_duration;
  username_prefix = or_kept_optional r.username_prefix t.username_prefix;
  username_suffix = or_kept_optional r.username_suffix t.username_suffix;
  inbounds = tags;
}

abbrev pub put_template : UserTemplate → List UserTemplate → List UserTemplate
put_template t [] = []
put_template t (s ∷ l) = let rest = s ∷ put_template t l in if s.id == t.id then t ∷ l else rest

-- Another row of the name.
unfoldable pub taken : UserTemplate → List UserTemplate → Bool
taken t rows = is_some (first (λ s. str_eq s.name t.name && not (s.id == t.id)) rows)

-- `update_user_template`; nothing is committed where it raises.
unfoldable pub update_user_template :
    Inbounds → UserTemplate → TemplateRequest → List UserTemplate → Result (List UserTemplate)
unfolding modified_inbounds taken
update_user_template i t r rows = modified_inbounds i r.inbounds t.inbounds >>= λ tags.
    if taken (modified r tags t) rows
    then err integrity_error
    else ok (put_template (modified r tags t) rows)

unfoldable pub remove_template : UserTemplate → List UserTemplate → List UserTemplate
remove_template t rows = keep (λ s. not (s.id == t.id)) rows

unfoldable pub get_template : ℕ → List UserTemplate → Option UserTemplate
get_template id rows = first (λ t. t.id == id) rows

-- `get_user_template` of app/dependencies.py
unfoldable pub get_template_or_raise : ℕ → List UserTemplate → Result UserTemplate
unfolding get_template
get_template_or_raise id rows = elim (get_template id rows) [
  | none ↦ err (http 404 "User Template not found")
  | some t ↦ ok t
]

-- What the handlers answer for what the operations raise.
unfoldable pub answered {ℓ} : {A : Type ℓ} → Result A → Result A
answered (ok a) = ok a
answered (err integrity_error) = err (http 409 "Template by this name already exists")
answered (err value_error) = err (http 400 "")
answered (err e) = err e

-- The handlers of a sudoer.
unfoldable pub add_user_template :
    Inbounds → ℕ → TemplateRequest → List UserTemplate → Result (List UserTemplate)
unfolding create_user_template answered
add_user_template i id r rows = answered (create_user_template i id r rows)

unfoldable pub modify_user_template :
    Inbounds → ℕ → TemplateRequest → List UserTemplate → Result (List UserTemplate)
unfolding get_template_or_raise update_user_template answered
modify_user_template i id r rows =
    get_template_or_raise id rows >>= λ t. answered (update_user_template i t r rows)

unfoldable pub remove_user_template : ℕ → List UserTemplate → Result (List UserTemplate)
unfolding get_template_or_raise remove_template
remove_user_template id rows = get_template_or_raise id rows >>= λ t. ok (remove_template t rows)

-- `UserTemplateResponse.validate_inbounds`, over the protocols of the enabled inbounds: the tags of a
-- template under their protocols, those that are enabled.
unfoldable pub listed_inbounds : List Inbound → List ProxyTypes → List String → Selected
unfolding by_protocol has_tag
listed_inbounds reg [] tags = []
listed_inbounds reg (p ∷ ps) tags =
    let rest = listed_inbounds reg ps tags in
    elim (keep (λ t. has_tag t tags) (by_protocol reg p)) [ [] ↦ rest | t ∷ l ↦ (p, t ∷ l) ∷ rest ]
