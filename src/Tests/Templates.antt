-- ===== src/Tests/Templates.antt =====
-- app/db/crud/templates.py and app/services/user_template_service.py: concrete templates.
use marzban.Common.{none, some, List, [], ◌∷◌, ◌++◌, ◌≡◌, refl, All}
use marzban.User.{ProxyTypes, type_eq, vless, vmess}
use marzban.World.{ok, err, http}
use marzban.Registry.{Selected}
use marzban.Templates.{
  UserTemplate, TemplateRequest, Inbounds, named, create_user_template, add_user_template,
  modify_user_template, remove_user_template, listed_inbounds, new_template,
}
use marzban.Templates.Listed.{Listed, Covers, create_user_template-Listed}
use marzban.Tests.Samples.{registry, known}

abbrev inbounds : Inbounds
inbounds = record { enabled = registry; tags = known }

abbrev request : Selected → TemplateRequest
request selected = record {
  name = some "month";
  data_limit = some 1000;
  expire_duration = none;
  username_prefix = none;
  username_suffix = none;
  inbounds = selected;
}

abbrev listed : List ProxyTypes
listed = vless ∷ vmess ∷ []

abbrev picked : Selected
picked = (vless, "vless-2" ∷ "vless-2" ∷ []) ∷ []

abbrev month : UserTemplate
month = new_template 1 "month" (request picked) ("vless-2" ∷ [])

creates : create_user_template inbounds 1 (request picked) [] ≡ ok (month ∷ [])
unfolding create_user_template
creates = refl

takes_all :
    add_user_template inbounds 1 (request []) []
    ≡ ok (new_template 1 "month" (request []) known ∷ [])
unfolding add_user_template
takes_all = refl

name_taken :
    add_user_template inbounds 2 (request []) (month ∷ [])
    ≡ err (http 409 "Template by this name already exists")
unfolding add_user_template
name_taken = refl

unknown_inbound :
    modify_user_template inbounds 1 (request ((vmess, "vless-1" ∷ []) ∷ [])) (month ∷ [])
    ≡ err (http 400 "")
unfolding modify_user_template
unknown_inbound = refl

keeps_inbounds : modify_user_template inbounds 1 (request []) (month ∷ []) ≡ ok (month ∷ [])
unfolding modify_user_template
keeps_inbounds = refl

missing : remove_user_template 2 (month ∷ []) ≡ err (http 404 "User Template not found")
unfolding remove_user_template
missing = refl

lists : listed_inbounds registry listed month.inbounds ≡ (vless, "vless-2" ∷ []) ∷ []
unfolding listed_inbounds
lists = refl

covered : All (Covers listed) registry
unfolding type_eq
covered = (refl, (refl, (refl, tt)))

create_user_template-Listed_example :
    (t : UserTemplate) × (month ∷ [] ≡ [] ++ t ∷ [])
    × (some "month" ≡ some t.name)
    × (named t.name [] ≡ none)
    × Listed registry listed t
create_user_template-Listed_example =
    create_user_template-Listed inbounds 1 (request picked) listed [] (month ∷ []) covered creates
