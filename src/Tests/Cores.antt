-- ===== src/Tests/Cores.antt =====
-- The calls to the cores of two concrete nodes.
use marzban.Common.{ℕ, ◌≡◌, refl, inl, inr, String, true, false, List, [], ◌∷◌, some}
use marzban.User.{ProxyTypes, vless, vmess}
use marzban.Registry.{has_tag, user_inbounds}
use marzban.Operations.{
  Node, NodeInbound, Reads, serves, settings_of, supports_runtime_account, needs_restart, all_tags,
  email_of, update_user, remove_user,
}
use marzban.Operations.Calls.{perform_all}
use marzban.Operations.Loops.{Chosen}
use marzban.Operations.Accounts.{update_user-added, update_user-removed, remove_user-removed}
use marzban.Operations.Listed.{Entry, listed}
use marzban.Tests.Samples.{alice, registry}

abbrev pub inbound : String → ProxyTypes → NodeInbound
inbound tag t = record {
  tag = tag;
  protocol = some t;
  network = "tcp";
  tls = "reality";
  header_type = "";
}

abbrev first_node : Node
first_node = record {
  id = 1;
  connected = true;
  started = true;
  inbounds = inbound "vless-1" vless ∷ [];
}

abbrev pub second_node : Node
second_node = record {
  id = 2;
  connected = true;
  started = true;
  inbounds = inbound "vless-2" vless ∷ inbound "vmess-1" vmess ∷ [];
}

abbrev nodes : List Node
nodes = first_node ∷ second_node ∷ []

abbrev pub inbound_node_ids : List (String × List ℕ)
inbound_node_ids = ("vless-1", 1 ∷ []) ∷ ("vless-2", 1 ∷ 2 ∷ []) ∷ ("vmess-1", 2 ∷ []) ∷ []

abbrev pub reads : Reads
reads = record { method = λ s. "aes-128-gcm"; flow = λ t s. true }

-- Alice is left over on the inbound of a protocol that she has no proxy for.
abbrev before : List Entry
before = record { node = 2; tag = "vmess-1"; email = email_of alice } ∷ []

serves_second : serves inbound_node_ids "vless-2" second_node ≡ true
unfolding serves
serves_second = refl

serves_vmess : serves inbound_node_ids "vmess-1" second_node ≡ true
unfolding serves
serves_vmess = refl

chosen : Chosen vless "vless-2" (user_inbounds registry alice.proxies)
unfolding user_inbounds
chosen = inl (refl, inr (inl refl))

given : settings_of vless alice.proxies ≡ some "{}"
unfolding settings_of
given = refl

supported : supports_runtime_account reads vless "{}" ≡ true
unfolding supports_runtime_account
supported = refl

update_user-added_example :
    listed.has_user 2 "vless-2"
      (email_of alice)
      (perform_all listed (update_user reads registry inbound_node_ids nodes alice).calls before)
    ≡ true
update_user-added_example =
    update_user-added listed reads registry inbound_node_ids nodes alice before second_node
      "vless-2" (inr (inl refl)) serves_second vless "{}" chosen given supported

not_chosen : has_tag "vmess-1" (all_tags (user_inbounds registry alice.proxies)) ≡ false
unfolding user_inbounds has_tag
not_chosen = refl

no_restart : needs_restart nodes "vmess-1" ≡ false
unfolding needs_restart
no_restart = refl

update_user-removed_example :
    listed.has_user 2 "vmess-1"
      (email_of alice)
      (perform_all listed (update_user reads registry inbound_node_ids nodes alice).calls before)
    ≡ false
update_user-removed_example =
    update_user-removed listed reads registry inbound_node_ids nodes alice before second_node
      "vmess-1" (inr (inl refl)) serves_vmess not_chosen no_restart (inr (inr (inl refl)))

remove_user-removed_example :
    listed.has_user 2 "vmess-1"
      (email_of alice)
      (perform_all listed (remove_user inbound_node_ids nodes alice).calls before)
    ≡ false
remove_user-removed_example =
    remove_user-removed listed inbound_node_ids nodes alice before second_node "vmess-1"
      (inr (inl refl)) serves_vmess no_restart (inr (inr (inl refl)))
