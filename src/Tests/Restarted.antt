-- ===== src/Tests/Restarted.antt =====
-- A concrete node that is restarted.
use marzban.Common.{true, [], ◌∷◌, ◌≡◌, refl, count, str_eq, if◌then◌else◌, All}
use marzban.User.{ProxyTypes, vless, vmess, trojan, shadowsocks, hysteria, type_eq}
use marzban.Registry.{by_protocol}
use marzban.Operations.{serves, settings_of, supports_runtime_account}
use marzban.XrayConfig.{inbound_clients}
use marzban.XrayConfig.Added.{accounts_at, added_calls, Answerable, inbound_clients-add_user}
use marzban.Tests.Samples.{alice, carol, registry}
use marzban.Tests.Cores.{inbound, second_node, inbound_node_ids, reads}

serves_tag : serves inbound_node_ids "vless-2" second_node ≡ true
unfolding serves
serves_tag = refl

alone :
    (q : ProxyTypes)
    → count (λ x. str_eq x "vless-2") (by_protocol registry q) ≡ (if type_eq q vless then 1 else 0)
unfolding by_protocol type_eq
alone vmess = refl
alone vless = refl
alone trojan = refl
alone shadowsocks = refl
alone hysteria = refl

Answerable-users : All (Answerable reads) (alice ∷ carol ∷ [])
unfolding settings_of supports_runtime_account
Answerable-users = (((refl, tt), (refl, tt)), (((refl, tt), (refl, tt)), tt))

inbound_clients-add_user_example :
    inbound_clients reads (inbound "vless-2" vless) (alice ∷ carol ∷ [])
    ≡ accounts_at 2 "vless-2"
        (added_calls reads registry inbound_node_ids second_node (alice ∷ carol ∷ []))
inbound_clients-add_user_example =
    inbound_clients-add_user reads registry inbound_node_ids second_node "vless-2"
      (inbound "vless-2" vless) vless (alice ∷ carol ∷ []) serves_tag refl refl alone
      Answerable-users
