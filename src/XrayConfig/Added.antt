-- ===== src/XrayConfig/Added.antt =====
-- app/xray/config.py against app/xray/operations.py: a core that is restarted, and one to which the
-- users were added while it ran.
use marzban.Common.{
  ℕ, suc, String, Bool, true, false, not, ◌&&◌, some, List, [], ◌∷◌, ◌++◌, ◌==◌, str_eq, eq_iff,
  if◌then◌else◌, first, first_holds, count, All, ◌≡◌, refl, sym, ap, ◌∙◌, inl, inr, Bool-cases,
  arith,
}
use marzban.User.{User, Proxy, ProxyTypes, type_eq}
use marzban.Registry.{Inbound, has_tag, by_protocol, without_tags, user_inbounds}
use marzban.Operations.{
  Reads, Email, Account, NodeInbound, Node, ApiCall, add, supports_runtime_account, serves,
  settings_of, account_on, on_nodes, tag_work, tags_work, inbounds_work, email_of, add_user,
}
use marzban.XrayConfig.{has_access, speaks, client, clients_of, inbound_clients}

-- The accounts that calls add to a node at a tag.
abbrev pub accounts_at : ℕ → String → List ApiCall → List Account
accounts_at m t [] = []
accounts_at m t (ApiCall.add n s a ∷ l) =
    let rest = accounts_at m t l in if (n == m) && str_eq s t then a ∷ rest else rest
accounts_at m t (ApiCall.alter n s a ∷ l) = accounts_at m t l
accounts_at m t (ApiCall.remove n s e ∷ l) = accounts_at m t l

abbrev pub repeat : ℕ → Account → List Account
repeat ℕ.zero a = []
repeat (suc k) a = a ∷ repeat k a

accounts_at-append :
    (m : ℕ) (t : String) (xs ys : List ApiCall)
    → accounts_at m t (xs ++ ys) ≡ accounts_at m t xs ++ accounts_at m t ys
accounts_at-append m t [] ys = refl
accounts_at-append m t (ApiCall.add n s a ∷ xs) ys = elim (Bool-cases ((n == m) && str_eq s t)) [
  | inl e ↦ rw e (ap (λ l. a ∷ l) (accounts_at-append m t xs ys))
  | inr e ↦ rw e (accounts_at-append m t xs ys)
]
accounts_at-append m t (ApiCall.alter n s a ∷ xs) ys = accounts_at-append m t xs ys
accounts_at-append m t (ApiCall.remove n s e ∷ xs) ys = accounts_at-append m t xs ys

same_id : (a : ℕ) → (a == a) ≡ true
same_id a = ground arith

and_false : (b : Bool) → (b && false) ≡ false
and_false b = ground arith

repeat_step :
    (b : Bool) (k : ℕ) (a : Account)
    → (if b then a ∷ [] else []) ++ repeat k a ≡ repeat (if b then suc k else k) a
repeat_step true k a = refl
repeat_step false k a = refl

repeat_once :
    (b h : Bool) (a : Account)
    → repeat (if h then 0 else (if b then 1 else 0)) a ≡ (if b && not h then a ∷ [] else [])
repeat_once true true a = refl
repeat_once true false a = refl
repeat_once false true a = refl
repeat_once false false a = refl

if_append :
    (b : Bool) (a : Account) (l : List Account)
    → (if b then a ∷ [] else []) ++ l ≡ (if b then a ∷ l else l)
if_append true a l = refl
if_append false a l = refl

count-without_tags :
    (t : String) (tags l : List String)
    → count (λ x. str_eq x t) (without_tags tags l)
      ≡ (if has_tag t tags then 0 else count (λ x. str_eq x t) l)
unfolding without_tags
count-without_tags t tags [] = ground arith
count-without_tags t tags (s ∷ l) = elim (Bool-cases (str_eq s t)) [
  | inl e ↦
      let same : has_tag s tags ≡ has_tag t tags = ap (λ x. has_tag x tags) ((eq_iff s t).0 e) in
      let rest = count-without_tags t tags l in ground arith
  | inr e ↦ let rest = count-without_tags t tags l in ground arith
]

module _ (r : Reads) (map : List (String × List ℕ)) (n : Node) (t : String) (email : Email)
    (all : List Proxy) (on : serves map t n ≡ true) where
  abbrev node_account : ProxyTypes → String → Account
  node_account q s = account_on r email q s t n

  tag_work-on_nodes :
      (q : ProxyTypes) (s tag : String)
      → settings_of q all ≡ some s
      → supports_runtime_account r q s ≡ true
      → (tag_work r map (n ∷ []) email all add q tag).calls
        ≡ on_nodes (λ m. add m.id tag (account_on r email q s tag m)) (serves map tag) (n ∷ [])
  unfolding tag_work
  tag_work-on_nodes q s tag e k = rw (tag_work, e, k) refl

  -- The calls on one node for a tag, whether it serves it.
  one_node-at :
      (q : ProxyTypes) (s tag : String)
      → accounts_at n.id t
          (on_nodes (λ m. add m.id tag (account_on r email q s tag m)) (serves map tag) (n ∷ []))
        ≡ (if str_eq tag t then node_account q s ∷ [] else [])
  unfolding on_nodes
  one_node-at q s tag = elim (Bool-cases (str_eq tag t)) [
    | inl d ↦
        let same = (eq_iff tag t).0 d in
        let serving : serves map tag n ≡ true = ap (λ x. serves map x n) same ∙ on in
        rw (serving, d) (rw (same_id n.id) (ap (λ x. account_on r email q s x n ∷ []) same))
    | inr d ↦ elim (Bool-cases (serves map tag n)) [
      | inl f ↦ rw (f, d) (rw (and_false (n.id == n.id)) refl)
      | inr f ↦ rw (f, d) refl
    ]
  ]

  tag_work-at :
      (q : ProxyTypes) (s tag : String)
      → settings_of q all ≡ some s
      → supports_runtime_account r q s ≡ true
      → accounts_at n.id t (tag_work r map (n ∷ []) email all add q tag).calls
        ≡ (if str_eq tag t then node_account q s ∷ [] else [])
  tag_work-at q s tag e k =
      ap (accounts_at n.id t) (tag_work-on_nodes q s tag e k) ∙ one_node-at q s tag

  tags_work-at :
      (q : ProxyTypes) (s : String) (tags : List String)
      → settings_of q all ≡ some s
      → supports_runtime_account r q s ≡ true
      → accounts_at n.id t (tags_work r map (n ∷ []) email all add q tags).calls
        ≡ repeat (count (λ x. str_eq x t) tags) (node_account q s)
  unfolding tags_work
  tags_work-at q s [] e k = refl
  tags_work-at q s (tag ∷ tags) e k =
      accounts_at-append n.id t (tag_work r map (n ∷ []) email all add q tag).calls
        (tags_work r map (n ∷ []) email all add q tags).calls
      ∙ rw (tag_work-at q s tag e k, tags_work-at q s tags e k)
          (repeat_step (str_eq tag t) (count (λ x. str_eq x t) tags) (node_account q s))

  -- The node's inbound of the tag, which alone of the enabled inbounds has it.
  module _ (reg : List Inbound) (i : NodeInbound) (p : ProxyTypes)
      (found : first (λ j. str_eq j.tag t) n.inbounds ≡ some i) (protocol : i.protocol ≡ some p)
      (alone : (q : ProxyTypes)
        → count (λ x. str_eq x t) (by_protocol reg q) ≡ (if type_eq q p then 1 else 0)) where
    same_account : (x : Proxy) → node_account x.type x.settings ≡ client r i email x
    unfolding account_on client
    same_account x = rw (account_on, found) refl

    speaks-type_eq : (q : ProxyTypes) → speaks i q ≡ type_eq q p
    unfolding speaks
    speaks-type_eq q = rw (speaks, protocol) refl

    same_tag : i.tag ≡ t
    same_tag = (eq_iff i.tag t).0 (first_holds (λ j. str_eq j.tag t) n.inbounds i found)

    proxy-at :
        (x : Proxy)
        → repeat
            (count (λ y. str_eq y t) (without_tags x.excluded_inbounds (by_protocol reg x.type)))
            (node_account x.type x.settings)
          ≡ (if speaks i x.type && not (has_tag i.tag x.excluded_inbounds)
              then client r i email x ∷ []
              else [])
    unfolding client
    proxy-at x =
        rw
          (
            count-without_tags t x.excluded_inbounds (by_protocol reg x.type),
            alone x.type,
            same_account x,
            speaks-type_eq x.type,
            same_tag,
          )
          (repeat_once (type_eq x.type p) (has_tag t x.excluded_inbounds) (client r i email x))

    inbounds_work-at :
        (ps : List Proxy)
        → All (λ x. settings_of x.type all ≡ some x.settings) ps
        → All (λ x. supports_runtime_account r x.type x.settings ≡ true) ps
        → accounts_at n.id t
            (inbounds_work r map (n ∷ []) email all add (user_inbounds reg ps)).calls
          ≡ clients_of r i email ps
    unfolding inbounds_work user_inbounds clients_of
    inbounds_work-at [] h k = refl
    inbounds_work-at (x ∷ ps) h k =
        let tags = without_tags x.excluded_inbounds (by_protocol reg x.type) in
        let one = tags_work-at x.type x.settings tags h.0 k.0 ∙ proxy-at x in
        accounts_at-append n.id t (tags_work r map (n ∷ []) email all add x.type tags).calls
          (inbounds_work r map (n ∷ []) email all add (user_inbounds reg ps)).calls
        ∙ rw (one, inbounds_work-at ps h.1 k.1)
            (if_append (speaks i x.type && not (has_tag i.tag x.excluded_inbounds))
              (client r i email x) (clients_of r i email ps))

-- The response of a user holds every proxy, and its account can be changed in a running core.
abbrev pub Answerable : Reads → User → Type 0
Answerable r u =
    All (λ x. settings_of x.type u.proxies ≡ some x.settings) u.proxies
    × All (λ x. supports_runtime_account r x.type x.settings ≡ true) u.proxies

add_user-at :
    (r : Reads) (map : List (String × List ℕ)) (n : Node) (t : String)
    → serves map t n ≡ true
    → (reg : List Inbound) (i : NodeInbound) (p : ProxyTypes)
    → first (λ j. str_eq j.tag t) n.inbounds ≡ some i
    → i.protocol ≡ some p
    → ((q : ProxyTypes)
        → count (λ x. str_eq x t) (by_protocol reg q) ≡ (if type_eq q p then 1 else 0))
    → (u : User) → Answerable r u
    → accounts_at n.id t (add_user r reg map (n ∷ []) u).calls
      ≡ clients_of r i (email_of u) u.proxies
unfolding add_user
add_user-at r map n t on reg i p found protocol alone u h =
    inbounds_work-at r map n t (email_of u) u.proxies on reg i p found protocol alone u.proxies h.0
      h.1

-- The calls of `add_user` for the users that have access, one after the other.
abbrev pub added_calls :
    Reads → List Inbound → List (String × List ℕ) → Node → List User → List ApiCall
added_calls r reg map n [] = []
added_calls r reg map n (u ∷ users) =
    let rest = added_calls r reg map n users in
    if has_access u then (add_user r reg map (n ∷ []) u).calls ++ rest else rest

-- A restarted core agrees with one that ran on: at an inbound that the node serves, of a tag that no
-- other enabled inbound has, `include_db_users` writes exactly the accounts that `add_user` adds for
-- the active and the on-hold users, with the same flows, where each user has one proxy of a type and
-- accounts that a running core can change.
pub inbound_clients-add_user :
    (r : Reads) (reg : List Inbound) (map : List (String × List ℕ)) (n : Node) (t : String)
    (i : NodeInbound) (p : ProxyTypes) (users : List User)
    → serves map t n ≡ true
    → first (λ j. str_eq j.tag t) n.inbounds ≡ some i
    → i.protocol ≡ some p
    → ((q : ProxyTypes)
        → count (λ x. str_eq x t) (by_protocol reg q) ≡ (if type_eq q p then 1 else 0))
    → All (Answerable r) users
    → inbound_clients r i users ≡ accounts_at n.id t (added_calls r reg map n users)
unfolding inbound_clients
inbound_clients-add_user r reg map n t i p [] on found protocol alone h = refl
inbound_clients-add_user r reg map n t i p (u ∷ users) on found protocol alone h =
    let rest = inbound_clients-add_user r reg map n t i p users on found protocol alone h.1 in
    elim (Bool-cases (has_access u)) [
      | inr e ↦ rw e rest
      | inl e ↦
          let one = add_user-at r map n t on reg i p found protocol alone u h.0 in
          rw (e, rest)
            (ap (λ l. l ++ accounts_at n.id t (added_calls r reg map n users)) (sym one)
              ∙ sym (
                  accounts_at-append n.id t (add_user r reg map (n ∷ []) u).calls
                    (added_calls r reg map n users)))
    ]
