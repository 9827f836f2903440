-- ===== src/Operations/Accounts.antt =====
-- Which accounts a user has in the cores after `update_user` and `remove_user`.
use marzban.Common.{
  ℕ, ◌≡◌, inl, inr, refl, sym, String, Bool, true, false, ◌&&◌, some, List, [], ◌∷◌, ◌++◌, ◌==◌,
  str_eq, Bool-cases, arith, eq_iff,
}
use mathlib.Core.Path.{subst}
use marzban.User.{User, Proxy, ProxyTypes}
use marzban.Registry.{Inbound, Selected, has_tag, user_inbounds}
use marzban.Operations.{
  Email, Node, Account, ApiCall, add, alter, remove, Reads, serves, settings_of,
  supports_runtime_account, account_on, inbounds_work, all_tags, needs_restart, removals, email_of,
  update_user, remove_user,
}
use marzban.Operations.Calls.{
  Core, perform, perform_all, Among, perform_all-keeps, perform_all-reaches, perform_all-append,
}
use marzban.Operations.Loops.{
  Spares, IsRemove, Chosen, AmongKeys, inbounds_work-Spares, alter_on, inbounds_work-Among,
  removals-IsRemove, removals-Spares, removals-Among,
}

and-false : (b : Bool) → (b && false) ≡ false
and-false true = refl
and-false false = refl

empty_tags : (tag : String) → has_tag tag [] ≡ false
unfolding has_tag
empty_tags tag = refl

altered :
    (core : Core) (r : Reads) (map : List (String × List ℕ)) (nodes : List Node) (email : Email)
    (ps : List Proxy) (m : Node) (tag : String) (t : ProxyTypes) (settings : String)
    (s : core.State)
    → core.has_user m.id tag email (perform core (alter_on r map nodes email ps t settings tag m) s)
      ≡ true
unfolding perform alter_on account_on
altered core r map nodes email ps m tag t settings s =
    core.added m.id tag (account_on r email t settings tag m) _

all_tags-left : (tag : String) (l r : List String) → Among tag l → has_tag tag (l ++ r) ≡ true
unfolding has_tag
all_tags-left tag [] r h = absurd h
all_tags-left tag (s ∷ l) r (inl e) = let same = (eq_iff s tag).1 (sym e) in ground arith
all_tags-left tag (s ∷ l) r (inr h) = ground (arith, all_tags-left tag l r h)

all_tags-right :
    (tag : String) (l r : List String) → has_tag tag r ≡ true → has_tag tag (l ++ r) ≡ true
unfolding has_tag
all_tags-right tag [] r h = h
all_tags-right tag (s ∷ l) r h = ground (arith, all_tags-right tag l r h)

has_tag-Chosen :
    (t : ProxyTypes) (tag : String) (sel : Selected)
    → Chosen t tag sel
    → has_tag tag (all_tags sel) ≡ true
has_tag-Chosen t tag [] h = absurd h
has_tag-Chosen t tag ((s, tags) ∷ l) (inl (e, h)) = all_tags-left tag tags (all_tags l) h
has_tag-Chosen t tag ((s, tags) ∷ l) (inr h) =
    all_tags-right tag tags (all_tags l) (has_tag-Chosen t tag l h)

module _ (core : Core) (e : Email) (m : Node) (tag : String) where
  abbrev Has : core.State → Type 0
  Has s = core.has_user m.id tag e s ≡ true

  same_place :
      (n : ℕ) (t : String) (a : Account) (s : core.State)
      → (n == m.id && str_eq t tag) ≡ true
      → a.email ≡ e
      → Has (core.add_inbound_user n t a s)
  same_place n t a s same q =
      let node : n ≡ m.id = ground arith in
      let place : t ≡ tag = (eq_iff t tag).0 (ground arith) in
      subst (λ f. core.has_user m.id tag f (core.add_inbound_user n t a s) ≡ true) q
        (subst (λ k. core.has_user m.id k a.email (core.add_inbound_user n t a s) ≡ true) place
          (subst (λ k. core.has_user k t a.email (core.add_inbound_user n t a s) ≡ true) node
            (core.added n t a s)))

  removed_now :
      (s : core.State) → core.has_user m.id tag e (perform core (remove m.id tag e) s) ≡ false
  unfolding perform
  removed_now s = core.removed m.id tag e s

  spared : (x : ApiCall) (s : core.State) → Spares tag e x → Has s → Has (perform core x s)
  unfolding perform
  spared (add n t a) s q h = core.add_keeps n m.id t tag a e s h
  spared (alter n t a) s q h = elim (Bool-cases (n == m.id && str_eq t tag)) [
    | inl same ↦ same_place n t a _ same q
    | inr other ↦
        core.add_keeps n m.id t tag a e _ (core.remove_keeps n m.id t tag a.email e s other h)
  ]
  spared (remove n t f) s q h =
      core.remove_keeps n m.id t tag f e s (rw q (and-false (n == m.id))) h

  gone_stays :
      (x : ApiCall) (s : core.State)
      → IsRemove x
      → core.has_user m.id tag e s ≡ false
      → core.has_user m.id tag e (perform core x s) ≡ false
  unfolding perform
  gone_stays (add n t a) s q h = absurd q
  gone_stays (alter n t a) s q h = absurd q
  gone_stays (remove n t f) s q h = core.remove_adds_none n m.id t tag f e s h

module _ (core : Core) (r : Reads) (reg : List Inbound) (map : List (String × List ℕ))
    (nodes : List Node) (u : User) (s : core.State) (m : Node) (tag : String)
    (there : Among m nodes) (served : serves map tag m ≡ true) where
  update_user-calls :
      perform_all core (update_user r reg map nodes u).calls s
      ≡ perform_all core
          (removals map nodes (email_of u) (all_tags (user_inbounds reg u.proxies)) map).calls
          (perform_all core
            (inbounds_work r map nodes
              (email_of u)
              u.proxies
              alter
              (user_inbounds reg u.proxies)).calls
            s)
  unfolding update_user
  update_user-calls = perform_all-append core _ _ s

  -- After the calls of `update_user`, a user has an account on a connected and started node for
  -- each of its tags that the node serves, where the proxy of the protocol has a runtime account.
  pub update_user-added :
      (t : ProxyTypes) (settings : String)
      → Chosen t tag (user_inbounds reg u.proxies)
      → settings_of t u.proxies ≡ some settings
      → supports_runtime_account r t settings ≡ true
      → core.has_user m.id tag
          (email_of u)
          (perform_all core (update_user r reg map nodes u).calls s)
        ≡ true
  update_user-added t settings c g p = rw update_user-calls (
      perform_all-keeps core (Has core (email_of u) m tag) (Spares tag (email_of u))
        (spared core (email_of u) m tag) _ _
        (removals-Spares map nodes (email_of u) (all_tags (user_inbounds reg u.proxies)) tag
          (has_tag-Chosen t tag (user_inbounds reg u.proxies) c) map)
        (perform_all-reaches core (Has core (email_of u) m tag) (Spares tag (email_of u))
          (spared core (email_of u) m tag) _
          (altered core r map nodes (email_of u) u.proxies m tag t settings) _ s
          (inbounds_work-Spares r map nodes (email_of u) u.proxies tag
            (user_inbounds reg u.proxies))
          (inbounds_work-Among r map nodes (email_of u) u.proxies m tag t settings there g p served
            (user_inbounds reg u.proxies) c)))

  -- After the calls of `update_user`, a user has no account on a connected and started node for a
  -- tag that the node serves and that is not one of the user's, where the node needs no restart.
  pub update_user-removed :
      has_tag tag (all_tags (user_inbounds reg u.proxies)) ≡ false
      → needs_restart nodes tag ≡ false
      → AmongKeys tag map
      → core.has_user m.id tag
          (email_of u)
          (perform_all core (update_user r reg map nodes u).calls s)
        ≡ false
  update_user-removed a f k = rw update_user-calls (
      perform_all-reaches core (λ v. core.has_user m.id tag (email_of u) v ≡ false) IsRemove
        (gone_stays core (email_of u) m tag) (remove m.id tag (email_of u))
        (removed_now core (email_of u) m tag) _ _
        (removals-IsRemove map nodes (email_of u) (all_tags (user_inbounds reg u.proxies)) map)
        (removals-Among map nodes (email_of u) (all_tags (user_inbounds reg u.proxies)) m tag there
          a f served map k))

module _ (core : Core) (map : List (String × List ℕ)) (nodes : List Node) (u : User)
    (s : core.State) (m : Node) (tag : String) (there : Among m nodes)
    (served : serves map tag m ≡ true) where
  -- After the calls of `remove_user`, a user has no account on a connected and started node for
  -- any tag that the node serves, where the node needs no restart.
  pub remove_user-removed :
      needs_restart nodes tag ≡ false
      → AmongKeys tag map
      → core.has_user m.id tag (email_of u) (perform_all core (remove_user map nodes u).calls s)
        ≡ false
  unfolding remove_user
  remove_user-removed f k =
      perform_all-reaches core (λ v. core.has_user m.id tag (email_of u) v ≡ false) IsRemove
        (gone_stays core (email_of u) m tag) (remove m.id tag (email_of u))
        (removed_now core (email_of u) m tag) _ s (removals-IsRemove map nodes (email_of u) [] map)
        (removals-Among map nodes (email_of u) [] m tag there (empty_tags tag) f served map k)
