-- ===== src/Access/Escalation.antt =====
-- A manager of a user gains nothing by taking over that user.

use mailu.Prelude.{
  ◌≡◌, refl, sym, subst, inl, inr, true, false, some, List, [], ◌∷◌, arith, Bool-cases, Bytes,
  bytes_eq, bytes_eq→eq, member,
}
use mailu.Access.{
  User, Resource, user_row, domain_row, domain_owned, get_managed_domains, subset, can_manage_user,
  domain_admin, owner,
}

member-subset :
    (x : Bytes) (xs ys : List Bytes) → subset xs ys ≡ true → member x xs ≡ true → member x ys ≡ true
unfolding member
member-subset x [] ys h m = cc
member-subset x (y ∷ xs) ys h m = elim (Bool-cases (bytes_eq y x)) [
  | inl t ↦ subst (λ w. member w ys ≡ true) (bytes_eq→eq y x t) (ground arith)
  | inr f ↦ member-subset x xs ys (ground arith) (ground arith)
]

subset_trans :
    (xs ys zs : List Bytes) → subset xs ys ≡ true → subset ys zs ≡ true → subset xs zs ≡ true
subset_trans [] ys zs h k = refl
subset_trans (x ∷ xs) ys zs h k = ground (arith, member-subset x ys zs k, subset_trans xs ys zs)

-- the table of users: addresses are of one row, and managers are of domains of the table
pub record IsTable (domains : List Bytes) (users : User → Type 0) : Type 0 where
  pub one_row : (u v : User) → users u → users v → u.email ≡ v.email → u ≡ v
  pub known : (u : User) → users u → subset u.manager_of domains ≡ true

module _ (domains : List Bytes) where
  managed-known :
      (u : User)
      → subset u.manager_of domains ≡ true
      → (x : Bytes) → member x (get_managed_domains domains u) ≡ true
      → member x domains ≡ true
  unfolding get_managed_domains
  managed-known u known x m = ground (arith, member-subset x u.manager_of domains known)

  -- whom one manages without being them has no domain that one does not manage
  managed-subset :
      (actor target : User)
      → subset target.manager_of domains ≡ true
      → can_manage_user domains actor target ≡ true
      → bytes_eq target.email actor.email ≡ false
      → (x : Bytes) → member x (get_managed_domains domains target) ≡ true
      → member x (get_managed_domains domains actor) ≡ true
  unfolding can_manage_user get_managed_domains
  managed-subset actor target known h other x m = ground (
    arith,
    member-subset x target.manager_of domains known,
    member-subset x target.manager_of actor.manager_of,
  )

  can_manage_user_trans :
      (actor target u : User)
      → subset u.manager_of domains ≡ true
      → can_manage_user domains actor target ≡ true
      → bytes_eq target.email actor.email ≡ false
      → can_manage_user domains target u ≡ true
      → bytes_eq u.email target.email ≡ false
      → can_manage_user domains actor u ≡ true
  unfolding can_manage_user get_managed_domains
  can_manage_user_trans actor target u known h other k another =
      ground (arith, subset_trans u.manager_of target.manager_of actor.manager_of)

  module _ {users : User → Type 0} (table : IsTable domains users) where
    same_row : (u v : User) → users u → users v → bytes_eq u.email v.email ≡ true → u ≡ v
    same_row u v a b e = table.one_row u v a b (bytes_eq→eq u.email v.email e)

    -- Who may edit the account of a user may edit every account that this user may: a manager gains
    -- nothing by setting the password of an account. Addresses are assumed to be of one row each, and
    -- managers to be of domains of the table.
    pub owner-takeover :
        (actor target u : User)
        → users actor
        → users target
        → users u
        → owner domains actor (some (some target)) ≡ true
        → owner domains target (some (some u)) ≡ true
        → owner domains actor (some (some u)) ≡ true
    unfolding owner
    owner-takeover actor target u a b c h k =
        elim (Bool-cases (bytes_eq target.email actor.email)) [
          | inl t ↦
              subst (λ v. owner domains v (some (some u)) ≡ true) (same_row target actor b a t) k
          | inr f ↦ elim (Bool-cases (bytes_eq u.email target.email)) [
            | inl t ↦
                subst (λ v. owner domains actor (some (some v)) ≡ true)
                  (sym (same_row u target c b t)) h
            | inr g ↦ ground (
              arith,
              managed-subset actor target (table.known target b) (ground arith) f u.domain,
              can_manage_user_trans actor target u (table.known u c) (ground arith) f,
            )
          ]
        ]

    manages-takeover :
        (actor target : User)
        → users actor
        → users target
        → owner domains actor (some (some target)) ≡ true
        → (name : Bytes) → member name (get_managed_domains domains target) ≡ true
        → member name (get_managed_domains domains actor) ≡ true
    unfolding owner
    manages-takeover actor target a b h name k =
        elim (Bool-cases (bytes_eq target.email actor.email)) [
          | inl t ↦
              subst (λ v. member name (get_managed_domains domains v) ≡ true)
                (same_row target actor b a t) k
          | inr f ↦ managed-subset actor target (table.known target b) (ground arith) f name k
        ]

    user_row-takeover :
        (actor target v : User)
        → users actor
        → users target
        → users v
        → owner domains actor (some (some target)) ≡ true
        → domain_admin domains target (some (user_row v)) ≡ true
        → domain_admin domains actor (some (user_row v)) ≡ true
    unfolding owner domain_admin
    user_row-takeover actor target v a b c h k =
        elim (Bool-cases (bytes_eq target.email actor.email)) [
          | inl t ↦
              subst (λ w. domain_admin domains w (some (user_row v)) ≡ true)
                (same_row target actor b a t) k
          | inr f ↦ elim (Bool-cases (bytes_eq v.email target.email)) [
            | inl t ↦
                subst (λ w. domain_admin domains actor (some (user_row w)) ≡ true)
                  (sym (same_row v target c b t)) (ground arith)
            | inr g ↦ ground (
              arith,
              managed-subset actor target (table.known target b) (ground arith) f v.domain,
              can_manage_user_trans actor target v (table.known v c) (ground arith) f,
            )
          ]
        ]

    -- Who may edit the account of a user may use every view of a domain, of its users and of its rows
    -- that this user may use as its manager.
    pub domain_admin-takeover :
        (actor target : User) (resource : Resource)
        → users actor
        → users target
        → ((u : User) → resource ≡ user_row u → users u)
        → owner domains actor (some (some target)) ≡ true
        → domain_admin domains target (some resource) ≡ true
        → domain_admin domains actor (some resource) ≡ true
    unfolding domain_admin
    domain_admin-takeover actor target (domain_row name) a b c h k =
        manages-takeover actor target a b h name k
    domain_admin-takeover actor target (domain_owned name) a b c h k =
        manages-takeover actor target a b h name k
    domain_admin-takeover actor target (user_row v) a b c h k =
        user_row-takeover actor target v a b (c v refl) h k
