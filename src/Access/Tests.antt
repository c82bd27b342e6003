-- ===== src/Access/Tests.antt =====
-- A manager, a user of the domain, and the theorems at them.
use mailu.Prelude.{
  ◌≡◌, refl, ap, ◌≢◌, true, false, some, List, [], ◌∷◌, arith, all, Bytes, codes, bytes_eq,
  bytes_eq_refl, member,
}
use mailu.Access.{User, get_managed_domains, can_manage_user, owner}
use mailu.Access.Escalation.{IsTable, owner-takeover}

abbrev org : Bytes
org = codes "ex.org"

abbrev net : Bytes
net = codes "ex.net"

abbrev domains : List Bytes
domains = org ∷ net ∷ []

abbrev boss : User
boss = record {
  email = codes "boss@ex.org";
  domain = org;
  global_admin = false;
  manager_of = domains;
}

abbrev head_of_org : User
head_of_org = record {
  email = codes "head@ex.org";
  domain = org;
  global_admin = false;
  manager_of = org ∷ [];
}

abbrev root : User
root = record { email = codes "root@ex.org"; domain = org; global_admin = true; manager_of = [] }

-- who of the three a user is
data Row : User → Type 0 where
  is_boss : Row boss
  is_head : Row head_of_org
  is_root : Row root

not_upwards : owner domains boss (some (some root)) ≡ false
unfolding owner can_manage_user get_managed_domains member bytes_eq
not_upwards = refl

not_sidewards : owner domains head_of_org (some (some boss)) ≡ false
unfolding owner can_manage_user get_managed_domains member bytes_eq
not_sidewards = refl

apart : (xs ys : Bytes) → bytes_eq xs ys ≡ false → xs ≢ ys
apart xs ys f e = ground (arith, ap (bytes_eq xs) e, bytes_eq_refl xs)

rows_apart : (u v : User) → Row u → Row v → u.email ≡ v.email → u ≡ v
unfolding bytes_eq
rows_apart u v is_boss is_boss e = refl
rows_apart u v is_boss is_head e = absurd (apart u.email v.email refl e)
rows_apart u v is_boss is_root e = absurd (apart u.email v.email refl e)
rows_apart u v is_head is_boss e = absurd (apart u.email v.email refl e)
rows_apart u v is_head is_head e = refl
rows_apart u v is_head is_root e = absurd (apart u.email v.email refl e)
rows_apart u v is_root is_boss e = absurd (apart u.email v.email refl e)
rows_apart u v is_root is_head e = absurd (apart u.email v.email refl e)
rows_apart u v is_root is_root e = refl

known : (u : User) → Row u → all (λ x. member x domains) u.manager_of ≡ true
unfolding member bytes_eq
known u is_boss = refl
known u is_head = refl
known u is_root = refl

table : IsTable domains Row
table = record { one_row = rows_apart; known = known }

owner-takeover_example : owner domains boss (some (some head_of_org)) ≡ true
unfolding owner can_manage_user get_managed_domains member bytes_eq
owner-takeover_example =
    owner-takeover domains table boss head_of_org head_of_org is_boss is_head is_head refl refl
