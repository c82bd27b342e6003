-- ===== src/Access.antt =====
-- core/admin/mailu/ui/access.py: who may use which view of the web interface.
pub mod Escalation
mod Tests
use mailu.Prelude.{
  Bool, true, false, ◌&&◌, ◌||◌, Option, none, some, List, [], if◌then◌else◌, all, Bytes, bytes_eq,
  member,
}

-- a user's row; domains are known by their names
pub record User : Type 0 where
  pub email : Bytes
  pub domain : Bytes
  pub global_admin : Bool
  pub manager_of : List Bytes

-- what a view of `domain_admin` is about: a domain, a user, or a row of a domain (such as an alias)
pub data Resource : Type 0 where
  domain_row : Bytes → Resource
  user_row : User → Resource
  domain_owned : Bytes → Resource

-- `User.get_managed_domains`, given the names of all domains
unfoldable pub get_managed_domains : List Bytes → User → List Bytes
get_managed_domains domains u = if u.global_admin then domains else u.manager_of

-- `set(xs) <= set(ys)`
abbrev pub subset : List Bytes → List Bytes → Bool
subset xs ys = all (λ x. member x ys) xs

module _ (domains : List Bytes) where
  unfoldable pub can_manage_user : User → User → Bool
  can_manage_user actor target =
      if actor.global_admin || bytes_eq target.email actor.email
      then true
      else if target.global_admin
      then false
      else subset (get_managed_domains domains target) (get_managed_domains domains actor)

  unfoldable pub spam_admin : User → Bool
  spam_admin user =
      user.global_admin || elim (get_managed_domains domains user) [ [] ↦ false | _ ↦ true ]

  abbrev manages : User → Bytes → Bool
  manages actor domain = member domain (get_managed_domains domains actor)

  -- the answer of the handler of `domain_admin`; a missing row is None, which refuses
  unfoldable pub domain_admin : User → Option Resource → Bool
  domain_admin current_user none = false
  domain_admin current_user (some (domain_row name)) = manages current_user name
  domain_admin current_user (some (domain_owned name)) = manages current_user name
  domain_admin current_user (some (user_row u)) =
      manages current_user u.domain && can_manage_user current_user u

  abbrev owns : User → User → Bool
  owns current_user user =
      if bytes_eq user.email current_user.email
      then true
      else manages current_user user.domain && can_manage_user current_user user

  -- the answer of the handler of `owner` to the user of the row: the key of a view about the current
  -- user is none, and a missing row is None, which refuses
  unfoldable pub owner : User → Option (Option User) → Bool
  owner current_user none = true
  owner current_user (some none) = false
  owner current_user (some (some user)) = owns current_user user
