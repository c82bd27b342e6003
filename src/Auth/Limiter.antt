-- ===== src/Auth/Limiter.antt =====
-- core/admin/mailu/limiter.py: the rate limits of logins, over the storage of the `limits` package.
pub mod Endpoint
use mailu.Prelude.{
  ℕ, Bool, true, false, not, ◌&&◌, ◌||◌, Option, none, some, [], ◌∷◌, ◌++◌, ltb, if◌then◌else◌,
  Bytes, codes, bytes_eq,
}

-- what is used of the package: counters, and moving windows of hits, of the two limits
pub data Limit : Type 0 where
  auth_ip auth_user : Limit

pub record Limits {ℓ} (S : Type ℓ) : Type ℓ where
  pub get : Bytes → S → ℕ
  pub incr : Bytes → ℕ → S → S
  pub clear : Bytes → S → S
  pub test : Limit → Bytes → S → Bool
  pub hit : Limit → Bytes → S → S

-- settings, the functions of networks, and the last six digits of a MAC
pub record Policy : Type 0 where
  pub is_exempt : Bytes → Bool
  pub normalize_ip : Bytes → Bytes
  pub network_of : Bytes → Bytes
  pub exemption_length : ℕ
  pub ip_granularity : ℕ
  pub user_granularity : ℕ
  pub truncated_mac : Bytes → Bytes → Bytes

module _ {ℓ} {S : Type ℓ} (limits : Limits S) (policy : Policy) where
  exempt_key : Bytes → Bytes
  exempt_key ip = codes "exempt-" ++ policy.normalize_ip ip

  unfoldable pub is_subject_to_rate_limits : Bytes → S → Bool
  unfolding exempt_key
  is_subject_to_rate_limits ip s =
      if policy.is_exempt ip then false else not (ltb 0 (limits.get (exempt_key ip) s))

  unfoldable pub exempt_ip_from_ratelimits : Bytes → S → S
  unfolding exempt_key
  exempt_ip_from_ratelimits ip s =
      limits.incr (exempt_key ip) policy.exemption_length (limits.clear (exempt_key ip) s)

  unfoldable pub should_rate_limit_ip : Bytes → S → Bool
  should_rate_limit_ip ip s =
      is_subject_to_rate_limits ip s && not (limits.test auth_ip (policy.network_of ip) s)

  -- an absent name is printed `None`
  dedup_key : Bytes → Option Bytes → Bytes
  dedup_key ip username =
      codes "dedup-"
      ++ policy.network_of ip
      ++ b'-' ∷ elim username [ none ↦ codes "None" | some name ↦ name ]

  unfoldable pub rate_limit_ip : Bytes → Option Bytes → S → S
  unfolding dedup_key
  rate_limit_ip ip username s =
      let key = dedup_key ip username in
      let named = elim username as (λ _. Bool) [
        | none ↦ false
        | some [] ↦ false
        | some (c ∷ cs) ↦ true
      ] in
      if not (is_subject_to_rate_limits ip s) || (named && ltb 0 (limits.get key s))
      then s
      else limits.hit auth_ip (policy.network_of ip) (limits.incr key policy.ip_granularity s)

  -- the device cookie stands for the user that it is of
  bucket : Bytes → Option (Bytes × Bytes) → Bytes
  bucket username none = username
  bucket username (some (cookie, name)) = if bytes_eq name username then cookie else username

  unfoldable pub should_rate_limit_user : Bytes → Bytes → Option (Bytes × Bytes) → S → Bool
  unfolding bucket
  should_rate_limit_user username ip device s =
      is_subject_to_rate_limits ip s && not (limits.test auth_user (bucket username device) s)

  unfoldable pub rate_limit_user : Bytes → Bytes → Option (Bytes × Bytes) → Bytes → S → S
  unfolding bucket
  rate_limit_user username ip device password s =
      let key = codes "dedup2-" ++ username ++ b'-' ∷ policy.truncated_mac username password in
      let given = elim password as (λ _. Bool) [ [] ↦ false | c ∷ cs ↦ true ] in
      if not (is_subject_to_rate_limits ip s) || (given && ltb 0 (limits.get key s))
      then s
      else rate_limit_ip ip (some username) (
          limits.hit auth_user (bucket username device) (limits.incr key policy.user_granularity s))
