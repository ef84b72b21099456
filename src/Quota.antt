-- ===== src/Quota.antt =====
-- crates/zydecodb/src/security/quota.rs: the byte quota of a tenant. The HashMap of the usage is a
-- list of its entries.
pub mod Stored
pub mod Exact
mod Tests
use zydecodb.Prelude.{
  ℕ, zero, suc, ◌+◌, ◌-◌, ◌%◌, ◌^◌, Bool, true, false, Option, none, some, List, [], ◌∷◌, length,
  ltb, ◌==◌, ◌||◌, not, if◌then◌else◌,
}
use zydecodb.Prelude.Bytes.{Bytes}
use zydecodb.Prelude.Slices.{slice}
use zydecodb.Errors.{EngineResult, ok, err, rejected}
use zydecodb.Keys.{ks_user}
use zydecodb.Memtable.{bytes_eq}

-- `struct TenantQuotaPolicy`; `max_bytes` is what `TenantLimits` answers.
pub record TenantQuotaPolicy : Type 0 where
  pub default_max_bytes : ℕ
  pub max_bytes : Bytes → Option ℕ
  pub usage : List (Bytes × ℕ)

-- `usage.get(&tenant).copied().unwrap_or(0)`.
unfoldable pub usage_of : Bytes → List (Bytes × ℕ) → ℕ
usage_of t [] = 0
usage_of t ((u, n) ∷ m) = let rest = usage_of t m in if bytes_eq u t then n else rest

-- `usage.remove(&tenant)`.
unfoldable pub remove_usage : Bytes → List (Bytes × ℕ) → List (Bytes × ℕ)
remove_usage t [] = []
remove_usage t ((u, n) ∷ m) =
    let rest = remove_usage t m in if bytes_eq u t then rest else (u, n) ∷ rest

-- `usage.insert(tenant, n)`.
unfoldable pub insert_usage : Bytes → ℕ → List (Bytes × ℕ) → List (Bytes × ℕ)
unfolding remove_usage
insert_usage t n m = (t, n) ∷ remove_usage t m

-- `cap_for`.
unfoldable pub cap_for : TenantQuotaPolicy → Bytes → ℕ
cap_for p tenant = elim (p.max_bytes tenant) [ none ↦ p.default_max_bytes | some n ↦ n ]

-- `tenant_from_key`.
unfoldable pub tenant_from_key : Bytes → Option Bytes
tenant_from_key [] = none
tenant_from_key (b ∷ rest) =
    if not (b == ks_user) || ltb (length (b ∷ rest)) 17 then none else some (slice 1 17 (b ∷ rest))

-- `existing_value_len.unwrap_or(0)`.
abbrev pub freed : Option ℕ → ℕ
freed none = 0
freed (some n) = n

-- `current.saturating_sub(freed) + value_len as u64`.
abbrev pub new_total : ℕ → Option ℕ → ℕ → ℕ
new_total current existing value_len = (current - freed existing + value_len) % 2 ^ 64

-- `pre_write`.
unfoldable pub pre_write : TenantQuotaPolicy → Bytes → ℕ → Option ℕ → Bool → EngineResult (Unit {0})
unfolding tenant_from_key cap_for usage_of
pre_write p key value_len existing is_delete =
    if is_delete then ok tt else elim (tenant_from_key key) [
      | none ↦ ok tt
      | some tenant ↦
          if cap_for p tenant == 0
          then ok tt
          else if ltb (cap_for p tenant) (new_total (usage_of tenant p.usage) existing value_len)
          then err (rejected "tenant quota exceeded")
          else ok tt
    ]

abbrev pub with_usage : TenantQuotaPolicy → List (Bytes × ℕ) → TenantQuotaPolicy
with_usage p m = record {
  default_max_bytes = p.default_max_bytes;
  max_bytes = p.max_bytes;
  usage = m;
}

abbrev pub deleted : ℕ → Bytes → List (Bytes × ℕ) → List (Bytes × ℕ)
deleted total tenant m = if total == 0 then remove_usage tenant m else insert_usage tenant total m

-- `post_write`.
unfoldable pub post_write : TenantQuotaPolicy → Bytes → ℕ → Option ℕ → Bool → TenantQuotaPolicy
unfolding tenant_from_key usage_of insert_usage
post_write p key value_len existing is_delete = elim (tenant_from_key key) [
  | none ↦ p
  | some tenant ↦
      let current = usage_of tenant p.usage in
      if is_delete
      then with_usage p (deleted (current - freed existing) tenant p.usage)
      else with_usage p (insert_usage tenant (new_total current existing value_len) p.usage)
]
