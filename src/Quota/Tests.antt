-- ===== src/Quota/Tests.antt =====
-- The quota of concrete tenants.
use zydecodb.Prelude.{
  ℕ, ◌+◌, ◌^◌, ◌<◌, ◌≤◌, ◌≡◌, ◌↔◌, ◌⊎◌, refl, true, false, none, some, List, [], ◌∷◌, arith,
}
use zydecodb.Prelude.Bytes.{Bytes, cmp_bytes}
use zydecodb.Prelude.Slices.{slice}
use zydecodb.Errors.{ok, err, rejected}
use zydecodb.Quota.{TenantQuotaPolicy, tenant_from_key, cap_for, pre_write, post_write, usage_of}
use zydecodb.Quota.Stored.{stored, lookup, put_value, erase_value}
use zydecodb.Quota.Exact.{IsExact, post_write-IsExact, pre_write_exact}

-- A tenant, and a key of it.
abbrev tenant : Bytes
tenant = 3 ∷ 3 ∷ 3 ∷ 3 ∷ 3 ∷ 3 ∷ 3 ∷ 3 ∷ 3 ∷ 3 ∷ 3 ∷ 3 ∷ 3 ∷ 3 ∷ 3 ∷ 3 ∷ []

abbrev key : Bytes
key = 1 ∷ 3 ∷ 3 ∷ 3 ∷ 3 ∷ 3 ∷ 3 ∷ 3 ∷ 3 ∷ 3 ∷ 3 ∷ 3 ∷ 3 ∷ 3 ∷ 3 ∷ 3 ∷ 3 ∷ 107 ∷ []

abbrev capped : List (Bytes × ℕ) → TenantQuotaPolicy
capped m = record { default_max_bytes = 100; max_bytes = λ t. none; usage = m }

key_tenant : tenant_from_key key ≡ some tenant
unfolding tenant_from_key slice
key_tenant = refl

fits_exactly : pre_write (capped ((tenant, 90) ∷ [])) key 10 none false ≡ ok tt
unfolding pre_write cmp_bytes slice
fits_exactly = refl

crosses_cap :
    pre_write (capped ((tenant, 90) ∷ [])) key 11 none false
    ≡ err (rejected "tenant quota exceeded")
unfolding pre_write cmp_bytes slice
crosses_cap = refl

nothing_stored : IsExact (capped []) []
unfolding stored usage_of
nothing_stored t = refl

nothing_size : (t : Bytes) → stored t [] + 90 < 2 ^ 64
unfolding stored
nothing_size t = omega arith

post_write-IsExact_example :
    IsExact (post_write (capped []) key 90 (lookup key []) false) (put_value key 90 [])
    × IsExact (post_write (capped []) key 90 (lookup key []) true) (erase_value key [])
post_write-IsExact_example = post_write-IsExact (capped []) [] key 90 nothing_stored nothing_size

pre_write_exact_example :
    ((pre_write (capped []) key 90 (lookup key []) false ≡ ok tt) ↔ (
      (cap_for (capped []) tenant ≡ 0)
      ⊎ (stored tenant (put_value key 90 []) ≤ cap_for (capped []) tenant)))
    × (pre_write (capped []) key 90 (lookup key []) true ≡ ok tt)
pre_write_exact_example =
    pre_write_exact (capped []) [] key tenant 90 nothing_stored (nothing_size tenant) key_tenant
