-- ===== src/Quota/Exact.antt =====
-- The usage counters against the bytes that are stored, and what the quota admits.
use zydecodb.Prelude.{
  ℕ, ◌+◌, ◌-◌, ◌^◌, ◌<◌, ◌≤◌, ◌≡◌, ◌↔◌, refl, sym, ap, ◌∙◌, Bool, true, false, Option, none, some,
  List, [], ◌∷◌, arith, ltb, ◌==◌, if◌then◌else◌, ◌⊎◌, inl, inr, Bool-cases, Option-cases,
}
use native.Mathlib.Nat.{mod-eq_of_lt}
use zydecodb.Prelude.Bytes.{Bytes, cmp_bytes-IsTotal}
use zydecodb.Errors.{ok, err, rejected}
use zydecodb.Memtable.{bytes_eq}
use zydecodb.Quota.{
  TenantQuotaPolicy, usage_of, remove_usage, insert_usage, cap_for, tenant_from_key, freed,
  new_total, pre_write, post_write, with_usage, deleted,
}
use zydecodb.Quota.Stored.{
  is_of, counted, stored, lookup, put_value, erase_value, bytes_eq→≡, stored-put_value,
  stored-erase_value,
}

-- The counters of all tenants are the bytes that they have stored.
abbrev pub IsExact : TenantQuotaPolicy → List (Bytes × ℕ) → Type 0
IsExact p s = (t : Bytes) → usage_of t p.usage ≡ stored t s

usage_of-remove_usage :
    (t u : Bytes) (m : List (Bytes × ℕ))
    → usage_of t (remove_usage u m) ≡ (if bytes_eq u t then 0 else usage_of t m)
unfolding usage_of remove_usage
usage_of-remove_usage t u [] = ground arith
usage_of-remove_usage t u ((w, n) ∷ m) =
    ground (arith, usage_of-remove_usage t u m, bytes_eq→≡ w u, bytes_eq→≡ w t, bytes_eq→≡ u t)

usage_of-insert_usage :
    (t u : Bytes) (n : ℕ) (m : List (Bytes × ℕ))
    → usage_of t (insert_usage u n m) ≡ (if bytes_eq u t then n else usage_of t m)
unfolding usage_of insert_usage
usage_of-insert_usage t u n m = ground (arith, usage_of-remove_usage t u m)

usage_of-deleted :
    (t u : Bytes) (n : ℕ) (m : List (Bytes × ℕ))
    → usage_of t (deleted n u m) ≡ (if bytes_eq u t then n else usage_of t m)
usage_of-deleted t u n m =
    ground (arith, usage_of-remove_usage t u m, usage_of-insert_usage t u n m)

is_of_outside : (t k : Bytes) → tenant_from_key k ≡ none → is_of t k ≡ false
unfolding is_of
is_of_outside t k h = ground (arith, h)

is_of_own : (t k u : Bytes) → tenant_from_key k ≡ some u → is_of t k ≡ bytes_eq u t
unfolding is_of
is_of_own t k u h = ground (arith, h)

post_write_outside :
    (p : TenantQuotaPolicy) (k : Bytes) (v : ℕ) (o : Option ℕ) (d : Bool)
    → tenant_from_key k ≡ none
    → post_write p k v o d ≡ p
unfolding post_write
post_write_outside p k v o d h = ground (arith, h)

post_write_put :
    (p : TenantQuotaPolicy) (k u : Bytes) (v : ℕ) (o : Option ℕ)
    → tenant_from_key k ≡ some u
    → post_write p k v o false
      ≡ with_usage p (insert_usage u (new_total (usage_of u p.usage) o v) p.usage)
unfolding post_write
post_write_put p k u v o h = ground (arith, h)

post_write_delete :
    (p : TenantQuotaPolicy) (k u : Bytes) (v : ℕ) (o : Option ℕ)
    → tenant_from_key k ≡ some u
    → post_write p k v o true ≡ with_usage p (deleted (usage_of u p.usage - freed o) u p.usage)
unfolding post_write
post_write_delete p k u v o h = ground (arith, h)

-- The total that the code computes is the one behind the write.
module _ (p : TenantQuotaPolicy) (s : List (Bytes × ℕ)) (k u : Bytes) (exact : IsExact p s)
    (here : tenant_from_key k ≡ some u) where
  own : is_of u k ≡ true
  own = is_of_own u k u here ∙ ground (arith, cmp_bytes-IsTotal.self u)

  freed_le : freed (lookup k s) ≤ stored u s
  freed_le =
      omega (arith, stored-erase_value u k s, ap (λ (b : Bool). counted b (freed (lookup k s))) own)

  new_total-put_value :
      (v : ℕ)
      → stored u s + v < 2 ^ 64
      → new_total (usage_of u p.usage) (lookup k s) v ≡ stored u (put_value k v s)
  new_total-put_value v small =
      let total : usage_of u p.usage - freed (lookup k s) + v ≡ stored u (put_value k v s) = omega (
        arith,
        freed_le,
        exact u,
        stored-put_value u k v s,
        ap (λ (b : Bool). counted b (freed (lookup k s))) own,
        ap (λ (b : Bool). counted b v) own,
      ) in
      mod-eq_of_lt (omega (arith, exact u)) ∙ total

  -- The other tenants.
  other_put : (t : Bytes) (v : ℕ) → bytes_eq u t ≡ false → stored t (put_value k v s) ≡ stored t s
  other_put t v h =
      let no = is_of_own t k u here ∙ h in
      omega (
        arith,
        stored-put_value t k v s,
        ap (λ (b : Bool). counted b (freed (lookup k s))) no,
        ap (λ (b : Bool). counted b v) no,
      )

  other_erase : (t : Bytes) → bytes_eq u t ≡ false → stored t (erase_value k s) ≡ stored t s
  other_erase t h =
      let no = is_of_own t k u here ∙ h in
      omega (arith, stored-erase_value t k s, ap (λ (b : Bool). counted b (freed (lookup k s))) no)

  put_some :
      (v : ℕ)
      → ((t : Bytes) → stored t s + v < 2 ^ 64)
      → IsExact (post_write p k v (lookup k s) false) (put_value k v s)
  put_some v small t =
      let m = new_total (usage_of u p.usage) (lookup k s) v in
      ap (λ (q : TenantQuotaPolicy). usage_of t q.usage) (post_write_put p k u v (lookup k s) here)
      ∙ usage_of-insert_usage t u m p.usage
      ∙ elim (Bool-cases (bytes_eq u t))
          as (λ _. (if bytes_eq u t then m else usage_of t p.usage) ≡ stored t (put_value k v s)) [
            | inl same ↦ rw same (
                new_total-put_value v (small u)
                ∙ ap (λ (x : Bytes). stored x (put_value k v s)) (bytes_eq→≡ u t same))
            | inr other ↦ rw other (exact t ∙ sym (other_put t v other))
          ]

  erase_some : (v : ℕ) → IsExact (post_write p k v (lookup k s) true) (erase_value k s)
  erase_some v t =
      let m = usage_of u p.usage - freed (lookup k s) in
      ap (λ (q : TenantQuotaPolicy). usage_of t q.usage)
        (post_write_delete p k u v (lookup k s) here)
      ∙ usage_of-deleted t u m p.usage
      ∙ elim (Bool-cases (bytes_eq u t))
          as (λ _. (if bytes_eq u t then m else usage_of t p.usage) ≡ stored t (erase_value k s)) [
            | inl same ↦ rw same (
                omega (
                  arith,
                  freed_le,
                  exact u,
                  stored-erase_value u k s,
                  ap (λ (b : Bool). counted b (freed (lookup k s))) own,
                  ap (λ (x : Bytes). stored x (erase_value k s)) (bytes_eq→≡ u t same),
                ))
            | inr other ↦ rw other (exact t ∙ sym (other_erase t other))
          ]

-- The counters stay exact: after a write that is followed by `post_write` with the length of the
-- value before it, and after a deletion likewise, the counter of every tenant is the number of
-- value bytes that the tenant has stored, if no tenant would reach 2^64 bytes.
pub post_write-IsExact :
    (p : TenantQuotaPolicy) (s : List (Bytes × ℕ)) (k : Bytes) (v : ℕ)
    → IsExact p s
    → ((t : Bytes) → stored t s + v < 2 ^ 64)
    → IsExact (post_write p k v (lookup k s) false) (put_value k v s)
      × IsExact (post_write p k v (lookup k s) true) (erase_value k s)
post_write-IsExact p s k v exact small = elim (Option-cases (tenant_from_key k)) [
  | inl h ↦ (
    (λ t.
        let no = is_of_outside t k h in
        omega (
          arith,
          exact t,
          stored-put_value t k v s,
          ap (λ (q : TenantQuotaPolicy). usage_of t q.usage)
              (post_write_outside p k v (lookup k s) false h),
          ap (λ (b : Bool). counted b (freed (lookup k s))) no,
          ap (λ (b : Bool). counted b v) no,
        )),
    (λ t.
        let no = is_of_outside t k h in
        omega (
          arith,
          exact t,
          stored-erase_value t k s,
          ap (λ (q : TenantQuotaPolicy). usage_of t q.usage)
              (post_write_outside p k v (lookup k s) true h),
          ap (λ (b : Bool). counted b (freed (lookup k s))) no,
        )),
  )
  | inr (u, h) ↦ (put_some p s k u exact h v small, erase_some p s k u exact h v)
]

admits :
    (c n : ℕ)
    → ((if c == 0
          then ok (tt {0})
          else if ltb c n
          then err (rejected "tenant quota exceeded")
          else ok (tt {0}))
        ≡ ok (tt {0}))
      ↔ ((c ≡ 0) ⊎ (n ≤ c))
admits c n = ground arith

-- With exact counters, the quota admits a write of a tenant's key exactly if the tenant has no cap
-- or the value bytes that it has stored behind the write are within its cap. A deletion is always
-- admitted.
pub pre_write_exact :
    (p : TenantQuotaPolicy) (s : List (Bytes × ℕ)) (k u : Bytes) (v : ℕ)
    → IsExact p s
    → stored u s + v < 2 ^ 64
    → tenant_from_key k ≡ some u
    → ((pre_write p k v (lookup k s) false ≡ ok tt)
        ↔ ((cap_for p u ≡ 0) ⊎ (stored u (put_value k v s) ≤ cap_for p u)))
      × (pre_write p k v (lookup k s) true ≡ ok tt)
unfolding pre_write
pre_write_exact p s k u v exact small h = rw h (
    rw (new_total-put_value p s k u exact h v small)
      (admits (cap_for p u) (stored u (put_value k v s)), refl))
