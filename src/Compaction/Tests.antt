-- ===== src/Compaction/Tests.antt =====
-- Compactions of a few versions of one key.
use zydecodb.Prelude.{ℕ, ◌≡◌, refl, true, false, Option, none, some, List, [], ◌∷◌, arith, All}
use zydecodb.Prelude.Bytes.{Bytes, cmp_bytes}
use zydecodb.Keys.{value, tombstone}
use zydecodb.Entry.{is_expired}
use zydecodb.Memtable.{Pair}
use zydecodb.Compaction.{execute_compaction}
use zydecodb.Compaction.Read.{newest_visible, resolve_entry}
use zydecodb.Compaction.Kept.{concat}
use zydecodb.Compaction.Visible.{IsLasting, execute_compaction-newest}

abbrev user_key : Bytes
user_key = 1 ∷ b'k' ∷ []

abbrev put_at : ℕ → Option ℕ → Pair
put_at seq expires_at = (
  record { user_key = user_key; seq = seq; kind = value },
  record { value = some (b'v' ∷ []); expires_at = expires_at },
)

abbrev del_at : ℕ → Pair
del_at seq = (
  record { user_key = user_key; seq = seq; kind = tombstone },
  record { value = none; expires_at = none },
)

-- Of four versions under a watermark of 7, the one at 9 is kept, and the newest of the others.
abbrev versions : List Pair
versions = put_at 9 none ∷ put_at 6 none ∷ del_at 5 ∷ put_at 3 none ∷ []

two_kept :
    concat (execute_compaction 100 7 false 1000 versions).files ≡ put_at 9 none ∷ put_at 6 none ∷ []
unfolding execute_compaction cmp_bytes
two_kept = refl

none_expired : All (λ p. p.0.user_key ≡ user_key → IsLasting false 1000 p) versions
unfolding is_expired
none_expired =
    (λ q. (refl, refl), (λ q. (refl, refl), (λ q. (refl, refl), (λ q. (refl, refl), tt))))

execute_compaction-newest_example :
    newest_visible user_key 8 (concat (execute_compaction 100 7 false 1000 versions).files)
    ≡ newest_visible user_key 8 versions
execute_compaction-newest_example =
    execute_compaction-newest 7 false 1000 100 user_key 8 versions (omega arith) none_expired

-- What a read of the newest state answers.
abbrev answer : Option Pair → Option (Bytes × ℕ)
answer none = none
answer (some (k, e)) = resolve_entry k e 1000 false

-- A deletion at 5 over a value at 3, both durable: the key reads as missing.
abbrev deleted : List Pair
deleted = del_at 5 ∷ put_at 3 none ∷ []

deleted_before : answer (newest_visible user_key 100 deleted) ≡ none
unfolding newest_visible cmp_bytes resolve_entry
deleted_before = refl

-- A compaction into the last level drops the tombstone, keeps the value, and the key is back.
deleted_after :
    answer (newest_visible user_key 100 (concat (execute_compaction 100 7 true 1000 deleted).files))
    ≡ some (b'v' ∷ [], 3)
unfolding newest_visible cmp_bytes resolve_entry execute_compaction
deleted_after = refl

-- A version that expired, above the watermark of a live snapshot at 7 that sees the one below it.
abbrev expired_above : List Pair
expired_above = put_at 8 (some 900) ∷ put_at 7 none ∷ []

snapshot_before : answer (newest_visible user_key 7 expired_above) ≡ some (b'v' ∷ [], 7)
unfolding newest_visible cmp_bytes resolve_entry
snapshot_before = refl

-- The compaction drops both, and the snapshot loses the key.
snapshot_after :
    answer
      (newest_visible user_key 7 (concat (execute_compaction 100 7 false 1000 expired_above).files))
    ≡ none
unfolding newest_visible cmp_bytes resolve_entry execute_compaction
snapshot_after = refl
