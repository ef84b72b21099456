-- ===== src/Query/Snapshot.antt =====
-- What crates/zydecodb-document/src/query.rs reads through a `SnapshotHandle`
-- (crates/zydecodb-engine/src/owned_snapshot.rs): the value of a key, and a scan over a range. Reads
-- that fail are left out.
use zydecodb.Prelude.{◌≡◌, ◌↔◌, true, Option, some, List}
use zydecodb.Prelude.Bytes.{Bytes, IsBytes}
use zydecodb.Prelude.SortedMap.{Has}
use zydecodb.DocKeys.Scan.{in_range}

pub record SnapshotHandle : Type 0 where
  pub get : Bytes → Option Bytes
  pub scan : Bytes → Bytes → List (Bytes × Bytes)

-- The scan meets exactly the entries in its range, and keys are bytes.
pub record IsCoherent (snap : SnapshotHandle) : Type 0 where
  pub scan_has :
      (lo hi k v : Bytes)
      → Has (k, v) (snap.scan lo hi) ↔ ((snap.get k ≡ some v) × (in_range lo hi k ≡ true))
  pub key_bytes : (k v : Bytes) → snap.get k ≡ some v → IsBytes k
