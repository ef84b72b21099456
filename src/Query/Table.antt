-- ===== src/Query/Table.antt =====
-- A snapshot that is a table of entries: what crates/zydecodb-document/src/query.rs relies on holds of
-- it.
use zydecodb.Prelude.{
  ◌≤◌, ◌≡◌, ◌↔◌, sym, ap, ap₂, subst, ◌∙◌, inl, inr, true, false, Option, none, some, List, [], ◌∷◌,
  length, All, arith, Bool-cases, if◌then◌else◌,
}
use zydecodb.Prelude.Bytes.{Bytes, IsBytes}
use zydecodb.Prelude.SortedMap.{Has, All-Has}
use zydecodb.Encoding.Path.{same_str, same_str_sound, same_str_refl}
use zydecodb.DocKeys.Scan.{in_range}
use zydecodb.Query.Snapshot.{SnapshotHandle, IsCoherent}

abbrev Table : Type 0
Table = List (Bytes × Bytes)

unfoldable get_entry : Table → Bytes → Option Bytes
unfolding same_str
get_entry [] key = none
get_entry ((k, v) ∷ table) key =
    let later = get_entry table key in if same_str k key then some v else later

unfoldable scan_entries : Table → Bytes → Bytes → Table
unfolding in_range
scan_entries [] lo hi = []
scan_entries ((k, v) ∷ table) lo hi =
    let rest = scan_entries table lo hi in if in_range lo hi k then (k, v) ∷ rest else rest

unfoldable pub snapshot_of : Table → SnapshotHandle
unfolding get_entry scan_entries
snapshot_of table = record { get = get_entry table; scan = scan_entries table }

-- No key stands twice, and keys are bytes.
abbrev pub IsTable : Table → Type 0
IsTable [] = Unit
IsTable ((k, v) ∷ table) = All (λ kv. same_str k kv.0 ≡ false) table × IsBytes k × IsTable table

get_entry-Has : (table : Table) (k v : Bytes) → get_entry table k ≡ some v → Has (k, v) table
unfolding get_entry
get_entry-Has [] k v e = ground arith
get_entry-Has ((j, w) ∷ table) k v e = elim (Bool-cases (same_str j k)) [
  | inl s ↦
      inl (ap₂ (λ (a b : Bytes). (a, b)) (sym (same_str_sound j k s)) (sym (same (rw s at e))))
  | inr n ↦ inr (get_entry-Has table k v (rw n at e))
]
  where
    same : {a b : Bytes} → some a ≡ some b → a ≡ b
    same h = ground arith

get_entry_of-Has :
    (table : Table) (k v : Bytes) → IsTable table → Has (k, v) table → get_entry table k ≡ some v
unfolding get_entry
get_entry_of-Has [] k v t h = absurd h
get_entry_of-Has ((j, w) ∷ table) k v t (inl e) =
    let kj : k ≡ j = ap (λ (x : Bytes × Bytes). x.0) e in
    let vw : v ≡ w = ap (λ (x : Bytes × Bytes). x.1) e in
    rw (subst (λ x. same_str j x ≡ true) (sym kj) (same_str_refl j)) (ap some (sym vw))
get_entry_of-Has ((j, w) ∷ table) k v t (inr h) =
    rw (All-Has (λ kv. same_str j kv.0 ≡ false) (k, v) table t.0 h)
      (get_entry_of-Has table k v t.2 h)

scan_entries-Has :
    (table : Table) (lo hi k v : Bytes)
    → Has (k, v) (scan_entries table lo hi) ↔ (Has (k, v) table × (in_range lo hi k ≡ true))
unfolding scan_entries
scan_entries-Has [] lo hi k v = (λ h. absurd h, λ h. absurd h.0)
scan_entries-Has ((j, w) ∷ table) lo hi k v =
    let ih = scan_entries-Has table lo hi k v in
    elim (Bool-cases (in_range lo hi j)) [
      | inl i ↦
          rw (i, scan_entries)
            (
              λ h. elim h [
                | inl e ↦ (
                  inl e,
                  subst (λ x. in_range lo hi x ≡ true) (sym (ap (λ (x : Bytes × Bytes). x.0) e)) i,
                )
                | inr g ↦ (inr (ih.0 g).0, (ih.0 g).1)
              ],
              λ h. elim h.0 [ inl e ↦ inl e | inr g ↦ inr (ih.1 (g, h.1)) ],
            )
      | inr o ↦
          rw (o, scan_entries)
            (
              λ h. (inr (ih.0 h).0, (ih.0 h).1),
              λ h. elim h.0 [
                | inl e ↦ absurd (
                    apart (
                      sym h.1
                      ∙ subst (λ x. in_range lo hi x ≡ false)
                          (sym (ap (λ (x : Bytes × Bytes). x.0) e)) o))
                | inr g ↦ ih.1 (g, h.1)
              ],
            )
    ]
  where
    apart : ¬ (true ≡ false)
    apart h = ground arith

key_IsBytes : (table : Table) (k v : Bytes) → IsTable table → Has (k, v) table → IsBytes k
key_IsBytes [] k v t h = absurd h
key_IsBytes ((j, w) ∷ table) k v t (inl e) =
    subst IsBytes (sym (ap (λ (x : Bytes × Bytes). x.0) e)) t.1
key_IsBytes ((j, w) ∷ table) k v t (inr h) = key_IsBytes table k v t.2 h

pub snapshot_of-IsCoherent : (table : Table) → IsTable table → IsCoherent (snapshot_of table)
unfolding snapshot_of
snapshot_of-IsCoherent table t = record {
  scan_has = λ lo hi k v. (
    λ h.
        let (has, inside) = (scan_entries-Has table lo hi k v).0 h in
        (get_entry_of-Has table k v t has, inside),
    λ h. (scan_entries-Has table lo hi k v).1 (get_entry-Has table k v h.0, h.1),
  );
  key_bytes = λ k v e. key_IsBytes table k v t (get_entry-Has table k v e);
}

scan_entries_short :
    (table : Table) (lo hi : Bytes) → length (scan_entries table lo hi) ≤ length table
unfolding scan_entries
scan_entries_short [] lo hi = omega arith
scan_entries_short ((k, v) ∷ table) lo hi = ground (arith, scan_entries_short table lo hi)

pub scan_short :
    (table : Table) (lo hi : Bytes) → length ((snapshot_of table).scan lo hi) ≤ length table
unfolding snapshot_of
scan_short = scan_entries_short

pub get-Has : (table : Table) (k v : Bytes) → (snapshot_of table).get k ≡ some v → Has (k, v) table
unfolding snapshot_of
get-Has = get_entry-Has
