-- ===== src/DocKeys/Tests.antt =====
-- Runs of the key layout, and the theorems at concrete keys.
use zydecodb.Prelude.{◌≡◌, refl, false, [], ◌∷◌, arith}
use zydecodb.DocKeys.{
  doc_prefix, doc_key, doc_id_from_doc_key, index_prefix, index_key, prefix_upper_bound,
}
use zydecodb.DocKeys.Scan.{in_range, is_prefix, scan_exact}
use zydecodb.DocKeys.Layout.{doc_id-doc_key, scans_apart}

-- `prefix_upper_bound_bumps_last_byte`.
bounds :
    (prefix_upper_bound (b'a' ∷ b'b' ∷ b'c' ∷ []) ≡ b'a' ∷ b'b' ∷ b'd' ∷ [])
    × (prefix_upper_bound (b'a' ∷ 255 ∷ []) ≡ b'b' ∷ [])
    × (prefix_upper_bound (255 ∷ 255 ∷ []) ≡ [])
unfolding prefix_upper_bound
bounds = (refl, refl, refl)

scan_exact_example :
    in_range (b'a' ∷ 255 ∷ []) (prefix_upper_bound (b'a' ∷ 255 ∷ [])) (b'a' ∷ 255 ∷ 3 ∷ [])
    ≡ is_prefix (b'a' ∷ 255 ∷ []) (b'a' ∷ 255 ∷ 3 ∷ [])
scan_exact_example = scan_exact (b'a' ∷ 255 ∷ []) (b'a' ∷ 255 ∷ 3 ∷ []) (omega arith) (omega arith)

doc_id-doc_key_example :
    doc_id_from_doc_key 1 (doc_key (1 ∷ []) 3 (b'u' ∷ b'7' ∷ [])) ≡ b'u' ∷ b'7' ∷ []
doc_id-doc_key_example = doc_id-doc_key (1 ∷ []) 3 (b'u' ∷ b'7' ∷ [])

scans_apart_example :
    (in_range
        (doc_prefix (1 ∷ []) 3)
        (prefix_upper_bound (doc_prefix (1 ∷ []) 3))
        (doc_key (1 ∷ []) 4 (9 ∷ []))
      ≡ false)
    × (in_range
          (doc_prefix (1 ∷ []) 3)
          (prefix_upper_bound (doc_prefix (1 ∷ []) 3))
          (index_key (1 ∷ []) 4 6 (0 ∷ []) (9 ∷ []))
        ≡ false)
    × (in_range
          (index_prefix (1 ∷ []) 3 5)
          (prefix_upper_bound (index_prefix (1 ∷ []) 3 5))
          (index_key (1 ∷ []) 4 6 (0 ∷ []) (9 ∷ []))
        ≡ false)
    × (in_range
          (index_prefix (1 ∷ []) 3 5)
          (prefix_upper_bound (index_prefix (1 ∷ []) 3 5))
          (doc_key (1 ∷ []) 4 (9 ∷ []))
        ≡ false)
scans_apart_example =
    scans_apart (1 ∷ []) 3 4 5 6 (0 ∷ []) (9 ∷ []) (omega arith) (omega arith) (omega arith)
      (omega arith) (omega arith) (omega arith) (omega arith)
