-- ===== src/DocKeys/Parse.antt =====
-- The parser of index keys finds the collection and the index, and consumes the fields at least.
use zydecodb.Prelude.{ℕ, ◌∷◌, ◌++◌}
use zydecodb.Prelude.Bytes.{Bytes, to_be}
use zydecodb.DocKeys.{rec_index}

module _ (p : Bytes) (c i : ℕ) (rest : Bytes) where
  abbrev whole : Bytes
  whole = p ++ (rec_index ∷ (to_be 4 c ++ (to_be 4 i ++ rest)))
