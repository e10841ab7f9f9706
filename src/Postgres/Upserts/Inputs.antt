-- ===== src/Postgres/Upserts/Inputs.antt =====
-- internal/database/filestore/file_insert.sql.go: the rows that `unnest` makes of the arrays of the two
-- upserts.
use be_auction_lot.Prelude.{String, Option, none, some, List, [], ◌∷◌}
use be_auction_lot.Prelude.Int.{ℤ}
use be_auction_lot.Filestore.{Uuid}

-- One row of the arrays.
pub record MultiInput : Type 0 where
  pub sha256 : String
  pub file_size : ℤ
  pub content_type : String
  pub upload_id : Option String
  pub file_name : Option String
  pub storage_key : Uuid

pub record SingleInput : Type 0 where
  pub sha256 : String
  pub file_size : ℤ
  pub content_type : String
  pub file_name : Option String

-- An array that is too short is filled with nulls.
abbrev pub first_of : List String → Option String
first_of [] = none
first_of (s ∷ _) = some s

abbrev pub rest_of : List String → List String
rest_of [] = []
rest_of (_ ∷ ss) = ss

-- `unnest` of six arrays. The columns `upload_id` and `file_name` can be null; a null in any other
-- violates its constraint.
unfoldable pub unnest_multi :
    List String
    → List ℤ
    → List String
    → List String
    → List String
    → List Uuid
    → Option (List MultiInput)
unnest_multi [] [] [] [] [] [] = some []
unnest_multi (h ∷ hs) (z ∷ zs) (c ∷ cs) us ns (k ∷ ks) =
    elim (unnest_multi hs zs cs (rest_of us) (rest_of ns) ks) [
      | none ↦ none
      | some rest ↦ some (
          record {
            sha256 = h;
            file_size = z;
            content_type = c;
            upload_id = first_of us;
            file_name = first_of ns;
            storage_key = k;
          }
          ∷ rest)
    ]
unnest_multi _ _ _ _ _ _ = none

unfoldable pub unnest_single :
    List String → List ℤ → List String → List String → Option (List SingleInput)
unnest_single [] [] [] [] = some []
unnest_single (h ∷ hs) (z ∷ zs) (c ∷ cs) ns = elim (unnest_single hs zs cs (rest_of ns)) [
  | none ↦ none
  | some rest ↦
      some (record { sha256 = h; file_size = z; content_type = c; file_name = first_of ns } ∷ rest)
]
unnest_single _ _ _ _ = none
