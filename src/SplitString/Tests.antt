-- ===== src/SplitString/Tests.antt =====
-- Strings that are split at commas.
use thero_logic_server.Base.{◌≡◌, refl, some, [], ◌∷◌, arith}
use thero_logic_server.SplitString.{split_string, remove_space}
use thero_logic_server.SplitString.Pieces.{
  cleaned, pieces, split_string_lem, joined, split_string-joined,
}

-- ",a b,,c,"
split_run :
    split_string (44 ∷ 97 ∷ 32 ∷ 98 ∷ 44 ∷ 44 ∷ 99 ∷ 44 ∷ []) 44
    ≡ some ((97 ∷ 98 ∷ []) ∷ (99 ∷ []) ∷ [])
unfolding split_string remove_space
split_run = refl

split_string_lem_example :
    split_string (97 ∷ 44 ∷ 98 ∷ []) 44 ≡ some (cleaned (pieces 44 (97 ∷ 44 ∷ 98 ∷ [])))
split_string_lem_example = split_string_lem (97 ∷ 44 ∷ 98 ∷ []) 44

split_string-joined_example :
    split_string (joined 44 ((97 ∷ 98 ∷ []) ∷ (99 ∷ []) ∷ [])) 44
    ≡ some ((97 ∷ 98 ∷ []) ∷ (99 ∷ []) ∷ [])
split_string-joined_example =
    split_string-joined 44 ((97 ∷ 98 ∷ []) ∷ (99 ∷ []) ∷ [])
      (omega arith, (refl, refl, (refl, refl, tt)), (omega arith, (refl, refl, tt), tt))
