-- ===== src/SplitString.antt =====
-- GameLib/split_string.cpp: `SplitString`. A string is the list of its bytes.
-- The part of the string from `nPos` on is a list; the fuel is one more than the string's length.
pub mod Pieces
mod Tests
use thero_logic_server.Base.{
  ℕ, zero, suc, ◌+◌, Bool, true, false, ◌&&◌, ◌||◌, leb, ◌==◌, if◌then◌else◌, Option, none, some,
  ◌>>=◌, List, [], ◌∷◌, ◌++◌, length, take, drop,
}

-- `isspace`, in the C locale
abbrev pub is_space : ℕ → Bool
is_space c = c == 32 || (leb 9 c && leb c 13)

-- `remove_space`
unfoldable pub remove_space : List ℕ → List ℕ
remove_space [] = []
remove_space (c ∷ s) = if is_space c then remove_space s else c ∷ remove_space s

-- `find`, with the string's length in the place of `npos`
unfoldable pub find : ℕ → List ℕ → ℕ
find d [] = 0
find d (c ∷ s) = if c == d then 0 else suc (find d s)

-- the piece that a round stores, if any
abbrev pub stored : ℕ → List ℕ → List (List ℕ)
stored zero s = []
stored (suc n) s = remove_space (take (suc n) s) ∷ []

-- the loop; `none` is that the fuel ran out
unfoldable pub split_loop : ℕ → ℕ → List ℕ → Option (List (List ℕ))
unfolding find
split_loop zero d s = none
split_loop (suc fuel) d s =
    let n = find d s in
    elim (drop (n + 1) s) [
      | [] ↦ some (stored n s)
      | c ∷ rest ↦ (split_loop fuel d (c ∷ rest) >>= λ more. some (stored n s ++ more))
    ]

-- `SplitString`
unfoldable pub split_string : List ℕ → ℕ → Option (List (List ℕ))
unfolding split_loop
split_string [] d = some []
split_string (c ∷ s) d = split_loop (length (c ∷ s) + 1) d (c ∷ s)
