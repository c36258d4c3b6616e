-- ===== src/SplitString/Pieces.antt =====
-- The pieces that `SplitString` gives, and splitting what was joined.
use thero_logic_server.Base.{
  ℕ, zero, suc, ◌+◌, ◌≤◌, ◌<◌, ◌≡◌, refl, sym, ap, ◌∙◌, inl, inr, true, false, ◌==◌, if◌then◌else◌,
  Bool-cases, Option, some, ◌>>=◌, List, [], ◌∷◌, ◌++◌, append-nil, length, take, drop, arith,
  suc_add, take_all, length-drop,
}
use native.Mathlib.Decide.{dec_lt}
use thero_logic_server.SplitString.{is_space, remove_space, find, stored, split_loop, split_string}

abbrev pub on_head : ℕ → List (List ℕ) → List (List ℕ)
on_head c [] = (c ∷ []) ∷ []
on_head c (p ∷ ps) = (c ∷ p) ∷ ps

-- all pieces between separators, the empty ones included
unfoldable pub pieces : ℕ → List ℕ → List (List ℕ)
pieces d [] = [] ∷ []
pieces d (c ∷ s) = if c == d then [] ∷ pieces d s else on_head c (pieces d s)

-- the non-empty ones, without their spaces
unfoldable pub cleaned : List (List ℕ) → List (List ℕ)
cleaned [] = []
cleaned ([] ∷ ps) = cleaned ps
cleaned ((c ∷ p) ∷ ps) = remove_space (c ∷ p) ∷ cleaned ps

find_le : (d : ℕ) (s : List ℕ) → find d s ≤ length s
unfolding find
find_le d [] = omega arith
find_le d (c ∷ s) = ground (arith, find_le d s)

pieces_more :
    (d : ℕ) (s : List ℕ)
    → find d s < length s
    → pieces d s ≡ take (find d s) s ∷ pieces d (drop (find d s + 1) s)
unfolding find pieces
pieces_more d [] h = absurd (omega arith)
pieces_more d (c ∷ s) h = elim (Bool-cases (c == d)) [
  | inl e ↦ rw e refl
  | inr e ↦ rw (e, suc_add (find d s) 1, pieces_more d s (ground arith)) refl
]

pieces_last : (d : ℕ) (s : List ℕ) → length s ≤ find d s → pieces d s ≡ s ∷ []
unfolding find pieces
pieces_last d [] h = refl
pieces_last d (c ∷ s) h = elim (Bool-cases (c == d)) [
  | inl e ↦ absurd (ground arith)
  | inr e ↦ rw (e, pieces_last d s (ground arith)) refl
]

cleaned-stored :
    (n : ℕ) (s : List ℕ) (ps : List (List ℕ))
    → n ≤ length s
    → cleaned (take n s ∷ ps) ≡ stored n s ++ cleaned ps
unfolding cleaned
cleaned-stored zero s ps h = refl
cleaned-stored (suc n) [] ps h = absurd (omega arith)
cleaned-stored (suc n) (c ∷ s) ps h = refl

split_loop_lem :
    (fuel d : ℕ) (s : List ℕ) → length s < fuel → split_loop fuel d s ≡ some (cleaned (pieces d s))
unfolding split_loop cleaned pieces
split_loop_lem zero d s h = absurd (omega arith)
split_loop_lem (suc fuel) d s h = go (drop (find d s + 1) s) refl (split_loop_lem fuel d)
  where
    n : ℕ
    n = find d s

    shorter : n < length s → length (drop (n + 1) s) < fuel
    shorter l = omega (arith, length-drop (n + 1) s)

    last : length s ≤ n → cleaned (pieces d s) ≡ stored n s
    last g =
        ap cleaned (pieces_last d s g ∙ ap (λ p. p ∷ []) (sym (take_all n s g)))
        ∙ cleaned-stored n s [] (find_le d s)
        ∙ append-nil (stored n s)

    more :
        (t : List ℕ)
        → n < length s
        → drop (n + 1) s ≡ t
        → cleaned (pieces d s) ≡ stored n s ++ cleaned (pieces d t)
    more t l e =
        ap cleaned (pieces_more d s l ∙ ap (λ r. take n s ∷ pieces d r) e)
        ∙ cleaned-stored n s (pieces d t) (find_le d s)

    inside : (c : ℕ) (t : List ℕ) → drop (n + 1) s ≡ c ∷ t → n < length s
    inside c t e = omega (arith, ap length e, length-drop (n + 1) s)

    go :
        (t : List ℕ)
        → drop (n + 1) s ≡ t
        → ((t : List ℕ) → length t < fuel → split_loop fuel d t ≡ some (cleaned (pieces d t)))
        → (elim t as (λ _. Option (List (List ℕ))) [
          | [] ↦ some (stored n s)
          | c ∷ rest ↦ (split_loop fuel d (c ∷ rest) >>= λ more. some (stored n s ++ more))
        ])
          ≡ some (cleaned (pieces d s))
    go [] e ih = elim (dec_lt n (length s)) [
      | no g ↦ ap some (sym (last (omega arith)))
      | yes l ↦ ap some (sym (more [] l e ∙ append-nil (stored n s)))
    ]
    go (c ∷ t) e ih =
        rw (ih (c ∷ t) (omega (arith, ap length e, shorter (inside c t e))))
          (ap some (sym (more (c ∷ t) (inside c t e) e)))

-- `SplitString` ends, and gives the non-empty pieces between separators, in order, without their spaces.
pub split_string_lem : (s : List ℕ) (d : ℕ) → split_string s d ≡ some (cleaned (pieces d s))
unfolding split_string pieces cleaned
split_string_lem [] d = refl
split_string_lem (c ∷ s) d = split_loop_lem (length (c ∷ s) + 1) d (c ∷ s) (omega arith)

-- words, joined by a separator
abbrev pub joined : ℕ → List (List ℕ) → List ℕ
joined d [] = []
joined d (w ∷ []) = w
joined d (w ∷ v ∷ ws) = w ++ (d ∷ joined d (v ∷ ws))

-- a word that is not empty, without separators and without spaces
abbrev pub Without : ℕ → List ℕ → Type 0
Without d [] = Unit {0}
Without d (c ∷ w) = ((c == d) ≡ false) × (is_space c ≡ false) × Without d w

abbrev pub AllWords : ℕ → List (List ℕ) → Type 0
AllWords d [] = Unit {0}
AllWords d (w ∷ ws) = (0 < length w) × Without d w × AllWords d ws

==_refl : (d : ℕ) → (d == d) ≡ true
==_refl d = ground arith

pieces_word : (d : ℕ) (w : List ℕ) → Without d w → pieces d w ≡ w ∷ []
unfolding pieces
pieces_word d [] a = refl
pieces_word d (c ∷ w) (n, k, a) = rw (n, pieces_word d w a) refl

pieces-append : (d : ℕ) (w s : List ℕ) → Without d w → pieces d (w ++ (d ∷ s)) ≡ w ∷ pieces d s
unfolding pieces
pieces-append d [] s a = rw (==_refl d) refl
pieces-append d (c ∷ w) s (n, k, a) = rw (n, pieces-append d w s a) refl

remove_space_word : (d : ℕ) (w : List ℕ) → Without d w → remove_space w ≡ w
unfolding remove_space
remove_space_word d [] a = refl
remove_space_word d (c ∷ w) (n, k, a) = rw k (ap (◌∷◌ c) (remove_space_word d w a))

cleaned_word :
    (d : ℕ) (w : List ℕ) (ps : List (List ℕ))
    → 0 < length w
    → Without d w
    → cleaned (w ∷ ps) ≡ w ∷ cleaned ps
unfolding cleaned
cleaned_word d [] ps h a = absurd (omega arith)
cleaned_word d (c ∷ w) ps h a = ap (λ t. t ∷ cleaned ps) (remove_space_word d (c ∷ w) a)

cleaned-joined :
    (d : ℕ) (ws : List (List ℕ)) → AllWords d ws → cleaned (pieces d (joined d ws)) ≡ ws
unfolding pieces cleaned
cleaned-joined d [] a = refl
cleaned-joined d (w ∷ []) (h, a, b) = ap cleaned (pieces_word d w a) ∙ cleaned_word d w [] h a
cleaned-joined d (w ∷ v ∷ ws) (h, a, b) =
    ap cleaned (pieces-append d w (joined d (v ∷ ws)) a)
    ∙ cleaned_word d w (pieces d (joined d (v ∷ ws))) h a
    ∙ ap (◌∷◌ w) (cleaned-joined d (v ∷ ws) b)

-- Words that are not empty and have neither spaces nor separators in them come back from `SplitString`
-- as they were, if they are joined by separators.
pub split_string-joined :
    (d : ℕ) (ws : List (List ℕ)) → AllWords d ws → split_string (joined d ws) d ≡ some ws
split_string-joined d ws a = split_string_lem (joined d ws) d ∙ ap some (cleaned-joined d ws a)
