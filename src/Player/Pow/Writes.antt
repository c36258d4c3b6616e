-- ===== src/Player/Pow/Writes.antt =====
-- Sequences of writes to the resources, and what is read behind them.
use thero_logic_server.Base.{
  ℕ, ◌≡◌, refl, ◌∙◌, ap, Bool, true, leb, ◌&&◌, ◌==◌, if◌then◌else◌, List, [], ◌∷◌, arith,
}
use thero_logic_server.Player.Pow.{Pow, set_pow, get_pow}

-- writes of values to types, the first one first
abbrev pub set_all : List (ℕ × ℕ) → Pow → Pow
set_all [] p = p
set_all ((t, v) ∷ ws) p = set_all ws (set_pow t v p)

-- the last value that was written to this type, or else `old`
abbrev pub last_of : ℕ → List (ℕ × ℕ) → ℕ → ℕ
last_of k [] old = old
last_of k ((t, v) ∷ ws) old = last_of k ws (if k == t then v else old)

abbrev pub is_type : ℕ → Bool
is_type t = leb 1 t && leb t 5

get_pow-set_pow :
    (k t v : ℕ) (p : Pow)
    → is_type k ≡ true
    → get_pow (set_pow t v p) k ≡ (if k == t then v else get_pow p k)
unfolding get_pow set_pow
get_pow-set_pow k t v p h = ground arith

-- Behind any sequence of calls of `SetPow`, `GetPow` returns for each of the types 1 to 5 the value last
-- set for it, or what it returned before when there is none; writes to other types, valid or not, change
-- nothing.
pub get_pow-set_all :
    (k : ℕ) (ws : List (ℕ × ℕ)) (p : Pow)
    → is_type k ≡ true
    → get_pow (set_all ws p) k ≡ last_of k ws (get_pow p k)
get_pow-set_all k [] p h = refl
get_pow-set_all k ((t, v) ∷ ws) p h =
    get_pow-set_all k ws (set_pow t v p) h ∙ ap (last_of k ws) (get_pow-set_pow k t v p h)
