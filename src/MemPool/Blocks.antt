-- ===== src/MemPool/Blocks.antt =====
-- Blocks that are given back and taken again, GameLib/mempool.cpp.
use thero_logic_server.Base.{
  ◌>>=◌, ℕ, zero, suc, ◌<◌, ◌≤◌, ◌≡◌, refl, ap, some, List, [], ◌∷◌, length, arith,
}
use thero_logic_server.MemPool.{
  link, Pool, max_block_size, block_list_num, free_list_index, list_at, set_list, allocate,
  deallocate,
}

pub list_at-set_list :
    (i : ℕ) (new : List ℕ) (ls : List (List ℕ))
    → i < length ls
    → list_at (set_list i new ls) i ≡ new
unfolding list_at set_list
list_at-set_list i new [] l = absurd (omega arith)
list_at-set_list zero new (x ∷ ls) l = refl
list_at-set_list (suc i) new (x ∷ ls) l = list_at-set_list i new ls (omega arith)

set_list-back :
    (i : ℕ) (new : List ℕ) (ls : List (List ℕ)) → set_list i (list_at ls i) (set_list i new ls) ≡ ls
unfolding list_at set_list
set_list-back i new [] = refl
set_list-back zero new (x ∷ ls) = refl
set_list-back (suc i) new (x ∷ ls) = ap (λ ms. x ∷ ms) (set_list-back i new ls)

-- A block that is given back is the next one that is handed out for its size, and the pool is then as it was before.
-- The conditions are that the block is not NULL, that the size is not 0 and at most `MAX_BLOCK_SIZE`, and that the
-- table has all its lists.
pub allocate-deallocate :
    (a n : ℕ) (p : Pool)
    → 0 < a
    → 0 < n
    → n ≤ max_block_size
    → length p.free_list ≡ block_list_num
    → (do q ← deallocate a n p; allocate n q) ≡ some (a, p)
unfolding allocate deallocate link
allocate-deallocate a n p nonzero pos le lists = ground (
  arith,
  list_at-set_list (free_list_index n) (a ∷ list_at p.free_list (free_list_index n)) p.free_list
      (omega arith),
  set_list-back (free_list_index n) (a ∷ list_at p.free_list (free_list_index n)) p.free_list,
)
