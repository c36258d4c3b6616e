-- ===== src/MemPool/Tests.antt =====
-- A concrete pool.
use thero_logic_server.Base.{
  ◌>>=◌, ℕ, ◌≡◌, refl, Option, List, some, none, [], ◌∷◌, replicate, arith,
}
use mathlib.Core.Path.{subst}
use thero_logic_server.MemPool.{
  create, Pool, block_list_num, list_at, set_list, link, cut, keep_rest, find_block, call_malloc,
  chunk_alloc, refill, blocks, allocate, deallocate,
}
use thero_logic_server.MemPool.Chunks.{search, chunk_alloc_ends}
use thero_logic_server.MemPool.Faults.{allocate_faults}
use thero_logic_server.MemPool.Blocks.{allocate-deallocate}
use thero_logic_server.MemPool.Runs.{allocs, allocs_lem}

-- five blocks of 1024 bytes are left
abbrev pool : Pool
pool = record {
  free_list = replicate block_list_num [];
  start_free = 1000;
  end_free = 6120;
  heap_size = 5120;
  mallocs = [];
}

allocate_run :
    allocate 600 pool
    ≡ some (
      1000,
      record pool {
        start_free = 6120;
        free_list = [] ∷ (2024 ∷ 3048 ∷ 4072 ∷ 5096 ∷ []) ∷ replicate 38 [];
      },
    )
unfolding allocate refill chunk_alloc cut list_at set_list
allocate_run = refl

allocs_lem_example :
    allocs 5 1024 pool
    ≡ some (1000 ∷ 2024 ∷ 3048 ∷ 4072 ∷ 5096 ∷ [], record pool { start_free = 6120 })
unfolding list_at
allocs_lem_example =
    allocs_lem 1024 (ground arith) (ground arith) pool refl refl refl (ground arith) (ground arith)

allocate-deallocate_example : (do q ← deallocate 9000 600 pool; allocate 600 q) ≡ some (9000, pool)
allocate-deallocate_example =
    allocate-deallocate 9000 600 pool (ground arith) (ground arith) (ground arith) refl

chunk_alloc_ends_example : (r : ℕ × ℕ × Pool) × (chunk_alloc 2 20480 20 pool ≡ some r)
chunk_alloc_ends_example =
    chunk_alloc_ends 20480 pool (omega arith) (omega arith) (λ e. absurd (omega arith))

abbrev searched_in : Option Pool → Option (ℕ × ℕ × List (List ℕ))
searched_in none = none
searched_in (some k) = search 6144 k

-- `malloc` has nothing for 6000 bytes, and no block of that size is free
allocate_faults_example : allocate 6000 pool ≡ none
unfolding list_at find_block keep_rest link set_list
allocate_faults_example =
    allocate_faults 6000 pool (ground arith) (ground arith) refl refl (ground arith)
      (λ k e. subst (λ o. searched_in o ≡ none) e refl)

-- the first block: `malloc` is asked for 20480 bytes twice, and the memory is cut into blocks of 1024
create_run :
    allocate 1024 (create (4096 ∷ []))
    ≡ some (
      4096,
      record {
        free_list = [] ∷ blocks 19 1024 5120 ∷ replicate 38 [];
        start_free = 24576;
        end_free = 45056;
        heap_size = 40960;
        mallocs = [];
      },
    )
unfolding allocate refill chunk_alloc cut keep_rest link call_malloc list_at set_list
create_run = refl
