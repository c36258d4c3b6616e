-- ===== src/MemPool/Faults.antt =====
-- What `allocate` of GameLib/mempool.cpp does when there is no memory.
use thero_logic_server.Base.{
  ◌%◌, ◌^◌, ℕ, ◌-◌, ◌*◌, ◌<◌, ◌≤◌, ◌≡◌, refl, inl, inr, ap, ◌∙◌, ◌==◌, Option-cases, none, some, [],
  arith,
}
use thero_logic_server.MemPool.{
  Pool, max_block_size, list_node_num, round_up, free_list_index, list_at, link, cut, keep_rest,
  call_malloc, chunk_alloc, refill, allocate,
}
use thero_logic_server.MemPool.Chunks.{
  with_block, search, searched, again, chunk_alloc-again, first_list_lem,
}

cut_fails :
    (size nobjs : ℕ) (p : Pool)
    → p.end_free - p.start_free < size
    → p.end_free - p.start_free < size * nobjs % 2 ^ 64
    → cut size nobjs p ≡ none
unfolding cut
cut_fails size nobjs p l l' = ground arith

keep_rest-mallocs : (p k : Pool) → keep_rest p ≡ some k → k.mallocs ≡ p.mallocs
unfolding keep_rest link
keep_rest-mallocs p k e = ground (arith, e)

malloc_fails : (k : Pool) → k.mallocs ≡ [] → call_malloc k ≡ record k { start_free = 0 }
unfolding call_malloc
malloc_fails k e = ground (arith, e)

no_memory :
    (size : ℕ) (p k : Pool)
    → size ≤ max_block_size
    → cut size list_node_num p ≡ none
    → p.mallocs ≡ []
    → keep_rest p ≡ some k
    → search size k ≡ none
    → chunk_alloc 2 size list_node_num p
      ≡ some (0, list_node_num, record k { start_free = 0; end_free = 0 })
no_memory size p k le e out kept nothing =
    chunk_alloc-again size list_node_num p k e kept
    ∙ ap (λ q. again size list_node_num p q (q.start_free == 0))
        (malloc_fails k (keep_rest-mallocs p k kept ∙ out))
    ∙ ap (searched size list_node_num (record k { start_free = 0 })) (first_list_lem size le)
    ∙ ap (with_block size list_node_num (record k { start_free = 0 })) nothing

refill_faults :
    (n : ℕ) (p q : Pool)
    → chunk_alloc 2 n list_node_num p ≡ some (0, list_node_num, q)
    → refill n p ≡ none
unfolding refill
refill_faults n p q e = rw (refill, e) refl

-- a fault of what is left of the last memory
keep_rest_fails :
    (size nobjs : ℕ) (p : Pool)
    → cut size nobjs p ≡ none
    → keep_rest p ≡ none
    → chunk_alloc 2 size nobjs p ≡ none
unfolding chunk_alloc
keep_rest_fails size nobjs p e left = rw (chunk_alloc, e, left) refl

refill_stops : (n : ℕ) (p : Pool) → chunk_alloc 2 n list_node_num p ≡ none → refill n p ≡ none
unfolding refill
refill_stops n p e = rw (refill, e) refl

refill_stuck :
    (size : ℕ) (p : Pool)
    → size ≤ max_block_size
    → cut size list_node_num p ≡ none
    → p.mallocs ≡ []
    → ((k : Pool) → keep_rest p ≡ some k → search size k ≡ none)
    → refill size p ≡ none
refill_stuck size p le e out nothing = elim (Option-cases (keep_rest p)) [
  | inl fault ↦ refill_stops size p (keep_rest_fails size list_node_num p e fault)
  | inr (k, kept) ↦
      refill_faults size p (record k { start_free = 0; end_free = 0 })
        (no_memory size p k le e out kept (nothing k kept))
]

-- When `malloc` has no memory, nothing is free for the size or a larger one, and too little is left of the last memory,
-- `allocate` does not return NULL: `refill` goes on with the number of blocks that it asked for, and writes through NULL,
-- unless `chunk_alloc` has done so before, with memory that is left at NULL.
-- The conditions are those, where the free blocks are those behind the remainder has gone to its list, and a size of 1 to
-- `MAX_BLOCK_SIZE` bytes.
pub allocate_faults :
    (n : ℕ) (p : Pool)
    → 0 < n
    → n ≤ max_block_size
    → list_at p.free_list (free_list_index n) ≡ []
    → p.mallocs ≡ []
    → p.end_free - p.start_free < round_up n
    → ((k : Pool) → keep_rest p ≡ some k → search (round_up n) k ≡ none)
    → allocate n p ≡ none
unfolding allocate
allocate_faults n p pos le empty out left nothing = ground (
  arith,
  empty,
  refill_stuck (round_up n) p (omega arith)
      (cut_fails (round_up n) list_node_num p left (omega arith)) out nothing,
)
