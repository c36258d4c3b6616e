-- ===== src/MemPool/Runs.antt =====
-- Blocks that are taken one after another, GameLib/mempool.cpp.
use mathlib.Core.Path.{subst}
use thero_logic_server.Base.{
  leb, ℕ, zero, suc, ◌+◌, ◌-◌, ◌*◌, ◌/◌, ◌<◌, ◌≤◌, ◌≡◌, refl, sym, ap, ◌∙◌, ◌==◌, if◌then◌else◌,
  Option, none, some, List, [], ◌∷◌, length, arith,
}
use thero_logic_server.MemPool.{
  Pool, max_block_size, block_list_num, list_node_num, round_up, free_list_index, list_at, set_list,
  cut, chunk_alloc, refill, blocks, allocate,
}
use thero_logic_server.MemPool.Chunks.{chunk_alloc-cut}
use thero_logic_server.MemPool.Blocks.{list_at-set_list}

-- so many calls of `allocate`
abbrev pub followed : ℕ → Option (List ℕ × Pool) → Option (List ℕ × Pool)
followed a none = none
followed a (some (rest, p)) = some (a ∷ rest, p)

unfoldable pub allocs : ℕ → ℕ → Pool → Option (List ℕ × Pool)
allocs zero n p = some ([], p)
allocs (suc k) n p = elim (allocate n p) [ none ↦ none | some (a, q) ↦ followed a (allocs k n q) ]

allocs-step :
    (k n a : ℕ) (p q : Pool)
    → allocate n p ≡ some (a, q)
    → allocs (suc k) n p ≡ followed a (allocs k n q)
unfolding allocs
allocs-step k n a p q e = rw (allocs, e) refl

set_list-set_list :
    (i : ℕ) (new old : List ℕ) (ls : List (List ℕ))
    → set_list i new (set_list i old ls) ≡ set_list i new ls
unfolding set_list
set_list-set_list i new old [] = refl
set_list-set_list zero new old (x ∷ ls) = refl
set_list-set_list (suc i) new old (x ∷ ls) = ap (λ ms. x ∷ ms) (set_list-set_list i new old ls)

set_list-same : (i : ℕ) (l : List ℕ) (ls : List (List ℕ)) → list_at ls i ≡ l → set_list i l ls ≡ ls
unfolding list_at set_list
set_list-same i l [] e = refl
set_list-same zero l (x ∷ ls) e = ap (λ y. y ∷ ls) (sym e)
set_list-same (suc i) l (x ∷ ls) e = ap (λ ms. x ∷ ms) (set_list-same i l ls e)

length-set_list : (i : ℕ) (l : List ℕ) (ls : List (List ℕ)) → length (set_list i l ls) ≡ length ls
unfolding set_list
length-set_list i l [] = refl
length-set_list zero l (x ∷ ls) = refl
length-set_list (suc i) l (x ∷ ls) = ap suc (length-set_list i l ls)

module _ (n : ℕ) (pos : 0 < n) (le : n ≤ max_block_size) where
  -- the pool with this list for the size
  abbrev listing : List ℕ → Pool → Pool
  listing l p = record p { free_list = set_list (free_list_index n) l p.free_list }

  allocate_head :
      (a : ℕ) (rest : List ℕ) (p : Pool)
      → list_at p.free_list (free_list_index n) ≡ a ∷ rest
      → allocate n p ≡ some (a, listing rest p)
  unfolding allocate
  allocate_head a rest p e = ground (arith, e)

  taken :
      (k a : ℕ) (p : Pool)
      → length p.free_list ≡ block_list_num
      → list_at p.free_list (free_list_index n) ≡ blocks k n a
      → allocs k n p ≡ some (blocks k n a, listing [] p)
  unfolding allocs
  taken zero a p lists e =
      ap (λ ls. some ([], record p { free_list = ls }))
        (sym (set_list-same (free_list_index n) [] p.free_list e))
  taken (suc k) a p lists e =
      allocs-step k n a p (listing (blocks k n (a + n)) p)
        (allocate_head a (blocks k n (a + n)) p e)
      ∙ ap (followed a) (
          taken k (a + n) (listing (blocks k n (a + n)) p)
            (length-set_list (free_list_index n) (blocks k n (a + n)) p.free_list ∙ lists)
            (list_at-set_list (free_list_index n) (blocks k n (a + n)) p.free_list (ground arith)))
      ∙ ap (λ ls. some (a ∷ blocks k n (a + n), record p { free_list = ls }))
          (set_list-set_list (free_list_index n) [] (blocks k n (a + n)) p.free_list)

  allocate_empty :
      (p : Pool)
      → list_at p.free_list (free_list_index n) ≡ []
      → allocate n p ≡ refill (round_up n) p
  unfolding allocate
  allocate_empty p e = ground (arith, e)

  -- what `refill` does with the blocks it got
  abbrev filled : ℕ → ℕ → Pool → Option (ℕ × Pool)
  filled a k q =
      if k == 1
      then some (a, q)
      else if a == 0
      then none
      else some (a, listing (blocks (k - 1) n (a + n)) q)

  refill-chunk :
      (a k : ℕ) (p q : Pool)
      → chunk_alloc 2 n list_node_num p ≡ some (a, k, q)
      → refill n p ≡ filled a k q
  unfolding refill
  refill-chunk a k p q e = rw (refill, e) refl

  filled_lem :
      (a k : ℕ) (q : Pool)
      → list_at q.free_list (free_list_index n) ≡ []
      → 0 < a
      → filled a (suc k) q ≡ some (a, listing (blocks k n (a + n)) q)
  filled_lem a zero q e nonzero =
      ap (λ ls. some (a, record q { free_list = ls }))
        (sym (set_list-same (free_list_index n) [] q.free_list e))
  filled_lem a (suc k) q e nonzero = ground arith

  allocs-cut :
      (a k : ℕ) (p q : Pool)
      → round_up n ≡ n
      → length p.free_list ≡ block_list_num
      → list_at p.free_list (free_list_index n) ≡ []
      → cut n list_node_num p ≡ some (a, suc k, q)
      → q.free_list ≡ p.free_list
      → 0 < a
      → allocs (suc k) n p ≡ some (blocks (suc k) n a, q)
  allocs-cut a k p q r lists e c same nonzero =
      allocs-step k n a p (listing (blocks k n (a + n)) q) first
      ∙ ap (followed a) (
          taken k (a + n) (listing (blocks k n (a + n)) q)
            (length-set_list (free_list_index n) (blocks k n (a + n)) q.free_list
              ∙ ap length same
              ∙ lists)
            (list_at-set_list (free_list_index n) (blocks k n (a + n)) q.free_list long))
      ∙ ap (λ ls. some (a ∷ blocks k n (a + n), record q { free_list = ls }))
          (set_list-set_list (free_list_index n) [] (blocks k n (a + n)) q.free_list
            ∙ set_list-same (free_list_index n) [] q.free_list empty)
    where
      empty : list_at q.free_list (free_list_index n) ≡ []
      empty = ap (λ ls. list_at ls (free_list_index n)) same ∙ e

      size : length q.free_list ≡ block_list_num
      size = ap length same ∙ lists

      long : free_list_index n < length q.free_list
      long = ground arith

      first : allocate n p ≡ some (a, listing (blocks k n (a + n)) q)
      first =
          allocate_empty p e
          ∙ ap (λ m. refill m p) r
          ∙ refill-chunk a (suc k) p q (chunk_alloc-cut 1 n list_node_num p (a, suc k, q) c)
          ∙ filled_lem a k q empty nonzero

  -- the number of blocks that `refill` gets from what is left
  abbrev pub fresh : Pool → ℕ
  fresh p =
      if leb (n * list_node_num) (p.end_free - p.start_free)
      then list_node_num
      else (p.end_free - p.start_free) / n

  cut-fresh :
      (p : Pool)
      → n ≤ p.end_free - p.start_free
      → cut n list_node_num p
        ≡ some (p.start_free, fresh p, record p { start_free = p.start_free + n * fresh p })
  unfolding cut
  cut-fresh p l = ground arith

  div_pos : (d : ℕ) → n ≤ d → 1 ≤ d / n
  div_pos d l = grind arith

  fresh_pos : (p : Pool) → n ≤ p.end_free - p.start_free → suc (fresh p - 1) ≡ fresh p
  fresh_pos p l = ground (arith, div_pos (p.end_free - p.start_free))

  -- When nothing is free for a size and a block at least is left of the last memory, then the blocks that `refill` gets
  -- from it - twenty, or as many as there are - are exactly those that as many calls of `allocate` hand out: adjacent
  -- ones, from the first free address on. Behind them the lists are as before the first call, and the free memory begins
  -- behind the last block. The conditions are that the size is a multiple of `ALIGN` from 1 to `MAX_BLOCK_SIZE`, that the
  -- table has all its lists, and that the free memory does not begin at NULL.
  pub allocs_lem :
      (p : Pool)
      → round_up n ≡ n
      → length p.free_list ≡ block_list_num
      → list_at p.free_list (free_list_index n) ≡ []
      → n ≤ p.end_free - p.start_free
      → 0 < p.start_free
      → allocs (fresh p) n p
        ≡ some
            (blocks (fresh p) n p.start_free, record p { start_free = p.start_free + n * fresh p })
  allocs_lem p r lists e l nonzero =
      subst (λ k. allocs k n p ≡ some (blocks k n p.start_free, behind)) (fresh_pos p l)
        (allocs-cut p.start_free (fresh p - 1) p behind r lists e
          (cut-fresh p l ∙ ap (λ k. some (p.start_free, k, behind)) (sym (fresh_pos p l))) refl
          nonzero)
    where
      behind : Pool
      behind = record p { start_free = p.start_free + n * fresh p }
