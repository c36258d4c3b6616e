-- ===== src/MemPool.antt =====
-- GameLib/mempool.cpp, the pool of memory blocks. An address is a number, NULL is 0; the lists that the code links
-- through the first bytes of the free blocks are lists of addresses. `malloc` is the list of its results, NULL when
-- it has none left. A `size_t` wraps at 2 ^ 64; addresses do not, since the memory that `malloc` hands out lies below
-- 2 ^ 64, and `end_free` is never before `start_free`.
pub mod Chunks
pub mod Faults
pub mod Blocks
pub mod Runs
mod Tests
use thero_logic_server.Base.{
  replicate, ℕ, zero, suc, ◌+◌, ◌-◌, ◌*◌, ◌/◌, ◌%◌, ◌^◌, Bool, true, false, leb, ltb, ◌==◌,
  if◌then◌else◌, Option, none, some, List, [], ◌∷◌,
}

abbrev pub align : ℕ
align = 512

abbrev pub max_block_size : ℕ
max_block_size = 20 * 1024

abbrev pub block_list_num : ℕ
block_list_num = 40

abbrev pub list_node_num : ℕ
list_node_num = 20

-- `mem_pool`, and the results that `malloc` will give
pub record Pool : Type 0 where
  pub free_list : List (List ℕ)
  pub start_free : ℕ
  pub end_free : ℕ
  pub heap_size : ℕ
  pub mallocs : List ℕ

-- the constructor
abbrev pub create : List ℕ → Pool
create mallocs = record {
  free_list = replicate block_list_num [];
  start_free = 0;
  end_free = 0;
  heap_size = 0;
  mallocs = mallocs;
}

-- `round_up` and `free_list_index`; the index for 0 bytes is the largest `size_t`
abbrev pub round_up : ℕ → ℕ
round_up bytes = (bytes + (align - 1)) % 2 ^ 64 / align * align

abbrev pub free_list_index : ℕ → ℕ
free_list_index bytes = ((bytes + (align - 1)) % 2 ^ 64 / align + (2 ^ 64 - 1)) % 2 ^ 64

-- an entry of the table, and a write to it
unfoldable pub list_at : List (List ℕ) → ℕ → List ℕ
list_at [] i = []
list_at (l ∷ ls) zero = l
list_at (l ∷ ls) (suc i) = list_at ls i

unfoldable pub set_list : ℕ → List ℕ → List (List ℕ) → List (List ℕ)
set_list i new [] = []
set_list zero new (l ∷ ls) = new ∷ ls
set_list (suc i) new (l ∷ ls) = l ∷ set_list i new ls

-- the two first branches of `chunk_alloc`: the address and the number of blocks, from what is left
unfoldable pub cut : ℕ → ℕ → Pool → Option (ℕ × ℕ × Pool)
cut size nobjs p =
    let left = p.end_free - p.start_free in
    let total = size * nobjs % 2 ^ 64 in
    if leb total left
    then some (p.start_free, nobjs, record p { start_free = p.start_free + total })
    else if leb size left
    then some (
      p.start_free,
      left / size,
      record p { start_free = p.start_free + size * (left / size) % 2 ^ 64 },
    )
    else none

-- A block is put at the head of a list, through its own first bytes: `none` is a write through NULL or behind the
-- table.
unfoldable pub link : ℕ → ℕ → Pool → Option Pool
unfolding list_at set_list
link a i p =
    if a == 0
    then none
    else if ltb i block_list_num
    then some (record p { free_list = set_list i (a ∷ list_at p.free_list i) p.free_list })
    else none

-- the third: what is left goes to its list
unfoldable pub keep_rest : Pool → Option Pool
unfolding link
keep_rest p =
    let left = p.end_free - p.start_free in
    if ltb 0 left then link p.start_free (free_list_index left) p else some p

-- the list that the search begins at; from 2 ^ 31 on the code's `int` is negative
abbrev pub first_list : ℕ → ℕ
first_list size = (free_list_index size + 1) % 2 ^ 32

-- the search from list `i` on for a free block, with so many lists to go
unfoldable pub find_block : ℕ → ℕ → List (List ℕ) → Option (ℕ × ℕ × List (List ℕ))
unfolding list_at set_list
find_block zero i ls = none
find_block (suc rounds) i ls = elim (list_at ls i) [
  | [] ↦ find_block rounds (suc i) ls
  | b ∷ bs ↦ some (i, b, set_list i bs ls)
]

-- `malloc`, as `chunk_alloc` calls it: `start_free` is its result
unfoldable pub call_malloc : Pool → Pool
call_malloc p = elim p.mallocs [
  | [] ↦ record p { start_free = 0 }
  | a ∷ rest ↦ record p { start_free = a; mallocs = rest }
]

-- the size of the next memory
abbrev pub bytes_to_get : ℕ → ℕ → Pool → ℕ
bytes_to_get size nobjs p = (2 * (size * nobjs % 2 ^ 64) + round_up (p.heap_size / 16)) % 2 ^ 64

-- `chunk_alloc`, which calls itself behind a `malloc` that succeeds or a block that is found; `none` is an access
-- outside the table, a write through NULL, or a call that the fuel does not reach
unfoldable pub chunk_alloc : ℕ → ℕ → ℕ → Pool → Option (ℕ × ℕ × Pool)
unfolding cut keep_rest find_block call_malloc
chunk_alloc zero size nobjs p = none
chunk_alloc (suc fuel) size nobjs p = elim (cut size nobjs p) [
  | some r ↦ some r
  | none ↦ elim (keep_rest p) [
    | none ↦ none
    | some kept ↦
        let get = bytes_to_get size nobjs p in
        let q = call_malloc kept in
        elim (q.start_free == 0) [
          | false ↦
              chunk_alloc fuel size nobjs (record q {
                heap_size = (q.heap_size + get) % 2 ^ 64;
                end_free = q.start_free + get;
              })
          | true ↦ elim (ltb (first_list size) (2 ^ 31)) [
            | false ↦ none
            | true ↦
                elim (find_block (block_list_num - first_list size) (first_list size) q.free_list) [
                  | some (i, b, ls) ↦
                      chunk_alloc fuel size nobjs (record q {
                        free_list = ls;
                        start_free = b;
                        end_free = b + (i + 1) * align;
                      })
                  | none ↦ some (0, nobjs, record q { end_free = 0 })
                ]
          ]
        ]
  ]
]

-- the blocks behind the first one
abbrev pub blocks : ℕ → ℕ → ℕ → List ℕ
blocks zero n first = []
blocks (suc count) n first = first ∷ blocks count n (first + n)

-- `refill`, for the sizes that `allocate` calls it with: `none` is a write through NULL, or a `none` of `chunk_alloc`
unfoldable pub refill : ℕ → Pool → Option (ℕ × Pool)
unfolding chunk_alloc set_list
refill n p = elim (chunk_alloc 2 n list_node_num p) [
  | none ↦ none
  | some (chunk, nobjs, q) ↦
      if nobjs == 1
      then some (chunk, q)
      else if chunk == 0
      then none
      else some (
        chunk,
        record q {
          free_list = set_list (free_list_index n) (blocks (nobjs - 1) n (chunk + n)) q.free_list;
        },
      )
]

-- `allocate` and `deallocate`; a block of more than `MAX_BLOCK_SIZE` bytes comes from `malloc` and goes to `free`
unfoldable pub allocate : ℕ → Pool → Option (ℕ × Pool)
unfolding refill list_at set_list
allocate n p =
    if n == 0
    then some (0, p)
    else if ltb max_block_size n
    then some ((call_malloc p).start_free, record p { mallocs = (call_malloc p).mallocs })
    else elim (list_at p.free_list (free_list_index n)) [
      | [] ↦ refill (round_up n) p
      | b ∷ bs ↦ some (b, record p { free_list = set_list (free_list_index n) bs p.free_list })
    ]

unfoldable pub deallocate : ℕ → ℕ → Pool → Option Pool
unfolding link
deallocate a n p = if ltb max_block_size n then some p else link a (free_list_index n) p
