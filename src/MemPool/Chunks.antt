-- ===== src/MemPool/Chunks.antt =====
-- `chunk_alloc` of GameLib/mempool.cpp ends.
use thero_logic_server.Base.{
  Bool-cases, ltb, ltb→lt, ◌%◌, ◌^◌, ℕ, zero, suc, ◌+◌, ◌-◌, ◌*◌, ◌/◌, ◌<◌, ◌≤◌, ◌≡◌, refl, inl,
  inr, ◌∙◌, Bool, true, false, leb, ◌==◌, if◌then◌else◌, Option, Option-cases, none, some, List,
  ◌∷◌, arith,
}
use thero_logic_server.MemPool.{
  set_list, Pool, align, max_block_size, block_list_num, list_node_num, free_list_index, list_at,
  link, first_list, bytes_to_get, cut, keep_rest, find_block, call_malloc, chunk_alloc,
}

-- all the blocks, and as many as there are
abbrev all_of : ℕ → ℕ → Pool → ℕ × ℕ × Pool
all_of size nobjs p =
    (p.start_free, nobjs, record p { start_free = p.start_free + size * nobjs % 2 ^ 64 })

abbrev some_of : ℕ → Pool → ℕ × ℕ × Pool
some_of size p = all_of size ((p.end_free - p.start_free) / size) p

cut_all :
    (size nobjs : ℕ) (p : Pool)
    → size * nobjs % 2 ^ 64 ≤ p.end_free - p.start_free
    → cut size nobjs p ≡ some (all_of size nobjs p)
unfolding cut
cut_all size nobjs p le = rw leb_true refl
  where
    leb_true : leb (size * nobjs % 2 ^ 64) (p.end_free - p.start_free) ≡ true
    leb_true = ground arith

cut_ends :
    (size nobjs : ℕ) (p : Pool)
    → size ≤ p.end_free - p.start_free
    → (r : ℕ × ℕ × Pool) × (cut size nobjs p ≡ some r)
unfolding cut
cut_ends size nobjs p le =
    go (leb (size * nobjs % 2 ^ 64) (p.end_free - p.start_free))
      (leb size (p.end_free - p.start_free)) (ground arith)
  where
    go :
        (b c : Bool)
        → c ≡ true
        → (r : ℕ × ℕ × Pool) × ((if b
              then some (all_of size nobjs p)
              else if c
              then some (some_of size p)
              else none)
            ≡ some r)
    go true c e = (all_of size nobjs p, refl)
    go false true e = (some_of size p, refl)
    go false false e = absurd cc

find_block_from :
    (rounds i j b : ℕ) (ls ms : List (List ℕ)) → find_block rounds i ls ≡ some (j, b, ms) → i ≤ j
unfolding find_block
find_block_from zero i j b ls ms e = absurd cc
find_block_from (suc rounds) i j b ls ms e =
    ground (arith, e, find_block_from rounds (suc i) j b ls ms)

pub chunk_alloc-cut :
    (fuel size nobjs : ℕ) (p : Pool) (r : ℕ × ℕ × Pool)
    → cut size nobjs p ≡ some r
    → chunk_alloc (suc fuel) size nobjs p ≡ some r
unfolding chunk_alloc
chunk_alloc-cut fuel size nobjs p r e = rw (chunk_alloc, e) refl

chunk_alloc-ends_cut :
    (fuel size nobjs : ℕ) (p : Pool)
    → (r : ℕ × ℕ × Pool) × (cut size nobjs p ≡ some r)
    → (r : ℕ × ℕ × Pool) × (chunk_alloc (suc fuel) size nobjs p ≡ some r)
chunk_alloc-ends_cut fuel size nobjs p (r, e) = (r, chunk_alloc-cut fuel size nobjs p r e)

-- what `chunk_alloc` does when too little is left
abbrev with_memory : ℕ → ℕ → Pool → Pool → Pool
with_memory size nobjs p q = record q {
  heap_size = (q.heap_size + bytes_to_get size nobjs p) % 2 ^ 64;
  end_free = q.start_free + bytes_to_get size nobjs p;
}

abbrev pub with_block : ℕ → ℕ → Pool → Option (ℕ × ℕ × List (List ℕ)) → Option (ℕ × ℕ × Pool)
with_block size nobjs q (some (i, b, ls)) =
    chunk_alloc 1 size nobjs
      (record q { free_list = ls; start_free = b; end_free = b + (i + 1) * align })
with_block size nobjs q none = some (0, nobjs, record q { end_free = 0 })

abbrev pub search : ℕ → Pool → Option (ℕ × ℕ × List (List ℕ))
search size q = find_block (block_list_num - first_list size) (first_list size) q.free_list

abbrev pub searched : ℕ → ℕ → Pool → Bool → Option (ℕ × ℕ × Pool)
searched size nobjs q false = none
searched size nobjs q true = with_block size nobjs q (search size q)

abbrev pub again : ℕ → ℕ → Pool → Pool → Bool → Option (ℕ × ℕ × Pool)
again size nobjs p q false = chunk_alloc 1 size nobjs (with_memory size nobjs p q)
again size nobjs p q true = searched size nobjs q (ltb (first_list size) (2 ^ 31))

pub chunk_alloc-again :
    (size nobjs : ℕ) (p k : Pool)
    → cut size nobjs p ≡ none
    → keep_rest p ≡ some k
    → chunk_alloc 2 size nobjs p
      ≡ again size nobjs p (call_malloc k) ((call_malloc k).start_free == 0)
unfolding chunk_alloc
chunk_alloc-again size nobjs p k e kept = rw (chunk_alloc, e, kept) refl

pub first_list_lem : (size : ℕ) → size ≤ max_block_size → ltb (first_list size) (2 ^ 31) ≡ true
first_list_lem size le = ground arith

with_block-ends :
    (size nobjs : ℕ) (q : Pool) (o : Option (ℕ × ℕ × List (List ℕ)))
    → size ≤ max_block_size
    → search size q ≡ o
    → (r : ℕ × ℕ × Pool) × (with_block size nobjs q o ≡ some r)
with_block-ends size nobjs q none le e = ((0, nobjs, record q { end_free = 0 }), refl)
with_block-ends size nobjs q (some (i, b, ls)) le e =
    chunk_alloc-ends_cut 0 size nobjs
      (record q { free_list = ls; start_free = b; end_free = b + (i + 1) * align })
      (cut_ends size nobjs
        (record q { free_list = ls; start_free = b; end_free = b + (i + 1) * align }) (enough from))
  where
    enough : first_list size ≤ i → size ≤ (b + (i + 1) * align) - b
    enough f = ground arith

    from : first_list size ≤ i
    from = find_block_from (block_list_num - first_list size) (first_list size) i b q.free_list ls e

got_enough :
    (size : ℕ) (p : Pool)
    → size ≤ max_block_size
    → p.heap_size < 2 ^ 64
    → size * list_node_num % 2 ^ 64 ≤ bytes_to_get size list_node_num p
got_enough size p le heap = omega arith

again-ends :
    (size : ℕ) (p q : Pool) (b : Bool)
    → size ≤ max_block_size
    → p.heap_size < 2 ^ 64
    → (r : ℕ × ℕ × Pool) × (again size list_node_num p q b ≡ some r)
again-ends size p q false le heap =
    chunk_alloc-ends_cut 0 size list_node_num (with_memory size list_node_num p q) (
      _,
      cut_all size list_node_num (with_memory size list_node_num p q)
          (enough (got_enough size p le heap)),
    )
  where
    enough :
        size * list_node_num % 2 ^ 64 ≤ bytes_to_get size list_node_num p
        → size * list_node_num % 2 ^ 64
          ≤ q.start_free + bytes_to_get size list_node_num p - q.start_free
    enough l = ground arith
again-ends size p q true le heap =
    rw (first_list_lem size le) (with_block-ends size list_node_num q (search size q) le refl)

-- too little is left for one block
cut_refuses :
    (size nobjs : ℕ) (p : Pool) → cut size nobjs p ≡ none → p.end_free - p.start_free < size
unfolding cut
cut_refuses size nobjs p e = ground (arith, e)

-- what is left goes to a list of the table
keep_rest-ends :
    (p : Pool)
    → p.end_free - p.start_free < max_block_size
    → (p.start_free ≡ 0 → p.end_free ≡ 0)
    → (k : Pool) × (keep_rest p ≡ some k)
unfolding keep_rest link
keep_rest-ends p small memory = elim (Bool-cases (ltb 0 (p.end_free - p.start_free))) [
  | inr nothing ↦ (p, rw nothing refl)
  | inl more ↦ (linked, rw (more, nonzero (ltb→lt _ _ more), inside (ltb→lt _ _ more)) refl)
]
  where
    linked : Pool
    linked = record p {
      free_list =
          set_list (free_list_index (p.end_free - p.start_free))
            (p.start_free ∷ list_at p.free_list (free_list_index (p.end_free - p.start_free)))
            p.free_list;
    }

    nonzero : 0 < p.end_free - p.start_free → (p.start_free == 0) ≡ false
    nonzero l = ground (arith, memory)

    inside :
        0 < p.end_free - p.start_free
        → ltb (free_list_index (p.end_free - p.start_free)) block_list_num ≡ true
    inside l = ground arith

-- `chunk_alloc`, as `refill` calls it, ends without a fault: of the calls of itself that it makes, behind a `malloc` or
-- with a larger free block, none makes another one, whatever `malloc` returns, and what is left of the last memory goes
-- to a list of the table. The conditions are a size of at most `MAX_BLOCK_SIZE` bytes, that the size of the heap is a
-- `size_t`, and that no memory is left at NULL.
pub chunk_alloc_ends :
    (size : ℕ) (p : Pool)
    → size ≤ max_block_size
    → p.heap_size < 2 ^ 64
    → (p.start_free ≡ 0 → p.end_free ≡ 0)
    → (r : ℕ × ℕ × Pool) × (chunk_alloc 2 size list_node_num p ≡ some r)
chunk_alloc_ends size p le heap memory = elim (Option-cases (cut size list_node_num p)) [
  | inr (r, e) ↦ (r, chunk_alloc-cut 1 size list_node_num p r e)
  | inl e ↦
      (let (k, kept) =
          keep_rest-ends p (omega (arith, cut_refuses size list_node_num p e)) memory in
        let (r, found) =
          again-ends size p (call_malloc k) ((call_malloc k).start_free == 0) le heap in
        (r, chunk_alloc-again size list_node_num p k e kept ∙ found))
]
