-- ===== src/LoopBuffer/Tests.antt =====
-- Runs of the ring on small inputs.
use thero_logic_server.Base.{◌+◌, ◌≡◌, refl, inl, none, some, [], ◌∷◌, length, take, arith}
use thero_logic_server.LoopBuffer.{
  LoopBuffer, init, put, get, peek, free_count, data_count, capacity,
}
use thero_logic_server.LoopBuffer.Bounds.{IsValid, contents, counts_lem}
use thero_logic_server.LoopBuffer.Puts.{Stores, put-Stores, put_overruns, put_faults}
use thero_logic_server.LoopBuffer.Gets.{Takes, takes_lem}

-- 8 and 9 at the end of the block, then 1 at its head
abbrev round : LoopBuffer
round = record { buf = 1 ∷ 0 ∷ 0 ∷ 8 ∷ 9 ∷ []; wptr = 1; rptr = 3; count = 5 }

abbrev at_head : LoopBuffer
at_head = record { buf = 7 ∷ 0 ∷ 0 ∷ []; wptr = 1; rptr = 0; count = 3 }

round-IsValid : IsValid round
round-IsValid = omega arith

at_head-IsValid : IsValid at_head
at_head-IsValid = omega arith

contents-round : contents round ≡ 8 ∷ 9 ∷ 1 ∷ []
contents-round = refl

init_counts : (free_count (init 4) ≡ 4) × (data_count (init 4) ≡ 0)
unfolding init free_count data_count
init_counts = (refl, refl)

put-round :
    put round (2 ∷ 3 ∷ []) ≡ some (record round { buf = 1 ∷ 2 ∷ 0 ∷ 8 ∷ 9 ∷ []; wptr = 2 }, 1)
unfolding put
put-round = refl

get-round : get round 3 ≡ some (8 ∷ 9 ∷ 1 ∷ [], record round { rptr = 1 })
unfolding get
get-round = refl

peek-round : peek round 2 ≡ some (8 ∷ 9 ∷ [])
unfolding peek
peek-round = refl

put_overrun_run :
    put at_head (8 ∷ 9 ∷ []) ≡ some (record at_head { buf = 7 ∷ 8 ∷ 9 ∷ []; wptr = 3 }, 2)
unfolding put
put_overrun_run = refl

counts_lem_example :
    (data_count round + free_count round ≡ capacity round)
    × (length (contents round) ≡ data_count round)
counts_lem_example = counts_lem round round-IsValid

put-Stores_example : Stores round (2 ∷ 3 ∷ []) (take (free_count round) (2 ∷ 3 ∷ []))
put-Stores_example = put-Stores round (2 ∷ 3 ∷ []) round-IsValid (inl (omega arith))

put_overruns_example :
    (b' : LoopBuffer) × (put at_head (8 ∷ 9 ∷ []) ≡ some (b', 2))
    × (data_count b' ≡ capacity at_head + 1)
unfolding free_count
put_overruns_example = put_overruns at_head (8 ∷ 9 ∷ []) at_head-IsValid refl refl

put_faults_example : put at_head (8 ∷ 9 ∷ 10 ∷ []) ≡ none
unfolding free_count
put_faults_example = put_faults at_head (8 ∷ 9 ∷ 10 ∷ []) at_head-IsValid refl (omega arith)

takes_lem_example : Takes round 3
takes_lem_example = takes_lem round 3 round-IsValid
