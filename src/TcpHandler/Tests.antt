-- ===== src/TcpHandler/Tests.antt =====
-- Runs of the send side on small inputs.
use thero_logic_server.Base.{◌≡◌, refl, true, false, some, [], ◌∷◌, arith}
use thero_logic_server.Base.Int.{pos, negsuc}
use thero_logic_server.LoopBuffer.{LoopBuffer, put, peek, erase, free_count, data_count}
use thero_logic_server.LoopBuffer.Bounds.{IsValid}
use thero_logic_server.TcpHandler.{
  TcpHandler, room, would_block, failed, output_loop, handle_output, send,
}
use thero_logic_server.TcpHandler.Output.{Delivers, output_loop-Delivers}
use thero_logic_server.TcpHandler.Draining.{Drains, output_loop-Drains}
use thero_logic_server.TcpHandler.Sending.{send_all, InOrder, send_all-InOrder}

-- a ring for 4 bytes that holds 8, 9 and 1
abbrev ring : LoopBuffer
ring = record { buf = 1 ∷ 0 ∷ 0 ∷ 8 ∷ 9 ∷ []; wptr = 1; rptr = 3; count = 5 }

abbrev handler : TcpHandler
handler = record { ring = ring; full = false; want_write = false; sent = [] }

ring-IsValid : IsValid ring
ring-IsValid = omega arith

-- the socket takes two bytes, and then blocks
output_loop_run :
    output_loop (room 2 ∷ would_block ∷ []) handler
    ≡ some (pos 0, record handler { ring = record ring { rptr = 5 }; sent = 8 ∷ 9 ∷ [] }, [])
unfolding output_loop peek erase data_count
output_loop_run = refl

-- the socket takes the byte that was waiting and the first of the two, and then blocks
send_run :
    send (room 4 ∷ would_block ∷ []) handler (2 ∷ [])
    ≡ some (
      pos 0,
      record handler {
        ring = record ring { buf = 1 ∷ 2 ∷ 0 ∷ 8 ∷ 9 ∷ []; wptr = 2; rptr = 2 };
        sent = 8 ∷ 9 ∷ 1 ∷ 2 ∷ [];
      },
      would_block ∷ [],
    )
unfolding send handle_output output_loop put peek erase data_count free_count
send_run = refl

send_refused : send [] handler (2 ∷ 3 ∷ []) ≡ some (negsuc 0, record handler { full = true }, [])
unfolding send free_count
send_refused = refl

output_loop-Delivers_example :
    Delivers handler (room 2 ∷ failed ∷ []) (output_loop (room 2 ∷ failed ∷ []) handler)
output_loop-Delivers_example = output_loop-Delivers (room 2 ∷ failed ∷ []) handler ring-IsValid

output_loop-Drains_example : Drains handler (output_loop (room 2 ∷ room 1 ∷ room 5 ∷ []) handler)
unfolding data_count
output_loop-Drains_example =
    output_loop-Drains (room 2 ∷ room 1 ∷ room 5 ∷ []) handler ring-IsValid
      (omega arith, (omega arith, (omega arith, tt))) (omega arith)

send_all-InOrder_example : InOrder handler (
    send_all
      (room 2 ∷ would_block ∷ room 9 ∷ [])
      handler
      ((2 ∷ []) ∷ (3 ∷ 4 ∷ 5 ∷ 6 ∷ []) ∷ (7 ∷ []) ∷ []))
send_all-InOrder_example =
    send_all-InOrder ((2 ∷ []) ∷ (3 ∷ 4 ∷ 5 ∷ 6 ∷ []) ∷ (7 ∷ []) ∷ [])
      (room 2 ∷ would_block ∷ room 9 ∷ []) handler ring-IsValid tt
