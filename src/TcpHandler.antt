-- ===== src/TcpHandler.antt =====
-- GameLib/TcpHandler.h and TcpHandler.cpp: the send side of a connection.
-- The socket is the environment: each `send` consumes one answer of a list. After its last answer the
-- socket blocks. `sent` records the bytes that the socket has taken, in order.
pub mod Output
pub mod Draining
pub mod Sending
mod Tests
use thero_logic_server.Base.{
  ℕ, ◌+◌, ◌*◌, Bool, true, false, ◌&&◌, ltb, if◌then◌else◌, Option, none, some, ◌>>=◌, List, [],
  ◌∷◌, ◌++◌, length, take, min,
}
use thero_logic_server.Base.Int.{ℤ, pos, negsuc}
use thero_logic_server.LoopBuffer.{LoopBuffer, put, peek, erase, free_count, data_count, init}

-- What `send` does next: it takes as many of the offered bytes as it has room for; or it returns -1
-- with `errno` EWOULDBLOCK, EINTR, or another.
pub data Answer : Type 0 where
  room : ℕ → Answer
  would_block interrupted failed : Answer

pub record TcpHandler : Type 0 where
  pub ring : LoopBuffer
  pub full : Bool
  pub want_write : Bool
  pub sent : List ℕ

abbrev pub max_loop_buffer_len : ℕ
max_loop_buffer_len = 32 * 1024

abbrev pub send_buffer_size : ℕ
send_buffer_size = 1024 * 3

-- An `int` result, the handler, and the answers that are left.
abbrev pub Result : Type 0
Result = Option (ℤ × TcpHandler × List Answer)

-- `TcpHandler::TcpHandler`
unfoldable pub create : TcpHandler
create = record { ring = init max_loop_buffer_len; full = false; want_write = false; sent = [] }

-- `TcpHandler::Writable`
abbrev pub writable : TcpHandler → Bool
writable h = ltb 0 (data_count h.ring)

-- the handler once the socket took `n` of the bytes it was offered
abbrev pub advance : TcpHandler → List ℕ → ℕ → TcpHandler
advance h bytes n = record h { ring = (erase h.ring n).0; sent = h.sent ++ take n bytes }

-- the loop of `TcpHandler::handle_output`
unfoldable pub output_loop : List Answer → TcpHandler → Result
output_loop [] h = do bytes ← peek h.ring send_buffer_size; some (pos 0, h, [])
output_loop (a ∷ answers) h = do
  bytes ← peek h.ring send_buffer_size
  elim a [
    | room k ↦
        let n = min k (length bytes) in
        let h' = advance h bytes n in
        let rest = output_loop answers h' in
        if ltb 0 n && writable h' then rest else some (pos 0, h', answers)
    | would_block ↦ some (pos 0, h, answers)
    | interrupted ↦ some (pos 0, h, answers)
    | failed ↦ some (negsuc 0, record h { ring = (erase h.ring (length bytes)).0 }, answers)
  ]

-- `TcpHandler::handle_output`
unfoldable pub handle_output : List Answer → TcpHandler → Result
handle_output answers h =
    if writable h
    then (if h.full then some (negsuc 0, h, answers) else output_loop answers h)
    else some (pos 0, h, answers)

-- `TcpServer::WantWrite` registers the socket for output.
abbrev pub register_writer : TcpHandler → TcpHandler
register_writer h = if writable h then record h { want_write = true } else h

-- `TcpHandler::Send`. The result of `handle_output` is dropped.
unfoldable pub send : List Answer → TcpHandler → List ℕ → Result
send answers h buf =
    if ltb (free_count h.ring) (length buf)
    then some (negsuc 0, record h { full = true }, answers)
    else (do
      stored ← put h.ring buf
      r ← handle_output answers (record h { ring = stored.0 })
      some (pos 0, register_writer r.1, r.2))
