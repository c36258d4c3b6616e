-- ===== src/LoopBuffer.antt =====
-- GameLib/LoopBuffer.h and LoopBuffer.cpp: the ring of bytes behind each connection's sends.
-- The pointers are offsets from `buf_`. Nothing but `Init` and `Reset` sets `hptr_` and `tptr_`, to
-- `buf_` and `buf_ + count_`, so `hptr_` is 0 here and `tptr_` is `count`.
-- A `memcpy` that leaves its block, or is called with a negative size (which becomes a huge
-- `size_t`), is a fault, `none`. A caller's buffer is the list of the bytes in it.
pub mod Bounds
pub mod Puts
pub mod Gets
mod Tests
use thero_logic_server.Base.{
  ℕ, ◌+◌, ◌-◌, ◌==◌, ltb, leb, if◌then◌else◌, Option, none, some, ◌>>=◌, List, ◌++◌, length, take,
  drop, replicate, copy_from, copy_to,
}

pub record LoopBuffer : Type 0 where
  pub buf : List ℕ
  pub wptr : ℕ
  pub rptr : ℕ
  pub count : ℕ

abbrev pub hptr : LoopBuffer → ℕ
hptr b = 0

abbrev pub tptr : LoopBuffer → ℕ
tptr b = hptr b + b.count

-- `CLoopBuffer::Init`
unfoldable pub init : ℕ → LoopBuffer
init bufsize = record { buf = replicate (bufsize + 1) 0; wptr = 0; rptr = 0; count = bufsize + 1 }

-- `CLoopBuffer::Reset`
unfoldable pub reset : LoopBuffer → LoopBuffer
reset b = record b { wptr = hptr b; rptr = hptr b }

-- The rest of a `Put` that goes on at the head of the ring, `part` bytes being written. With `rptr_`
-- at the head, `rptr_ - hptr_ - 1` is -1, and the size of the `memcpy` is negative.
unfoldable pub put_wrapped : LoopBuffer → ℕ → List ℕ → Option (LoopBuffer × ℕ)
put_wrapped b part src =
    if ltb (hptr b) b.rptr
    then (do
      let rest =
          if ltb (b.rptr - hptr b - 1) (length src) then take (b.rptr - hptr b - 1) src else src
      m ← copy_to b.buf (hptr b) rest
      some (record b { buf = m; wptr = hptr b + length rest }, part + length rest))
    else none

-- `CLoopBuffer::Put`: the new ring and the returned count
unfoldable pub put : LoopBuffer → List ℕ → Option (LoopBuffer × ℕ)
put b src =
    let part = tptr b - b.wptr in
    if leb b.rptr b.wptr
    then (if leb (length src) part
        then (do
          m ← copy_to b.buf b.wptr src
          some (record b { buf = m; wptr = b.wptr + length src }, length src))
        else (do
          m ← copy_to b.buf b.wptr (take part src)
          put_wrapped (record b { buf = m }) part (drop part src)))
    else (do
      let kept =
          if ltb (b.rptr - b.wptr - 1) (length src) then take (b.rptr - b.wptr - 1) src else src
      m ← copy_to b.buf b.wptr kept
      some (record b { buf = m; wptr = b.wptr + length kept }, length kept))

-- `CLoopBuffer::Get`: the bytes copied out, and the new ring; the returned count is their number
unfoldable pub get : LoopBuffer → ℕ → Option (List ℕ × LoopBuffer)
get b size =
    let part = tptr b - b.rptr in
    if leb b.rptr b.wptr
    then (do
      let n = if ltb (b.wptr - b.rptr) size then b.wptr - b.rptr else size
      out ← copy_from b.buf b.rptr n
      some (out, record b { rptr = b.rptr + n }))
    else if leb size part
    then (do out ← copy_from b.buf b.rptr size; some (out, record b { rptr = b.rptr + size }))
    else (do
      first ← copy_from b.buf b.rptr part
      let n = if ltb (b.wptr - hptr b) (size - part) then b.wptr - hptr b else size - part
      second ← copy_from b.buf (hptr b) n
      some (first ++ second, record b { rptr = hptr b + n }))

-- `CLoopBuffer::Peek`
unfoldable pub peek : LoopBuffer → ℕ → Option (List ℕ)
peek b size =
    let part = tptr b - b.rptr in
    if leb b.rptr b.wptr
    then (do
      let n = if ltb (b.wptr - b.rptr) size then b.wptr - b.rptr else size
      copy_from b.buf b.rptr n)
    else if leb size part
    then copy_from b.buf b.rptr size
    else (do
      first ← copy_from b.buf b.rptr part
      let n = if ltb (b.wptr - hptr b) (size - part) then b.wptr - hptr b else size - part
      second ← copy_from b.buf (hptr b) n
      some (first ++ second))

-- `CLoopBuffer::Erase`: the new ring and the returned count
unfoldable pub erase : LoopBuffer → ℕ → LoopBuffer × ℕ
erase b size =
    let part = tptr b - b.rptr in
    if leb b.rptr b.wptr
    then (let n = if ltb (b.wptr - b.rptr) size then b.wptr - b.rptr else size in
        (record b { rptr = b.rptr + n }, n))
    else if leb size part
    then (record b { rptr = b.rptr + size }, size)
    else (let n = if ltb (b.wptr - hptr b) (size - part) then b.wptr - hptr b else size - part in
        (record b { rptr = hptr b + n }, part + n))

-- `CLoopBuffer::Count`
abbrev pub capacity : LoopBuffer → ℕ
capacity b = b.count - 1

-- `CLoopBuffer::FreeCount`. The result is an `int`, and -1 in a ring filled past its capacity,
-- which the subtraction here gives as 0.
unfoldable pub free_count : LoopBuffer → ℕ
free_count b = if leb b.rptr b.wptr then b.count - (b.wptr - b.rptr) - 1 else b.rptr - b.wptr - 1

-- `CLoopBuffer::DataCount`
unfoldable pub data_count : LoopBuffer → ℕ
data_count b = if leb b.rptr b.wptr then b.wptr - b.rptr else b.count - (b.rptr - b.wptr)
