-- ===== src/TcpHandler/Output.antt =====
-- The output loop, the ring's bytes and what the socket takes.
use thero_logic_server.Base.{
  ℕ, ◌≤◌, ◌≡◌, refl, ap, sym, ◌∙◌, ◌⊎◌, inl, inr, Bool, ◌&&◌, ltb, if_elim, some, none, List, [],
  ◌∷◌, ◌++◌, append_assoc, length, take, drop, min, arith, take-append-drop, drop-append, take-take,
  length-take,
}
use thero_logic_server.Base.Int.{pos, negsuc}
use thero_logic_server.LoopBuffer.{erase}
use thero_logic_server.LoopBuffer.Bounds.{IsValid, contents}
use thero_logic_server.LoopBuffer.Gets.{peek-take, erase-drop}
use thero_logic_server.TcpHandler.{
  Answer, room, would_block, interrupted, failed, TcpHandler, Result, writable, advance,
  output_loop, send_buffer_size,
}

-- all bytes in order: those that the socket took, then those that wait
abbrev pub stream : TcpHandler → List ℕ
stream h = h.sent ++ contents h.ring

-- no call of `send` fails with another error than EWOULDBLOCK or EINTR
abbrev pub NoFailure : List Answer → Type 0
NoFailure [] = Unit {0}
NoFailure (failed ∷ answers) = ⊥
NoFailure (_ ∷ answers) = NoFailure answers

-- How a run of the loop ends: with a valid ring, and behind `used` of the answers. Either none of these is a failure, the
-- result is 0 and the stream is as before; or the last one and no other is a failure, the result is -1, and the bytes
-- that were offered to that call, at most `send_buffer_size` from the front of those that waited, are lost.
abbrev pub Delivers : TcpHandler → List Answer → Result → Type 0
Delivers h answers none = ⊥
Delivers h answers (some (r, h', left)) =
    (lost : List ℕ) × (used : List Answer) × IsValid h'.ring
    × (h'.full ≡ h.full)
    × (h'.sent ++ (lost ++ contents h'.ring) ≡ stream h)
    × (answers ≡ used ++ left)
    × (((r ≡ pos 0) × (lost ≡ []) × NoFailure used)
        ⊎ ((r ≡ negsuc 0)
            × (lost ≡ take send_buffer_size (lost ++ contents h'.ring))
            × ((before : List Answer) × NoFailure before × (used ≡ before ++ (failed ∷ [])))))

module _ (h : TcpHandler) (v : IsValid h.ring) where
  abbrev pub offered : List ℕ
  offered = take send_buffer_size (contents h.ring)

  pub advance-stream :
      (n : ℕ)
      → n ≤ send_buffer_size
      → IsValid (advance h offered n).ring × (stream (advance h offered n) ≡ stream h)
  advance-stream n k = (
    (erase-drop h.ring n v).0,
    rw ((erase-drop h.ring n v).1, take-take n send_buffer_size (contents h.ring) k)
        (append_assoc h.sent (take n (contents h.ring)) (drop n (contents h.ring))
          ∙ ap (λ t. h.sent ++ t) (take-append-drop n (contents h.ring))),
  )

-- one round in which the socket has room, and the rounds behind it
Delivers-cons :
    (h h' : TcpHandler) (k : ℕ) (answers : List Answer) (r : Result)
    → h'.full ≡ h.full
    → stream h' ≡ stream h
    → Delivers h' answers r
    → Delivers h (room k ∷ answers) r
Delivers-cons h h' k answers none f e d = d
Delivers-cons h h' k answers (some (r, h'', left)) f e (lost, used, v, g, d, u, inl c) =
    (lost, room k ∷ used, v, g ∙ f, d ∙ e, ap (λ t. room k ∷ t) u, inl c)
Delivers-cons h h' k answers (some (r, h'', left)) f e
      (lost, used, v, g, d, u, inr (z, l, (before, n, q))) =
    (
      lost,
      room k ∷ used,
      v,
      g ∙ f,
      d ∙ e,
      ap (λ t. room k ∷ t) u,
      inr (z, l, (room k ∷ before, n, ap (λ t. room k ∷ t) q)),
    )

-- the handler after one round in which the socket had room for `k` bytes
abbrev pub next : (h : TcpHandler) → IsValid h.ring → ℕ → TcpHandler
next h v k = advance h (offered h v) (min k (length (offered h v)))

-- the test at the foot of the loop
abbrev pub goes_on : (h : TcpHandler) → IsValid h.ring → ℕ → Bool
goes_on h v k = ltb 0 (min k (length (offered h v))) && writable (next h v k)

pub taken_le :
    (h : TcpHandler) (k : ℕ)
    → min k (length (take send_buffer_size (contents h.ring))) ≤ send_buffer_size
taken_le h k = omega (arith, length-take send_buffer_size (contents h.ring))

dropped :
    (h : TcpHandler) (v : IsValid h.ring)
    → offered h v ++ contents (erase h.ring (length (offered h v))).0 ≡ contents h.ring
dropped h v =
    ap (λ t. offered h v ++ t)
      ((erase-drop h.ring (length (offered h v)) v).1
        ∙ ap (drop (length (offered h v))) (sym whole)
        ∙ drop-append (offered h v) (drop send_buffer_size (contents h.ring)))
    ∙ whole
  where
    whole : offered h v ++ drop send_buffer_size (contents h.ring) ≡ contents h.ring
    whole = take-append-drop send_buffer_size (contents h.ring)

-- Whatever the socket answers, the output loop ends, with a valid ring, behind some of the answers. Either none of these
-- is a failure, it returns 0, and the bytes the socket has taken and those that wait are in order those of before; or the
-- last one is a failure and no other is, it returns -1, and exactly the bytes offered to that call, at most
-- `send_buffer_size` from the front of those that waited, are lost between those taken and those that wait.
pub output_loop-Delivers :
    (answers : List Answer) (h : TcpHandler)
    → IsValid h.ring
    → Delivers h answers (output_loop answers h)
unfolding output_loop
output_loop-Delivers [] h v =
    rw (peek-take h.ring send_buffer_size v) ([], [], v, refl, refl, refl, inl (refl, refl, tt))
output_loop-Delivers (room k ∷ answers) h v = rw (peek-take h.ring send_buffer_size v) (
    if_elim (Delivers h (room k ∷ answers)) (goes_on h v k) _ (some (pos 0, next h v k, answers))
      (λ _.
        Delivers-cons h (next h v k) k answers _ refl (advance-stream h v _ (taken_le h k)).1
          (output_loop-Delivers answers (next h v k) (advance-stream h v _ (taken_le h k)).0))
      (λ _. (
        [],
        room k ∷ [],
        (advance-stream h v _ (taken_le h k)).0,
        refl,
        (advance-stream h v _ (taken_le h k)).1,
        refl,
        inl (refl, refl, tt),
      )))
output_loop-Delivers (would_block ∷ answers) h v =
    rw (peek-take h.ring send_buffer_size v)
      ([], would_block ∷ [], v, refl, refl, refl, inl (refl, refl, tt))
output_loop-Delivers (interrupted ∷ answers) h v =
    rw (peek-take h.ring send_buffer_size v)
      ([], interrupted ∷ [], v, refl, refl, refl, inl (refl, refl, tt))
output_loop-Delivers (failed ∷ answers) h v = rw (peek-take h.ring send_buffer_size v) (
  offered h v,
  failed ∷ [],
  (erase-drop h.ring _ v).0,
  refl,
  ap (λ t. h.sent ++ t) (dropped h v),
  refl,
  inr (refl, ap (take send_buffer_size) (sym (dropped h v)), ([], tt, refl)),
)
