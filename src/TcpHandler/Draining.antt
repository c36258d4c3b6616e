-- ===== src/TcpHandler/Draining.antt =====
-- The output loop when the socket always has room.
use thero_logic_server.Base.{
  append-nil, ℕ, ◌-◌, ◌≤◌, ◌<◌, ◌≡◌, refl, ap, sym, ◌∙◌, ◌⊎◌, inl, inr, true, false, ◌&&◌, ltb,
  if_elim, some, none, List, [], ◌∷◌, ◌++◌, length, min, arith, length-take, length-drop,
}
use thero_logic_server.Base.Int.{pos}
use thero_logic_server.LoopBuffer.{data_count}
use thero_logic_server.LoopBuffer.Bounds.{IsValid, contents, counts_lem}
use thero_logic_server.LoopBuffer.Gets.{peek-take, erase-drop}
use thero_logic_server.TcpHandler.{
  Answer, room, would_block, interrupted, failed, TcpHandler, Result, output_loop, send_buffer_size,
}
use thero_logic_server.TcpHandler.Output.{
  offered, next, goes_on, advance-stream, taken_le, Delivers, output_loop-Delivers,
}

-- every answer has room for at least one byte
abbrev pub AllRoom : List Answer → Type 0
AllRoom [] = Unit {0}
AllRoom (room k ∷ answers) = (0 < k) × AllRoom answers
AllRoom (_ ∷ answers) = ⊥

-- the loop ends with result 0 and nothing left to send
abbrev Empties : Result → Type 0
Empties none = ⊥
Empties (some (r, h', answers)) = (r ≡ pos 0) × (contents h'.ring ≡ [])

nil_of_length : (xs : List ℕ) → length xs ≤ 0 → xs ≡ []
nil_of_length [] h = refl
nil_of_length (x ∷ xs) h = absurd (omega arith)

advance-contents :
    (h : TcpHandler) (v : IsValid h.ring) (k : ℕ)
    → length (contents (next h v k).ring)
      ≡ length (contents h.ring) - min k (min send_buffer_size (length (contents h.ring)))
advance-contents h v k = rw ((erase-drop h.ring (min k (length (offered h v))) v).1) (
    omega (
      arith,
      length-drop (min k (length (offered h v))) (contents h.ring),
      length-take send_buffer_size (contents h.ring),
    ))

both_positive : (n d : ℕ) → (ltb 0 n && ltb 0 d) ≡ true → (0 < n) × (0 < d)
both_positive n d h = ground arith

one_zero : (n d : ℕ) → (ltb 0 n && ltb 0 d) ≡ false → (n ≤ 0) ⊎ (d ≤ 0)
one_zero n d h = ground arith

output_loop-Empties :
    (answers : List Answer) (h : TcpHandler)
    → IsValid h.ring
    → AllRoom answers
    → data_count h.ring ≤ length answers
    → Empties (output_loop answers h)
unfolding output_loop
output_loop-Empties [] h v a n =
    rw (peek-take h.ring send_buffer_size v)
      (refl, nil_of_length _ (omega (arith, (counts_lem h.ring v).1)))
output_loop-Empties (room k ∷ answers) h v a n = rw (peek-take h.ring send_buffer_size v) (
    if_elim Empties (goes_on h v k) _ (some (pos 0, next h v k, answers))
      (λ more. output_loop-Empties answers (next h v k) valid a.1 (fewer more))
      (λ done. (refl, nil_of_length _ (nothing done))))
  where
    valid : IsValid (next h v k).ring
    valid = (advance-stream h v _ (taken_le h k)).0

    offered_length : length (offered h v) ≡ min send_buffer_size (length (contents h.ring))
    offered_length = length-take send_buffer_size (contents h.ring)

    taken : ℕ
    taken = min k (length (offered h v))

    left : ℕ
    left = data_count (next h v k).ring

    fewer : goes_on h v k ≡ true → data_count (next h v k).ring ≤ length answers
    fewer more = omega (
      arith,
      offered_length,
      (counts_lem h.ring v).1,
      (counts_lem _ valid).1,
      advance-contents h v k,
      both_positive taken left more,
    )

    nothing : goes_on h v k ≡ false → length (contents (next h v k).ring) ≤ 0
    nothing done = omega (
      arith,
      offered_length,
      (counts_lem h.ring v).1,
      (counts_lem _ valid).1,
      advance-contents h v k,
      a.0,
      one_zero taken left done,
    )
output_loop-Empties (would_block ∷ answers) h v a n = absurd a
output_loop-Empties (interrupted ∷ answers) h v a n = absurd a
output_loop-Empties (failed ∷ answers) h v a n = absurd a

-- the loop ends with result 0, and the socket has taken all the bytes that waited, in their order
abbrev pub Drains : TcpHandler → Result → Type 0
Drains h none = ⊥
Drains h (some (r, h', left)) =
    (r ≡ pos 0) × (contents h'.ring ≡ []) × (h'.sent ≡ h.sent ++ contents h.ring)

Delivers-Drains :
    (h : TcpHandler) (answers : List Answer) (r : Result)
    → Delivers h answers r
    → Empties r
    → Drains h r
Delivers-Drains h answers none d m = d
Delivers-Drains h answers (some (r, h', left)) (lost, used, v, f, d, u, inl (z, e, n)) (s, c) =
    (s, c, sym (append-nil h'.sent) ∙ ap (λ t. h'.sent ++ t) (sym (rw (e, c) refl)) ∙ d)
Delivers-Drains h answers (some (r, h', left)) (lost, used, v, f, d, u, inr z) (s, c) = absurd cc

-- If the socket has room for a byte at least at each of as many calls as there are bytes waiting, the loop ends with
-- result 0 and an empty ring, and the socket has taken exactly the bytes that waited, in their order, behind those it had.
pub output_loop-Drains :
    (answers : List Answer) (h : TcpHandler)
    → IsValid h.ring
    → AllRoom answers
    → data_count h.ring ≤ length answers
    → Drains h (output_loop answers h)
output_loop-Drains answers h v a n =
    Delivers-Drains h answers _ (output_loop-Delivers answers h v)
      (output_loop-Empties answers h v a n)
