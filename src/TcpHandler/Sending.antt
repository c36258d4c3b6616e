-- ===== src/TcpHandler/Sending.antt =====
-- Sequences of sends: accepted bytes, taken bytes and waiting bytes.
use thero_logic_server.Base.{
  ℕ, ◌≡◌, refl, sym, ap, ◌∙◌, inl, inr, Bool, true, false, leb, if◌then◌else◌, Bool-cases, if_elim,
  leb→le, leb→ltb_false, leb_false→ltb, Option, some, none, List, [], ◌∷◌, ◌++◌, append_assoc,
  append-nil, length, ◌>>=◌,
}
use thero_logic_server.Base.Int.{ℤ, pos, negsuc}
use thero_logic_server.LoopBuffer.{free_count}
use thero_logic_server.LoopBuffer.Bounds.{IsValid, contents}
use thero_logic_server.LoopBuffer.Gets.{peek-take}
use thero_logic_server.LoopBuffer.Puts.{put_all}
use thero_logic_server.TcpHandler.{
  send_buffer_size, Answer, room, would_block, interrupted, failed, TcpHandler, Result, writable,
  output_loop, handle_output, register_writer, send,
}
use thero_logic_server.TcpHandler.Output.{
  next, goes_on, advance-stream, taken_le, stream, NoFailure, Delivers, output_loop-Delivers,
}

-- without a failure the result is 0, and no failure is left
abbrev Succeeds : Result → Type 0
Succeeds none = ⊥
Succeeds (some (r, h', answers)) = (r ≡ pos 0) × NoFailure answers

output_loop-Succeeds :
    (answers : List Answer) (h : TcpHandler)
    → IsValid h.ring
    → NoFailure answers
    → Succeeds (output_loop answers h)
unfolding output_loop
output_loop-Succeeds [] h v n = rw (peek-take h.ring send_buffer_size v) (refl, tt)
output_loop-Succeeds (room k ∷ answers) h v n = rw (peek-take h.ring send_buffer_size v) (
    if_elim Succeeds (goes_on h v k) _ (some (pos 0, next h v k, answers))
      (λ _. output_loop-Succeeds answers (next h v k) (advance-stream h v _ (taken_le h k)).0 n)
      (λ _. (refl, n)))
output_loop-Succeeds (would_block ∷ answers) h v n =
    rw (peek-take h.ring send_buffer_size v) (refl, n)
output_loop-Succeeds (interrupted ∷ answers) h v n =
    rw (peek-take h.ring send_buffer_size v) (refl, n)
output_loop-Succeeds (failed ∷ answers) h v n = absurd n

-- `handle_output` keeps the stream, whether it writes or not.
abbrev Keeps : TcpHandler → Result → Type 0
Keeps h none = ⊥
Keeps h (some (r, h', answers)) = IsValid h'.ring × NoFailure answers × (stream h' ≡ stream h)

loop-Keeps :
    (h : TcpHandler) (answers : List Answer) (r : Result)
    → Delivers h answers r
    → Succeeds r
    → Keeps h r
loop-Keeps h answers none d s = d
loop-Keeps h answers (some (r, h', left)) (lost, used, v, f, d, u, inl (z, e, k)) (s, n) =
    (v, n, ap (λ t. h'.sent ++ (t ++ contents h'.ring)) (sym e) ∙ d)
loop-Keeps h answers (some (r, h', left)) (lost, used, v, f, d, u, inr z) (s, n) = absurd (cc (z.0))

handle_output-Keeps :
    (answers : List Answer) (h : TcpHandler)
    → IsValid h.ring
    → NoFailure answers
    → Keeps h (handle_output answers h)
unfolding handle_output
handle_output-Keeps answers h v n =
    if_elim (Keeps h) (writable h) _ _
      (λ _.
        if_elim (Keeps h) h.full _ _ (λ _. (v, n, refl))
          (λ _.
            loop-Keeps h answers _ (output_loop-Delivers answers h v)
              (output_loop-Succeeds answers h v n)))
      (λ _. (v, n, refl))

abbrev pub fits : TcpHandler → List ℕ → Bool
fits h buf = leb (length buf) (free_count h.ring)

-- What one `Send` did: it accepted the buffer whole and returned 0, or refused it whole and
-- returned -1, by the room in the ring.
abbrev Sends : TcpHandler → List ℕ → Result → Type 0
Sends h buf none = ⊥
Sends h buf (some (r, h', answers)) =
    IsValid h'.ring
    × NoFailure answers
    × (r ≡ (if fits h buf then pos 0 else negsuc 0))
    × (stream h' ≡ stream h ++ (if fits h buf then buf else []))

sent_after :
    (h : TcpHandler) (buf : List ℕ) (q : TcpHandler) (r : Result)
    → fits h buf ≡ true
    → stream q ≡ stream h ++ buf
    → Keeps q r
    → Sends h buf (r >>= λ x. some (pos 0, register_writer x.1, x.2))
sent_after h buf q none f e k = k
sent_after h buf q (some (r, h', answers)) f e (v, n, d) = rw f (
  if_elim {A = TcpHandler} (λ t. IsValid t.ring) (writable h') _ _ (λ _. v) (λ _. v),
  n,
  refl,
  if_elim {A = TcpHandler} (λ t. stream t ≡ stream h ++ buf) (writable h') _ _ (λ _. d ∙ e)
      (λ _. d ∙ e),
)

send-Sends :
    (answers : List Answer) (h : TcpHandler) (buf : List ℕ)
    → IsValid h.ring
    → NoFailure answers
    → Sends h buf (send answers h buf)
unfolding send
send-Sends answers h buf v n = elim (Bool-cases (fits h buf)) [
  | inl f ↦
      let (b, e, w, d) = put_all h.ring buf v (leb→le _ _ f) in
      let q : TcpHandler = record h { ring = b } in
      rw (leb→ltb_false (length buf) (free_count h.ring) f, e)
        (sent_after h buf q (handle_output answers q) f
          (ap (λ t. h.sent ++ t) d ∙ sym (append_assoc h.sent (contents h.ring) buf))
          (handle_output-Keeps answers q w n))
  | inr f ↦
      rw (leb_false→ltb (length buf) (free_count h.ring) f, f)
        (v, n, refl, sym (append-nil (stream h)))
]

-- A client that sends buffers one after another, and keeps what was accepted (result 0).
abbrev pub Accepted : Type 0
Accepted = Option (List ℕ × TcpHandler)

abbrev note : ℤ → List ℕ → List ℕ → List ℕ
note (pos n) buf later = buf ++ later
note (negsuc n) buf later = later

pub send_all : List Answer → TcpHandler → List (List ℕ) → Accepted
send_all answers h [] = some ([], h)
send_all answers h (buf ∷ bufs) = do
  r ← send answers h buf
  later ← send_all r.2 r.1 bufs
  some (note r.0 buf later.0, later.1)

abbrev pub InOrder : TcpHandler → Accepted → Type 0
InOrder h none = ⊥
InOrder h (some (accepted, h')) = IsValid h'.ring × (stream h' ≡ stream h ++ accepted)

InOrder-after :
    (h h' : TcpHandler) (r : ℤ) (buf kept : List ℕ) (b : Bool) (rest : Accepted)
    → r ≡ (if b then pos 0 else negsuc 0)
    → kept ≡ (if b then buf else [])
    → stream h' ≡ stream h ++ kept
    → InOrder h' rest
    → InOrder h (rest >>= λ later. some (note r buf later.0, later.1))
InOrder-after h h' r buf kept b none e k d i = i
InOrder-after h h' r buf kept true (some (later, h'')) e k d (v, i) = rw e (
  v,
  i ∙ ap (λ t. t ++ later) (d ∙ ap (λ t. stream h ++ t) k) ∙ append_assoc (stream h) buf later,
)
InOrder-after h h' r buf kept false (some (later, h'')) e k d (v, i) =
    rw e (v, i ∙ ap (λ t. t ++ later) (d ∙ ap (λ t. stream h ++ t) k ∙ append-nil (stream h)))

-- As long as no `send` of the socket fails, a sequence of `Send`s never faults, and the bytes that the
-- socket has taken with those that wait are what came before, and then the accepted buffers in
-- order: none is lost, repeated, reordered or sent in part.
pub send_all-InOrder :
    (bufs : List (List ℕ)) (answers : List Answer) (h : TcpHandler)
    → IsValid h.ring
    → NoFailure answers
    → InOrder h (send_all answers h bufs)
unfolding send_all
send_all-InOrder [] answers h v n = (v, sym (append-nil (stream h)))
send_all-InOrder (buf ∷ bufs) answers h v n =
    go (send answers h buf) (send-Sends answers h buf v n) (send_all-InOrder bufs)
  where
    go :
        (r : Result)
        → Sends h buf r
        → ((a : List Answer) (g : TcpHandler)
            → IsValid g.ring
            → NoFailure a
            → InOrder g (send_all a g bufs))
        → InOrder h
            (r >>= λ r. send_all r.2 r.1 bufs >>= λ later. some (note r.0 buf later.0, later.1))
    go none s ih = s
    go (some (r, h', later)) (v', n', e, d) ih =
        InOrder-after h h' r buf _ (fits h buf) _ e refl d (ih later h' v' n')
