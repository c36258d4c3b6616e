-- ===== src/SocketHandler/Blocks.antt =====
-- The length of the packet's block while the connection decrypts it and the server processes it.
use thero_logic_server.Base.{
  ℕ, ◌≡◌, ◌∙◌, Bool, true, not, ◌==◌, if◌then◌else◌, if_elim, Option, none, some, ◌>>=◌, List,
  length,
}
use thero_logic_server.Base.Words.{minus_one}
use thero_logic_server.Packet.{Packet, packet_buffer_size, packet_header_size, get_check_code}
use thero_logic_server.EncryptDecrypt.{decrypt_loop, decrypt_buffer, data_size, rounds}
use thero_logic_server.EncryptDecrypt.RoundTrip.{SameLength, length-decrypt_loop}
use thero_logic_server.PacketParser.Body.{KeepsBlock}
use thero_logic_server.SocketHandler.{SocketHandler, State, Process, processed, on_packet_complete}

abbrev pub ProcessKeeps : {S : Type 0} → Process S → Type 0
ProcessKeeps {S} process =
    (p : Packet) (s : SocketHandler × S)
    → length p.buf ≡ packet_buffer_size
    → length (process p s).1.buf ≡ packet_buffer_size

abbrev SameBlock : Packet → Option (ℕ × Packet) → Type 0
SameBlock p none = Unit {0}
SameBlock p (some (size, q)) = length q.buf ≡ length p.buf

length-decrypt_buffer : (p : Packet) → SameBlock p (decrypt_buffer p)
unfolding decrypt_buffer
length-decrypt_buffer p =
    go (decrypt_loop (rounds (data_size p)) packet_header_size (get_check_code p) p.buf)
      (length-decrypt_loop (rounds (data_size p)) packet_header_size (get_check_code p) p.buf)
  where
    go :
        (o : Option (ℕ × List ℕ))
        → SameLength p.buf o
        → SameBlock p (
            o >>= λ r.
            some (if not (r.0 == 0) then minus_one else data_size p, record p { buf = r.1 }))
    go none s = tt
    go (some (code, b)) s = s

pub on_packet_complete-KeepsBlock :
    {S : Type 0} (process : Process S)
    → ProcessKeeps process
    → KeepsBlock (on_packet_complete process)
unfolding on_packet_complete
on_packet_complete-KeepsBlock process keeps p none e = e
on_packet_complete-KeepsBlock {S} process keeps p (some s) e =
    go (decrypt_buffer p) (length-decrypt_buffer p)
  where
    go :
        (o : Option (ℕ × Packet))
        → SameBlock p o
        → length
            (elim o as (λ _. Bool × Packet × State S) [
              | none ↦ (true, p, none)
              | some (size, q) ↦
                  if size == minus_one then (true, q, some s) else processed process (process q s)
            ]).1.buf
          ≡ packet_buffer_size
    go none b = e
    go (some (size, q)) b =
        if_elim (λ (r : Bool × Packet × State S). length r.1.buf ≡ packet_buffer_size)
          (size == minus_one) _ _ (λ _. b ∙ e) (λ _. keeps q s (b ∙ e))
