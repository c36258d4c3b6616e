-- ===== src/TcpServer/Others.antt =====
-- What an event leaves as it was.
use thero_logic_server.Base.{ℕ, ◌≡◌, ◌≢◌, Option, none, some}
use thero_logic_server.Base.Maps.{find}
use thero_logic_server.TcpServer.{TcpServer}

module _ {H : Type 0} where
  -- the handlers and the registrations of all other descriptors are as before
  abbrev pub Spares : ℕ → TcpServer H → Option (TcpServer H) → Type 0
  Spares fd s none = ⊥
  Spares fd s (some s') =
      (k : ℕ) → k ≢ fd → (find k s'.fds ≡ find k s.fds) × (find k s'.epoll ≡ find k s.epoll)
