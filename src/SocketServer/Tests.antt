-- ===== src/SocketServer/Tests.antt =====
-- Connections of a small server.
use thero_logic_server.Base.{ℕ, ◌≡◌, refl, some, [], ◌∷◌, arith}
use thero_logic_server.SocketServer.{SocketServer, get_use_id, create_handler}
use thero_logic_server.SocketServer.Sessions.{Session, session_lem}

-- a handler is its identifier and a number
abbrev server : SocketServer (ℕ × ℕ)
server = record { max_id = 4; handler_map = (5, (5, 1)) ∷ (6, (6, 1)) ∷ (9, (9, 1)) ∷ [] }

get_use_id_run : get_use_id server ≡ some (7, record server { max_id = 7 })
unfolding get_use_id
get_use_id_run = refl

session_lem_example :
    (h : ℕ × ℕ) × (s' : SocketServer (ℕ × ℕ)) × (create_handler (λ id. (id, 0)) server
      ≡ some (h, s'))
    × Session (λ h. h.0) s' h
session_lem_example = session_lem (λ h. h.0) (λ id. (id, 0)) server (omega arith) (λ id. refl)
