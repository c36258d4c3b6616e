-- ===== src/GameServer/Collecting/Resources.antt =====
-- What the request that collects a resource changes, and asking for it again.
use thero_logic_server.Base.{ap, ◌∙◌, ℕ, ◌≡◌, true, false, ◌==◌, some, arith}
use thero_logic_server.Base.Words.{int_add, int_lt}
use thero_logic_server.Player.Pow.{Pow, get_pow, set_pow}
use thero_logic_server.GameServer.{
  World, Tables, Player, Mechine, ResourceProduc, ResourceType, PowerUpLevel,
}
use thero_logic_server.GameServer.Lookups.{
  get_user_mechine, get_mechine_of_type, get_res_produc, get_resource_type, get_power_up,
  get_power_up_value,
}
use thero_logic_server.GameServer.Actions.{store_mechine}
use thero_logic_server.GameServer.Collecting.{handle_resource_collect}

-- the request leaves the player as it was but for the resources
resource_collect-player :
    (t : Tables) (pcate pframe pid : ℕ) (w : World)
    → let p = (handle_resource_collect t pcate pframe pid w).1.player in
      p ≡ record w.player { pow = p.pow }
unfolding handle_resource_collect store_mechine
resource_collect-player t pcate pframe pid w = ground arith

-- a resource with a limit is one of the five
get_pow_written :
    (k v : ℕ) (p : Pow) (l : PowerUpLevel)
    → (get_power_up_value l k == 0) ≡ false
    → get_pow (set_pow k v p) k ≡ v
unfolding get_pow set_pow get_power_up_value
get_pow_written k v p l h = ground (arith, h)

-- the request with the kind of the resource mechine
abbrev pub collect : Tables → ℕ → ℕ → World → World
collect t pframe pid w = (handle_resource_collect t t.resource_type.pcate pframe pid w).1

module _ (t : Tables) (pframe pid : ℕ) (m k : Mechine) (c : ResourceProduc) (r : ResourceType)
    (l : PowerUpLevel) where
  -- what the request looks up finds these, and the resource mechine is ready
  pub record IsReady (p : Player) : Type 0 where
    pub mechine : get_user_mechine p.mechines pid ≡ some m
    pub ready : m.status ≡ 7
    pub power : get_mechine_of_type p.mechines t.power_type ≡ some k
    pub record_found : get_res_produc pid p.mid p.producs ≡ some c
    pub kind : get_resource_type t t.resource_type.pcate pframe c.pmode c.level ≡ some r
    pub limits : get_power_up t k.level ≡ some l

  collects :
      (w : World)
      → IsReady w.player
      → w.logged_in ≡ true
      → (get_power_up_value l r.pype == 0) ≡ false
      → int_lt (get_pow w.player.pow r.pype) (get_power_up_value l r.pype) ≡ true
      → let w' = (handle_resource_collect t t.resource_type.pcate pframe pid w).1 in
        (w'.player.pow
          ≡ set_pow r.pype (int_add (get_pow w.player.pow r.pype) r.power) w.player.pow)
        × (w'.logged_in ≡ true)
  unfolding handle_resource_collect store_mechine
  collects w y i z b = ground (arith, y.mechine, y.ready, y.power, y.record_found, y.kind, y.limits)

  -- What the resource mechine is ready with can be collected twice: behind the first request it is as ready as before,
  -- and the second one adds the same power again, and leaves the rest of the player as it was, whatever the database
  -- answers to the statements of both, which come behind the power is added. The conditions are that the lookups of the
  -- first request find their entries, that the client has logged in, and that the power is below its limit also behind
  -- the first request.
  pub collects_twice :
      (w : World)
      → IsReady w.player
      → w.logged_in ≡ true
      → (get_power_up_value l r.pype == 0) ≡ false
      → int_lt (get_pow w.player.pow r.pype) (get_power_up_value l r.pype) ≡ true
      → int_lt (int_add (get_pow w.player.pow r.pype) r.power) (get_power_up_value l r.pype) ≡ true
      → let p = (collect t pframe pid (collect t pframe pid w)).player in
        (get_pow p.pow r.pype ≡ int_add (int_add (get_pow w.player.pow r.pype) r.power) r.power)
        × IsReady (collect t pframe pid w).player
        × (p ≡ record w.player { pow = p.pow })
  collects_twice w y i z b b' = (value, again, same)
    where
      one :
          ((collect t pframe pid w).player.pow
            ≡ set_pow r.pype (int_add (get_pow w.player.pow r.pype) r.power) w.player.pow)
          × ((collect t pframe pid w).logged_in ≡ true)
      one = collects w y i z b

      kept :
          (collect t pframe pid w).player
          ≡ record w.player { pow = (collect t pframe pid w).player.pow }
      kept = resource_collect-player t t.resource_type.pcate pframe pid w

      ready_with : (q : Pow) → IsReady (record w.player { pow = q })
      ready_with q = record {
        mechine = y.mechine;
        ready = y.ready;
        power = y.power;
        record_found = y.record_found;
        kind = y.kind;
        limits = y.limits;
      }

      again : IsReady (collect t pframe pid w).player
      again = rw kept (ready_with (collect t pframe pid w).player.pow)

      now :
          get_pow (collect t pframe pid w).player.pow r.pype
          ≡ int_add (get_pow w.player.pow r.pype) r.power
      now = ap (λ q. get_pow q r.pype) one.0 ∙ get_pow_written r.pype _ w.player.pow l z

      below :
          int_lt (get_pow (collect t pframe pid w).player.pow r.pype) (get_power_up_value l r.pype)
          ≡ true
      below = rw now b'

      two :
          (collect t pframe pid (collect t pframe pid w)).player.pow
          ≡ set_pow r.pype
              (int_add (get_pow (collect t pframe pid w).player.pow r.pype) r.power)
              (collect t pframe pid w).player.pow
      two = (collects (collect t pframe pid w) again one.1 z below).0

      value :
          get_pow (collect t pframe pid (collect t pframe pid w)).player.pow r.pype
          ≡ int_add (int_add (get_pow w.player.pow r.pype) r.power) r.power
      value =
          ap (λ q. get_pow q r.pype) two
          ∙ get_pow_written r.pype _ (collect t pframe pid w).player.pow l z
          ∙ ap (λ n. int_add n r.power) now

      same :
          (collect t pframe pid (collect t pframe pid w)).player
          ≡ record w.player { pow = (collect t pframe pid (collect t pframe pid w)).player.pow }
      same =
          resource_collect-player t t.resource_type.pcate pframe pid (collect t pframe pid w)
          ∙ ap {A = Player}
              (λ q. record q { pow = (collect t pframe pid (collect t pframe pid w)).player.pow })
              kept
