-- ===== src/GameServer/Sample.antt =====
-- Tables, a player and a world for the tests of the requests and of the timers.
use thero_logic_server.Base.{ℕ, true, false, List, [], ◌∷◌}
use thero_logic_server.Player.Pow.{Pow}
use thero_logic_server.GameServer.{
  MechineType, Mechine, InfoCollect, ResourceProduc, MechineUpLevel, CollectItem, PowerUpLevel,
  ResourceType, Tables, Player, Answer, done, World,
}

abbrev pub kind : ℕ → MechineType
kind pcate = record { pcate = pcate; pframe = 1 }

abbrev pub pows : ℕ → Pow
pows n = record { pow_a = n; pow_b = n; pow_c = n; pow_d = n; pow_e = n }

abbrev pub raising : MechineUpLevel
raising = record { pcate = 201; pframe = 1; level = 2; time = 600; coin = 100; money_time = 60 }

abbrev pub collecting : CollectItem
collecting = record {
  pcate = 201;
  pframe = 1;
  level = 1;
  time = 300;
  ear_coin = 40;
  money_time = 60;
}

abbrev pub limited : PowerUpLevel
limited = record { level = 1; limits = pows 100 }

abbrev pub producing : ResourceType
producing = record {
  pcate = 203;
  pframe = 1;
  pype = 1;
  level = 1;
  need_time = 120;
  coin = 20;
  power = 5;
}

abbrev pub tables : Tables
tables = record {
  goods =
      record { pcate = 201; pframe = 1; coin = 500; money = 0; is_can_sell = 1; sell_coin = 250 }
      ∷ [];
  enlarges = record { nlevel = 2; coin = 300; money = 3; sizex = 5; sizey = 5; ctime = 10 } ∷ [];
  instor_users =
      record { instor_level = 2; user_level = 1 }
      ∷ record { instor_level = 3; user_level = 9 }
      ∷ [];
  instor_up_levels =
      record { level = 2; time = 100; coin = 50; money_time = 60 }
      ∷ record { level = 3; time = 200; coin = 90; money_time = 60 }
      ∷ [];
  mechine_up_levels = raising ∷ [];
  collect_items = collecting ∷ [];
  power_up_levels = limited ∷ [];
  resource_types = producing ∷ [];
  construct_times = (kind 201, 30) ∷ [];
  experiment_type = kind 200;
  info_type = kind 201;
  instor_type = kind 202;
  resource_type = kind 203;
  power_type = kind 204;
  check_time = 10;
}

abbrev pub mechine : ℕ → ℕ → ℕ → ℕ → Mechine
mechine gid pcate status endtime = record {
  gid = gid;
  pcate = pcate;
  pframe = 1;
  position = 1;
  level = 1;
  cur_dir = 0;
  positionx = 3;
  positiony = 4;
  status = status;
  endtime = endtime;
  is_dirty = false;
}

-- an information mechine whose level is being raised until 10600, a resource mechine that is ready, and a power
-- mechine
abbrev pub raised : Mechine
raised = mechine 11 201 3 10600

abbrev pub ready : Mechine
ready = mechine 12 203 7 0

abbrev pub power : Mechine
power = mechine 13 204 0 0

abbrev pub collected : InfoCollect
collected = record {
  gid = 11;
  mid = 7;
  pcate = 201;
  pframe = 1;
  left_time = 55;
  need_time = 300;
  status = 1;
  is_dirty = true;
}

abbrev pub produced_record : ResourceProduc
produced_record = record {
  gid = 12;
  mid = 7;
  pcate = 203;
  pframe = 1;
  pmode = 1;
  level = 1;
  state = 12;
  usetime = 115;
  is_dirty = false;
}

abbrev pub player : Player
player = record {
  mid = 7;
  level = 2;
  base_w = 4;
  coin = 1000;
  money = 50;
  experiment_mechine = mechine 1 200 0 0;
  instor_mechine = mechine 2 202 0 0;
  mechines = raised ∷ ready ∷ power ∷ [];
  info_collects = collected ∷ [];
  producs = produced_record ∷ [];
  pow = pows 10;
}

abbrev pub world : List Answer → World
world answers = record {
  logged_in = true;
  player = player;
  account = (1000, 50);
  answers = answers;
  calls = [];
  sent = [];
}

-- the database executes four statements
abbrev pub four : List Answer
four = done [] ∷ done [] ∷ done [] ∷ done [] ∷ []
