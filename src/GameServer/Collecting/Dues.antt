-- ===== src/GameServer/Collecting/Dues.antt =====
-- What it costs to shorten the collecting of an information mechine.
use thero_logic_server.Base.{
  ℕ, ◌+◌, ◌-◌, ◌/◌, ◌%◌, ◌^◌, ◌≤◌, ◌<◌, ◌≡◌, refl, inl, inr, ap, ◌∙◌, Bool-cases, true, false, ltb,
  ◌==◌, if◌then◌else◌, some, List, [], ◌∷◌, arith,
}
use thero_logic_server.Base.Words.{int_sub}
use thero_logic_server.Packet.Output.{Field, int, short}
use thero_logic_server.GameServer.{
  World, Tables, Mechine, InfoCollect, CollectItem, Answer, done, Message,
}
use thero_logic_server.GameServer.Lookups.{
  get_user_mechine, get_info_collect, change_info_collect, get_collect_item,
}
use thero_logic_server.GameServer.Actions.{next, is_neg, int_div, int_rem, price, set_account, pay}
use thero_logic_server.GameServer.Mechines.{mechine_status_reply}
use thero_logic_server.GameServer.Mechines.Prices.{first-test, change_first-first}
use thero_logic_server.GameServer.Collecting.{
  handle_collect_speed, status_of_collect, at_least_zero, info_can_collect_reply,
}

-- one for each begun `k` seconds of `d`
abbrev pub due : ℕ → ℕ → ℕ
due d k = if d % k == 0 then d / k else d / k + 1

div_le : (d k : ℕ) → 0 < k → d / k ≤ d
div_le d k p = grind arith

price-due :
    (d k : ℕ) (w : World) → 0 < k → k < 2 ^ 31 → d < 2 ^ 31 → price d k w ≡ (next (due d k), w)
unfolding price int_div int_rem
price-due d k w p h l = ground (arith, div_le d k)

change-collect :
    (cs : List InfoCollect) (pid : ℕ) (c new : InfoCollect)
    → get_info_collect cs pid ≡ some c
    → new.gid ≡ c.gid
    → get_info_collect (change_info_collect cs new) pid
      ≡ some (record c { left_time = new.left_time; status = new.status; is_dirty = true })
change-collect cs pid c new e g = rw same (change_first-first (λ x. x.gid == pid) _ cs c e k)
  where
    k : (c.gid == pid) ≡ true
    k = first-test (λ x. x.gid == pid) cs c e

    same : new.gid ≡ pid
    same = ground (arith, k, g)

-- the request up to the price
abbrev asked : World → InfoCollect → World
asked w c = record w {
  player = record w.player {
    info_collects =
        change_info_collect w.player.info_collects
          (record c { status = 2; left_time = c.need_time });
  };
  sent = record { command = info_can_collect_reply; fields = int c.gid ∷ short 0 ∷ [] } ∷ w.sent;
}

speed_unpaid :
    (t : Tables) (pcate pframe pid n : ℕ) (w : World) (m : Mechine) (c : InfoCollect)
    (r : CollectItem) (u : List ℕ) (rest : List Answer)
    → get_user_mechine w.player.mechines pid ≡ some m
    → get_info_collect w.player.info_collects pid ≡ some c
    → get_collect_item t pcate pframe m.level ≡ some r
    → price (at_least_zero (int_sub c.need_time c.left_time)) r.money_time (asked w c)
      ≡ (next n, asked w c)
    → w.logged_in ≡ true
    → is_neg (int_sub w.player.money n) ≡ true
    → let p = (handle_collect_speed t pcate pframe pid w).1.player in
      (p.money ≡ w.player.money) × (p.info_collects ≡ (asked w c).player.info_collects)
unfolding handle_collect_speed
speed_unpaid t pcate pframe pid n w m c r u rest found collect item cost l neg =
    ground (arith, found, collect, item, cost, l, neg)

speed_paid :
    (t : Tables) (pcate pframe pid n : ℕ) (w : World) (m : Mechine) (c : InfoCollect)
    (r : CollectItem) (u : List ℕ) (rest : List Answer)
    → get_user_mechine w.player.mechines pid ≡ some m
    → get_info_collect w.player.info_collects pid ≡ some c
    → get_collect_item t pcate pframe m.level ≡ some r
    → price (at_least_zero (int_sub c.need_time c.left_time)) r.money_time (asked w c)
      ≡ (next n, asked w c)
    → w.logged_in ≡ true
    → is_neg (int_sub w.player.money n) ≡ false
    → w.answers ≡ done u ∷ rest
    → let p = (handle_collect_speed t pcate pframe pid w).1.player in
      (p.money ≡ int_sub w.player.money n) × (p.info_collects ≡ (asked w c).player.info_collects)
unfolding handle_collect_speed pay set_account
speed_paid t pcate pframe pid n w m c r u rest found collect item cost l neg a =
    ground (arith, found, collect, item, cost, l, neg, a)

speed_at_price :
    (t : Tables) (pcate pframe pid n : ℕ) (w : World) (m : Mechine) (c : InfoCollect)
    (r : CollectItem) (u : List ℕ) (rest : List Answer)
    → get_user_mechine w.player.mechines pid ≡ some m
    → get_info_collect w.player.info_collects pid ≡ some c
    → get_collect_item t pcate pframe m.level ≡ some r
    → price (at_least_zero (int_sub c.need_time c.left_time)) r.money_time (asked w c)
      ≡ (next n, asked w c)
    → w.logged_in ≡ true
    → n < 2 ^ 31
    → w.player.money < 2 ^ 31
    → w.answers ≡ done u ∷ rest
    → let p = (handle_collect_speed t pcate pframe pid w).1.player in
      (p.money ≡ (if ltb w.player.money n then w.player.money else w.player.money - n))
      × (p.info_collects ≡ (asked w c).player.info_collects)
speed_at_price t pcate pframe pid n w m c r u rest found collect item cost l small money a =
    elim (Bool-cases (ltb w.player.money n)) [
      | inl y ↦ rw y (
          speed_unpaid t pcate pframe pid n w m c r u rest found collect item cost l
            (ground (arith, y)))
      | inr y ↦ rw y (
          (let paid =
              speed_paid t pcate pframe pid n w m c r u rest found collect item cost l
                (ground (arith, y)) a in
            (paid.0 ∙ ground (arith, y), paid.1)))
    ]

-- what the last message is
abbrev pub LastIs : List Message → ℕ → List Field → Type 0
LastIs [] cmd fields = ⊥
LastIs (m ∷ ms) cmd fields = m ≡ record { command = cmd; fields = fields }

module _ (t : Tables) (pcate pframe pid d : ℕ) (w : World) (m : Mechine) (c : InfoCollect)
    (r : CollectItem) (found : get_user_mechine w.player.mechines pid ≡ some m)
    (collect : get_info_collect w.player.info_collects pid ≡ some c)
    (item : get_collect_item t pcate pframe m.level ≡ some r) (left : c.left_time + d ≡ c.need_time)
    (need : c.need_time < 2 ^ 31) (pos : 0 < r.money_time)
    (short_time : r.money_time < 2 ^ 31) where
  cost :
      (v : World)
      → price (at_least_zero (int_sub c.need_time c.left_time)) r.money_time v
        ≡ (next (due d r.money_time), v)
  cost v =
      ap (λ b. price b r.money_time v) (ground arith)
      ∙ price-due d r.money_time v pos short_time (omega arith)

  -- The price that the request for the status names is what speeding up the collecting takes, one for each begun
  -- `money_time` of the `d` seconds that are left; but the collecting is complete afterwards also if the player has
  -- too little money, and nothing is taken. The conditions are that the mechine, its record and the entry of the
  -- table are found, that the numbers of seconds are not negative, that the player's money is not, and that the database
  -- accepts the payment.
  pub collect_speed_lem :
      (u : List ℕ) (rest : List Answer)
      → w.logged_in ≡ true
      → w.player.money < 2 ^ 31
      → w.answers ≡ done u ∷ rest
      → let p = (handle_collect_speed t pcate pframe pid w).1.player in
        (p.money ≡ (
          if ltb w.player.money (due d r.money_time)
          then w.player.money
          else w.player.money - due d r.money_time))
        × (get_info_collect p.info_collects pid
            ≡ some (record c { left_time = c.need_time; status = 2; is_dirty = true }))
        × LastIs
            (status_of_collect t pcate pframe pid w).1.sent
            mechine_status_reply
            (int pid ∷ short 0 ∷ int d ∷ int (due d r.money_time) ∷ [])
  unfolding status_of_collect
  collect_speed_lem u rest l money a = (
    at_price.0,
    ap (λ cs. get_info_collect cs pid) at_price.1
        ∙ change-collect w.player.info_collects pid c
            (record c { status = 2; left_time = c.need_time }) collect refl,
    ground (arith, found, collect, item, cost w),
  )
    where
      small : due d r.money_time < 2 ^ 31
      small = ground (arith, div_le d r.money_time)

      at_price :
          let p = (handle_collect_speed t pcate pframe pid w).1.player in
          (p.money ≡ (
            if ltb w.player.money (due d r.money_time)
            then w.player.money
            else w.player.money - due d r.money_time))
          × (p.info_collects ≡ (asked w c).player.info_collects)
      at_price =
          speed_at_price t pcate pframe pid (due d r.money_time) w m c r u rest found collect item
            (cost (asked w c)) l small money a
