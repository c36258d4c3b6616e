-- ===== src/GameServer/Actions.antt =====
-- Server/GameServer.cpp, what the requests are made of: the early `return`, the calls of the database, the
-- replies, and the price of a shorter wait.
use thero_logic_server.Base.{
  ℕ, ◌-◌, ◌/◌, ◌%◌, ◌^◌, Bool, true, false, not, ◌&&◌, ◌||◌, leb, ◌==◌, if◌then◌else◌, Option, none,
  some, List, [], ◌∷◌,
}
use thero_logic_server.Base.Words.{int_mod, int_add, minus_one}
use thero_logic_server.Packet.Output.{Field, int, short}
use thero_logic_server.GameServer.{
  Mechine, Player, Call, update_user_money, update_user_mechine, Answer, failed, unchanged, done,
  World,
}

-- the request goes on with a value, it has returned, or its behaviour is undefined: a division that traps,
-- or the last entry of an empty table
pub data Outcome (A : Type 0) : Type 0 where
  next : A → Outcome A
  returned : Outcome A
  crashed : Outcome A

abbrev pub Action : Type 0 → Type 0
Action A = World → Outcome A × World

abbrev pub Done : Type 0
Done = Unit {0}

infixl 5 ◌>>=◌ ◌>>◌
abbrev pub ◌>>=◌ : {A B : Type 0} → Action A → (A → Action B) → Action B
◌>>=◌ m f w =
    let (o, w') = m w in
    elim o [ next a ↦ f a w' | returned ↦ (returned, w') | crashed ↦ (crashed, w') ]

abbrev pub ◌>>◌ : {B : Type 0} → Action Done → Action B → Action B
m >> k = m >>= λ _. k

module _ {A : Type 0} where
  abbrev pub pure : A → Action A
  pure a w = (next a, w)

  abbrev pub gets : (Player → A) → Action A
  gets f w = (next (f w.player), w)

-- an assignment to fields of the player
abbrev pub modify : (Player → Player) → Action Done
modify f w = (next tt, record w { player = f w.player })

-- `Begin`, the writes, `End` and `Send`
abbrev pub send : ℕ → List Field → Action Done
send cmd fields w =
    (next tt, record w { sent = record { command = cmd; fields = fields } ∷ w.sent })

-- `SendCommonEditFlagMsgReply`
abbrev pub edit_reply : ℕ → ℕ → ℕ → Action Done
edit_reply cmd pid flag = send cmd (int pid ∷ short flag ∷ [])

-- `SendCommonMechineStatusReply`
abbrev pub status_reply : ℕ → ℕ → ℕ → ℕ → ℕ → Action Done
status_reply cmd pid flag left_time money =
    send cmd (int pid ∷ short flag ∷ int left_time ∷ int money ∷ [])

-- `SendCommonFlagMsgReply`
abbrev pub flag_reply : ℕ → ℕ → Action Done
flag_reply cmd flag = send cmd (int flag ∷ [])

-- a reply, and `return`, if the test holds
abbrev pub refuse_if : Bool → Action Done → Action Done
refuse_if true reply w = (returned, (reply w).1)
refuse_if false reply w = (next tt, w)

-- the reply, and `return`, if nothing was found
abbrev pub found_or : {A : Type 0} → Option A → Action Done → Action A
found_or none reply w = (returned, (reply w).1)
found_or (some a) reply w = (next a, w)

-- an access that is undefined if there is nothing
abbrev pub or_crash : {A : Type 0} → Option A → Action A
or_crash none w = (crashed, w)
or_crash (some a) w = (next a, w)

-- `pHandler->GetUserData()`, with the reply that is sent if it is NULL
abbrev pub user_or : Action Done → Action Done
user_or reply w = refuse_if (not w.logged_in) reply w

-- a call of the database takes the next answer; without one it fails
abbrev pub ask : Call → Action Answer
ask call w = elim w.answers [
  | [] ↦ (next failed, record w { calls = call ∷ w.calls })
  | a ∷ rest ↦ (next a, record w { calls = call ∷ w.calls; answers = rest })
]

abbrev pub succeeded : Answer → Bool
succeeded failed = false
succeeded unchanged = false
succeeded (done values) = true

-- a call of which only the success is looked at
abbrev pub call_ok : Call → Action Bool
call_ok call = do a ← ask call; pure (succeeded a)

-- the numbers that a call hands out, or the reply and `return` if it fails
abbrev pub values_or : Call → Action Done → Action (List ℕ)
values_or call reply = do
  a ← ask call
  refuse_if (not (succeeded a)) reply
  pure (elim a [ failed ↦ [] | unchanged ↦ [] | done values ↦ values ])

abbrev pub balance : Player → ℕ × ℕ
balance p = (p.coin, p.money)

-- `UpdateUserMoney`: its success is a changed row
unfoldable pub set_account : ℕ → ℕ → Action Bool
set_account coin money = do
  p ← gets (λ p. p)
  ok ← call_ok (update_user_money p.mid coin money)
  if ok then (λ w. (next true, record w { account = (coin, money) })) else pure false

-- `UpdateUserMoney`, the reply and `return` if it fails, and the new balance in memory if not
unfoldable pub pay : ℕ → ℕ → Action Done → Action Done
unfolding set_account
pay coin money reply = do
  ok ← set_account coin money
  refuse_if (not ok) reply
  modify (λ p. record p { coin = coin; money = money })

-- `UpdateUserMechineTable`: whether it succeeds, and the mechine, which is no longer dirty once the
-- statement was executed
unfoldable pub store_mechine : Mechine → Action (Bool × Mechine)
store_mechine m = do
  a ← ask (update_user_mechine m)
  pure (
    succeeded a,
    elim a [
      | failed ↦ m
      | unchanged ↦ record m { is_dirty = false }
      | done values ↦ record m { is_dirty = false }
    ],
  )

-- `int`s as signed numbers
abbrev pub is_neg : ℕ → Bool
is_neg a = leb (2 ^ 31) a

abbrev pub int_neg : ℕ → ℕ
int_neg a = (int_mod - a) % int_mod

abbrev pub int_abs : ℕ → ℕ
int_abs a = if is_neg a then int_mod - a else a

-- `a / b` and `a % b` at a divisor that does not trap
unfoldable pub int_div : ℕ → ℕ → ℕ
int_div a b =
    let q = int_abs a / int_abs b in
    if is_neg a then (if is_neg b then q else int_neg q) else (if is_neg b then int_neg q else q)

unfoldable pub int_rem : ℕ → ℕ → ℕ
int_rem a b = let r = int_abs a % int_abs b in if is_neg a then int_neg r else r

-- the division instruction traps at 0, and at the least number by -1
abbrev pub traps : ℕ → ℕ → Bool
traps a b = b == 0 || (a == 2 ^ 31 && b == minus_one)

-- the money for `left_time`, one for each begun `money_time`
unfoldable pub price : ℕ → ℕ → Action ℕ
unfolding int_div int_rem
price left_time money_time w =
    if traps left_time money_time
    then (crashed, w)
    else (let money = int_div left_time money_time in
        (next (if int_rem left_time money_time == 0 then money else int_add money 1), w))
