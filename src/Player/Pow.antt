-- ===== src/Player/Pow.antt =====
-- Server/Player.cpp, `CPlayer::SetPow` and `CPlayer::GetPow`: the five resources of a player.
-- An `int` and the `uint32` that it is converted to are the same bit pattern.
pub mod Writes
mod Tests
use thero_logic_server.Base.{ℕ, ◌==◌, if◌then◌else◌}

pub record Pow : Type 0 where
  pub pow_a : ℕ
  pub pow_b : ℕ
  pub pow_c : ℕ
  pub pow_d : ℕ
  pub pow_e : ℕ

-- `SetPow`
unfoldable pub set_pow : ℕ → ℕ → Pow → Pow
set_pow ptype pvalue p =
    if ptype == 1
    then record p { pow_a = pvalue }
    else if ptype == 2
    then record p { pow_b = pvalue }
    else if ptype == 3
    then record p { pow_c = pvalue }
    else if ptype == 4
    then record p { pow_d = pvalue }
    else if ptype == 5
    then record p { pow_e = pvalue }
    else p

-- `GetPow`
unfoldable pub get_pow : Pow → ℕ → ℕ
get_pow p ptype =
    if ptype == 1
    then p.pow_a
    else if ptype == 2
    then p.pow_b
    else if ptype == 3
    then p.pow_c
    else if ptype == 4
    then p.pow_d
    else if ptype == 5
    then p.pow_e
    else 0
