-- ===== src/Domain/LocalIncense.antt =====
-- src/domain/local-incense.ts: the sticks of this installation, today and ever.
pub mod Ledger
mod Examples
use dsh_liangxiang.Prelude.{
  ℕ, ◌+◌, ◌-◌, ◌/◌, max, ◌&&◌, Number, nat, floor_or_zero, Result, ok, ◌>>=◌, ◌>>◌, ◌==◌,
  if◌then◌else◌,
}
use dsh_liangxiang.Domain.Errors.{DomainErrorCode}
use dsh_liangxiang.Domain.Vote.{VoteType, up, down}
use dsh_liangxiang.Domain.Presentation.{RatioPercentPair, format_ratio_percents}

pub record LocalIncenseLedger : Type 0 where
  pub lifetime_up : ℕ
  pub lifetime_down : ℕ
  pub today_up : ℕ
  pub today_down : ℕ

abbrev pub empty_local_incense : LocalIncenseLedger
empty_local_incense = record { lifetime_up = 0; lifetime_down = 0; today_up = 0; today_down = 0 }

pub record LocalIncenseSide : Type 0 where
  pub up : ℕ
  pub down : ℕ
  pub total : ℕ
  pub up_share : RatioPercentPair

-- The stored counts are integers that are at least 0, on which Math.max and Math.floor do nothing.
pub side_of : ℕ → ℕ → Result DomainErrorCode LocalIncenseSide
side_of ups downs = do
  shares ← format_ratio_percents (nat ups) (nat downs) (nat 0)
  ok (record { up = ups; down = downs; total = ups + downs; up_share = shares })

pub record LocalIncenseStats : Type 0 where
  pub today : LocalIncenseSide
  pub lifetime : LocalIncenseSide

pub derive_local_incense_stats : LocalIncenseLedger → Result DomainErrorCode LocalIncenseStats
unfolding side_of
derive_local_incense_stats ledger = do
  today ← side_of ledger.today_up ledger.today_down
  lifetime ← side_of ledger.lifetime_up ledger.lifetime_down
  ok (record { today = today; lifetime = lifetime })

add_sticks : LocalIncenseLedger → VoteType → ℕ → LocalIncenseLedger
add_sticks ledger up n = record ledger {
  lifetime_up = ledger.lifetime_up + n;
  today_up = ledger.today_up + n;
}
add_sticks ledger down n = record ledger {
  lifetime_down = ledger.lifetime_down + n;
  today_down = ledger.today_down + n;
}

pub record_local_incense_vote : LocalIncenseLedger → VoteType → Number → LocalIncenseLedger
unfolding add_sticks
record_local_incense_vote ledger vote_type spent =
    if floor_or_zero spent == 0 then ledger else add_sticks ledger vote_type (floor_or_zero spent)

pub roll_local_incense_day : LocalIncenseLedger → LocalIncenseLedger
roll_local_incense_day ledger =
    if ledger.today_up == 0 && ledger.today_down == 0
    then ledger
    else record ledger { today_up = 0; today_down = 0 }
