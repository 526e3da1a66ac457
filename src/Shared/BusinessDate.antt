-- ===== src/Shared/BusinessDate.antt =====
-- src/shared/business-date.ts. The provider is the platform's calendar for a time zone: a parameter, the date of
-- an instant in whole milliseconds. The source rounds `now` down to such an instant.
pub mod Ends
mod Examples
use dsh_liangxiang.Prelude.{
  ℕ, zero, suc, ◌+◌, ◌-◌, ◌*◌, ◌/◌, ◌<◌, String, true, false, arith, str_eq,
}
use mathlib.Core.WellFounded.{Acc, WellFounded}
use mathlib.Core.Logic.{dite}
use native.Mathlib.Decide.{dec_lt}

-- The variables of the search, ordered by how far they are apart.
pub record Span : Type 0 where
  pub lo : ℕ
  pub hi : ℕ

abbrev pub width : Span → ℕ
width s = s.hi - s.lo

infix 50 ◌narrower◌
abbrev pub ◌narrower◌ : Span → Span → Type 0
s narrower t = width s < width t

narrow_enough : (k : ℕ) (s : Span) → width s < k → Acc ◌narrower◌ s
narrow_enough zero s h = absurd (omega arith)
narrow_enough (suc k) s h = Acc.intro s (λ t closer. narrow_enough k t (omega arith))

unfoldable pub narrower_wf : WellFounded ◌narrower◌
unfolding narrow_enough
narrower_wf = record { apply = λ s. narrow_enough (suc (width s)) s (omega arith) }

abbrev pub middle : Span → ℕ
middle s = (s.lo + s.hi) / 2

abbrev pub from_middle : Span → Span
from_middle s = record { lo = middle s; hi = s.hi }

abbrev pub to_middle : Span → Span
to_middle s = record { lo = s.lo; hi = middle s }

pub from_middle-narrower : (s : Span) → 1 < width s → from_middle s narrower s
from_middle-narrower s h = omega arith

pub to_middle-narrower : (s : Span) → 1 < width s → to_middle s narrower s
to_middle-narrower s h = omega arith

-- 48 * 60 * 60 * 1000
abbrev pub two_days : ℕ
two_days = 172800000

module _ (business_date_of : ℕ → String) where
  -- The while loop; its value is `hi` at the end.
  unfoldable pub search_end : String → (s : Span) → Acc ◌narrower◌ s → ℕ
  search_end date s (Acc.intro _ inner) =
      dite (dec_lt 1 (width s))
        (λ wide. elim (str_eq (business_date_of (middle s)) date) [
          | true ↦ search_end date (from_middle s) (inner _ (from_middle-narrower s wide))
          | false ↦ search_end date (to_middle s) (inner _ (to_middle-narrower s wide))
        ])
        (λ _. s.hi)

  unfoldable pub business_day_ends_at : ℕ → ℕ
  unfolding search_end narrower_wf dec_lt
  business_day_ends_at now =
      search_end (business_date_of now) (record { lo = now; hi = now + two_days })
        (narrower_wf.apply _)
