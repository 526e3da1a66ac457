-- ===== src/Shared/BusinessDate/Ends.antt =====
-- The search for the end of a business day ends at the first instant of the next date.
use dsh_liangxiang.Prelude.{
  ℕ, ◌+◌, ◌-◌, ◌≤◌, ◌<◌, String, ◌≡◌, refl, sym, ◌≢◌, inl, inr, true, false, arith, str_eq, eq_iff,
  Bool-cases, subst,
}
use mathlib.Core.WellFounded.{Acc}
use mathlib.Core.Logic.{dif_pos, dif_neg}
use native.Mathlib.Decide.{dec_lt}
use native.Mathlib.Bridge.{le_prop}
use dsh_liangxiang.Shared.BusinessDate.{
  Span, width, ◌narrower◌, narrower_wf, middle, from_middle, to_middle, from_middle-narrower,
  to_middle-narrower, two_days, search_end, business_day_ends_at,
}

module _ (business_date_of : ℕ → String) where
  -- The instants of one date stand together.
  abbrev pub IsCalendar : Type 0
  IsCalendar =
      (t u v : ℕ)
      → t ≤ u
      → u ≤ v
      → business_date_of t ≡ business_date_of v
      → business_date_of u ≡ business_date_of t

  -- The invariant of the loop: `lo` is an instant of the date, `hi` is none.
  pub record IsSplit (date : String) (s : Span) : Type 0 where
    pub inside : business_date_of s.lo ≡ date
    pub outside : business_date_of s.hi ≢ date
    pub ordered : s.lo < s.hi

  -- Where the loop ends: the instant is the first after one of the date.
  pub record IsEnd (date : String) (s : Span) (e : ℕ) : Type 0 where
    pub last : business_date_of (e - 1) ≡ date
    pub next : business_date_of e ≢ date
    pub above : s.lo < e
    pub below : e ≤ s.hi

  -- One round: the half that is kept has the invariant, and its end is the end.
  halve :
      (date : String) (s : Span) (later sooner : ℕ)
      → 1 < width s
      → IsSplit date s
      → (IsSplit date (from_middle s) → IsEnd date (from_middle s) later)
      → (IsSplit date (to_middle s) → IsEnd date (to_middle s) sooner)
      → IsEnd date s
          (elim (str_eq (business_date_of (middle s)) date) [ true ↦ later | false ↦ sooner ])
  halve date s later sooner wide split upper lower =
      elim (Bool-cases (str_eq (business_date_of (middle s)) date)) [
        | inl same ↦
            let kept = upper (record {
              inside = (eq_iff (business_date_of (middle s)) date).0 same;
              outside = split.outside;
              ordered = omega arith;
            }) in
            rw same (record {
              last = kept.last;
              next = kept.next;
              above = omega (arith, kept.above);
              below = kept.below;
            })
        | inr other ↦
            let kept = lower (record {
              inside = split.inside;
              outside = λ e. cc ((eq_iff (business_date_of (middle s)) date).1 e, other);
              ordered = omega arith;
            }) in
            rw other (record {
              last = kept.last;
              next = kept.next;
              above = kept.above;
              below = omega (arith, kept.below);
            })
      ]

  search_end-IsEnd :
      (date : String) (s : Span) (w : Acc ◌narrower◌ s)
      → IsSplit date s
      → IsEnd date s (search_end business_date_of date s w)
  unfolding search_end
  search_end-IsEnd date s (Acc.intro _ inner) split = elim (dec_lt 1 (width s)) [
    | no narrow ↦ rw (dif_neg (dec_lt 1 (width s)) narrow) (record {
      last = subst (λ t. business_date_of t ≡ date) (omega (arith, split.ordered)) split.inside;
      next = split.outside;
      above = split.ordered;
      below = omega arith;
    })
    | yes wide ↦ rw (dif_pos (dec_lt 1 (width s)) le_prop wide) (
        halve date s _ _ wide split
          (search_end-IsEnd date (from_middle s) (inner _ (from_middle-narrower s wide)))
          (search_end-IsEnd date (to_middle s) (inner _ (to_middle-narrower s wide))))
  ]

  -- If the dates of the provider come one after the other and a date is over within 48 hours, then
  -- the search ends within them, at the first instant that is not of the date: each instant from now
  -- to there has today's date, and no instant from there on has it.
  pub business_day_ends_at_lem :
      (now : ℕ)
      → IsCalendar
      → business_date_of (now + two_days) ≢ business_date_of now
      → let e = business_day_ends_at business_date_of now in
        (now < e)
        × (e ≤ now + two_days)
        × ((t : ℕ) → now ≤ t → t < e → business_date_of t ≡ business_date_of now)
        × ((t : ℕ) → e ≤ t → business_date_of t ≢ business_date_of now)
  unfolding business_day_ends_at
  business_day_ends_at_lem now calendar over =
      let found =
        search_end-IsEnd (business_date_of now) (record { lo = now; hi = now + two_days })
          (narrower_wf.apply _) (record { inside = refl; outside = over; ordered = omega arith }) in
      (
        found.above,
        found.below,
        λ t from til. calendar now t _ from (omega arith) (sym found.last),
        λ t after same. found.next (calendar now _ t (omega (arith, found.above)) after (sym same)),
      )
