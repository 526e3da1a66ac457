-- ===== src/Backend/Vote/Spend.antt =====
-- What an accepted vote of src/backend/service.ts charges: the clamp is what the day's row can pay, so
-- the guarded UPDATE behind it always changes that row.
use dsh_liangxiang.Prelude.{
  Option, ℕ, ◌+◌, ◌-◌, ◌*◌, ◌/◌, ◌≤◌, String, ◌≡◌, refl, sym, ap, ◌∙◌, inl, inr, Bool, true, false,
  ◌&&◌, some, arith, Number, nat, negative, is_finite, floor_or_zero, nat-eq, ok, leb,
  if◌then◌else◌, leb→le, le→leb, Bool-cases, Option-cases, ok-injective, find, some-eq, subst,
  map_option, is_some, find-update_where, find-passes, All-find,
}
use dsh_liangxiang.Prelude.Division.{mul-le_of_le_div}
use dsh_liangxiang.Domain.Vote.{VoteType, vote_count_max}
use dsh_liangxiang.Domain.VoteBudget.Clamp.{clamp-eq-ok}
use dsh_liangxiang.Backend.Store.{
  CaseRow, IncenseRow, Db, is_active, is_daily, affords, use_incense, has_case_id, case_by_id,
  incense_for, spend_incense, apply_accepted_vote_to_stats,
}
use dsh_liangxiang.Backend.Vote.{
  V1VoteRequest, accepted, Config, requested_of, remaining_of, remaining_for, ensure_row, vote,
}
use dsh_liangxiang.Backend.Vote.Outcomes.{Acceptance}
use dsh_liangxiang.Backend.Vote.Commits.{is_fresh}
use dsh_liangxiang.Backend.Vote.Solvency.{IsPaid, IsSolvent, IsPriced, ensure_row-IsSolvent}
use dsh_liangxiang.Backend.Vote.Fresh.{vote-FreshEnd}

-- The sticks that are left are the earned ones without the used ones.
remaining_of-nat :
    (r : IncenseRow) (left : ℕ)
    → remaining_of r ≡ nat left
    → r.used_incense + left ≡ r.claimed_effective_tokens / r.token_per_incense
remaining_of-nat r left e =
    left_of r.used_incense (r.claimed_effective_tokens / r.token_per_incense) left e
  where
    left_of :
        (used earned left : ℕ)
        → (if leb used earned then nat (earned - used) else negative) ≡ nat left
        → used + left ≡ earned
    left_of used earned left e = ground arith

-- Within the sticks that are left, a spend is affordable.
left-affords :
    (r : IncenseRow) (left spent : ℕ)
    → IsPaid r
    → remaining_of r ≡ nat left
    → spent ≤ left
    → affords spent r ≡ true
left-affords r left spent p e within = le→leb _ _ (
    mul-le_of_le_div (r.used_incense + spent) r.claimed_effective_tokens r.token_per_incense p.0
      (omega (arith, remaining_of-nat r left e)))

-- The day's row pays, where the clamp has looked at it.
spend_incense-row :
    (base paid : Db) (inst date : String) (left spent now : ℕ) (before : IncenseRow)
    → IsPaid before
    → incense_for base inst date ≡ some before
    → remaining_of before ≡ nat left
    → spent ≤ left
    → spend_incense base inst date spent now ≡ some paid
    → incense_for paid inst date ≡ some (use_incense spent now before)
unfolding spend_incense incense_for
spend_incense-row base paid inst date left spent now before p found e within s =
    let hit = λ (r : IncenseRow). is_daily inst date r && affords spent r in
    let hit_before : hit before ≡ true =
      rw
        (
          find-passes (is_daily inst date) base.incense found,
          left-affords before left spent p e within,
        )
        refl in
    elim (Bool-cases (leb 1 spent && is_some (find hit base.incense))) [
      | inr missed ↦ cc (rw (missed, spend_incense) at s)
      | inl hits ↦
          subst (λ d. find (is_daily inst date) d.incense ≡ some (use_incense spent now before))
            (some-eq (rw (hits, spend_incense) at s))
            (find-update_where hit (is_daily inst date) (use_incense spent now) base.incense
                (λ r. refl)
              ∙ ap (map_option (λ r. if hit r then use_incense spent now r else r)) found
              ∙ ap (λ b. some (if b then use_incense spent now before else before)) hit_before)
    ]

-- The day's row before an acceptance and after it.
pub record Charged (base db' : Db) (inst : String) (intent : V1VoteRequest) (target : CaseRow)
    (now : ℕ) (max_spend : Number) (used spent : ℕ) (remaining : Number) : Type 0 where
  pub before : IncenseRow
  pub was : incense_for base inst target.business_date ≡ some before
  pub is_now : incense_for db' inst target.business_date ≡ some (use_incense spent now before)
  pub positive : 1 ≤ spent
  pub within_request : spent ≤ requested_of intent
  pub within_vote : spent ≤ vote_count_max
  pub within_budget : is_finite max_spend ≡ true → spent ≤ floor_or_zero max_spend
  pub covered :
      (before.used_incense + spent) * before.token_per_incense ≤ before.claimed_effective_tokens
  pub used_is : used ≡ before.used_incense + spent
  pub remaining_is :
      remaining ≡ nat (before.claimed_effective_tokens / before.token_per_incense - used)

Acceptance-Charged :
    (base paid : Db) (inst : String) (intent : V1VoteRequest) (active target : CaseRow) (now : ℕ)
    (max_spend : Number) (spent : ℕ) (row : IncenseRow)
    → IsSolvent base
    → Acceptance base inst intent active target now max_spend spent paid row
    → Charged base paid inst intent target now max_spend row.used_incense spent (remaining_of row)
unfolding remaining_for incense_for
Acceptance-Charged base paid inst intent active target now max_spend spent row h done =
    let (left, remaining, asked, within, few, budget) =
      clamp-eq-ok (requested_of intent) (remaining_for base inst target) max_spend spent
        done.clamped in
    elim (Option-cases (incense_for base inst target.business_date)) [
      | inl e ↦
          absurd (omega (arith, done.positive, within, nat-eq (rw (e, remaining_for) at remaining)))
      | inr (before, e) ↦
          let p = All-find IsPaid (is_daily inst target.business_date) base.incense h.0 e in
          let left_is = rw (e, remaining_for) at remaining in
          let after =
            spend_incense-row base paid inst target.business_date left spent now before p e left_is
              within done.paid_for in
          let row_is : row ≡ use_incense spent now before = some-eq (sym done.charged ∙ after) in
          record {
            before = before;
            was = e;
            is_now = after;
            positive = done.positive;
            within_request = asked;
            within_vote = few;
            within_budget = budget;
            covered = leb→le _ _ (left-affords before left spent p left_is within);
            used_is = ap (λ r. r.used_incense) row_is;
            remaining_is = rw row_is (
                rw
                  (le→leb (before.used_incense + spent)
                    (before.claimed_effective_tokens / before.token_per_incense)
                    (omega (arith, within, remaining_of-nat before left left_is)))
                  refl);
          }
    ]

Charged-in :
    (base paid db' : Db) (inst : String) (intent : V1VoteRequest) (target : CaseRow) (now : ℕ)
    (max_spend : Number) (used spent : ℕ) (remaining : Number)
    → db'.incense ≡ paid.incense
    → Charged base paid inst intent target now max_spend used spent remaining
    → Charged base db' inst intent target now max_spend used spent remaining
unfolding incense_for
Charged-in base paid db' inst intent target now max_spend used spent remaining same c = record {
  before = c.before;
  was = c.was;
  is_now = ap (λ rows. find (is_daily inst target.business_date) rows) same ∙ c.is_now;
  positive = c.positive;
  within_request = c.within_request;
  within_vote = c.within_vote;
  within_budget = c.within_budget;
  covered = c.covered;
  used_is = c.used_is;
  remaining_is = c.remaining_is;
}

accepted-eq :
    {v v' : VoteType} {used used' : ℕ} {left left' : Number} {spent spent' : ℕ}
    {original original' : Option ℕ} {replayed replayed' : Bool}
    → accepted v used left spent original replayed
      ≡ accepted v' used' left' spent' original' replayed'
    → (used' ≡ used) × (left' ≡ left) × (spent' ≡ spent)
accepted-eq h = (cc, cc, cc)

-- Where the database is solvent, an accepted vote that is no replay is for an active case, spends at
-- least one stick, no more than was asked, than one vote may and than a finite budget allows. The day's
-- row, with a starter grant that is due in it, has claimed enough tokens for all it has used then; it is
-- raised by exactly the sticks spent, and the result shows its use and the whole sticks that are left.
pub accepted-Charged :
    (config : Config) (db : Db) (inst : String) (intent : V1VoteRequest) (active : CaseRow)
    (now : ℕ) (max_spend : Number) (v : VoteType) (used : ℕ) (remaining : Number) (spent : ℕ)
    (original : Option ℕ)
    → IsSolvent db
    → (vote config db inst intent active now max_spend).0
      ≡ ok (accepted v used remaining spent original false)
    → (v ≡ intent.vote_type)
      × (original ≡ some spent)
      × (target : CaseRow) × (case_by_id db intent.case_id ≡ some target)
      × (is_active target.status ≡ true)
      × Charged
          (ensure_row config db inst target now)
          (vote config db inst intent active now max_spend).1
          inst
          intent
          target
          now
          max_spend
          used
          spent
          remaining
unfolding case_by_id apply_accepted_vote_to_stats incense_for
accepted-Charged config db inst intent active now max_spend v used remaining spent original h
      result =
    let (out, end, outcome, kept, rows) =
      vote-FreshEnd config db inst intent active now max_spend (ap is_fresh result) in
    let same : accepted intent.vote_type end.row.used_incense (remaining_of end.row) end.spent
          (some end.spent) false
        ≡ accepted v used remaining spent original false =
      sym (ap (λ o. o.0) end.out_is) ∙ ok-injective (sym outcome ∙ result) in
    let base = ensure_row config db inst end.target now in
    let solvent : IsSolvent base =
      ensure_row-IsSolvent config db inst end.target now
        (All-find IsPriced (has_case_id intent.case_id) db.cases h.1 end.case_is) h in
    let rows_kept : (vote config db inst intent active now max_spend).1.incense ≡ end.paid.incense =
      ap (λ d. d.incense) rows ∙ ap (λ o. o.1.incense) end.out_is in
    let charged =
      Charged-in base end.paid (vote config db inst intent active now max_spend).1 inst intent
        end.target now max_spend end.row.used_incense end.spent (remaining_of end.row) rows_kept
        (Acceptance-Charged base end.paid inst intent active end.target now max_spend end.spent
          end.row solvent end.done) in
    let (e_used, e_left, e_spent) = accepted-eq same in
    (cc, cc, end.target, end.case_is, end.active_is, rw (e_used, e_left, e_spent) charged)
