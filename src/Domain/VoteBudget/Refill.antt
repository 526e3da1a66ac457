-- ===== src/Domain/VoteBudget/Refill.antt =====
-- The refilling bucket: bounded by the burst cap, and insensitive to when it is looked at.
use dsh_liangxiang.Prelude.{
  ℕ, ◌+◌, ◌-◌, ◌*◌, ◌≤◌, ◌<◌, min, ◌≡◌, refl, sym, ap, ◌∙◌, arith, ne_test,
}
use dsh_liangxiang.Domain.VoteBudget.{
  parts, vote_budget_available, vote_budget_window_ms, vote_burst_minutes,
}

abbrev pub cap_parts : ℕ → ℕ
cap_parts refill = refill * vote_burst_minutes * vote_budget_window_ms

refilled :
    (tokens updated now refill : ℕ)
    → 0 < refill
    → vote_budget_available tokens updated now refill
      ≡ parts (min (cap_parts refill) (tokens + (now - updated) * refill))
unfolding vote_budget_available
refilled tokens updated now refill h = rw (ne_test refill 0 (omega arith)) refl

-- Looking at a bucket at `mid` and writing back what is there changes nothing at a later time, and
-- no bucket ever holds more than ten minutes of refill.
pub available_via :
    (tokens updated mid now refill : ℕ)
    → 0 < refill
    → updated ≤ mid
    → mid ≤ now
    → (held : ℕ) × (vote_budget_available tokens updated mid refill ≡ parts held)
      × (held ≤ cap_parts refill)
      × (vote_budget_available held mid now refill
          ≡ vote_budget_available tokens updated now refill)
available_via tokens updated mid now refill h a b = (
  min (cap_parts refill) (tokens + (mid - updated) * refill),
  refilled tokens updated mid refill h,
  omega arith,
  refilled _ mid now refill h
      ∙ ap parts (step (cap_parts refill))
      ∙ sym (refilled tokens updated now refill h),
)
  where
    split : (now - updated) * refill ≡ (mid - updated) * refill + (now - mid) * refill
    split =
        let e : now - updated ≡ (mid - updated) + (now - mid) = omega arith in
        omega (arith, ap (λ (t : ℕ). t * refill) e)

    step :
        (most : ℕ)
        → min most (min most (tokens + (mid - updated) * refill) + (now - mid) * refill)
          ≡ min most (tokens + (now - updated) * refill)
    step most = omega (arith, split)
