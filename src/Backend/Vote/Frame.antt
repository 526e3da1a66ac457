-- ===== src/Backend/Vote/Frame.antt =====
-- Which tables the parts of the vote transaction of src/backend/service.ts leave as they were.
use dsh_liangxiang.Prelude.{
  ℕ, ◌*◌, String, ◌≡◌, refl, ◌∙◌, inl, inr, ◌&&◌, some, List, leb, Bool-cases, find, some-eq, subst,
  is_some,
}
use dsh_liangxiang.Backend.Store.{
  CaseRow, IncenseRow, StarterGrantRow, Db, is_daily, affords, is_grant, ensure_incense_row,
  try_insert_starter_grant, add_starter_tokens, spend_incense,
}
use dsh_liangxiang.Backend.Vote.Starter.{try_grant_starter-cases}
use dsh_liangxiang.Backend.Vote.{Config, ensure_row, try_grant_starter}

-- Only the day's rows of incense and the grants may differ.
pub record Funding (db db' : Db) : Type 0 where
  pub cases_kept : db'.cases ≡ db.cases
  pub stats_kept : db'.stats ≡ db.stats
  pub votes_kept : db'.votes ≡ db.votes
  pub requests_kept : db'.requests ≡ db.requests
  pub snapshots_kept : db'.snapshots ≡ db.snapshots
  pub identities_kept : db'.identities ≡ db.identities

abbrev same_rows :
    (db : Db) (rows : List IncenseRow) (given : List StarterGrantRow)
    → Funding db (record db { incense = rows; grants = given })
same_rows db rows given = record {
  cases_kept = refl;
  stats_kept = refl;
  votes_kept = refl;
  requests_kept = refl;
  snapshots_kept = refl;
  identities_kept = refl;
}

pub funding-trans : (a b c : Db) → Funding a b → Funding b c → Funding a c
funding-trans a b c f g = record {
  cases_kept = g.cases_kept ∙ f.cases_kept;
  stats_kept = g.stats_kept ∙ f.stats_kept;
  votes_kept = g.votes_kept ∙ f.votes_kept;
  requests_kept = g.requests_kept ∙ f.requests_kept;
  snapshots_kept = g.snapshots_kept ∙ f.snapshots_kept;
  identities_kept = g.identities_kept ∙ f.identities_kept;
}

ensure_incense_row-Funding :
    (db : Db) (inst date : String) (per now : ℕ)
    → Funding db (ensure_incense_row db inst date per now)
unfolding ensure_incense_row
ensure_incense_row-Funding db inst date per now =
    elim (Bool-cases (is_some (find (is_daily inst date) db.incense))) [
      | inl e ↦ rw (e, ensure_incense_row) (same_rows db _ _)
      | inr e ↦ rw (e, ensure_incense_row) (same_rows db _ _)
    ]

try_insert_starter_grant-Funding :
    (db db' : Db) (fingerprint date inst : String) (tokens : ℕ)
    → try_insert_starter_grant db fingerprint date inst tokens ≡ some db'
    → Funding db db'
unfolding try_insert_starter_grant
try_insert_starter_grant-Funding db db' fingerprint date inst tokens h =
    elim (Bool-cases (is_some (find (is_grant fingerprint date) db.grants))) [
      | inl e ↦ cc (rw (e, try_insert_starter_grant) at h)
      | inr e ↦
          subst (Funding db) (some-eq (rw (e, try_insert_starter_grant) at h)) (same_rows db _ _)
    ]

add_starter_tokens-Funding :
    (db : Db) (inst date : String) (tokens now : ℕ)
    → Funding db (add_starter_tokens db inst date tokens now)
unfolding add_starter_tokens
add_starter_tokens-Funding db inst date tokens now = same_rows db _ _

try_grant_starter-Funding :
    (config : Config) (db : Db) (inst : String) (target : CaseRow) (now : ℕ)
    → Funding db (try_grant_starter config db inst target now)
try_grant_starter-Funding config db inst target now =
    elim (try_grant_starter-cases config db inst target now) [
      | inl same ↦ rw same (same_rows db _ _)
      | inr g ↦
          let date = target.business_date in
          let tokens = config.starter_incense_count * target.token_per_incense in
          rw g.adds (
            funding-trans db g.granted _
              (try_insert_starter_grant-Funding db g.granted g.fingerprint date inst tokens
                g.inserts)
              (add_starter_tokens-Funding g.granted inst date tokens now))
    ]

pub ensure_row-Funding :
    (config : Config) (db : Db) (inst : String) (target : CaseRow) (now : ℕ)
    → Funding db (ensure_row config db inst target now)
unfolding ensure_row
ensure_row-Funding config db inst target now =
    funding-trans db _ _
      (ensure_incense_row-Funding db inst target.business_date target.token_per_incense now)
      (try_grant_starter-Funding config _ inst target now)

pub spend_incense-Funding :
    (db paid : Db) (inst date : String) (count now : ℕ)
    → spend_incense db inst date count now ≡ some paid
    → Funding db paid
unfolding spend_incense
spend_incense-Funding db paid inst date count now h =
    elim (Bool-cases
      (leb 1 count && is_some (find (λ r. is_daily inst date r && affords count r) db.incense))) [
        | inl e ↦ subst (Funding db) (some-eq (rw (e, spend_incense) at h)) (same_rows db _ _)
        | inr e ↦ cc (rw (e, spend_incense) at h)
      ]
