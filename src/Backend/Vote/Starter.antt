-- ===== src/Backend/Vote/Starter.antt =====
-- The outcomes of the welcome gift of src/backend/service.ts, and the row that `ensureRow` makes sure of.
use dsh_liangxiang.Prelude.{
  ℕ, ◌*◌, String, ◌≡◌, refl, ◌∙◌, ◌⊎◌, inl, inr, false, Option, none, some, arith, str_eq, eq_iff,
  ◌==◌, Bool-cases, Option-cases, find, find-append, find-update_where, find-passes,
}
use dsh_liangxiang.Backend.Store.{
  CaseRow, IncenseRow, Db, IdentityRow, is_daily, identity_by_installation,
  try_insert_starter_grant, add_starter_tokens, add_tokens, ensure_incense_row, incense_for,
}
use dsh_liangxiang.Backend.Vote.{Config, try_grant_starter, ensure_row}

-- The gift is made: the grant is inserted, and its tokens are added.
pub record IsGranted (config : Config) (db : Db) (inst : String) (target : CaseRow) (now : ℕ)
    (out : Db) : Type 0 where
  pub fingerprint : String
  pub granted : Db
  pub inserts :
      try_insert_starter_grant db fingerprint target.business_date inst
        (config.starter_incense_count * target.token_per_incense)
      ≡ some granted
  pub adds :
      out
      ≡ add_starter_tokens granted inst target.business_date
          (config.starter_incense_count * target.token_per_incense)
          now

pub try_grant_starter-cases :
    (config : Config) (db : Db) (inst : String) (target : CaseRow) (now : ℕ)
    → let out = try_grant_starter config db inst target now in
      (out ≡ db) ⊎ IsGranted config db inst target now out
unfolding try_grant_starter
try_grant_starter-cases config db inst target now =
    elim (Bool-cases (config.starter_incense_count == 0)) [
      | inl off ↦ inl (rw (off, try_grant_starter) refl)
      | inr on ↦ elim (Option-cases (identity_by_installation db inst)) [
        | inl i ↦ inl (rw (on, i, try_grant_starter) refl)
        | inr (identity, i) ↦ at_device identity on i identity.device_fingerprint refl
      ]
    ]
  where
    out : Db
    out = try_grant_starter config db inst target now

    at_device :
        (identity : IdentityRow)
        → (config.starter_incense_count == 0) ≡ false
        → identity_by_installation db inst ≡ some identity
        → (o : Option String) → identity.device_fingerprint ≡ o
        → (out ≡ db) ⊎ IsGranted config db inst target now out
    at_device identity on i none d = inl (rw (on, i, d, try_grant_starter) refl)
    at_device identity on i (some fingerprint) d = elim (Bool-cases (str_eq fingerprint "")) [
      | inl e ↦ inl (rw (on, i, d, e, try_grant_starter) refl)
      | inr e ↦
          let tokens = config.starter_incense_count * target.token_per_incense in
          elim (Option-cases
            (try_insert_starter_grant db fingerprint target.business_date inst tokens)) [
              | inl g ↦ inl (rw (on, i, d, e, g, try_grant_starter) refl)
              | inr (granted, g) ↦ inr (record {
                fingerprint = fingerprint;
                granted = granted;
                inserts = g;
                adds = rw (on, i, d, e, g, try_grant_starter) refl;
              })
            ]
    ]

pub try_insert_starter_grant-incense :
    (db db' : Db) (fingerprint date inst : String) (tokens : ℕ)
    → try_insert_starter_grant db fingerprint date inst tokens ≡ some db'
    → (db'.incense ≡ db.incense) × (db'.cases ≡ db.cases)
unfolding try_insert_starter_grant
try_insert_starter_grant-incense db db' fingerprint date inst tokens h = ground arith

abbrev HasRow : String → String → Db → Type 0
HasRow inst date db = (r : IncenseRow) × (find (is_daily inst date) db.incense ≡ some r)

ensure_incense_row-HasRow :
    (db : Db) (inst date : String) (per now : ℕ)
    → HasRow inst date (ensure_incense_row db inst date per now)
unfolding ensure_incense_row
ensure_incense_row-HasRow db inst date per now =
    elim (Option-cases (find (is_daily inst date) db.incense)) [
      | inr (r, e) ↦ rw (e, ensure_incense_row) (r, e)
      | inl e ↦
          rw (e, ensure_incense_row)
            (
              record {
                installation_id = inst;
                business_date = date;
                claimed_effective_tokens = 0;
                starter_tokens = 0;
                used_incense = 0;
                token_per_incense = per;
                version = 0;
                updated_at = now;
              },
              find-append (is_daily inst date) db.incense _
                  ∙ rw (e, (eq_iff inst inst).1 refl, (eq_iff date date).1 refl) refl,
            )
    ]

-- After `ensureRow` the installation has a row of the case's day.
pub ensure_row-incense_for :
    (config : Config) (db : Db) (inst : String) (target : CaseRow) (now : ℕ)
    → (r : IncenseRow) × (incense_for
          (ensure_row config db inst target now)
          inst
          target.business_date
        ≡ some r)
unfolding ensure_row incense_for
ensure_row-incense_for config db inst target now =
    let base = ensure_incense_row db inst target.business_date target.token_per_incense now in
    let date = target.business_date in
    let (r, e) = ensure_incense_row-HasRow db inst date target.token_per_incense now in
    elim (try_grant_starter-cases config base inst target now) [
      | inl same ↦ rw same (r, e)
      | inr g ↦
          let tokens = config.starter_incense_count * target.token_per_incense in
          let kept =
            try_insert_starter_grant-incense base g.granted g.fingerprint date inst tokens
              g.inserts in
          rw g.adds (add_tokens tokens now r, given g.granted tokens r (rw kept.0 e))
    ]
  where
    given :
        (granted : Db) (tokens : ℕ) (r : IncenseRow)
        → find (is_daily inst target.business_date) granted.incense ≡ some r
        → find
            (is_daily inst target.business_date)
            (add_starter_tokens granted inst target.business_date tokens now).incense
          ≡ some (add_tokens tokens now r)
    given granted tokens r held =
        unfold add_starter_tokens in
        (find-update_where (is_daily inst target.business_date) (is_daily inst target.business_date)
            (add_tokens tokens now) granted.incense (λ x. refl)
          ∙ rw held
              (rw (find-passes (is_daily inst target.business_date) granted.incense held) refl))
