-- ===== src/Backend/Store.antt =====
-- src/backend/store.ts: one function for each prepared statement that the vote transaction runs. A transaction
-- is a function on the database: when it fails, its result holds no database, which is the rollback.
use dsh_liangxiang.Prelude.{
  ℕ, ◌+◌, ◌*◌, String, Bool, not, ◌&&◌, Option, none, some, List, [], ◌∷◌, ◌++◌, str_eq, Result, ok,
  err, ltb, leb, if◌then◌else◌, find, update_where, keep_where, is_some,
}
use dsh_liangxiang.Domain.Vote.{VoteType, up, down}
pub use dsh_liangxiang.Backend.Rows.{
  CaseStatus, open_case, closed_case, is_active, CaseRow, StatsRow, IncenseRow, VoteRow,
  RejectionReason, insufficient_incense, case_not_active, stale_case, idempotency_conflict,
  invalid_intent, VoteRequestRow, SnapshotRow, IdentityRow, StarterGrantRow, Db, StoreError,
  duplicate_request, row_vanished, domain,
}

-- The tests of the WHERE clauses.
abbrev pub has_case_id : String → CaseRow → Bool
has_case_id id r = str_eq r.id id

abbrev pub has_stats_id : String → StatsRow → Bool
has_stats_id id r = str_eq r.case_id id

abbrev pub is_daily : String → String → IncenseRow → Bool
is_daily installation_id business_date r =
    str_eq r.installation_id installation_id && str_eq r.business_date business_date

abbrev pub is_vote : String → String → VoteRow → Bool
is_vote installation_id request_id r =
    str_eq r.installation_id installation_id && str_eq r.request_id request_id

abbrev pub is_request : String → String → VoteRequestRow → Bool
is_request installation_id request_id r =
    str_eq r.installation_id installation_id && str_eq r.request_id request_id

abbrev pub is_grant : String → String → StarterGrantRow → Bool
is_grant fingerprint business_date r =
    str_eq r.device_fingerprint fingerprint && str_eq r.business_date business_date

unfoldable pub case_by_id : Db → String → Option CaseRow
case_by_id db id = find (has_case_id id) db.cases

unfoldable pub stats_for : Db → String → Option StatsRow
stats_for db id = find (has_stats_id id) db.stats

unfoldable pub incense_for : Db → String → String → Option IncenseRow
incense_for db installation_id business_date =
    find (is_daily installation_id business_date) db.incense

unfoldable pub vote_by_request_id : Db → String → String → Option VoteRow
vote_by_request_id db installation_id request_id =
    find (is_vote installation_id request_id) db.votes

unfoldable pub vote_request_by_request_id : Db → String → String → Option VoteRequestRow
vote_request_by_request_id db installation_id request_id =
    find (is_request installation_id request_id) db.requests

unfoldable pub identity_by_installation : Db → String → Option IdentityRow
identity_by_installation db installation_id =
    find (λ r. str_eq r.installation_id installation_id) db.identities

unfoldable pub has_voted_for_case : Db → String → String → Bool
has_voted_for_case db installation_id case_id =
    is_some
      (find (λ v. str_eq v.case_id case_id && str_eq v.installation_id installation_id) db.votes)

-- ON CONFLICT DO NOTHING
unfoldable pub ensure_incense_row : Db → String → String → ℕ → ℕ → Db
ensure_incense_row db installation_id business_date token_per_incense now =
    if is_some (find (is_daily installation_id business_date) db.incense) then db else record db {
      incense =
          db.incense
          ++ record {
            installation_id = installation_id;
            business_date = business_date;
            claimed_effective_tokens = 0;
            starter_tokens = 0;
            used_incense = 0;
            token_per_incense = token_per_incense;
            version = 0;
            updated_at = now;
          }
            ∷ [];
    }

-- INSERT OR IGNORE; none when a grant was there
unfoldable pub try_insert_starter_grant : Db → String → String → String → ℕ → Option Db
try_insert_starter_grant db fingerprint business_date installation_id tokens =
    if is_some (find (is_grant fingerprint business_date) db.grants)
    then none
    else some (record db {
      grants =
          db.grants
          ++ record {
            device_fingerprint = fingerprint;
            business_date = business_date;
            installation_id = installation_id;
            granted_tokens = tokens;
          }
            ∷ [];
    })

abbrev pub add_tokens : ℕ → ℕ → IncenseRow → IncenseRow
add_tokens tokens now r = record r {
  claimed_effective_tokens = r.claimed_effective_tokens + tokens;
  starter_tokens = r.starter_tokens + tokens;
  version = r.version + 1;
  updated_at = now;
}

unfoldable pub add_starter_tokens : Db → String → String → ℕ → ℕ → Db
add_starter_tokens db installation_id business_date tokens now = record db {
  incense =
      update_where (is_daily installation_id business_date) (add_tokens tokens now) db.incense;
}

-- The guard of the UPDATE: `(used_incense + ?) * token_per_incense <= claimed_effective_tokens`.
abbrev pub affords : ℕ → IncenseRow → Bool
affords count r = leb ((r.used_incense + count) * r.token_per_incense) r.claimed_effective_tokens

abbrev pub use_incense : ℕ → ℕ → IncenseRow → IncenseRow
use_incense count now r = record r {
  used_incense = r.used_incense + count;
  version = r.version + 1;
  updated_at = now;
}

-- none when no row was changed
unfoldable pub spend_incense : Db → String → String → ℕ → ℕ → Option Db
spend_incense db installation_id business_date count now =
    let hit = λ (r : IncenseRow). is_daily installation_id business_date r && affords count r in
    if leb 1 count && is_some (find hit db.incense)
    then some (record db { incense = update_where hit (use_incense count now) db.incense })
    else none

-- UNIQUE (installation_id, request_id)
unfoldable pub insert_vote : Db → VoteRow → Result StoreError Db
insert_vote db row =
    if is_some (find (is_vote row.installation_id row.request_id) db.votes)
    then err duplicate_request
    else ok (record db { votes = db.votes ++ row ∷ [] })

unfoldable pub insert_vote_request : Db → VoteRequestRow → Result StoreError Db
insert_vote_request db row =
    if is_some (find (is_request row.installation_id row.request_id) db.requests)
    then err duplicate_request
    else ok (record db { requests = db.requests ++ row ∷ [] })

abbrev pub bump : VoteType → ℕ → Bool → ℕ → StatsRow → StatsRow
bump vote_type count first now r = record r {
  up_votes = r.up_votes + elim vote_type [ up ↦ count | down ↦ 0 ];
  down_votes = r.down_votes + elim vote_type [ up ↦ 0 | down ↦ count ];
  unique_voters = r.unique_voters + (if first then 1 else 0);
  version = r.version + 1;
  updated_at = now;
}

unfoldable pub apply_accepted_vote_to_stats : Db → String → VoteType → ℕ → Bool → ℕ → Db
apply_accepted_vote_to_stats db case_id vote_type count first now = record db {
  stats = update_where (has_stats_id case_id) (bump vote_type count first now) db.stats;
}

-- ORDER BY sequence DESC LIMIT 1
abbrev pub later_of : SnapshotRow → Option SnapshotRow → SnapshotRow
later_of s none = s
later_of s (some t) = if ltb s.sequence t.sequence then t else s

unfoldable pub latest_in : String → List SnapshotRow → Option SnapshotRow
latest_in case_id [] = none
latest_in case_id (s ∷ ss) =
    let rest = latest_in case_id ss in
    if str_eq s.case_id case_id then some (later_of s rest) else rest

unfoldable pub latest_snapshot : Db → String → Option SnapshotRow
unfolding latest_in
latest_snapshot db case_id = latest_in case_id db.snapshots

unfoldable pub insert_snapshot : Db → SnapshotRow → Db
insert_snapshot db row = record db { snapshots = db.snapshots ++ row ∷ [] }

-- The rows of the case whose sequence is at most MAX(sequence) - keep go.
unfoldable pub prune_snapshots : Db → String → ℕ → Db
unfolding latest_in
prune_snapshots db case_id keep = elim (latest_in case_id db.snapshots) [
  | none ↦ db
  | some newest ↦ record db {
    snapshots =
        keep_where (λ s. not (str_eq s.case_id case_id && leb (s.sequence + keep) newest.sequence))
          db.snapshots;
  }
]
