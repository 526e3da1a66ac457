-- ===== src/Backend/Vote/Publishing.antt =====
-- The snapshot that src/backend/service.ts publishes with an accepted vote.
use dsh_liangxiang.Prelude.{
  ℕ, ◌+◌, ◌≤◌, ◌<◌, String, ◌≡◌, refl, sym, ◌∙◌, inl, inr, Bool, true, false, not, ◌&&◌, Option,
  none, some, List, [], ◌∷◌, ◌++◌, arith, str_eq, ltb, leb, ltb→lt, lt→ltb, lt→leb_false,
  ltb_false→le, Bool-cases, Option-cases, keep_where, All, subst, All-keep_where,
}
use text.Mathlib.TextEquality.{eq_iff as text_eq_iff}
use dsh_liangxiang.Backend.Store.{
  CaseRow, StatsRow, stats_for, SnapshotRow, Db, latest_in, later_of, latest_snapshot,
  insert_snapshot, prune_snapshots,
}
use dsh_liangxiang.Backend.Vote.{
  sequence_of, snapshot_row, snapshot_history_limit, stats_of, publish_in_transaction,
}

-- A snapshot of the case lies before `n`.
abbrev IsBelow : String → ℕ → SnapshotRow → Type 0
IsBelow id n s = str_eq s.case_id id ≡ true → s.sequence < n

IsBelow-le :
    (id : String) (m n : ℕ) (ss : List SnapshotRow)
    → m ≤ n
    → All (IsBelow id m) ss
    → All (IsBelow id n) ss
IsBelow-le id m n [] le h = tt
IsBelow-le id m n (s ∷ ss) le h = (λ e. omega (arith, le, h.0 e), IsBelow-le id m n ss le h.1)

latest_in-IsBelow :
    (id : String) (ss : List SnapshotRow) → All (IsBelow id (sequence_of (latest_in id ss) + 1)) ss
unfolding latest_in
latest_in-IsBelow id [] = tt
latest_in-IsBelow id (s ∷ ss) = elim (Bool-cases (str_eq s.case_id id)) [
  | inr other ↦
      let latest : latest_in id (s ∷ ss) ≡ latest_in id ss = rw other refl in
      subst (λ o. All (IsBelow id (sequence_of o + 1)) (s ∷ ss)) (sym latest)
        ((λ e. cc (sym other ∙ e)), latest_in-IsBelow id ss)
  | inl same ↦
      let latest : latest_in id (s ∷ ss) ≡ some (later_of s (latest_in id ss)) = rw same refl in
      let (own, rest) = later_of-ge s (latest_in id ss) in
      subst (λ o. All (IsBelow id (sequence_of o + 1)) (s ∷ ss)) (sym latest)
        (
          (λ e. omega (arith, own)),
          IsBelow-le id (sequence_of (latest_in id ss) + 1)
              ((later_of s (latest_in id ss)).sequence + 1) ss (omega (arith, rest))
              (latest_in-IsBelow id ss),
        )
]
  where
    later_of-ge :
        (s : SnapshotRow) (o : Option SnapshotRow)
        → (s.sequence ≤ (later_of s o).sequence) × (sequence_of o ≤ (later_of s o).sequence)
    later_of-ge s none = (omega arith, omega arith)
    later_of-ge s (some t) = elim (Bool-cases (ltb s.sequence t.sequence)) [
      | inl e ↦ rw e (omega (arith, ltb→lt s.sequence t.sequence e), omega arith)
      | inr e ↦ rw e (omega arith, omega (arith, ltb_false→le s.sequence t.sequence e))
    ]

-- A snapshot behind all others of its case is the latest.
latest_in-last :
    (row : SnapshotRow) (ss : List SnapshotRow)
    → All (IsBelow row.case_id row.sequence) ss
    → latest_in row.case_id (ss ++ row ∷ []) ≡ some row
unfolding latest_in
latest_in-last row [] h = rw ((text_eq_iff row.case_id row.case_id).1 refl) refl
latest_in-last row (s ∷ ss) h = elim (Bool-cases (str_eq s.case_id row.case_id)) [
  | inr other ↦ rw other (latest_in-last row ss h.1)
  | inl same ↦
      rw (same, latest_in-last row ss h.1) (rw (lt→ltb s.sequence row.sequence (h.0 same)) refl)
]

keep_where-last :
    (q : SnapshotRow → Bool) (ss : List SnapshotRow) (row : SnapshotRow)
    → q row ≡ true
    → keep_where q (ss ++ row ∷ []) ≡ keep_where q ss ++ row ∷ []
keep_where-last q [] row h = rw h refl
keep_where-last q (s ∷ ss) row h = elim (Bool-cases (q s)) [
  | inl e ↦ rw (e, keep_where-last q ss row h) refl
  | inr e ↦ rw (e, keep_where-last q ss row h) refl
]

publish-row :
    (db : Db) (target : CaseRow) (now : ℕ)
    → latest_snapshot (publish_in_transaction db target now) target.id
      ≡ some (snapshot_row target (stats_of db target) (latest_snapshot db target.id) now)
unfolding publish_in_transaction latest_snapshot insert_snapshot prune_snapshots
publish-row db target now =
    let row = snapshot_row target (stats_of db target) (latest_snapshot db target.id) now in
    let below : All (IsBelow target.id row.sequence) db.snapshots =
      latest_in-IsBelow target.id db.snapshots in
    let newest = latest_in-last row db.snapshots below in
    let q : SnapshotRow → Bool = λ s.
      not (str_eq s.case_id target.id && leb (s.sequence + snapshot_history_limit) row.sequence) in
    let kept : q row ≡ true =
      rw (lt→leb_false (row.sequence + snapshot_history_limit) row.sequence (omega arith))
        (not-and (str_eq target.id target.id)) in
    rw (newest, publish_in_transaction, prune_snapshots, latest_snapshot)
      (rw (keep_where-last q db.snapshots row kept) (
        latest_in-last row (keep_where q db.snapshots)
          (All-keep_where (IsBelow target.id row.sequence) q db.snapshots below)))
  where
    not-and : (b : Bool) → not (b && false) ≡ true
    not-and true = refl
    not-and false = refl

-- What a row of statistics counts, or nothing where there is none.
abbrev pub counted : (StatsRow → ℕ) → Option StatsRow → ℕ
counted f none = 0
counted f (some s) = f s

-- A snapshot that shows the counters of a case's row of statistics, and comes after another.
pub record Shows (target : CaseRow) (stats : Option StatsRow) (before : Option SnapshotRow)
    (now : ℕ) (s : SnapshotRow) : Type 0 where
  pub ups : s.up_votes ≡ counted (λ (r : StatsRow). r.up_votes) stats
  pub downs : s.down_votes ≡ counted (λ (r : StatsRow). r.down_votes) stats
  pub voters : s.unique_voters ≡ counted (λ (r : StatsRow). r.unique_voters) stats
  pub names :
      (s.case_id ≡ target.id)
      × (s.business_date ≡ target.business_date)
      × (s.policy_version ≡ target.liangzi_policy_version)
  pub taken : s.captured_at ≡ now
  pub first : before ≡ none → s.sequence ≡ 1
  pub next : (b : SnapshotRow) → before ≡ some b → s.sequence ≡ b.sequence + 1

snapshot_row-Shows :
    (db : Db) (target : CaseRow) (before : Option SnapshotRow) (now : ℕ)
    → Shows target
        (stats_for db target.id)
        before
        now
        (snapshot_row target (stats_of db target) before now)
unfolding stats_of
snapshot_row-Shows db target before now = elim (Option-cases (stats_for db target.id)) [
  | inl none_yet ↦
      rw (none_yet, stats_of)
        (record {
          ups = refl;
          downs = refl;
          voters = refl;
          names = (refl, refl, refl);
          taken = refl;
          first = λ e. rw e refl;
          next = λ b e. rw e refl;
        })
  | inr (r, found) ↦ rw (found, stats_of) (shown r)
]
  where
    shown : (r : StatsRow) → Shows target (some r) before now (snapshot_row target r before now)
    shown r = record {
      ups = refl;
      downs = refl;
      voters = refl;
      names = (refl, refl, refl);
      taken = refl;
      first = λ e. rw e refl;
      next = λ b e. rw e refl;
    }

-- After a case is published it has a latest snapshot: its up votes, down votes and voters are those of the
-- case's row of statistics, or 0 where there is no row; it is of the case, its date and its policy, at the
-- time given; and its sequence is 1 where there was no snapshot of the case before, and else one more
-- than that of the latest before.
pub publish-latest_snapshot :
    (db : Db) (target : CaseRow) (now : ℕ)
    → (s : SnapshotRow) × (latest_snapshot (publish_in_transaction db target now) target.id
        ≡ some s)
      × Shows target (stats_for db target.id) (latest_snapshot db target.id) now s
publish-latest_snapshot db target now = (
  snapshot_row target (stats_of db target) (latest_snapshot db target.id) now,
  publish-row db target now,
  snapshot_row-Shows db target (latest_snapshot db target.id) now,
)
