-- ===== src/Backend/Vote/Ledger.antt =====
-- The day's counters of src/backend/service.ts against the votes that the table keeps.
use dsh_liangxiang.Prelude.{
  ℕ, ◌+◌, none, some, String, ◌≡◌, refl, sym, ap, ◌∙◌, inl, inr, Bool, not, ◌&&◌, List, [], ◌∷◌,
  ◌++◌, append-nil, append_assoc, arith, str_eq, Number, if◌then◌else◌, Bool-cases, find,
  update_where, All, subst, is_some, sum_by, sum_by-append,
}
use text.Mathlib.TextEquality.{eq_iff as text_eq_iff}
use dsh_liangxiang.Domain.Vote.{VoteType, up, down, vote_type_eq}
use dsh_liangxiang.Backend.Store.{
  CaseRow, StatsRow, VoteRow, Db, bump, has_stats_id, has_voted_for_case,
  apply_accepted_vote_to_stats,
}
use dsh_liangxiang.Backend.Vote.{V1VoteRequest, V1VoteResult, Config, ensure_row, vote_row, vote}
use dsh_liangxiang.Backend.Vote.Commits.{
  Ends, replays, conflicts, refuses, lacks, accepts, vote-commits,
}
use dsh_liangxiang.Backend.Vote.Solvency.{committed-rows}
use dsh_liangxiang.Backend.Vote.Frame.{ensure_row-Funding, spend_incense-Funding}

-- The sticks of a vote row. What a receipt without its count stands for is not stored; it is given here.
abbrev pub sticks_of : (VoteRow → ℕ) → VoteRow → ℕ
sticks_of unknown v = elim v.accepted_incense [ none ↦ unknown v | some n ↦ n ]

-- The sticks that a vote row gives to a case and a direction.
abbrev pub cast_for : (VoteRow → ℕ) → String → VoteType → VoteRow → ℕ
cast_for unknown id direction v =
    if str_eq v.case_id id && vote_type_eq v.vote_type direction then sticks_of unknown v else 0

abbrev pub counter : VoteType → StatsRow → ℕ
counter up s = s.up_votes
counter down s = s.down_votes

abbrev pub votes_by : String → String → VoteRow → Bool
votes_by id inst v = str_eq v.case_id id && str_eq v.installation_id inst

abbrev pub first_of : String → List VoteRow → VoteRow → ℕ
first_of id earlier v =
    if str_eq v.case_id id && not (is_some (find (votes_by id v.installation_id) earlier))
    then 1
    else 0

-- The installations among `votes` for the case, each counted at its first vote, after those in `earlier`.
abbrev pub voters_after : String → List VoteRow → List VoteRow → ℕ
voters_after id earlier [] = 0
voters_after id earlier (v ∷ votes) =
    first_of id earlier v + voters_after id (earlier ++ v ∷ []) votes

-- What a row of daily_liang_stats counts.
pub record Tally (unknown : VoteRow → ℕ) (votes : List VoteRow) (s : StatsRow) : Type 0 where
  pub sticks :
      (direction : VoteType)
      → counter direction s ≡ sum_by (cast_for unknown s.case_id direction) votes
  pub voters : s.unique_voters ≡ voters_after s.case_id [] votes

abbrev pub IsTallied : (VoteRow → ℕ) → Db → Type 0
IsTallied unknown db = All (Tally unknown db.votes) db.stats

-- One more vote at the end.
voters_after-snoc :
    (id : String) (earlier votes : List VoteRow) (v : VoteRow)
    → voters_after id earlier (votes ++ v ∷ [])
      ≡ voters_after id earlier votes + first_of id (earlier ++ votes) v
voters_after-snoc id earlier [] v = rw (append-nil earlier) omega arith
voters_after-snoc id earlier (w ∷ votes) v = omega (
  arith,
  voters_after-snoc id (earlier ++ w ∷ []) votes v,
  ap (λ seen. first_of id seen v) (append_assoc earlier (w ∷ []) votes),
)

str_eq-sym : (s t : String) → str_eq s t ≡ str_eq t s
str_eq-sym s t = elim (Bool-cases (str_eq s t)) [
  | inl e ↦ e ∙ sym ((text_eq_iff t s).1 (sym ((text_eq_iff s t).0 e)))
  | inr e ↦ elim (Bool-cases (str_eq t s)) [
    | inl f ↦ cc (sym e ∙ (text_eq_iff s t).1 (sym ((text_eq_iff t s).0 f)))
    | inr f ↦ e ∙ sym f
  ]
]

counter-bump :
    (direction kind : VoteType) (count : ℕ) (first : Bool) (now : ℕ) (s : StatsRow)
    → counter direction (bump kind count first now s)
      ≡ counter direction s + (if vote_type_eq kind direction then count else 0)
counter-bump up up count first now s = refl
counter-bump up down count first now s = refl
counter-bump down up count first now s = refl
counter-bump down down count first now s = refl

-- The UPDATE of the counters, for one row.
abbrev pub bumped : (VoteRow → ℕ) → List VoteRow → VoteRow → ℕ → StatsRow → StatsRow
bumped unknown votes v now s =
    if str_eq s.case_id v.case_id
    then bump v.vote_type (sticks_of unknown v)
        (not (is_some (find (votes_by v.case_id v.installation_id) votes))) now s
    else s

Tally-add :
    (unknown : VoteRow → ℕ) (votes : List VoteRow) (s : StatsRow) (v : VoteRow) (now : ℕ)
    → Tally unknown votes s
    → Tally unknown (votes ++ v ∷ []) (bumped unknown votes v now s)
Tally-add unknown votes s v now t = elim (Bool-cases (str_eq s.case_id v.case_id)) [
  | inr other ↦
      let apart = sym (str_eq-sym s.case_id v.case_id) ∙ other in
      rw other (record {
        sticks = λ d.
            let none_cast : cast_for unknown s.case_id d v ≡ 0 = rw apart refl in
            omega (
              arith,
              t.sticks d,
              sum_by-append (cast_for unknown s.case_id d) votes (v ∷ []),
              none_cast,
            );
        voters =
            let not_first : first_of s.case_id votes v ≡ 0 = rw apart refl in
            omega (arith, t.voters, voters_after-snoc s.case_id [] votes v, not_first);
      })
  | inl same ↦
      let alike = sym (str_eq-sym s.case_id v.case_id) ∙ same in
      let id_is : s.case_id ≡ v.case_id = (text_eq_iff s.case_id v.case_id).0 same in
      let first = not (is_some (find (votes_by v.case_id v.installation_id) votes)) in
      rw same (record {
        sticks = λ d.
            let cast : cast_for unknown s.case_id d v
                ≡ (if vote_type_eq v.vote_type d then sticks_of unknown v else 0) =
              rw alike refl in
            omega (
              arith,
              counter-bump d v.vote_type (sticks_of unknown v) first now s,
              t.sticks d,
              sum_by-append (cast_for unknown s.case_id d) votes (v ∷ []),
              cast,
            );
        voters =
            let is_first : first_of s.case_id votes v ≡ (if first then 1 else 0) = rw alike (
              ap (λ id. if not (is_some (find (votes_by id v.installation_id) votes)) then 1 else 0)
                id_is) in
            omega (arith, t.voters, voters_after-snoc s.case_id [] votes v, is_first);
      })
]

Tally-rows :
    (unknown : VoteRow → ℕ) (votes : List VoteRow) (v : VoteRow) (now : ℕ) (rows : List StatsRow)
    → All (Tally unknown votes) rows
    → All (Tally unknown (votes ++ v ∷ [])) (
        update_where
          (has_stats_id v.case_id)
          (bump v.vote_type
            (sticks_of unknown v)
            (not (is_some (find (votes_by v.case_id v.installation_id) votes)))
            now)
          rows)
Tally-rows unknown votes v now [] all = tt
Tally-rows unknown votes v now (s ∷ rows) all =
    (Tally-add unknown votes s v now all.0, Tally-rows unknown votes v now rows all.1)

Ends-IsTallied :
    (unknown : VoteRow → ℕ) (config : Config) (db : Db) (inst : String) (intent : V1VoteRequest)
    (active : CaseRow) (now : ℕ) (max_spend : Number) (out : V1VoteResult × Db)
    → Ends config db inst intent active now max_spend out
    → IsTallied unknown db
    → IsTallied unknown out.1
unfolding apply_accepted_vote_to_stats has_voted_for_case
Ends-IsTallied unknown config db inst intent active now max_spend out ends h = elim ends [
  | replays stored e s same ↦ rw same h
  | conflicts stored e s same ↦ rw same h
  | refuses reason e same ↦ rw same h
  | lacks target e c same ↦
      let f = ensure_row-Funding config db inst target now in
      rw same (rw (f.stats_kept, f.votes_kept) h)
  | accepts target spent paid row e c a ids done same ↦
      let base = ensure_row config db inst target now in
      let f = ensure_row-Funding config db inst target now in
      let g = spend_incense-Funding base paid inst target.business_date spent now done.paid_for in
      let v = vote_row inst intent target spent row.used_incense now in
      rw same (
        rw (g.stats_kept, g.votes_kept, f.stats_kept, f.votes_kept)
          (Tally-rows unknown db.votes v now db.stats h))
]

-- Where each case's counters are the sums of the accepted sticks of its stored votes, by direction, and
-- its voters are the installations among those votes, each counted once, all this holds again after a
-- vote, whatever its result is; what the receipts from before counts were stored stand for may be any
-- numbers.
pub vote-IsTallied :
    (unknown : VoteRow → ℕ) (config : Config) (db : Db) (inst : String) (intent : V1VoteRequest)
    (active : CaseRow) (now : ℕ) (max_spend : Number)
    → IsTallied unknown db
    → IsTallied unknown (vote config db inst intent active now max_spend).1
vote-IsTallied unknown config db inst intent active now max_spend h =
    elim (vote-commits config db inst intent active now max_spend) [
      | inl (idle, same) ↦ subst (IsTallied unknown) (sym same) h
      | inr (out, ends, same) ↦
          let (kept, rows) = committed-rows active now out in
          subst (IsTallied unknown) (sym (ap (λ v. v.1) same ∙ rows))
            (Ends-IsTallied unknown config db inst intent active now max_spend out ends h)
    ]
