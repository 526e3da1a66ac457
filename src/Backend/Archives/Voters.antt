-- ===== src/Backend/Archives/Voters.antt =====
-- COUNT(DISTINCT installation_id) of src/backend/store.ts is the length of a list of the voters, each once.
use dsh_liangxiang.Prelude.{
  ℕ, String, ◌≡◌, refl, sym, ap, ◌∙◌, ◌≢◌, ◌⊎◌, inl, inr, Bool, true, false, ◌&&◌, some, List, [],
  ◌∷◌, arith, eq_iff, if◌then◌else◌, Bool-cases, Option-cases, length, find, keep_where, some-eq,
  subst, both, is_some, find-passes,
}
use dsh_liangxiang.Domain.Calendar.Text.{Text, text_leb, text_eq-eq}
use dsh_liangxiang.Domain.Calendar.TextOrder.{text_ltb_self, text_ltb_total}
use dsh_liangxiang.Backend.Archives.{
  ArchiveDb, CastVote, is_voter, count_voters, count_unique_voters,
}

abbrev pub Has : {A : Type 0} → A → List A → Type 0
Has a [] = ⊥
Has a (x ∷ xs) = (x ≡ a) ⊎ Has a xs

find-Has : {A : Type 0} (p : A → Bool) (xs : List A) {a : A} → find p xs ≡ some a → Has a xs
find-Has p [] h = cc
find-Has p (x ∷ xs) h = elim (Bool-cases (p x)) [
  | inl hit ↦ inl (some-eq (rw hit at h))
  | inr miss ↦ inr (find-Has p xs (rw miss at h))
]

Has-find :
    {A : Type 0} (p : A → Bool) (xs : List A) (a : A)
    → Has a xs
    → p a ≡ true
    → is_some (find p xs) ≡ true
Has-find p [] a h hit = absurd h
Has-find p (x ∷ xs) a (inl same) hit = rw (ap p same ∙ hit) refl
Has-find p (x ∷ xs) a (inr there) hit = elim (Bool-cases (p x)) [
  | inl first ↦ rw first refl
  | inr miss ↦ rw miss (Has-find p xs a there hit)
]

Has-keep_where :
    {A : Type 0} (q : A → Bool) (xs : List A) (a : A)
    → Has a (keep_where q xs)
    → Has a xs × (q a ≡ true)
Has-keep_where q [] a h = absurd h
Has-keep_where q (x ∷ xs) a h = elim (Bool-cases (q x)) [
  | inl kept ↦ both_cases kept (rw kept at h) (λ there. Has-keep_where q xs a there)
  | inr gone ↦ let (there, fine) = Has-keep_where q xs a (rw gone at h) in (inr there, fine)
]
  where
    both_cases :
        q x ≡ true
        → (x ≡ a) ⊎ Has a (keep_where q xs)
        → (Has a (keep_where q xs) → Has a xs × (q a ≡ true))
        → Has a (x ∷ xs) × (q a ≡ true)
    both_cases kept (inl same) rest = (inl same, sym (ap q same) ∙ kept)
    both_cases kept (inr there) rest = let (later, fine) = rest there in (inr later, fine)

keep_where-Has :
    {A : Type 0} (q : A → Bool) (xs : List A) (a : A)
    → Has a xs
    → q a ≡ true
    → Has a (keep_where q xs)
keep_where-Has q [] a h fine = absurd h
keep_where-Has q (x ∷ xs) a (inl same) fine = rw (ap q same ∙ fine) (inl same)
keep_where-Has q (x ∷ xs) a (inr there) fine = elim (Bool-cases (q x)) [
  | inl kept ↦ rw kept (inr (keep_where-Has q xs a there fine))
  | inr gone ↦ rw gone (keep_where-Has q xs a there fine)
]

-- The installation has cast one of the votes.
abbrev pub Cast : (CastVote → Type 0) → List CastVote → String → Type 0
Cast Q votes id = (v : CastVote) × Has v votes × (v.installation_id ≡ id) × Q v

-- No text stands twice.
abbrev pub Distinct : List String → Type 0
Distinct [] = Unit {0}
Distinct (id ∷ ids) = ((j : String) → Has j ids → j ≢ id) × Distinct ids

abbrev seen : CastVote → List CastVote → Bool
seen v votes = is_some (find (is_voter v.installation_id) votes)

-- Each voter, at its last vote.
voter_ids : List CastVote → List String
voter_ids [] = []
voter_ids (v ∷ votes) =
    let others = voter_ids votes in if seen v votes then others else v.installation_id ∷ others

count_voters-length : (votes : List CastVote) → count_voters votes ≡ length (voter_ids votes)
unfolding count_voters voter_ids
count_voters-length [] = refl
count_voters-length (v ∷ votes) = ground (arith, count_voters-length votes)

voter_ids-cast :
    (votes : List CastVote) (id : String)
    → Has id (voter_ids votes)
    → (v : CastVote) × Has v votes × (v.installation_id ≡ id)
unfolding voter_ids
voter_ids-cast [] id h = absurd h
voter_ids-cast (v ∷ votes) id h = elim (Bool-cases (seen v votes)) [
  | inl again ↦
      let (w, there, same) = voter_ids-cast votes id (rw again at h) in (w, inr there, same)
  | inr last ↦ at_last (rw last at h) (λ further. voter_ids-cast votes id further)
]
  where
    at_last :
        (v.installation_id ≡ id) ⊎ Has id (voter_ids votes)
        → (Has id (voter_ids votes) → (w : CastVote) × Has w votes × (w.installation_id ≡ id))
        → (w : CastVote) × Has w (v ∷ votes) × (w.installation_id ≡ id)
    at_last (inl same) rest = (v, inl refl, same)
    at_last (inr further) rest = let (w, there, same) = rest further in (w, inr there, same)

cast-voter_ids :
    (votes : List CastVote) (w : CastVote) → Has w votes → Has w.installation_id (voter_ids votes)
unfolding voter_ids
cast-voter_ids [] w h = absurd h
cast-voter_ids (v ∷ votes) w (inr there) =
    let rest = cast-voter_ids votes w there in
    elim (Bool-cases (seen v votes)) [ inl again ↦ rw again rest | inr last ↦ rw last (inr rest) ]
cast-voter_ids (v ∷ votes) w (inl same) =
    elim (Option-cases (find (is_voter v.installation_id) votes)) [
      | inl last ↦ rw last (inl (ap (λ (x : CastVote). x.installation_id) same))
      | inr (x, e) ↦
          let id_is : x.installation_id ≡ v.installation_id =
            (eq_iff _ _).0 (find-passes (is_voter v.installation_id) votes e) in
          rw e (
            subst (λ (id : String). Has id (voter_ids votes))
              (id_is ∙ ap (λ (y : CastVote). y.installation_id) same)
              (cast-voter_ids votes x (find-Has (is_voter v.installation_id) votes e)))
    ]

voter_ids-Distinct : (votes : List CastVote) → Distinct (voter_ids votes)
unfolding voter_ids
voter_ids-Distinct [] = tt
voter_ids-Distinct (v ∷ votes) = elim (Bool-cases (seen v votes)) [
  | inl again ↦ rw again (voter_ids-Distinct votes)
  | inr last ↦ rw last (new last, voter_ids-Distinct votes)
]
  where
    new : seen v votes ≡ false → (j : String) → Has j (voter_ids votes) → j ≢ v.installation_id
    new last j h same =
        let (w, there, by) = voter_ids-cast votes j h in
        cc (last, Has-find (is_voter v.installation_id) votes w there ((eq_iff _ _).1 (by ∙ same)))

-- A number counts the installations with a vote of a date, each once.
pub record CountsVoters (votes : List CastVote) (date : Text) (n : ℕ) : Type 0 where
  pub ids : List String
  pub once : Distinct ids
  pub cast : (id : String) → Has id ids → Cast (λ v. v.business_date ≡ date) votes id
  pub all : (v : CastVote) → Has v votes → v.business_date ≡ date → Has v.installation_id ids
  pub counted : n ≡ length ids

pub count_unique_voters-CountsVoters :
    (db : ArchiveDb) (date : Text) → CountsVoters db.votes date (count_unique_voters db date date)
unfolding count_unique_voters
count_unique_voters-CountsVoters db date = record {
  ids = voter_ids (keep_where on_date db.votes);
  once = voter_ids-Distinct (keep_where on_date db.votes);
  cast = λ id h.
      let (v, there, by) = voter_ids-cast (keep_where on_date db.votes) id h in
      let (own, fine) = Has-keep_where on_date db.votes v there in (v, own, by, dated v fine);
  all = λ v own same.
      cast-voter_ids (keep_where on_date db.votes) v
        (keep_where-Has on_date db.votes v own (rw same (rw (text_ltb_self date) refl)));
  counted = count_voters-length (keep_where on_date db.votes);
}
  where
    on_date : CastVote → Bool
    on_date v = text_leb date v.business_date && text_leb v.business_date date

    dated : (v : CastVote) → on_date v ≡ true → v.business_date ≡ date
    dated v fine =
        let (low, high) =
          both (text_leb date v.business_date) (text_leb v.business_date date) fine in
        text_eq-eq _ _
          (text_ltb_total v.business_date date (ground (arith, low)) (ground (arith, high)))
