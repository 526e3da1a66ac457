-- ===== src/Prelude/Tables.antt =====
-- Maps from texts, as lists of entries in the order of their first insertion.
use Prim.Native.String.{String}
use mathlib.Core.Path.{◌≡◌, refl, sym, ◌∙◌}
use mathlib.Core.Logic.{inl, inr}
use mathlib.Core.Bool.{Bool, true, false}
use mathlib.Core.List.{List, [], ◌∷◌}
use mathlib.Core.Option.{Option, none, some}
use text.Mathlib.Text.{◌==◌ as str_eq}
use text.Mathlib.TextEquality.{eq_iff}
use dsh_liangxiang.Prelude.Tests.{if◌then◌else◌, Bool-cases}
use dsh_liangxiang.Prelude.Lists.{is_some, or_else}

abbrev pub Table {ℓ} : Type ℓ → Type ℓ
Table A = List (String × A)

pub same_text : (j k : String) → str_eq j k ≡ true → j ≡ k
same_text j k h = (eq_iff j k).0 h

apart : (l k j : String) → j ≡ l → str_eq j k ≡ false → str_eq k l ≡ false
apart l k j same miss = elim (Bool-cases (str_eq k l)) [
  | inl hit ↦ absurd (differ (rw (same ∙ sym (same_text k l hit)) at miss))
  | inr off ↦ off
]
  where
    differ : str_eq k k ≡ false → ⊥
    differ miss = cc (miss, (eq_iff k k).1 refl)

module _ {ℓ} {A : Type ℓ} where
  abbrev pub entry : String → Table A → Option A
  entry k [] = none
  entry k ((j, a) ∷ t) = if str_eq j k then some a else entry k t

  abbrev pub put : String → A → Table A → Table A
  put k a [] = (k, a) ∷ []
  put k a ((j, b) ∷ t) = let later = put k a t in if str_eq j k then (j, a) ∷ t else (j, b) ∷ later

  abbrev pub erase : String → Table A → Table A
  erase k [] = []
  erase k ((j, b) ∷ t) = let later = erase k t in if str_eq j k then later else (j, b) ∷ later

  -- Each entry of the first table put into the second.
  abbrev pub put_all : Table A → Table A → Table A
  put_all [] t = t
  put_all ((k, a) ∷ more) t = put_all more (put k a t)

  -- The keys of the first table erased from the second.
  abbrev pub erase_all : Table A → Table A → Table A
  erase_all [] t = t
  erase_all ((k, a) ∷ more) t = erase_all more (erase k t)

  -- The entries of the first table merged into the second.
  abbrev pub merge_all : (Option A → A → A) → Table A → Table A → Table A
  merge_all f [] t = t
  merge_all f ((k, a) ∷ more) t = merge_all f more (put k (f (entry k t) a) t)

  -- No key stands twice.
  abbrev pub IsMap : Table A → Type ℓ
  IsMap [] = Unit
  IsMap ((k, a) ∷ t) = (entry k t ≡ none) × IsMap t

  pub entry-put :
      (l k : String) (a : A) (t : Table A)
      → entry l (put k a t) ≡ (if str_eq k l then some a else entry l t)
  entry-put l k a [] = refl
  entry-put l k a ((j, b) ∷ t) = elim (Bool-cases (str_eq j k)) [
    | inl hit ↦ rw hit (rw (same_text j k hit) (once (str_eq k l) a b (entry l t)))
    | inr miss ↦
        rw (miss, entry-put l k a t)
          (elim (Bool-cases (str_eq j l)) [
            | inl first ↦ rw (first, apart l k j (same_text j l first) miss) refl
            | inr later ↦ rw later refl
          ])
  ]
    where
      once :
          (test : Bool) (a b : A) (rest : Option A)
          → (if test then some a else rest)
            ≡ (if test then some a else (if test then some b else rest))
      once true a b rest = refl
      once false a b rest = refl

  pub entry-erase :
      (l k : String) (t : Table A) → entry l (erase k t) ≡ (if str_eq k l then none else entry l t)
  entry-erase l k [] = elim (Bool-cases (str_eq k l)) [ inl e ↦ rw e refl | inr e ↦ rw e refl ]
  entry-erase l k ((j, b) ∷ t) = elim (Bool-cases (str_eq j k)) [
    | inl hit ↦ rw hit (rw (entry-erase l k t, same_text j k hit) (once (str_eq k l) b (entry l t)))
    | inr miss ↦
        rw (miss, entry-erase l k t)
          (elim (Bool-cases (str_eq j l)) [
            | inl first ↦ rw (first, apart l k j (same_text j l first) miss) refl
            | inr later ↦ rw later refl
          ])
  ]
    where
      once :
          (test : Bool) (b : A) (rest : Option A)
          → (if test then none else rest) ≡ (if test then none else (if test then some b else rest))
      once true b rest = refl
      once false b rest = refl

  pub put-IsMap : (k : String) (a : A) (t : Table A) → IsMap t → IsMap (put k a t)
  put-IsMap k a [] map = (refl, tt)
  put-IsMap k a ((j, b) ∷ t) map = elim (Bool-cases (str_eq j k)) [
    | inl hit ↦ rw hit map
    | inr miss ↦
        rw miss (entry-put j k a t ∙ (rw (apart j k j refl miss) map.0), put-IsMap k a t map.1)
  ]

  pub erase-IsMap : (k : String) (t : Table A) → IsMap t → IsMap (erase k t)
  erase-IsMap k [] map = tt
  erase-IsMap k ((j, b) ∷ t) map = elim (Bool-cases (str_eq j k)) [
    | inl hit ↦ rw hit (erase-IsMap k t map.1)
    | inr miss ↦
        rw miss (entry-erase j k t ∙ (rw (apart j k j refl miss) map.0), erase-IsMap k t map.1)
  ]

  pub merge_all-IsMap :
      (f : Option A → A → A) (more t : Table A) → IsMap t → IsMap (merge_all f more t)
  merge_all-IsMap f [] t map = map
  merge_all-IsMap f ((k, a) ∷ more) t map =
      merge_all-IsMap f more (put k (f (entry k t) a) t) (put-IsMap k (f (entry k t) a) t map)

  abbrev pub merged_entry : (Option A → A → A) → Option A → Option A → Option A
  merged_entry f none own = own
  merged_entry f (some a) own = some (f own a)

  pub entry-put_all :
      (l : String) (more t : Table A)
      → IsMap more
      → entry l (put_all more t) ≡ or_else (entry l more) (entry l t)
  entry-put_all l [] t map = refl
  entry-put_all l ((k, a) ∷ more) t map =
      entry-put_all l more (put k a t) map.1
      ∙ rw (entry-put l k a t) (elim (Bool-cases (str_eq k l)) [
        | inl hit ↦ rw hit (rw (← same_text k l hit) (rw map.0 refl))
        | inr miss ↦ rw miss refl
      ])

  pub entry-merge_all :
      (f : Option A → A → A) (l : String) (more t : Table A)
      → IsMap more
      → entry l (merge_all f more t) ≡ merged_entry f (entry l more) (entry l t)
  entry-merge_all f l [] t map = refl
  entry-merge_all f l ((k, a) ∷ more) t map =
      entry-merge_all f l more (put k (f (entry k t) a) t) map.1
      ∙ rw (entry-put l k (f (entry k t) a) t) (elim (Bool-cases (str_eq k l)) [
        | inl hit ↦ rw hit (rw (← same_text k l hit) (rw map.0 refl))
        | inr miss ↦ rw miss refl
      ])

pub entry-erase_all {ℓ} :
    {A : Type ℓ} (l : String) (more t : Table A)
    → entry l (erase_all more t) ≡ (if is_some (entry l more) then none else entry l t)
entry-erase_all l [] t = refl
entry-erase_all l ((k, a) ∷ more) t =
    entry-erase_all l more (erase k t)
    ∙ rw (entry-erase l k t) (elim (Bool-cases (str_eq k l)) [
      | inl hit ↦
          rw hit
            (elim (Bool-cases (is_some (entry l more))) [ inl e ↦ rw e refl | inr e ↦ rw e refl ])
      | inr miss ↦ rw miss refl
    ])
