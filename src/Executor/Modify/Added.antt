-- ===== src/Executor/Modify/Added.antt =====
-- Tuples that were added to what a table held, and what an INSERT may do to that.
use mathlib.Core.List.{reverse}
use mini_postgres.Action.{Action}
use mini_postgres.Base.{
  Option, Bool, ◌++◌, ◌≡◌, ◌≢◌, refl, sym, ◌∙◌, ap, ℕ, true, false, none, some, List, [], ◌∷◌,
  length, Result, ok, err, arith, Bool-cases, inl, inr,
}
use mini_postgres.Dict.{elem}
use mini_postgres.Transaction.Model.{Tid}
use mini_postgres.Executor.Tables.{Tuple, Inserts, tid_beq, tid_beq_iff, tid_hashable}
use mini_postgres.Executor.Modify.{MvccContext}

-- A TID that is in a list is not one that is not.
elem-ne : (t x : Tid) (ts : List Tid) → elem t ts ≡ false → elem x ts ≡ true → tid_beq t x ≡ false
elem-ne t x ts h g = elim (Bool-cases (tid_beq t x)) [
  | inl e ↦ let e' = (tid_beq_iff t x).0 e in absurd (cc)
  | inr e ↦ e
]

elem-head : (t : Tid) (ts : List Tid) → elem t (t ∷ ts) ≡ true
unfolding elem
elem-head t ts = let e = (tid_beq_iff t t).1 refl in rw e refl

elem-tail : (x t : Tid) (ts : List Tid) → elem x ts ≡ true → elem x (t ∷ ts) ≡ true
unfolding elem
elem-tail x t ts h = ground arith

elem-cons_ne :
    (x t : Tid) (ts : List Tid)
    → elem x (t ∷ ts) ≡ false
    → (tid_beq t x ≡ false) × (elem x ts ≡ false)
unfolding elem
elem-cons_ne x t ts h = ground arith

module _ {S F : Type 0} (held : S → Tid → Option (Tuple F)) where
  -- The TIDs hold the tuples, one each, and none stands twice.
  abbrev pub IsHeld : S → List Tid → List (Tuple F) → Type 0
  IsHeld s [] [] = Unit
  IsHeld s (t ∷ ts) (vs ∷ wss) = ((held s t ≡ some vs) × (elem t ts ≡ false)) × IsHeld s ts wss
  IsHeld s _ _ = ⊥

  -- The table holds what it held before, and the tuples at the TIDs, which were free and differ.
  pub record IsAdded (before s : S) (ts : List Tid) (wss : List (Tuple F)) : Type 0 where
    pub were_free : (t : Tid) → elem t ts ≡ true → held before t ≡ none
    pub kept : (t : Tid) → elem t ts ≡ false → held s t ≡ held before t
    pub are_held : IsHeld s ts wss

  IsHeld-elem :
      (s : S) (t : Tid) (ts : List Tid) (wss : List (Tuple F))
      → IsHeld s ts wss
      → elem t ts ≡ true
      → held s t ≢ none
  unfolding elem
  IsHeld-elem s t [] wss hs e n = cc
  IsHeld-elem s t (x ∷ ts) [] hs e n = absurd hs
  IsHeld-elem s t (x ∷ ts) (w ∷ wss) ((h, d), hs) e n = elim (Bool-cases (tid_beq x t)) [
    | inl g ↦ let g' = (tid_beq_iff x t).0 g in cc
    | inr g ↦ IsHeld-elem s t ts wss hs (ground arith) n
  ]

  IsHeld-same :
      (s s' : S) (ts : List Tid) (wss : List (Tuple F))
      → ((t : Tid) → elem t ts ≡ true → held s' t ≡ held s t)
      → IsHeld s ts wss
      → IsHeld s' ts wss
  IsHeld-same s s' [] [] f hs = tt
  IsHeld-same s s' [] (w ∷ wss) f hs = absurd hs
  IsHeld-same s s' (t ∷ ts) [] f hs = absurd hs
  IsHeld-same s s' (t ∷ ts) (w ∷ wss) f ((h, d), hs) =
      ((f t (elem-head t ts) ∙ h, d), IsHeld-same s s' ts wss (λ x e. f x (elem-tail x t ts e)) hs)

  pub IsAdded-insert :
      (before s s' : S) (t : Tid) (ts : List Tid) (w : Tuple F) (wss : List (Tuple F))
      → IsAdded before s ts wss
      → held s t ≡ none
      → held s' t ≡ some w
      → ((u : Tid) → tid_beq t u ≡ false → held s' u ≡ held s u)
      → IsAdded before s' (t ∷ ts) (w ∷ wss)
  unfolding elem
  IsAdded-insert before s s' t ts w wss g free now others =
      let fresh : elem t ts ≡ false = elim (Bool-cases (elem t ts)) [
        | inl e ↦ absurd (IsHeld-elem s t ts wss g.are_held e free)
        | inr e ↦ e
      ] in
      record {
        were_free = λ u e. elim (Bool-cases (elem u ts)) [
          | inl i ↦ g.were_free u i
          | inr i ↦
              let e' = (tid_beq_iff t u).0 (ground arith) in
              ap (held before) (sym e') ∙ sym (g.kept t fresh) ∙ free
        ];
        kept = λ u e. let (n, i) = elem-cons_ne u t ts e in others u n ∙ g.kept u i;
        are_held = (
          (now, fresh),
          IsHeld-same s s' ts wss (λ x e. others x (elem-ne t x ts fresh e)) g.are_held,
        );
      }

  pub IsAdded-delete :
      (before s s' : S) (t : Tid) (ts : List Tid) (w : Tuple F) (wss : List (Tuple F))
      → IsAdded before s (t ∷ ts) (w ∷ wss)
      → held s' t ≡ none
      → ((u : Tid) → tid_beq t u ≡ false → held s' u ≡ held s u)
      → IsAdded before s' ts wss
  unfolding elem
  IsAdded-delete before s s' t ts w wss g gone others =
      let ((now, fresh), hs) = g.are_held in
      record {
        were_free = λ u e. g.were_free u (elem-tail u t ts e);
        kept = λ u e. elim (Bool-cases (tid_beq t u)) [
          | inl i ↦
              let e' = (tid_beq_iff t u).0 i in
              ap (held s') (sym e')
              ∙ gone
              ∙ sym (g.were_free t (elem-head t ts))
              ∙ ap (held before) e'
          | inr i ↦ others u i ∙ g.kept u (ground arith)
        ];
        are_held = IsHeld-same s s' ts wss (λ x e. others x (elem-ne t x ts fresh e)) hs;
      }

  pub IsAdded-same :
      (before s s' : S) (ts : List Tid) (wss : List (Tuple F))
      → ((t : Tid) → held s' t ≡ held s t)
      → IsAdded before s ts wss
      → IsAdded before s' ts wss
  IsAdded-same before s s' ts wss f g = record {
    were_free = g.were_free;
    kept = λ t e. f t ∙ g.kept t e;
    are_held = IsHeld-same s s' ts wss (λ t e. f t) g.are_held;
  }

  pub IsAdded-none : (s : S) → IsAdded s s [] []
  unfolding elem
  IsAdded-none s = record { were_free = λ t h. cc; kept = λ t h. refl; are_held = tt }

  -- Some first ones of the candidates were added, of which the last comes first.
  pub record FirstAdded (candidates : List (Tuple F)) (before s : S) : Type 0 where
    pub tids : List Tid
    pub done : List (Tuple F)
    pub left : List (Tuple F)
    pub parts : reverse candidates ≡ (reverse left ++ done)
    pub added : IsAdded before s tids done

  -- What an INSERT of some tuples may do, with MVCC or without.
  abbrev pub InsertOutcome : Bool → List (Tuple F) → S → Result ℕ × S → Type 0
  InsertOutcome true candidates before (err e, s) = FirstAdded candidates before s
  InsertOutcome false candidates before (err e, s) = (t : Tid) → held s t ≡ held before t
  InsertOutcome b candidates before (ok m, s) =
      (m ≡ length candidates)
      × ((ts : List Tid) × (length ts ≡ m) × IsAdded before s ts (reverse candidates))

  -- access.insert_mvcc adds a version as an insertion adds a tuple.
  abbrev pub IsMvccLawful : MvccContext S F → Type 0
  IsMvccLawful context =
      (f : Tuple F → Action S Tid) → context.insert_mvcc ≡ some f → Inserts held f
