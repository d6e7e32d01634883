-- ===== src/Executor/Tables/Memory.antt =====
-- executor/memory.py: MemoryTable.
use mini_postgres.Base.{
  ◌≡◌, ◌⊎◌, inl, inr, subst, refl, sym, ◌∙◌, ap, ℕ, suc, zero, Bool, true, false, not, ◌||◌, Option,
  none, some, List, [], ◌∷◌, ◌++◌, nat_beq, leb, length, get_elem?, set, if◌then◌else◌, ok, err,
  Error, arith, Result-cases,
}
use mini_postgres.Action.{Action}
use mini_postgres.Transaction.Model.{Tid}
use mini_postgres.Sql.Syntax.{Column}
use mini_postgres.Executor.Tables.{Tuple, TableAccess, validate_row, tid_beq, Inserts, IsInPlace}
use mini_postgres.Executor.Tables.Validation.{validate_row-eq}

-- MemoryTable's _slots: a tuple, or nothing where one was deleted
abbrev pub Slots : Type 0 → Type 0
Slots F = List (Option (Tuple F))

module _ {F : Type 0} where
  unfoldable pub slot_index : Slots F → Tid → Option ℕ
  slot_index slots t =
      if not (nat_beq t.page_id 0) || leb (length slots) t.slot_id then none else some t.slot_id

  -- self._slots[index], within bounds
  abbrev pub slot_at : Slots F → ℕ → Option (Tuple F)
  slot_at slots i = elim (get_elem? slots i) [ none ↦ none | some slot ↦ slot ]

  unfoldable pub fetch : Slots F → Tid → Option (Tuple F)
  unfolding slot_index
  fetch slots t = elim (slot_index slots t) [ none ↦ none | some i ↦ slot_at slots i ]

  unfoldable pub insert : List Column → Tuple F → Action (Slots F) Tid
  unfolding validate_row
  insert columns vs slots = elim (validate_row columns vs) [
    | err e ↦ (err e, slots)
    | ok ws ↦ (ok (record { page_id = 0; slot_id = length slots }), slots ++ some ws ∷ [])
  ]

  -- the end of replace and delete: the slot of a tuple is written
  unfoldable pub write_slot : Slots F → Tid → Option (Tuple F) → Option (Slots F)
  unfolding slot_index
  write_slot slots t new = elim (slot_index slots t) [
    | none ↦ none
    | some i ↦ elim (slot_at slots i) [ none ↦ none | some old ↦ some (set slots i new) ]
  ]

  unfoldable pub replace : List Column → Tid → Tuple F → Action (Slots F) (Option Tid)
  unfolding validate_row write_slot
  replace columns t vs slots = elim (validate_row columns vs) [
    | err e ↦ (err e, slots)
    | ok ws ↦ elim (write_slot slots t (some ws)) [
      | none ↦ (ok none, slots)
      | some slots' ↦ (ok (some t), slots')
    ]
  ]

  unfoldable pub delete : Tid → Action (Slots F) Bool
  unfolding write_slot
  delete t slots = elim (write_slot slots t none) [
    | none ↦ (ok false, slots)
    | some slots' ↦ (ok true, slots')
  ]

  -- MemoryTable as a TableAccess
  abbrev pub memory_table : List Column → TableAccess (Slots F) F
  memory_table columns = record {
    insert_tuple = insert columns;
    fetch_tuple = λ t slots. (ok (fetch slots t), slots);
    replace_tuple = replace columns;
    delete_tuple = delete;
  }

module _ {F : Type 0} where
  slot_at_beyond : (s : Slots F) (i : ℕ) → leb (length s) i ≡ true → slot_at s i ≡ none
  slot_at_beyond [] i h = refl
  slot_at_beyond (x ∷ s) zero h = ground arith
  slot_at_beyond (x ∷ s) (suc i) h = slot_at_beyond s i (ground arith)

  fetch_by_slot :
      (s : Slots F) (t : Tid)
      → fetch s t ≡ (if nat_beq t.page_id 0 then slot_at s t.slot_id else none)
  unfolding fetch slot_index
  fetch_by_slot s t = ground (arith, slot_at_beyond s t.slot_id)

  slot_at-append : (s : Slots F) (o : Option (Tuple F)) → slot_at (s ++ o ∷ []) (length s) ≡ o
  slot_at-append [] o = refl
  slot_at-append (x ∷ s) o = slot_at-append s o

  slot_at-append_ne :
      (s : Slots F) (o : Option (Tuple F)) (i : ℕ)
      → nat_beq (length s) i ≡ false
      → slot_at (s ++ o ∷ []) i ≡ slot_at s i
  slot_at-append_ne [] o zero h = ground arith
  slot_at-append_ne [] o (suc i) h = refl
  slot_at-append_ne (x ∷ s) o zero h = refl
  slot_at-append_ne (x ∷ s) o (suc i) h = slot_at-append_ne s o i (ground arith)

  slot_at-set :
      (s : Slots F) (i : ℕ) (w : Tuple F) (o : Option (Tuple F))
      → slot_at s i ≡ some w
      → slot_at (set s i o) i ≡ o
  slot_at-set [] i w o h = cc
  slot_at-set (x ∷ s) zero w o h = refl
  slot_at-set (x ∷ s) (suc i) w o h = slot_at-set s i w o h

  slot_at-set_ne :
      (s : Slots F) (i j : ℕ) (o : Option (Tuple F))
      → nat_beq i j ≡ false
      → slot_at (set s i o) j ≡ slot_at s j
  slot_at-set_ne [] i j o h = refl
  slot_at-set_ne (x ∷ s) zero zero o h = ground arith
  slot_at-set_ne (x ∷ s) zero (suc j) o h = refl
  slot_at-set_ne (x ∷ s) (suc i) zero o h = refl
  slot_at-set_ne (x ∷ s) (suc i) (suc j) o h = slot_at-set_ne s i j o (ground arith)

  -- What a call of insert did.
  insert-cases :
      (columns : List Column) (vs : Tuple F) (s : Slots F)
      → (insert columns vs s ≡ (ok (record { page_id = 0; slot_id = length s }), s ++ some vs ∷ []))
        ⊎ ((e : Error) × (insert columns vs s ≡ (err e, s)))
  unfolding insert
  insert-cases columns vs s = elim (Result-cases (validate_row columns vs)) [
    | inl (ws, e) ↦ inl (
        rw (insert, e)
          (ap (λ us. (ok (record { page_id = 0; slot_id = length s }), s ++ some us ∷ []))
            (sym (validate_row-eq columns vs ws e))))
    | inr (x, e) ↦ inr (x, rw (insert, e) refl)
  ]

  abbrev Inserted : Slots F → Tuple F → Slots F → Tid → Type 0
  Inserted s vs s' t =
      (fetch s t ≡ none)
      × (fetch s' t ≡ some vs)
      × ((u : Tid) → tid_beq t u ≡ false → fetch s' u ≡ fetch s u)

  insert-Inserted :
      (s : Slots F) (ws : Tuple F)
      → Inserted s ws (s ++ some ws ∷ []) (record { page_id = 0; slot_id = length s })
  insert-Inserted s ws = (
    fetch_by_slot s _ ∙ slot_at_beyond s (length s) (ground arith),
    fetch_by_slot (s ++ some ws ∷ []) _ ∙ slot_at-append s (some ws),
    λ u h.
        fetch_by_slot (s ++ some ws ∷ []) u
        ∙ ground (arith, slot_at-append_ne s (some ws) u.slot_id)
        ∙ sym (fetch_by_slot s u),
  )

  fetch-some :
      (s : Slots F) (t : Tid) (w : Tuple F)
      → fetch s t ≡ some w
      → (slot_index s t ≡ some t.slot_id) × (slot_at s t.slot_id ≡ some w)
  unfolding fetch slot_index
  fetch-some s t w h = ground arith

  write_slot-some :
      (s : Slots F) (t : Tid) (w : Tuple F) (o : Option (Tuple F))
      → fetch s t ≡ some w
      → write_slot s t o ≡ some (set s t.slot_id o)
  unfolding write_slot
  write_slot-some s t w o h = let (e, e') = fetch-some s t w h in rw (write_slot, e, e') refl

  fetch-set :
      (s : Slots F) (t : Tid) (w : Tuple F) (o : Option (Tuple F))
      → fetch s t ≡ some w
      → fetch (set s t.slot_id o) t ≡ o
  fetch-set s t w o h =
      fetch_by_slot (set s t.slot_id o) t
      ∙ ground (arith, fetch_by_slot s t, slot_at-set s t.slot_id w o)

  fetch-set_ne :
      (s : Slots F) (t : Tid) (w : Tuple F) (o : Option (Tuple F)) (u : Tid)
      → fetch s t ≡ some w
      → tid_beq t u ≡ false
      → fetch (set s t.slot_id o) u ≡ fetch s u
  fetch-set_ne s t w o u h n =
      fetch_by_slot (set s t.slot_id o) u
      ∙ ground (arith, fetch_by_slot s t, slot_at-set_ne s t.slot_id u.slot_id o)
      ∙ sym (fetch_by_slot s u)

  write_slot-none :
      (s : Slots F) (t : Tid) (o : Option (Tuple F)) → fetch s t ≡ none → write_slot s t o ≡ none
  unfolding fetch write_slot
  write_slot-none s t o h = ground arith

  insert-Inserts : (columns : List Column) → Inserts fetch (insert {F = F} columns)
  insert-Inserts columns = record {
    returns = λ vs s s' t h. elim (insert-cases columns vs s) [
      | inl k ↦
          let e : (ok (record { page_id = 0; slot_id = length s }), s ++ some vs ∷ [])
              ≡ (ok t, s') =
            sym k ∙ h in
          subst (λ p. elim p.0 as (λ _. Type 0) [ ok u ↦ Inserted s vs p.1 u | err x ↦ Unit ]) e
            (insert-Inserted s vs)
      | inr (x, k) ↦ absurd (cc)
    ];
    raises = λ vs s s' e h u. elim (insert-cases columns vs s) [
      | inl k ↦ absurd (cc)
      | inr (x, k) ↦ ap (λ p. fetch p.1 u) (sym h ∙ k)
    ];
  }

  -- MemoryTable implements the interface, for any columns. An insertion that returns has stored the
  -- given tuple at a TID that held none, and one that raises has changed nothing. The deletion of a
  -- tuple that is held frees its TID, and its replacement puts the given tuple there; where none is
  -- held, the results are False and None. No call changes another TID, and what a TID holds is what
  -- fetch returns. Insertions and replacements raise exactly for tuples that validate_row refuses.
  pub memory_table-IsInPlace :
      (columns : List Column) → IsInPlace columns (memory_table {F = F} columns)
  unfolding insert replace delete
  memory_table-IsInPlace columns = record {
    lawful = record {
      held = fetch;
      fetches = λ t s. refl;
      inserts = insert-Inserts columns;
      deletes = λ t s w h. (
        set s t.slot_id none,
        rw (delete, write_slot-some s t w none h) refl,
        fetch-set s t w none h,
        λ u n. fetch-set_ne s t w none u h n,
      );
      deletes_none = λ t s h. rw (delete, write_slot-none s t none h) refl;
    };
    accepts = λ vs ws s h.
        (record { page_id = 0; slot_id = length s }, s ++ some ws ∷ [], rw (insert, h) refl);
    refuses = λ vs t s e h. (rw (insert, h) refl, rw (replace, h) refl);
    replaces = λ vs ws w t s h k.
        let e : vs ≡ ws = validate_row-eq columns vs ws h in
        (
          set s t.slot_id (some ws),
          rw (replace, h, write_slot-some s t w (some ws) k) refl,
          fetch-set s t w (some ws) k ∙ ap some (sym e),
          λ u n. fetch-set_ne s t w (some ws) u k n,
        );
    replaces_none = λ vs ws t s h k. rw (replace, h, write_slot-none s t (some ws) k) refl;
  }
