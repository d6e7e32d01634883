-- ===== src/Storage/Replacer/Victims.antt =====
-- What ClockReplacer.evict answers, over the two sweeps of its loop.
use mini_postgres.Base.{
  ℕ, zero, suc, ◌+◌, ◌*◌, ◌%◌, ◌≤◌, ◌<◌, ◌≡◌, ◌≢◌, refl, ap, ◌∙◌, inl, inr, Bool, true, false,
  Option, none, some, arith, Bool-cases, List, [], ◌∷◌, leb, ◌⊎◌, sym, subst, ◌-◌, length, set,
  length-set,
}
use mini_postgres.Storage.Replacer.{ClockReplacer, flag, advance, sweep, evict}
use mini_postgres.Storage.Replacer.Sweep.{
  IsClock, Away, sweep_cases, advance-IsClock, Round-IsClock, Round-evictable, Round-hand,
  Round-spares, Round-others, next_hand,
}

next-Away :
    (n h i rounds : ℕ) → h < n → i < n → Away n h i (suc rounds) → Away n ((h + 1) % n) i rounds
next-Away n h i rounds lt lt' a = ground (arith, next_hand n h lt)

here-Away : (n h : ℕ) → h < n → (m : ℕ) → n ≡ suc m → Away n ((h + 1) % n) h m
here-Away n h lt m e = ground (arith, next_hand n h lt)

Away-zero : (n h i : ℕ) → h < n → i < n → Away n h i 0 → h ≡ i
Away-zero n h i lt lt' a = ground arith

Away-suc : (n h i r : ℕ) → h < n → i < n → r < n → Away n h i (suc r) → h ≢ i
Away-suc n h i r lt lt' lt'' a e = ground arith

Away-hand : (n h i : ℕ) → h < n → i < n → (m : ℕ) × (m < n) × Away n h i m
Away-hand n h i lt lt' = elim (Bool-cases (leb h i)) [
  | inl e ↦ (i - h, ground arith, ground arith)
  | inr e ↦ (i + n - h, ground arith, ground arith)
]

flag_bound : (bs : List Bool) (i : ℕ) → flag bs i ≡ true → i < length bs
flag_bound [] i h = cc
flag_bound (b ∷ bs) zero h = omega arith
flag_bound (b ∷ bs) (suc i) h = omega (arith, flag_bound bs i h)

taken-IsClock :
    (n : ℕ) (c : ClockReplacer)
    → IsClock n c
    → IsClock n (record (advance c) { evictable = set c.evictable c.hand false })
unfolding advance
taken-IsClock n c v = record {
  references = v.references;
  frames = length-set c.evictable c.hand false ∙ v.frames;
  in_range = (advance-IsClock n c v).in_range;
}

-- A victim is evictable, and no other frame stops being so.
sweep-takes :
    (n : ℕ) (rounds : ℕ) (c c' : ClockReplacer) (f : ℕ)
    → IsClock n c
    → sweep rounds c ≡ (some f, c')
    → (flag c.evictable f ≡ true) × (c'.evictable ≡ set c.evictable f false) × IsClock n c'
unfolding sweep
sweep-takes n zero c c' f v h = cc
sweep-takes n (suc rounds) c c' f v h = elim (sweep_cases rounds c c' (some f) h) [
  | inl (d, r, h') ↦
      let (x, y, z) = sweep-takes n rounds d c' f (Round-IsClock n c d v r) h' in
      let e = Round-evictable c d r in
      (ap (λ l. flag l f) (sym e) ∙ x, y ∙ ap (λ l. set l f false) e, z)
  | inr (e, x, y) ↦
      let here : c.hand ≡ f = cc in
      (
        ap (flag c.evictable) (sym here) ∙ e,
        ap (λ q. q.evictable) y ∙ ap (λ i. set c.evictable i false) here,
        subst (IsClock n) (sym y) (taken-IsClock n c v),
      )
]

-- If no victim is found, an evictable frame was either out of the rounds' reach, or in reach once
-- and referenced.
sweep-spares :
    (n : ℕ) (rounds : ℕ) (c c' : ClockReplacer) (i m : ℕ)
    → IsClock n c
    → sweep rounds c ≡ (none, c')
    → i < n
    → flag c.evictable i ≡ true
    → m < n
    → Away n c.hand i m
    → (rounds ≤ m + n) × (flag c.referenced i ≡ false → rounds ≤ m)
sweep-spares n zero c c' i m v h lt e lt' a = (omega arith, λ _. omega arith)
sweep-spares n (suc rounds) c c' i zero v h lt e lt' a = elim (sweep_cases rounds c c' none h) [
  | inl (d, r, h') ↦
      let here : c.hand ≡ i = Away-zero n c.hand i v.in_range lt a in
      let e' : flag c.evictable c.hand ≡ true = ap (flag c.evictable) here ∙ e in
      let spared = Round-spares n c d v r e' in
      let e'' : flag d.evictable i ≡ true = ap (λ l. flag l i) (Round-evictable c d r) ∙ e in
      let unreferenced : flag d.referenced i ≡ false =
        ap (flag d.referenced) (sym here) ∙ spared.1 in
      let referenced : flag c.referenced i ≡ true = ap (flag c.referenced) (sym here) ∙ spared.0 in
      let rest =
        sweep-spares n rounds d c' i (n - 1) (Round-IsClock n c d v r) h' lt e'' (omega arith) (
          rw (Round-hand n c d v r, ← here)
            (here-Away n c.hand v.in_range (n - 1) (omega arith))) in
      (omega (arith, rest.1 unreferenced), λ f. cc (referenced, f))
  | inr (_, x, _) ↦ cc
]
sweep-spares n (suc rounds) c c' i (suc m) v h lt e lt' a = elim (sweep_cases rounds c c' none h) [
  | inl (d, r, h') ↦
      let there : c.hand ≢ i = Away-suc n c.hand i m v.in_range lt (omega arith) a in
      let e'' : flag d.evictable i ≡ true = ap (λ l. flag l i) (Round-evictable c d r) ∙ e in
      let rest =
        sweep-spares n rounds d c' i m (Round-IsClock n c d v r) h' lt e'' (omega arith)
          (rw (Round-hand n c d v r) (next-Away n c.hand i m v.in_range lt a)) in
      (omega (arith, rest.0), λ f. omega (arith, rest.1 (Round-others c d i r there ∙ f)))
  | inr (_, x, _) ↦ cc
]

-- If evict finds no victim, then no frame was evictable. A victim that it finds was evictable and
-- has stopped being so, the other frames are as evictable as before, and the clock stays well formed.
pub evict-finds :
    (n : ℕ) (c c' : ClockReplacer) (victim : Option ℕ)
    → IsClock n c
    → evict c ≡ (victim, c')
    → ((victim ≡ none) × ((i : ℕ) → flag c.evictable i ≡ false))
      ⊎ ((f : ℕ) × (victim ≡ some f)
          × (flag c.evictable f ≡ true)
          × (c'.evictable ≡ set c.evictable f false)
          × IsClock n c')
unfolding evict
evict-finds n c c' none v h = inl (
  refl,
  λ i. elim (Bool-cases (flag c.evictable i)) [
    | inl e ↦
        let lt : i < n = omega (arith, flag_bound c.evictable i e, v.frames) in
        let (m, lt', a) = Away-hand n c.hand i v.in_range lt in
        let (b, _) = sweep-spares n (length c.evictable * 2) c c' i m v h lt e lt' a in
        absurd (omega (arith, v.frames))
    | inr e ↦ e
  ],
)
evict-finds n c c' (some f) v h =
    let (x, y, z) = sweep-takes n (length c.evictable * 2) c c' f v h in inr (f, refl, x, y, z)
