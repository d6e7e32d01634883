-- ===== src/Storage/Replacer/Sweep.antt =====
-- What ClockReplacer.evict finds.
use mini_postgres.Base.{
  ℕ, zero, suc, ◌+◌, ◌%◌, ◌≤◌, ◌<◌, ◌≡◌, ◌≢◌, refl, ◌∙◌, ap, ◌⊎◌, inl, inr, Bool, true, false,
  Option, some, List, [], ◌∷◌, arith, Bool-cases, length, set, length-set,
}
use native.Mathlib.Nat.{mod-eq_of_lt}
use mini_postgres.Storage.Replacer.{ClockReplacer, flag, advance, sweep}

flag-set_self : (bs : List Bool) (i : ℕ) (b : Bool) → i < length bs → flag (set bs i b) i ≡ b
flag-set_self [] i b h = elim h [ ]
flag-set_self (x ∷ bs) zero b h = refl
flag-set_self (x ∷ bs) (suc i) b h = flag-set_self bs i b (omega arith)

flag-set_ne : (bs : List Bool) (i j : ℕ) (b : Bool) → i ≢ j → flag (set bs i b) j ≡ flag bs j
flag-set_ne [] i j b h = refl
flag-set_ne (x ∷ bs) zero zero b h = absurd (h refl)
flag-set_ne (x ∷ bs) zero (suc j) b h = refl
flag-set_ne (x ∷ bs) (suc i) zero b h = refl
flag-set_ne (x ∷ bs) (suc i) (suc j) b h = flag-set_ne bs i j b (λ e. h (ap suc e))

-- As many flags of each kind as frames, and the hand on one of them.
pub record IsClock (n : ℕ) (c : ClockReplacer) : Type 0 where
  pub references : length c.referenced ≡ n
  pub frames : length c.evictable ≡ n
  pub in_range : c.hand < n

pub next_hand :
    (n h : ℕ) → h < n → ((h + 1 ≡ n) × ((h + 1) % n ≡ 0)) ⊎ ((h + 1 < n) × ((h + 1) % n ≡ h + 1))
next_hand n h lt = grind (arith, mod-eq_of_lt)

pub advance-IsClock : (n : ℕ) (c : ClockReplacer) → IsClock n c → IsClock n (advance c)
unfolding advance
advance-IsClock n c v = record {
  references = v.references;
  frames = v.frames;
  in_range = omega (arith, next_hand n c.hand v.in_range, v.frames);
}

-- A round that goes on: past a frame that is not evictable, or with its reference taken away.
pub data Round (c : ClockReplacer) : ClockReplacer → Type 0 where
  skipped : flag c.evictable c.hand ≡ false → Round c (advance c)
  spared :
      flag c.evictable c.hand ≡ true
      → flag c.referenced c.hand ≡ true
      → Round c (record (advance c) { referenced = set c.referenced c.hand false })

pub sweep_cases :
    (rounds : ℕ) (c c' : ClockReplacer) (r : Option ℕ)
    → sweep (suc rounds) c ≡ (r, c')
    → ((d : ClockReplacer) × Round c d × (sweep rounds d ≡ (r, c')))
      ⊎ ((flag c.evictable c.hand ≡ true)
          × (r ≡ some c.hand)
          × (c' ≡ record (advance c) { evictable = set c.evictable c.hand false }))
unfolding sweep advance
sweep_cases rounds c c' r h = elim (Bool-cases (flag c.evictable c.hand)) [
  | inl e ↦ elim (Bool-cases (flag c.referenced c.hand)) [
    | inl e' ↦ inl (
      record (advance c) { referenced = set c.referenced c.hand false },
      spared e e',
      ground arith,
    )
    | inr e' ↦ inr (e, ground arith, ground arith)
  ]
  | inr e ↦ inl (advance c, skipped e, ground arith)
]

-- The rounds until the hand is on the frame i.
abbrev pub Away : ℕ → ℕ → ℕ → ℕ → Type 0
Away n h i rounds = ((h ≤ i) × (h + rounds ≡ i)) ⊎ ((i < h) × (h + rounds ≡ i + n))

pub Round-IsClock : (n : ℕ) (c d : ClockReplacer) → IsClock n c → Round c d → IsClock n d
unfolding advance
Round-IsClock n c _ v (skipped e) = advance-IsClock n c v
Round-IsClock n c _ v (spared e e') = record {
  references = length-set c.referenced c.hand false ∙ v.references;
  frames = v.frames;
  in_range = (advance-IsClock n c v).in_range;
}

pub Round-evictable : (c d : ClockReplacer) → Round c d → d.evictable ≡ c.evictable
unfolding advance
Round-evictable c _ (skipped e) = refl
Round-evictable c _ (spared e e') = refl

pub Round-hand : (n : ℕ) (c d : ClockReplacer) → IsClock n c → Round c d → d.hand ≡ (c.hand + 1) % n
unfolding advance
Round-hand n c _ v (skipped e) = ap (λ m. (c.hand + 1) % m) v.frames
Round-hand n c _ v (spared e e') = ap (λ m. (c.hand + 1) % m) v.frames

-- A round that goes on from an evictable frame takes its reference away.
pub Round-spares :
    (n : ℕ) (c d : ClockReplacer)
    → IsClock n c
    → Round c d
    → flag c.evictable c.hand ≡ true
    → (flag c.referenced c.hand ≡ true) × (flag d.referenced c.hand ≡ false)
unfolding advance
Round-spares n c _ v (skipped e) h = cc
Round-spares n c _ v (spared e e') h =
    (e', flag-set_self c.referenced c.hand false (omega (arith, v.references, v.in_range)))

pub Round-others :
    (c d : ClockReplacer) (i : ℕ)
    → Round c d
    → c.hand ≢ i
    → flag d.referenced i ≡ flag c.referenced i
unfolding advance
Round-others c _ i (skipped e) h = refl
Round-others c _ i (spared e e') h = flag-set_ne c.referenced c.hand i false h
