-- ===== src/Storage/Replacer.antt =====
-- storage/replacer.py: Clock replacement of buffer frames.
pub mod Sweep
pub mod Victims
use mini_postgres.Base.{
  ℕ, zero, suc, ◌+◌, ◌*◌, ◌%◌, Bool, true, false, not, Option, none, some, List, [], leb,
  if◌then◌else◌, Result, ok, err, index_error, value_error, length, set, replicate,
}

pub record ClockReplacer : Type 0 where
  pub referenced : List Bool
  pub evictable : List Bool
  pub hand : ℕ

-- a list of flags at an index that is in range
abbrev pub flag : List Bool → ℕ → Bool
flag [] i = false
flag (List.◌∷◌ b bs) zero = b
flag (List.◌∷◌ b bs) (suc i) = flag bs i

-- ClockReplacer(frame_count)
unfoldable pub new_replacer : ℕ → Result ClockReplacer
new_replacer zero = err value_error
new_replacer (suc n) =
    ok (record {
      referenced = replicate (suc n) false;
      evictable = replicate (suc n) false;
      hand = 0;
    })

-- the rest of the call, if the frame ID is in range
abbrev pub validated : ClockReplacer → ℕ → Result ClockReplacer → Result ClockReplacer
validated c frame_id r = if leb (length c.evictable) frame_id then err index_error else r

unfoldable pub record_access : ClockReplacer → ℕ → Result ClockReplacer
record_access c frame_id =
    validated c frame_id (ok (record c { referenced = set c.referenced frame_id true }))

unfoldable pub mark_evictable : ClockReplacer → ℕ → Bool → Result ClockReplacer
mark_evictable c frame_id evictable =
    validated c frame_id (ok (record c { evictable = set c.evictable frame_id evictable }))

-- the hand, moved on
unfoldable pub advance : ClockReplacer → ClockReplacer
advance c = record c { hand = (c.hand + 1) % length c.evictable }

-- the loop of evict over the rounds left
unfoldable pub sweep : ℕ → ClockReplacer → Option ℕ × ClockReplacer
unfolding advance
sweep zero c = (none, c)
sweep (suc rounds) c = elim (flag c.evictable c.hand) [
  | false ↦ sweep rounds (advance c)
  | true ↦ elim (flag c.referenced c.hand) [
    | true ↦ sweep rounds (record (advance c) { referenced = set c.referenced c.hand false })
    | false ↦ (some c.hand, record (advance c) { evictable = set c.evictable c.hand false })
  ]
]

unfoldable pub evict : ClockReplacer → Option ℕ × ClockReplacer
unfolding sweep
evict c = sweep (length c.evictable * 2) c
