-- ===== src/Maintenance/Horizon.antt =====
-- maintenance/horizon.py and maintenance/hot.py
use mini_postgres.Base.{
  ℕ, Bool, true, false, not, ◌&&◌, none, some, List, [], ◌∷◌, ◌++◌, ltb, min, if◌then◌else◌,
  nat_hashable, ◌==◌,
}
use mini_postgres.Transaction.Model.{Transaction, bytes_beq}
use mini_postgres.Transaction.Status.{TransactionStatus, StatusTable, get_status, same_status}
use mini_postgres.Transaction.Visibility.{TupleVersion, creator_status}

pub data VersionDisposition : Type 0 where
  keep dead : VersionDisposition

-- the candidates that the loop appends
unfoldable pub candidates : List Transaction → List ℕ
candidates [] = []
candidates (t ∷ ts) = elim t.repeatable_snapshot [
  | none ↦ t.xid ∷ candidates ts
  | some s ↦ s.xmax ∷ (s.active_xids ++ candidates ts)
]

-- min(x, *xs)
unfoldable pub least : ℕ → List ℕ → ℕ
least x [] = x
least x (y ∷ ys) = min y (least x ys)

unfoldable pub cleanup_horizon : List Transaction → ℕ → ℕ
cleanup_horizon active_transactions next_xid = least next_xid (candidates active_transactions)

unfoldable pub classify_version : TupleVersion → ℕ → StatusTable → VersionDisposition
classify_version v horizon statuses =
    if ltb v.xmin horizon && same_status (creator_status v statuses) TransactionStatus.aborted
    then dead
    else if not (v.xmax == 0)
        && (ltb v.xmin horizon
            && (ltb v.xmax horizon
                && (same_status (creator_status v statuses) TransactionStatus.committed
                    && same_status (get_status statuses v.xmax) TransactionStatus.committed)))
    then dead
    else keep

keys_beq : List (List ℕ) → List (List ℕ) → Bool
keys_beq [] [] = true
keys_beq (x ∷ xs) (y ∷ ys) = bytes_beq x y && keys_beq xs ys
keys_beq _ _ = false

unfoldable pub hot_eligible : Bool → List (List ℕ) → List (List ℕ) → Bool
unfolding keys_beq
hot_eligible same_heap_page old_index_keys new_index_keys =
    same_heap_page && keys_beq old_index_keys new_index_keys
