-- ===== src/Transaction/Visibility.antt =====
-- transaction/visibility.py, over the two XIDs of a TupleVersion of storage/tuple.py
use mini_postgres.Base.{ℕ, Bool, true, false, ◌||◌, not, leb, if◌then◌else◌, nat_hashable, ◌==◌}
use mini_postgres.Dict
use mini_postgres.Transaction.Model.{Snapshot}
use mini_postgres.Transaction.Status.{TransactionStatus, StatusTable, get_status, same_status}

-- The fields of TupleVersion that the rules read; its values and next_tid play no part in them.
pub record TupleVersion : Type 0 where
  pub xmin : ℕ
  pub xmax : ℕ

abbrev pub system_xid : ℕ
system_xid = 1

-- COMMITTED for the system XID, else statuses.get(xmin)
unfoldable pub creator_status : TupleVersion → StatusTable → TransactionStatus
creator_status v statuses =
    if v.xmin == system_xid then TransactionStatus.committed else get_status statuses v.xmin

abbrev pub is_committed : TransactionStatus → Bool
is_committed s = same_status s TransactionStatus.committed

unfoldable pub is_visible : TupleVersion → Snapshot → ℕ → StatusTable → Bool
unfolding creator_status
is_visible v s current statuses =
    if v.xmin == current
    then not (v.xmax == current)
    else if not (is_committed (creator_status v statuses))
        || (leb s.xmax v.xmin || Dict.elem v.xmin s.active_xids)
    then false
    else if v.xmax == 0
    then true
    else if v.xmax == current
    then false
    else not (is_committed (get_status statuses v.xmax))
      || (leb s.xmax v.xmax || Dict.elem v.xmax s.active_xids)
