-- ===== src/Examples/Transactions.antt =====
-- Transactions, their snapshots and VACUUM, from a fresh manager.
use mini_postgres.Base.{
  ℕ, ◌≡◌, refl, true, false, none, some, List, [], ◌∷◌, ◌++◌, arith, ok, nat_hashable,
}
use mini_postgres.Dict
use mini_postgres.Transaction.Model.{
  Snapshot, read_committed, repeatable_read, new_transaction, make_snapshot, require_usable,
  mark_committed,
}
use mini_postgres.Transaction.Status.{TransactionStatus, get_status, set_status}
use mini_postgres.Transaction.Visibility.{TupleVersion, creator_status, is_visible}
use mini_postgres.Transaction.Locks
use mini_postgres.Transaction.Manager.{
  TransactionManager, new_manager, begin, statement_snapshot, commit, active_transactions,
  end_transaction, log_outcome,
}
use mini_postgres.Transaction.Manager.Invariant.{Inv}
use mini_postgres.Transaction.Manager.Snapshots.{Snaps}
use mini_postgres.Transaction.Manager.Runs.{
  Request, begins, snapshots, commits, run, run-Inv, new_manager-Inv, snapshot_stability,
}
use mini_postgres.Transaction.Manager.Repeatable.{snapshot_repeats}
use mini_postgres.Maintenance.Horizon.{candidates, least, cleanup_horizon, classify_version, dead}
use mini_postgres.Maintenance.Vacuum.{vacuum_safety}

abbrev crc0 : List ℕ → ℕ
crc0 bs = 0

abbrev fresh : TransactionManager
fresh = new_manager 2 [] none

no_outcomes : (x : ℕ) → get_status [] x ≡ TransactionStatus.in_progress
unfolding get_status Dict.get
no_outcomes x = refl

fresh-Inv : Inv fresh × Snaps fresh
fresh-Inv = new_manager-Inv 2 [] none (omega arith) (λ x h. no_outcomes x)

new_manager-Inv_example : Inv (new_manager 2 [] none) × Snaps (new_manager 2 [] none)
new_manager-Inv_example = new_manager-Inv 2 [] none (omega arith) (λ x h. no_outcomes x)

-- A repeatable-read transaction 2 and a read-committed transaction 3.
abbrev two_begun : List Request
two_begun = begins repeatable_read ∷ begins read_committed ∷ []

abbrev two : TransactionManager
two = run crc0 two_begun fresh

two-Inv : Inv two × Snaps two
two-Inv = run-Inv crc0 two_begun fresh fresh-Inv.0 fresh-Inv.1

run-Inv_example : Inv (run crc0 two_begun fresh) × Snaps (run crc0 two_begun fresh)
run-Inv_example = run-Inv crc0 two_begun fresh fresh-Inv.0 fresh-Inv.1

abbrev of_2 : Snapshot
of_2 = record { xmax = 4; active_xids = 3 ∷ [] }

abbrev two' : TransactionManager
two' = run crc0 (two_begun ++ snapshots 2 ∷ []) fresh

takes_of_2 : statement_snapshot 2 two ≡ (ok of_2, two')
unfolding run statement_snapshot require_usable make_snapshot begin Dict.get Dict.put Dict.elem
    Dict.add Dict.discard
takes_of_2 = refl

abbrev by_3 : TupleVersion
by_3 = record { xmin = 3; xmax = 0 }

snapshot_stability_example :
    is_visible by_3 of_2 2 (run crc0 (commits 3 ∷ []) two').statuses
    ≡ is_visible by_3 of_2 2 two.statuses
snapshot_stability_example =
    snapshot_stability crc0 (commits 3 ∷ []) 2 two two' of_2 by_3 two-Inv.0 two-Inv.1 takes_of_2

object_2 : Dict.get two.objects 2 ≡ some (new_transaction 2 repeatable_read)
unfolding run begin Dict.get Dict.put
object_2 = refl

abbrev two'' : TransactionManager
two'' = run crc0 (commits 3 ∷ []) two'

takes_of_2_again : statement_snapshot 2 two'' ≡ (ok of_2, two'')
unfolding run statement_snapshot require_usable make_snapshot begin commit mark_committed
    end_transaction set_status log_outcome Locks.release_all get_status Dict.get Dict.put Dict.elem
    Dict.add Dict.discard
takes_of_2_again = refl

snapshot_repeats_example : of_2 ≡ of_2
snapshot_repeats_example =
    snapshot_repeats crc0 (commits 3 ∷ []) 2 two two' two'' (new_transaction 2 repeatable_read) of_2
      of_2 two-Inv.0 object_2 refl takes_of_2 takes_of_2_again

-- Transaction 2 deletes a version and commits while 3 runs; then 4 begins.
abbrev deleted : TransactionManager
deleted = run crc0 (begins read_committed ∷ commits 2 ∷ begins read_committed ∷ []) fresh

deleted-Inv : Inv deleted × Snaps deleted
deleted-Inv =
    run-Inv crc0 (begins read_committed ∷ commits 2 ∷ begins read_committed ∷ []) fresh fresh-Inv.0
      fresh-Inv.1

abbrev old_version : TupleVersion
old_version = record { xmin = 1; xmax = 2 }

old_version_dead :
    classify_version old_version
      (cleanup_horizon (active_transactions deleted) deleted.next_xid)
      deleted.statuses
    ≡ dead
unfolding run classify_version cleanup_horizon active_transactions candidates least creator_status
    begin commit mark_committed end_transaction set_status log_outcome Locks.release_all get_status
    Dict.get Dict.put Dict.elem Dict.add Dict.discard
old_version_dead = refl

abbrev of_4 : Snapshot
of_4 = record { xmax = 5; active_xids = 3 ∷ [] }

abbrev then_4 : List Request
then_4 = begins repeatable_read ∷ []

abbrev after_4 : TransactionManager
after_4 = run crc0 (then_4 ++ snapshots 4 ∷ []) deleted

takes_of_4 : statement_snapshot 4 (run crc0 then_4 deleted) ≡ (ok of_4, after_4)
unfolding run statement_snapshot require_usable make_snapshot begin commit mark_committed
    end_transaction set_status log_outcome Locks.release_all get_status Dict.get Dict.put Dict.elem
    Dict.add Dict.discard
takes_of_4 = refl

vacuum_safety_example : is_visible old_version of_4 4 (run crc0 then_4 deleted).statuses ≡ false
vacuum_safety_example =
    vacuum_safety crc0 then_4 4 deleted after_4 of_4 old_version deleted-Inv.0 old_version_dead
      takes_of_4

-- A horizon is good for the outcomes of its own state only. The horizon is computed while 2, which is a
-- repeatable-read transaction with a snapshot, runs; then 3 takes a snapshot, and 2, which deleted
-- the version, commits.
abbrev early : TransactionManager
early = run crc0 (begins repeatable_read ∷ snapshots 2 ∷ []) fresh

abbrev of_3 : Snapshot
of_3 = record { xmax = 4; active_xids = 2 ∷ [] }

abbrev begun_3 : TransactionManager
begun_3 = run crc0 (begins repeatable_read ∷ []) early

abbrev late : TransactionManager
late = run crc0 (snapshots 3 ∷ commits 2 ∷ []) begun_3

stale_horizon :
    (statement_snapshot 3 begun_3 ≡ (ok of_3, run crc0 (snapshots 3 ∷ []) begun_3))
    × (classify_version old_version
          (cleanup_horizon (active_transactions early) early.next_xid)
          late.statuses
        ≡ dead)
    × (is_visible old_version of_3 3 late.statuses ≡ true)
unfolding run classify_version cleanup_horizon active_transactions candidates least creator_status
    is_visible statement_snapshot require_usable make_snapshot begin commit mark_committed
    end_transaction set_status log_outcome Locks.release_all get_status Dict.get Dict.put Dict.elem
    Dict.add Dict.discard
stale_horizon = (refl, refl, refl)
