-- ===== src/Wal/Manager.antt =====
-- wal/manager.py. The descriptor is the list of the bytes of the file, beside those that the last
-- fsync put on the disk, which are all that is sure to be there after the machine fails. Writes by
-- pwrite are whole, and no call of the operating system raises.
use mini_postgres.Base.{
  ℕ, zero, suc, ◌+◌, Bool, true, false, not, Option, none, some, List, [], ◌∷◌, ◌++◌, leb, ltb,
  if◌then◌else◌, Error, Result, ok, err, corrupt_wal, runtime_error, value_error, ◌>>=◌, length,
  take, drop, nat_hashable, ◌==◌,
}
use mini_postgres.Bytes.{put_slice}
use mini_postgres.Wal.Records.{
  WalRecord, DecodedWalRecord, header_size, encode_record, decode_record, record_length_from_header,
}

pub record WalManager : Type 0 where
  pub file : List ℕ
  pub durable : List ℕ
  pub entries : List DecodedWalRecord
  pub end_lsn : ℕ
  pub flushed_lsn : ℕ
  pub closed : Bool

abbrev pub Scan : Type 0
Scan = List DecodedWalRecord × ℕ

-- except CorruptWal: a record that ends the file is a torn tail, any other is an error
unfoldable pub stop_if_last : Error → Bool → ℕ → Result Scan
stop_if_last corrupt_wal true cursor = ok ([], cursor)
stop_if_last e last cursor = err e

abbrev pub cons_entry : DecodedWalRecord → Option (Result Scan) → Option (Result Scan)
cons_entry entry none = none
cons_entry entry (some (err e)) = some (err e)
cons_entry entry (some (ok (entries, cursor))) = some (ok (entry ∷ entries, cursor))

-- _scan_descriptor over the bytes from the cursor on; none means that the fuel ran out
unfoldable pub scan_descriptor : (List ℕ → ℕ) → ℕ → ℕ → List ℕ → Option (Result Scan)
scan_descriptor crc32 zero cursor bs = none
scan_descriptor crc32 (suc fuel) cursor bs =
    if ltb (length bs) header_size
    then some (ok ([], cursor))
    else elim (record_length_from_header (take header_size bs)) [
      | err e ↦ some (stop_if_last e (length bs == header_size) cursor)
      | ok total ↦
          if ltb (length bs) total
          then some (ok ([], cursor))
          else elim (decode_record crc32 (take total bs)) [
            | err e ↦ some (stop_if_last e (length bs == total) cursor)
            | ok entry ↦
                let rest = scan_descriptor crc32 fuel (cursor + total) (drop total bs) in
                if not (entry.lsn == cursor) then some (err corrupt_wal) else cons_entry entry rest
          ]
    ]

-- Only if a tail is cut off is the file synchronized.
unfoldable opened : List ℕ → List ℕ → Option (Result Scan) → Option (Result WalManager)
opened durable file none = none
opened durable file (some (err e)) = some (err e)
opened durable file (some (ok (entries, valid_end))) = some (
    ok (record {
      file = take valid_end file;
      durable = if valid_end == length file then durable else take valid_end file;
      entries = entries;
      end_lsn = valid_end;
      flushed_lsn = valid_end;
      closed = false;
    }))

-- WalManager.open: a torn tail is cut off
unfoldable pub open_wal : (List ℕ → ℕ) → List ℕ → List ℕ → Option (Result WalManager)
unfolding opened
open_wal crc32 durable file = opened durable file (scan_descriptor crc32 (suc (length file)) 0 file)

abbrev pub ensure_open : {A : Type 0} → WalManager → Result A → Result A
ensure_open w r = if w.closed then err runtime_error else r

-- WalManager.append; whatever raises does so before the manager has changed
unfoldable pub append : (List ℕ → ℕ) → WalManager → ℕ → WalRecord → Result WalManager
append crc32 w xid r = ensure_open w (do
  encoded ← encode_record crc32 w.end_lsn xid r
  decoded ← decode_record crc32 encoded
  ok (record w {
    file = put_slice w.end_lsn encoded w.file;
    entries = w.entries ++ decoded ∷ [];
    end_lsn = decoded.end_lsn;
  }))

-- os.fsync, and the flushed LSN with it
abbrev synchronized : WalManager → WalManager
synchronized w = record w { durable = w.file; flushed_lsn = w.end_lsn }

-- WalManager.flush; none is flush()
unfoldable pub flush : WalManager → Option ℕ → Result WalManager
flush w none = ensure_open w (if ltb w.flushed_lsn w.end_lsn then ok (synchronized w) else ok w)
flush w (some required_lsn) = ensure_open w (
    if ltb w.end_lsn required_lsn
    then err value_error
    else if ltb w.flushed_lsn w.end_lsn
    then ok (synchronized w)
    else ok w)

from_lsn : ℕ → List DecodedWalRecord → List DecodedWalRecord
from_lsn start [] = []
from_lsn start (e ∷ es) = let rest = from_lsn start es in if leb start e.lsn then e ∷ rest else rest

-- WalManager.scan
unfoldable pub scan : WalManager → ℕ → Result (List DecodedWalRecord)
unfolding from_lsn
scan w start_lsn = ensure_open w (ok (from_lsn start_lsn w.entries))

-- WalManager.close
unfoldable pub close : WalManager → WalManager
close w = if w.closed then w else record w { closed = true }
