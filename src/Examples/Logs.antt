-- ===== src/Examples/Logs.antt =====
-- Records of the log, and logs that are opened again.
use mini_postgres.Base.{
  ◌<◌, ◌≤◌, err, value_error, ℕ, ◌+◌, ◌≡◌, refl, false, none, some, List, [], ◌∷◌, ◌++◌, arith, ok,
  length, drop,
}
use mini_postgres.Bytes.{be_bytes, pack, read, put_slice}
use mini_postgres.Bytes.Struct.{pack_fields, unpack_fields}
use mini_postgres.Wal.Records.{
  record_length_from_header, payload, kind_value, encode_record, decode_payload, decode_record,
  checkpoint,
}
use mini_postgres.Wal.Codec.{decode_record-encode_record}
use mini_postgres.Wal.Manager.{WalManager, open_wal, append, flush, scan_descriptor}
use mini_postgres.Wal.Log.{done, Torn}
use mini_postgres.Wal.Durability.{
  IsConsistent, IsDurable, IsFlushed, append-IsConsistent, flush-IsFlushed, open-IsConsistent,
}

abbrev crc_sum : List ℕ → ℕ
crc_sum [] = 0
crc_sum (b ∷ bs) = b + crc_sum bs

-- a checkpoint record at LSN 0
abbrev record_0 : List ℕ
record_0 =
    77 ∷ 80 ∷ 87 ∷ 76 ∷ 1 ∷ 5 ∷ 0 ∷ 0 ∷ 0 ∷ 0 ∷ 0 ∷ 44 ∷ 0 ∷ 0 ∷ 0 ∷ 0 ∷ 0 ∷ 0 ∷ 0 ∷ 0 ∷ 0 ∷ 0 ∷ 0
    ∷ 0 ∷ 0 ∷ 0 ∷ 0 ∷ 3 ∷ 0 ∷ 0 ∷ 0 ∷ 8 ∷ 0 ∷ 0 ∷ 1 ∷ 132 ∷ 0 ∷ 0 ∷ 0 ∷ 0 ∷ 0 ∷ 0 ∷ 0 ∷ 7 ∷ []

encodes_0 : encode_record crc_sum 0 3 (checkpoint 7) ≡ ok record_0
unfolding encode_record payload kind_value pack_fields pack be_bytes put_slice
encodes_0 = refl

decode_record-encode_record_example :
    decode_record crc_sum record_0
    ≡ ok (record { lsn = 0; end_lsn = 0 + length record_0; xid = 3; entry = checkpoint 7 })
decode_record-encode_record_example =
    decode_record-encode_record crc_sum 0 3 (checkpoint 7) record_0 tt encodes_0

abbrev empty_log : WalManager
empty_log = record {
  file = [];
  durable = [];
  entries = [];
  end_lsn = 0;
  flushed_lsn = 0;
  closed = false;
}

empty_log-IsConsistent : IsConsistent crc_sum empty_log
empty_log-IsConsistent = record { framed = done; flushed = omega arith }

abbrev one_record : WalManager
one_record = record {
  file = record_0;
  durable = [];
  entries = (record { lsn = 0; end_lsn = 44; xid = 3; entry = checkpoint 7 }) ∷ [];
  end_lsn = 44;
  flushed_lsn = 0;
  closed = false;
}

appends_0 : append crc_sum empty_log 3 (checkpoint 7) ≡ ok one_record
unfolding append encode_record payload kind_value pack_fields pack be_bytes put_slice decode_record
    decode_payload unpack_fields read
appends_0 = refl

append-IsConsistent_example :
    IsConsistent crc_sum one_record
    × (one_record.flushed_lsn ≡ empty_log.flushed_lsn)
    × (IsDurable crc_sum empty_log → IsDurable crc_sum one_record)
append-IsConsistent_example =
    append-IsConsistent crc_sum empty_log one_record 3 (checkpoint 7) empty_log-IsConsistent tt
      appends_0

flushes_0 : flush one_record none ≡ ok (record one_record { durable = record_0; flushed_lsn = 44 })
unfolding flush
flushes_0 = refl

flush-IsFlushed_example :
    (44 < 40 → flush one_record (some 40) ≡ err value_error)
    × (40 ≤ 44
        → (w' : WalManager) × (flush one_record (some 40) ≡ ok w')
          × IsFlushed crc_sum one_record w')
    × ((w' : WalManager) × (flush one_record none ≡ ok w') × IsFlushed crc_sum one_record w')
flush-IsFlushed_example =
    flush-IsFlushed crc_sum one_record 40 append-IsConsistent_example.0 refl refl

-- the first bytes of a second record
short_tail : Torn crc_sum (77 ∷ 80 ∷ 87 ∷ 76 ∷ 1 ∷ [])
short_tail = record {
  lsn = 0;
  xid = 3;
  entry = checkpoint 7;
  whole = record_0;
  lost = drop 5 record_0;
  encoded = encodes_0;
  split = refl;
  short = omega arith;
}

open-IsConsistent_example :
    open_wal crc_sum [] (one_record.file ++ (77 ∷ 80 ∷ 87 ∷ 76 ∷ 1 ∷ []))
    ≡ some (ok (record one_record { durable = record_0; flushed_lsn = 44; closed = false }))
open-IsConsistent_example =
    open-IsConsistent crc_sum one_record [] (77 ∷ 80 ∷ 87 ∷ 76 ∷ 1 ∷ [])
      append-IsConsistent_example.0 short_tail

-- A log that is opened without a tail is not synchronized, though it counts as flushed: no flush before
-- the next append puts it on the disk.
opened_unsynchronized :
    open_wal crc_sum [] record_0
    ≡ some (ok (record one_record { flushed_lsn = 44; closed = false }))
unfolding open_wal scan_descriptor record_length_from_header decode_record decode_payload
    unpack_fields read put_slice be_bytes
opened_unsynchronized = refl
