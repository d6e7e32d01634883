-- ===== src/Wal/Records.antt =====
-- wal/records.py: the binary codec of WAL records. `crc32` stands for zlib.crc32.
use mini_postgres.Base.{
  ℕ, zero, suc, ◌+◌, ◌%◌, ◌^◌, Bool, ◌||◌, ◌&&◌, not, Option, none, some, List, [], ◌∷◌, ◌++◌, ltb,
  if◌then◌else◌, Result, ok, err, corrupt_wal, value_error, struct_error, ◌>>=◌, length, take, drop,
  nat_hashable, ◌==◌,
}
use mini_postgres.Bytes.{be_bytes, pack, put_slice}
use mini_postgres.Bytes.Struct.{Fields, pack_fields, unpack_fields}
use mini_postgres.Storage.Identifiers.{PageKey, fork_value, fork_kind, page_size}

abbrev pub Image : Type 0
Image = PageKey × List ℕ

pub data WalRecord : Type 0 where
  begin commit abort : WalRecord
  heap_page_images : List Image → WalRecord
  checkpoint : ℕ → WalRecord

unfoldable pub all_complete : List Image → Bool
all_complete [] = Bool.true
all_complete ((k, image) ∷ images) = (length image == page_size) && all_complete images

-- HeapPageImagesRecord(images), with the checks of __post_init__
unfoldable pub make_page_images : List Image → Result WalRecord
unfolding all_complete
make_page_images [] = err value_error
make_page_images (i ∷ images) =
    if all_complete (i ∷ images) then ok (heap_page_images (i ∷ images)) else err value_error

pub record DecodedWalRecord : Type 0 where
  pub lsn : ℕ
  pub end_lsn : ℕ
  pub xid : ℕ
  pub entry : WalRecord

-- int(_kind(record))
unfoldable pub kind_value : WalRecord → ℕ
kind_value begin = 1
kind_value (heap_page_images images) = 2
kind_value commit = 3
kind_value abort = 4
kind_value (checkpoint lsn) = 5

-- the chunks of one image: _PAGE_IMAGE_HEADER and the page
unfoldable pub pack_images : List Image → Result (List ℕ)
pack_images [] = ok []
pack_images ((key, image) ∷ images) = do
  header ←
      pack_fields
        ((1, fork_value key.relation.fork) ∷ (8, key.relation.object_id) ∷ (8, key.page_id) ∷ [])
  rest ← pack_images images
  ok (header ++ (image ++ rest))

-- _payload
unfoldable pub payload : WalRecord → Result (List ℕ)
payload (heap_page_images images) = do
  count ← pack 4 (length images)
  chunks ← pack_images images
  ok (count ++ chunks)
payload (checkpoint redo_lsn) = pack 8 redo_lsn
payload _ = ok []

-- b"MPWL", the size of the header and the offset of its checksum
abbrev pub magic : ℕ
magic = 0x4d50574c

abbrev pub header_size : ℕ
header_size = 36

abbrev pub checksum_offset : ℕ
checksum_offset = 32

-- the header's fields in front of the checksum
abbrev pub header_fields : ℕ → ℕ → ℕ → ℕ → Fields
header_fields kind lsn xid payload_length =
    (4, magic)
    ∷ (1, 1)
    ∷ (1, kind)
    ∷ (2, 0)
    ∷ (4, header_size + payload_length)
    ∷ (8, lsn)
    ∷ (8, xid)
    ∷ (4, payload_length)
    ∷ []

abbrev pub header_widths : List ℕ
header_widths = 4 ∷ 1 ∷ 1 ∷ 2 ∷ 4 ∷ 8 ∷ 8 ∷ 4 ∷ 4 ∷ []

unfoldable pub encode_record : (List ℕ → ℕ) → ℕ → ℕ → WalRecord → Result (List ℕ)
encode_record crc32 lsn xid record' = do
  body ← payload record'
  header ← pack_fields (header_fields (kind_value record') lsn xid (length body) ++ (4, 0) ∷ [])
  let encoded = header ++ body
  let checksum = crc32 encoded % 2 ^ 32
  ok (put_slice checksum_offset (be_bytes 4 checksum) encoded)

length_if_valid : Option (List ℕ × List ℕ) → Result ℕ
length_if_valid (some (m ∷ version ∷ kind ∷ flags ∷ total ∷ lsn ∷ xid ∷ size ∷ crc ∷ [], rest)) =
    if not (m == magic) || (not (version == 1) || not (flags == 0))
    then err corrupt_wal
    else if total == header_size + size
    then ok total
    else err corrupt_wal
length_if_valid _ = err struct_error

unfoldable pub record_length_from_header : List ℕ → Result ℕ
unfolding length_if_valid
record_length_from_header header =
    if not (length header == header_size)
    then err corrupt_wal
    else length_if_valid (unpack_fields header_widths header)

-- one round of the loop of _decode_payload, over the bytes from the cursor on
unfoldable pub decode_images : ℕ → List ℕ → Result (List Image × List ℕ)
decode_images zero bs = ok ([], bs)
decode_images (suc count) bs =
    if ltb (length bs) (17 + page_size)
    then err corrupt_wal
    else elim (unpack_fields (1 ∷ 8 ∷ 8 ∷ []) bs) [
      | some (fork_number ∷ object_id ∷ page_id ∷ [], rest) ↦ elim (fork_kind fork_number) [
        | none ↦ err corrupt_wal
        | some fork ↦ do
          (images, left) ← decode_images count (drop page_size rest)
          let key : PageKey = record {
            relation = record { fork = fork; object_id = object_id };
            page_id = page_id;
          }
          ok ((key, take page_size rest) ∷ images, left)
      ]
      | _ ↦ err struct_error
    ]

-- cursor != len(payload) or not images
images_record : List Image × List ℕ → Result WalRecord
images_record (i ∷ images, []) = make_page_images (i ∷ images)
images_record _ = err corrupt_wal

decode_counted : Option (List ℕ × List ℕ) → Result WalRecord
decode_counted (some (count ∷ [], rest)) = do found ← decode_images count rest; images_record found
decode_counted _ = err corrupt_wal

decode_lsn : Option (List ℕ × List ℕ) → Result WalRecord
decode_lsn (some (redo_lsn ∷ [], [])) = ok (checkpoint redo_lsn)
decode_lsn _ = err corrupt_wal

require_empty : List ℕ → WalRecord → Result WalRecord
require_empty [] r = ok r
require_empty (b ∷ bs) r = err corrupt_wal

-- RecordKind(kind) and _decode_payload
unfoldable pub decode_payload : ℕ → List ℕ → Result WalRecord
unfolding images_record decode_counted decode_lsn require_empty
decode_payload kind body =
    if kind == 1
    then require_empty body begin
    else if kind == 3
    then require_empty body commit
    else if kind == 4
    then require_empty body abort
    else if kind == 5
    then decode_lsn (unpack_fields (8 ∷ []) body)
    else if kind == 2
    then decode_counted (unpack_fields (4 ∷ []) body)
    else err corrupt_wal

decode_fields : (List ℕ → ℕ) → List ℕ → Option (List ℕ × List ℕ) → Result DecodedWalRecord
decode_fields crc32 encoded
      (some (m ∷ version ∷ kind ∷ flags ∷ total ∷ lsn ∷ xid ∷ size ∷ crc ∷ [], body)) =
    if not (m == magic) || (not (version == 1) || not (flags == 0))
    then err corrupt_wal
    else if not (total == length encoded) || not (header_size + size == length encoded)
    then err corrupt_wal
    else if not (crc32 (put_slice checksum_offset (be_bytes 4 0) encoded) % 2 ^ 32 == crc)
    then err corrupt_wal
    else do
      entry ← decode_payload kind body
      ok (record { lsn = lsn; end_lsn = lsn + total; xid = xid; entry = entry })
decode_fields crc32 encoded _ = err struct_error

unfoldable pub decode_record : (List ℕ → ℕ) → List ℕ → Result DecodedWalRecord
unfolding decode_fields
decode_record crc32 encoded =
    if ltb (length encoded) header_size
    then err corrupt_wal
    else decode_fields crc32 encoded (unpack_fields header_widths encoded)
