-- ===== src/Wal/Codec.antt =====
-- Encoding and then decoding a record of wal/records.py.
use mathlib.Core.List.{append_assoc, append-nil}
use native.Mathlib.Nat.{mod-lt}
use mini_postgres.Base.{
  ℕ, ◌+◌, ◌%◌, ◌^◌, ◌<◌, ◌≡◌, refl, sym, ◌∙◌, some, List, [], ◌∷◌, ◌++◌, arith, ok, >>=-eq-ok,
  ok_injective, length, length-append, nat_hashable,
}
use mini_postgres.Bytes.{be_bytes, pack, put_slice, put_slice-middle, length-be_bytes}
use mini_postgres.Bytes.Struct.{
  Fields, pack_fields, unpack_fields, unpack_fields-pack_fields, length-pack_fields,
  pack_fields-append, pack_fields-snoc,
}
use mini_postgres.Wal.Records.{
  WalRecord, kind_value, payload, magic, header_size, checksum_offset, header_fields, header_widths,
  encode_record, record_length_from_header, decode_record,
}
use mini_postgres.Wal.RoundTrip.{IsRecord, decode_payload-payload}

pack-be_bytes : (w n : ℕ) → n < 256 ^ w → pack w n ≡ ok (be_bytes w n)
unfolding pack
pack-be_bytes w n h = ground arith

-- The checksum that encode_record writes for a prefix of the header and a payload.
pub checksum : (List ℕ → ℕ) → List ℕ → List ℕ → ℕ
checksum crc32 prefix body = crc32 (prefix ++ (be_bytes 4 0 ++ body)) % 2 ^ 32

pub checksum-lt : (crc32 : List ℕ → ℕ) (prefix body : List ℕ) → checksum crc32 prefix body < 256 ^ 4
unfolding checksum
checksum-lt crc32 prefix body = mod-lt (crc32 (prefix ++ (be_bytes 4 0 ++ body))) (omega arith)

-- The parts of an encoded record.
pub record Encoded (crc32 : List ℕ → ℕ) (lsn xid : ℕ) (r : WalRecord) (bs : List ℕ) : Type 0 where
  pub body : List ℕ
  pub prefix : List ℕ
  pub body_eq : payload r ≡ ok body
  pub prefix_eq : pack_fields (header_fields (kind_value r) lsn xid (length body)) ≡ ok prefix
  pub bytes_eq : bs ≡ prefix ++ (be_bytes 4 (checksum crc32 prefix body) ++ body)

-- Overwriting the four bytes of the checksum.
splice_checksum :
    (prefix old new body : List ℕ)
    → length prefix ≡ checksum_offset
    → length old ≡ 4
    → length new ≡ 4
    → put_slice checksum_offset new (prefix ++ (old ++ body)) ≡ prefix ++ (new ++ body)
splice_checksum prefix old new body h ho hn =
    rw (← h) (put_slice-middle prefix old new body (hn ∙ sym ho))

pack_one : (w n : ℕ) (ys : List ℕ) → pack_fields ((w, n) ∷ []) ≡ ok ys → be_bytes w n ≡ ys
unfolding pack_fields pack
pack_one w n ys h = ground (arith, append-nil (be_bytes w n))

encoded_bytes :
    (crc32 : List ℕ → ℕ) (prefix header body bs : List ℕ)
    → length prefix ≡ checksum_offset
    → header ≡ prefix ++ be_bytes 4 0
    → put_slice checksum_offset (be_bytes 4 (crc32 (header ++ body) % 2 ^ 32)) (header ++ body) ≡ bs
    → bs ≡ prefix ++ (be_bytes 4 (checksum crc32 prefix body) ++ body)
unfolding checksum
encoded_bytes crc32 prefix header body bs hl hh hb =
    let e : header ++ body ≡ prefix ++ (be_bytes 4 0 ++ body) =
      rw (hh, append_assoc prefix (be_bytes 4 0) body) refl in
    let c : ℕ = crc32 (prefix ++ (be_bytes 4 0 ++ body)) % 2 ^ 32 in
    sym (rw e at hb)
    ∙ splice_checksum prefix (be_bytes 4 0) (be_bytes 4 c) body hl (length-be_bytes 4 0)
        (length-be_bytes 4 c)

-- What a successful encode_record has written.
pub encode_record-Encoded :
    (crc32 : List ℕ → ℕ) (lsn xid : ℕ) (r : WalRecord) (bs : List ℕ)
    → encode_record crc32 lsn xid r ≡ ok bs
    → Encoded crc32 lsn xid r bs
unfolding encode_record
encode_record-Encoded crc32 lsn xid r bs h =
    let (body, hb, h') = >>=-eq-ok (payload r) _ h in
    let fs : Fields = header_fields (kind_value r) lsn xid (length body) in
    let (header, hh, e) = >>=-eq-ok (pack_fields (fs ++ (4, 0) ∷ [])) _ h' in
    let (prefix, zeros, hp, hz, e') = pack_fields-append fs ((4, 0) ∷ []) header hh in
    record {
      body = body;
      prefix = prefix;
      body_eq = hb;
      prefix_eq = hp;
      bytes_eq =
          encoded_bytes crc32 prefix header body bs (length-pack_fields fs prefix hp)
            (rw (pack_one 4 0 zeros hz) e') (ok_injective e);
    }

module _ (crc32 : List ℕ → ℕ) (lsn xid : ℕ) (r : WalRecord) (bs : List ℕ)
    (v : Encoded crc32 lsn xid r bs) where
  open v use {body, prefix, body_eq, prefix_eq, bytes_eq}

  pub length-Encoded : length bs ≡ header_size + length body
  length-Encoded = rw bytes_eq (
      omega (
        arith,
        length-append prefix (be_bytes 4 (checksum crc32 prefix body) ++ body),
        length-append (be_bytes 4 (checksum crc32 prefix body)) body,
        length-be_bytes 4 (checksum crc32 prefix body),
        length-pack_fields (header_fields (kind_value r) lsn xid (length body)) prefix prefix_eq,
      ))

  abbrev pub header_values : List ℕ
  header_values =
      magic
      ∷ 1
      ∷ kind_value r
      ∷ 0
      ∷ (header_size + length body)
      ∷ lsn
      ∷ xid
      ∷ length body
      ∷ checksum crc32 prefix body
      ∷ []

  pub header : List ℕ
  header = prefix ++ be_bytes 4 (checksum crc32 prefix body)

  pub length-header : length header ≡ header_size
  unfolding header
  length-header = omega (
    arith,
    length-append prefix (be_bytes 4 (checksum crc32 prefix body)),
    length-be_bytes 4 (checksum crc32 prefix body),
    length-pack_fields (header_fields (kind_value r) lsn xid (length body)) prefix prefix_eq,
  )

  pub bytes-header : bs ≡ header ++ body
  unfolding header
  bytes-header = bytes_eq ∙ sym (append_assoc prefix (be_bytes 4 (checksum crc32 prefix body)) body)

  pub unpack-header :
      (rest : List ℕ) → unpack_fields header_widths (header ++ rest) ≡ some (header_values, rest)
  unfolding header
  unpack-header rest =
      let c : ℕ = checksum crc32 prefix body in
      let fs : Fields = header_fields (kind_value r) lsn xid (length body) in
      unpack_fields-pack_fields (fs ++ (4, c) ∷ []) (prefix ++ be_bytes 4 c) rest (
        pack_fields-snoc fs 4 c prefix (be_bytes 4 c) prefix_eq
          (pack-be_bytes 4 c (checksum-lt crc32 prefix body)))

  -- The header alone gives the length of the record.
  pub record_length-Encoded : record_length_from_header header ≡ ok (length bs)
  unfolding record_length_from_header
  record_length-Encoded =
      ground (arith, length-header, unpack-header [], append-nil header, length-Encoded)

  zeroed : put_slice checksum_offset (be_bytes 4 0) bs ≡ prefix ++ (be_bytes 4 0 ++ body)
  zeroed =
      let c : ℕ = checksum crc32 prefix body in
      rw bytes_eq (
        splice_checksum prefix (be_bytes 4 c) (be_bytes 4 0) body
          (length-pack_fields (header_fields (kind_value r) lsn xid (length body)) prefix prefix_eq)
          (length-be_bytes 4 c) (length-be_bytes 4 0))

  decode-Encoded :
      IsRecord r
      → decode_record crc32 bs
        ≡ ok (record { lsn = lsn; end_lsn = lsn + length bs; xid = xid; entry = r })
  unfolding decode_record checksum
  decode-Encoded w = ground (
    arith,
    length-Encoded,
    bytes-header,
    unpack-header body,
    zeroed,
    decode_payload-payload r body w body_eq,
  )

-- Decoding an encoded record gives its LSN, the LSN behind it, its XID and the record.
pub decode_record-encode_record :
    (crc32 : List ℕ → ℕ) (lsn xid : ℕ) (r : WalRecord) (bs : List ℕ)
    → IsRecord r
    → encode_record crc32 lsn xid r ≡ ok bs
    → decode_record crc32 bs
      ≡ ok (record { lsn = lsn; end_lsn = lsn + length bs; xid = xid; entry = r })
decode_record-encode_record crc32 lsn xid r bs w h =
    decode-Encoded crc32 lsn xid r bs (encode_record-Encoded crc32 lsn xid r bs h) w
