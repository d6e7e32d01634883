-- ===== src/Wal/Log.antt =====
-- The log of wal/manager.py: what a scan of its file finds.
use mathlib.Core.List.{append_assoc, append-nil}
use mini_postgres.Base.{
  ℕ, zero, suc, ◌+◌, ◌≤◌, ◌<◌, ◌≡◌, refl, ap, ◌∙◌, some, List, [], ◌∷◌, ◌++◌, arith, ok, length,
  length-append, take, drop, nat_hashable, take-append_length, drop-append_length, subst,
}
use mini_postgres.Wal.Records.{
  WalRecord, DecodedWalRecord, header_size, encode_record, record_length_from_header,
}
use mini_postgres.Wal.RoundTrip.{IsRecord}
use mini_postgres.Wal.Codec.{
  Encoded, encode_record-Encoded, length-Encoded, header, length-header, bytes-header,
  record_length-Encoded, decode_record-encode_record,
}
use mini_postgres.Wal.Manager.{cons_entry, scan_descriptor}

module _ (crc32 : List ℕ → ℕ) where
  -- Bytes from one LSN to another that are whole records, and their decoded forms.
  pub data Framed : ℕ → List ℕ → List DecodedWalRecord → ℕ → Type 0 where
    done : {c : ℕ} → Framed c [] [] c
    more :
        {c e : ℕ} {rest : List ℕ} {es : List DecodedWalRecord}
        → (xid : ℕ) (r : WalRecord) (bs : List ℕ) → IsRecord r
        → encode_record crc32 c xid r ≡ ok bs
        → Framed (c + length bs) rest es e
        → Framed c
            (bs ++ rest)
            (record { lsn = c; end_lsn = c + length bs; xid = xid; entry = r } ∷ es)
            e

  -- The beginning of an encoded record, which a crash may leave; it may be empty.
  pub record Torn (tail : List ℕ) : Type 0 where
    pub lsn : ℕ
    pub xid : ℕ
    pub entry : WalRecord
    pub whole : List ℕ
    pub lost : List ℕ
    pub encoded : encode_record crc32 lsn xid entry ≡ ok whole
    pub split : whole ≡ tail ++ lost
    pub short : length tail < length whole

  take_exact : (n : ℕ) (xs ys : List ℕ) → length xs ≡ n → take n (xs ++ ys) ≡ xs
  take_exact n xs ys h = rw (← h) (take-append_length xs ys)

  drop_exact : (n : ℕ) (xs ys : List ℕ) → length xs ≡ n → drop n (xs ++ ys) ≡ ys
  drop_exact n xs ys h = rw (← h) (drop-append_length xs ys)

  -- The header of an encoded record is found whatever follows it.
  header_found :
      (c xid : ℕ) (r : WalRecord) (bs rest : List ℕ)
      → encode_record crc32 c xid r ≡ ok bs
      → (record_length_from_header (take header_size (bs ++ rest)) ≡ ok (length bs))
        × (header_size ≤ length bs)
  header_found c xid r bs rest h =
      let v : Encoded crc32 c xid r bs = encode_record-Encoded crc32 c xid r bs h in
      let head : List ℕ = header crc32 c xid r bs v in
      let e : bs ++ rest ≡ head ++ (v.body ++ rest) =
        ap (λ (t : List ℕ). t ++ rest) (bytes-header crc32 c xid r bs v)
        ∙ append_assoc head v.body rest in
      (
        rw (e, take_exact header_size head (v.body ++ rest) (length-header crc32 c xid r bs v))
            (record_length-Encoded crc32 c xid r bs v),
        omega (arith, length-Encoded crc32 c xid r bs v),
      )

  -- One round of the scan over a whole record.
  scan_whole :
      (fuel c xid : ℕ) (r : WalRecord) (bs rest : List ℕ)
      → IsRecord r
      → encode_record crc32 c xid r ≡ ok bs
      → scan_descriptor crc32 (suc fuel) c (bs ++ rest)
        ≡ cons_entry
            (record { lsn = c; end_lsn = c + length bs; xid = xid; entry = r })
            (scan_descriptor crc32 fuel (c + length bs) rest)
  unfolding scan_descriptor
  scan_whole fuel c xid r bs rest w h = ground (
    arith,
    header_found c xid r bs rest h,
    length-append bs rest,
    take-append_length bs rest,
    drop-append_length bs rest,
    decode_record-encode_record crc32 c xid r bs w h,
  )

  take-append_le :
      {A : Type 0} (n : ℕ) (xs ys : List A) → n ≤ length xs → take n (xs ++ ys) ≡ take n xs
  take-append_le zero xs ys h = refl
  take-append_le (suc n) [] ys h = absurd (omega arith)
  take-append_le (suc n) (x ∷ xs) ys h = ap (◌∷◌ x) (take-append_le n xs ys (omega arith))

  Torn-header :
      (tail : List ℕ) (t : Torn tail)
      → header_size ≤ length tail
      → record_length_from_header (take header_size tail) ≡ ok (length t.whole)
  Torn-header tail t h =
      let found = (header_found t.lsn t.xid t.entry t.whole [] t.encoded).0 in
      let e : take header_size (t.whole ++ []) ≡ take header_size tail =
        ap (take header_size) (append-nil t.whole ∙ t.split)
        ∙ take-append_le header_size tail t.lost h in
      rw e at found

  -- The scan stops at a torn record.
  scan-Torn :
      (fuel c : ℕ) (tail : List ℕ)
      → Torn tail
      → scan_descriptor crc32 (suc fuel) c tail ≡ some (ok ([], c))
  unfolding scan_descriptor
  scan-Torn fuel c tail t = ground (arith, Torn-header tail t, t.short)

  -- A scan of whole records and a torn one behind them finds exactly the whole records.
  pub scan-Framed :
      (tail : List ℕ) (fuel : ℕ) {c e : ℕ} {bs : List ℕ} {es : List DecodedWalRecord}
      → Torn tail
      → Framed c bs es e
      → length bs < fuel
      → scan_descriptor crc32 fuel c (bs ++ tail) ≡ some (ok (es, e))
  scan-Framed tail zero t fr h = absurd (omega arith)
  scan-Framed tail (suc fuel) {c} t done h = scan-Torn fuel c tail t
  scan-Framed tail (suc fuel) {c} t (more {rest = rest} xid r bs w enc fr) h =
      let ih =
        scan-Framed tail fuel t fr
          (omega (arith, length-append bs rest, (header_found c xid r bs [] enc).1)) in
      rw (append_assoc bs rest tail)
        (rw (scan_whole fuel c xid r bs (rest ++ tail) w enc) (rw ih refl))

  -- One more record at the end.
  pub Framed-append :
      {c e : ℕ} {bs : List ℕ} {es : List DecodedWalRecord}
      → Framed c bs es e
      → (xid : ℕ) (r : WalRecord) (new : List ℕ) → IsRecord r
      → encode_record crc32 e xid r ≡ ok new
      → Framed c
          (bs ++ new)
          (es ++ (record { lsn = e; end_lsn = e + length new; xid = xid; entry = r }) ∷ [])
          (e + length new)
  Framed-append {c} done xid r new w enc =
      subst
        (λ b.
          Framed c b (record { lsn = c; end_lsn = c + length new; xid = xid; entry = r } ∷ [])
            (c + length new))
        (append-nil new) (more xid r new w enc done)
  Framed-append (more {rest = rest} xid' r' bs' w' enc' fr) xid r new w enc =
      rw (append_assoc bs' rest new) (more xid' r' bs' w' enc' (Framed-append fr xid r new w enc))

  pub Framed-length :
      {c e : ℕ} {bs : List ℕ} {es : List DecodedWalRecord} → Framed c bs es e → e ≡ c + length bs
  Framed-length done = omega arith
  Framed-length (more {rest = rest} xid r bs w enc fr) =
      omega (arith, length-append bs rest, Framed-length fr)
