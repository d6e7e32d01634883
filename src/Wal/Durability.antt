-- ===== src/Wal/Durability.antt =====
-- The invariant of wal/manager.py under append and flush, and what WalManager.open recovers.
use mathlib.Core.List.{append-nil}
use mathlib.Core.Path.{ap₂}
use mini_postgres.Base.{
  Bool, true, Bool-cases, if◌then◌else◌, ◌==◌, ltb, ◌<◌, sym, ◌∙◌, err, value_error, ℕ, zero, suc,
  ◌+◌, ◌≤◌, ◌≡◌, refl, ap, false, none, some, List, [], ◌∷◌, ◌++◌, arith, ok, length, length-append,
  take, drop, nat_hashable, take-append_length, subst, inl, inr, Result-cases,
}
use mini_postgres.Bytes.{put_slice}
use mini_postgres.Wal.Records.{WalRecord, encode_record}
use mini_postgres.Wal.RoundTrip.{IsRecord}
use mini_postgres.Wal.Codec.{decode_record-encode_record}
use mini_postgres.Wal.Manager.{WalManager, open_wal, append, flush}
use mini_postgres.Wal.Log.{Framed, Torn, scan-Framed, Framed-append, Framed-length}

take_all : {A : Type 0} (n : ℕ) (xs : List A) → length xs ≤ n → take n xs ≡ xs
take_all zero [] h = refl
take_all zero (x ∷ xs) h = absurd (omega arith)
take_all (suc n) [] h = refl
take_all (suc n) (x ∷ xs) h = ap (◌∷◌ x) (take_all n xs (omega arith))

drop_all : {A : Type 0} (n : ℕ) (xs : List A) → length xs ≤ n → drop n xs ≡ []
drop_all zero [] h = refl
drop_all zero (x ∷ xs) h = absurd (omega arith)
drop_all (suc n) [] h = refl
drop_all (suc n) (x ∷ xs) h = drop_all n xs (omega arith)

take-append_le :
    {A : Type 0} (n : ℕ) (xs ys : List A) → n ≤ length xs → take n (xs ++ ys) ≡ take n xs
take-append_le zero xs ys h = refl
take-append_le (suc n) [] ys h = absurd (omega arith)
take-append_le (suc n) (x ∷ xs) ys h = ap (◌∷◌ x) (take-append_le n xs ys (omega arith))

abbrev pub is_empty : List ℕ → Bool
is_empty [] = true
is_empty (b ∷ bs) = false

put_slice_end : (n : ℕ) (bs new : List ℕ) → n ≡ length bs → put_slice n new bs ≡ bs ++ new
unfolding put_slice
put_slice_end n bs new h =
    rw (take_all n bs (omega arith), drop_all (n + length new) bs (omega arith), append-nil new)
      refl

module _ (crc32 : List ℕ → ℕ) where
  -- The manager's entries are what its file holds, up to its end LSN.
  pub record IsConsistent (w : WalManager) : Type 0 where
    pub framed : Framed crc32 0 w.file w.entries w.end_lsn
    pub flushed : w.flushed_lsn ≤ w.end_lsn

  -- What the file holds below the flushed LSN is on the disk.
  abbrev pub IsDurable : WalManager → Type 0
  IsDurable w = take w.flushed_lsn w.durable ≡ take w.flushed_lsn w.file

  abbrev appended : WalManager → ℕ → WalRecord → List ℕ → WalManager
  appended w xid r bs = record w {
    file = w.file ++ bs;
    entries =
        w.entries
        ++ (record { lsn = w.end_lsn; end_lsn = w.end_lsn + length bs; xid = xid; entry = r }) ∷ [];
    end_lsn = w.end_lsn + length bs;
  }

  -- What a successful append has done.
  append-eq-ok :
      (w w' : WalManager) (xid : ℕ) (r : WalRecord)
      → IsConsistent w
      → IsRecord r
      → append crc32 w xid r ≡ ok w'
      → (bs : List ℕ) × (encode_record crc32 w.end_lsn xid r ≡ ok bs)
        × (w.closed ≡ false)
        × (appended w xid r bs ≡ w')
  unfolding append
  append-eq-ok w w' xid r v wr h = elim (Result-cases (encode_record crc32 w.end_lsn xid r)) [
    | inl (bs, e) ↦ (
      bs,
      e,
      ground arith,
      ground (
        arith,
        decode_record-encode_record crc32 w.end_lsn xid r bs wr e,
        put_slice_end w.end_lsn w.file bs (omega (arith, Framed-length crc32 v.framed)),
      ),
    )
    | inr (x, e) ↦ absurd (ground arith)
  ]

  -- A successful append keeps the invariant and leaves the flushed LSN as it was. If what the file holds
  -- below the flushed LSN was on the disk, it still is.
  pub append-IsConsistent :
      (w w' : WalManager) (xid : ℕ) (r : WalRecord)
      → IsConsistent w
      → IsRecord r
      → append crc32 w xid r ≡ ok w'
      → IsConsistent w' × (w'.flushed_lsn ≡ w.flushed_lsn) × (IsDurable w → IsDurable w')
  append-IsConsistent w w' xid r v wr h =
      let (bs, e, open', e') = append-eq-ok w w' xid r v wr h in
      let l = Framed-length crc32 v.framed in
      subst (λ u. IsConsistent u × (u.flushed_lsn ≡ w.flushed_lsn) × (IsDurable w → IsDurable u)) e'
        (
          record {
            framed = Framed-append crc32 v.framed xid r bs wr e;
            flushed = omega (arith, v.flushed);
          },
          refl,
          λ d. d ∙ sym (take-append_le w.flushed_lsn w.file bs (omega (arith, v.flushed, l))),
        )

  -- What a flush has done to a manager: the whole file is on the disk.
  pub record IsFlushed (w w' : WalManager) : Type 0 where
    pub consistent : IsConsistent w'
    pub on_disk : take w'.end_lsn w'.durable ≡ w'.file
    pub flushed : w'.flushed_lsn ≡ w'.end_lsn
    pub same_file : w'.file ≡ w.file
    pub same_entries : w'.entries ≡ w.entries
    pub same_end : w'.end_lsn ≡ w.end_lsn

  synchronized-IsFlushed :
      (w : WalManager)
      → IsConsistent w
      → IsFlushed w (record w { durable = w.file; flushed_lsn = w.end_lsn })
  synchronized-IsFlushed w v = record {
    consistent = record { framed = v.framed; flushed = omega arith };
    on_disk = take_all w.end_lsn w.file (omega (arith, Framed-length crc32 v.framed));
    flushed = refl;
    same_file = refl;
    same_entries = refl;
    same_end = refl;
  }

  already-IsFlushed :
      (w : WalManager)
      → IsConsistent w
      → IsDurable w
      → ltb w.flushed_lsn w.end_lsn ≡ false
      → IsFlushed w w
  already-IsFlushed w v d h =
      let e : w.flushed_lsn ≡ w.end_lsn = ground (arith, v.flushed) in
      record {
        consistent = v;
        on_disk =
            ap (λ n. take n w.durable) (sym e)
            ∙ d
            ∙ take_all w.flushed_lsn w.file (omega (arith, e, Framed-length crc32 v.framed));
        flushed = e;
        same_file = refl;
        same_entries = refl;
        same_end = refl;
      }

  flush-none :
      (w : WalManager)
      → IsConsistent w
      → IsDurable w
      → w.closed ≡ false
      → (w' : WalManager) × (flush w none ≡ ok w') × IsFlushed w w'
  unfolding flush
  flush-none w v d o = elim (Bool-cases (ltb w.flushed_lsn w.end_lsn)) [
    | inl e ↦ (
      record w { durable = w.file; flushed_lsn = w.end_lsn },
      rw (flush, o, e) refl,
      synchronized-IsFlushed w v,
    )
    | inr e ↦ (w, rw (flush, o, e) refl, already-IsFlushed w v d e)
  ]

  flush-some :
      (w : WalManager) (required_lsn : ℕ)
      → required_lsn ≤ w.end_lsn
      → flush w (some required_lsn) ≡ flush w none
  unfolding flush
  flush-some w required_lsn le = ground arith

  -- On an open manager with the invariant, where what the file holds below the flushed LSN is on the
  -- disk: a flush that requires an LSN beyond the end raises ValueError. Every other one returns, and
  -- then the whole file is on the disk, the flushed LSN is the end LSN, the invariant holds, and
  -- the file, the entries and the end LSN are as before.
  pub flush-IsFlushed :
      (w : WalManager) (required_lsn : ℕ)
      → IsConsistent w
      → IsDurable w
      → w.closed ≡ false
      → (w.end_lsn < required_lsn → flush w (some required_lsn) ≡ err value_error)
        × (required_lsn ≤ w.end_lsn
            → (w' : WalManager) × (flush w (some required_lsn) ≡ ok w') × IsFlushed w w')
        × ((w' : WalManager) × (flush w none ≡ ok w') × IsFlushed w w')
  unfolding flush
  flush-IsFlushed w required_lsn v d o =
      let (w', e, g) = flush-none w v d o in
      (λ lt. ground arith, λ le. (w', flush-some w required_lsn le ∙ e, g), (w', e, g))

  -- whether the file was synchronized when it was opened
  synchronizes : (tail : List ℕ) (n : ℕ) → (n == (n + length tail)) ≡ is_empty tail
  synchronizes [] n = ground arith
  synchronizes (b ∷ bs) n = ground arith

  -- Opening the file of a manager, with what a crash left of one more record, gives its entries back.
  -- What is on the disk is the whole file if there was a tail to cut off, and as before otherwise.
  pub open-IsConsistent :
      (w : WalManager) (durable tail : List ℕ)
      → IsConsistent w
      → Torn crc32 tail
      → open_wal crc32 durable (w.file ++ tail)
        ≡ some (
            ok (record w {
              durable = if is_empty tail then durable else w.file;
              flushed_lsn = w.end_lsn;
              closed = false;
            }))
  unfolding open_wal
  open-IsConsistent w durable tail v t =
      let l = Framed-length crc32 v.framed in
      let e : (w.end_lsn == length (w.file ++ tail)) ≡ is_empty tail =
        ap₂ ◌==◌ (omega (arith, l)) (length-append w.file tail)
        ∙ synchronizes tail (length w.file) in
      ground (
        arith,
        scan-Framed crc32 tail (suc (length (w.file ++ tail))) t v.framed
            (omega (arith, length-append w.file tail)),
        l,
        e,
        take-append_length w.file tail,
      )
