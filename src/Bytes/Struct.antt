-- ===== src/Bytes/Struct.antt =====
-- `struct.Struct` for big-endian formats of unsigned fields: a format is the list of the widths of
-- its fields. A magic string of four bytes is read as one field of width 4.
use mathlib.Core.List.{append_assoc, append-nil}
use mini_postgres.Base.{
  ℕ, ◌+◌, ◌^◌, ◌<◌, ◌≡◌, refl, Option, none, some, List, [], ◌∷◌, ◌++◌, map, arith, Result, ok,
  ◌>>=◌, >>=-eq-ok, length, length-append,
}
use mini_postgres.Bytes.{be_bytes, pack, read, then_read, read-be_bytes, length-be_bytes}

abbrev pub Fields : Type 0
Fields = List (ℕ × ℕ)

abbrev pub widths : Fields → List ℕ
widths = map (λ f. f.0)

abbrev pub values : Fields → List ℕ
values = map (λ f. f.1)

abbrev pub size : List ℕ → ℕ
size [] = 0
size (w ∷ ws) = w + size ws

-- Struct.pack
unfoldable pub pack_fields : Fields → Result (List ℕ)
pack_fields [] = ok []
pack_fields ((w, n) ∷ fs) = do b ← pack w n; bs ← pack_fields fs; ok (b ++ bs)

-- Struct.unpack_from: the values, and the bytes behind them
unfoldable pub unpack_fields : List ℕ → List ℕ → Option (List ℕ × List ℕ)
unpack_fields [] bs = some ([], bs)
unpack_fields (w ∷ ws) bs =
    then_read (read w bs)
      λ v rest. elim (unpack_fields ws rest) [ none ↦ none | some (vs, left) ↦ some (v ∷ vs, left) ]

pub pack-eq-ok : (w n : ℕ) (bs : List ℕ) → pack w n ≡ ok bs → (be_bytes w n ≡ bs) × (n < 256 ^ w)
unfolding pack
pack-eq-ok w n bs h = ground arith

pub read-pack :
    (w n : ℕ) (bs rest : List ℕ) → pack w n ≡ ok bs → read w (bs ++ rest) ≡ some (n, rest)
read-pack w n bs rest h = let p = pack-eq-ok w n bs h in rw (← p.0) (read-be_bytes w n rest p.1)

pub length-pack : (w n : ℕ) (bs : List ℕ) → pack w n ≡ ok bs → length bs ≡ w
length-pack w n bs h = let p = pack-eq-ok w n bs h in rw (← p.0) (length-be_bytes w n)

-- Unpacking a packed structure gives back its fields and leaves what follows it.
pub unpack_fields-pack_fields :
    (fs : Fields) (bs rest : List ℕ)
    → pack_fields fs ≡ ok bs
    → unpack_fields (widths fs) (bs ++ rest) ≡ some (values fs, rest)
unfolding pack_fields unpack_fields
unpack_fields-pack_fields [] bs rest h = ground arith
unpack_fields-pack_fields ((w, n) ∷ fs) bs rest h =
    let (b, hb, h') = >>=-eq-ok (pack w n) _ h in
    let (cs, hcs, e) = >>=-eq-ok (pack_fields fs) _ h' in
    let e' : b ++ cs ≡ bs = cc in
    rw (← e', append_assoc b cs rest, read-pack w n b (cs ++ rest) hb)
      (rw (unpack_fields-pack_fields fs cs rest hcs) refl)

pub length-pack_fields :
    (fs : Fields) (bs : List ℕ) → pack_fields fs ≡ ok bs → length bs ≡ size (widths fs)
unfolding pack_fields
length-pack_fields [] bs h = ground arith
length-pack_fields ((w, n) ∷ fs) bs h =
    let (b, hb, h') = >>=-eq-ok (pack w n) _ h in
    let (cs, hcs, e) = >>=-eq-ok (pack_fields fs) _ h' in
    let e' : b ++ cs ≡ bs = cc in
    rw (← e')
      (omega (arith, length-append b cs, length-pack w n b hb, length-pack_fields fs cs hcs))

pub pack_fields-append :
    (fs gs : Fields) (bs : List ℕ)
    → pack_fields (fs ++ gs) ≡ ok bs
    → (xs ys : List ℕ) × (pack_fields fs ≡ ok xs) × (pack_fields gs ≡ ok ys) × (bs ≡ xs ++ ys)
unfolding pack_fields
pack_fields-append [] gs bs h = ([], bs, refl, h, refl)
pack_fields-append ((w, n) ∷ fs) gs bs h =
    let (b, hb, h') = >>=-eq-ok (pack w n) _ h in
    let (cs, hcs, e) = >>=-eq-ok (pack_fields (fs ++ gs)) _ h' in
    let (xs, ys, hx, hy, e') = pack_fields-append fs gs cs hcs in
    (b ++ xs, ys, rw (hb, hx), hy, cc (append_assoc b xs ys))

-- The same for a structure of one field.
pub unpack_fields-pack :
    (w n : ℕ) (bs rest : List ℕ)
    → pack w n ≡ ok bs
    → unpack_fields (w ∷ []) (bs ++ rest) ≡ some (n ∷ [], rest)
unfolding unpack_fields
unpack_fields-pack w n bs rest h = ground (arith, read-pack w n bs rest h)

pub pack_fields-snoc :
    (fs : Fields) (w n : ℕ) (xs ys : List ℕ)
    → pack_fields fs ≡ ok xs
    → pack w n ≡ ok ys
    → pack_fields (fs ++ (w, n) ∷ []) ≡ ok (xs ++ ys)
unfolding pack_fields
pack_fields-snoc [] w n xs ys h k = ground (arith, append-nil ys)
pack_fields-snoc ((v, m) ∷ fs) w n xs ys h k =
    let (b, hb, h') = >>=-eq-ok (pack v m) _ h in
    let (cs, hcs, e) = >>=-eq-ok (pack_fields fs) _ h' in
    let e' : b ++ cs ≡ xs = cc in
    rw (hb, pack_fields-snoc fs w n cs ys hcs k, ← e', append_assoc b cs ys) refl
