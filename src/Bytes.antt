-- ===== src/Bytes.antt =====
-- Bytes as numbers, big-endian fields as `struct` packs and unpacks them, and slices.
pub mod Struct
use mathlib.Core.List.{append_assoc}
use native.Mathlib.Nat.{pow-suc}
use mini_postgres.Base.{
  ℕ, zero, suc, ◌+◌, ◌*◌, ◌/◌, ◌%◌, ◌^◌, ◌<◌, ◌≡◌, refl, ap, Option, none, some, List, [], ◌∷◌,
  ◌++◌, arith, ltb, if◌then◌else◌, Result, ok, err, struct_error, length, take, drop,
  take-append_length, drop-append_length, length-append, inl, inr, Bool-cases,
}

-- n.to_bytes(w, "big")
unfoldable pub be_bytes : ℕ → ℕ → List ℕ
be_bytes zero n = []
be_bytes (suc w) n = be_bytes w (n / 256) ++ (n % 256) ∷ []

-- struct's unsigned field of w bytes; a value that does not fit raises struct.error
unfoldable pub pack : ℕ → ℕ → Result (List ℕ)
pack w n = if ltb n (256 ^ w) then ok (be_bytes w n) else err struct_error

unfoldable pub next_byte : ℕ → List ℕ → Option (ℕ × List ℕ)
next_byte v [] = none
next_byte v (b ∷ bs) = some (v * 256 + b, bs)

abbrev pub then_read {ℓ} : {A : Type ℓ} → Option (ℕ × List ℕ) → (ℕ → List ℕ → Option A) → Option A
then_read none f = none
then_read (some (v, bs)) f = f v bs

-- the field of w bytes that the list begins with, and the bytes behind it
unfoldable pub read : ℕ → List ℕ → Option (ℕ × List ℕ)
unfolding next_byte
read zero bs = some (0, bs)
read (suc w) bs = then_read (read w bs) next_byte

pub length-be_bytes : (w n : ℕ) → length (be_bytes w n) ≡ w
unfolding be_bytes
length-be_bytes zero n = refl
length-be_bytes (suc w) n =
    omega
      (arith, length-append (be_bytes w (n / 256)) ((n % 256) ∷ []), length-be_bytes w (n / 256))

div-lt : (w n : ℕ) → n < 256 ^ suc w → n / 256 < 256 ^ w
div-lt w n h = let e : 256 ^ suc w ≡ 256 ^ w * 256 = pow-suc 256 w in omega arith

-- Reading a field gives back the number that was written.
pub read-be_bytes :
    (w n : ℕ) (bs : List ℕ) → n < 256 ^ w → read w (be_bytes w n ++ bs) ≡ some (n, bs)
unfolding read be_bytes
read-be_bytes zero n bs h = ground arith
read-be_bytes (suc w) n bs h =
    rw (append_assoc (be_bytes w (n / 256)) ((n % 256) ∷ []) bs)
      (rw (read-be_bytes w (n / 256) ((n % 256) ∷ bs) (div-lt w n h)) (ground arith))

-- b[i : i + len(new)] = new
unfoldable pub put_slice : ℕ → List ℕ → List ℕ → List ℕ
put_slice i new bs = take i bs ++ (new ++ drop (i + length new) bs)

drop-append : (xs ys zs : List ℕ) → drop (length xs + length ys) (xs ++ (ys ++ zs)) ≡ zs
drop-append xs ys zs =
    rw (← length-append xs ys) (rw (← append_assoc xs ys zs) (drop-append_length (xs ++ ys) zs))

-- A slice of the same length replaces the part that it covers, and nothing else.
pub put_slice-middle :
    (xs ys new zs : List ℕ)
    → length new ≡ length ys
    → put_slice (length xs) new (xs ++ (ys ++ zs)) ≡ xs ++ (new ++ zs)
unfolding put_slice
put_slice-middle xs ys new zs h =
    rw (h, take-append_length xs (ys ++ zs), drop-append xs ys zs) refl
