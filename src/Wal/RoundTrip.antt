-- ===== src/Wal/RoundTrip.antt =====
-- The codec of wal/records.py: what decode_record gives for an encoded record.
use mathlib.Core.List.{append_assoc, append-nil}
use mini_postgres.Base.{
  ℕ, suc, ◌+◌, ◌≤◌, ◌≡◌, refl, ◌∙◌, true, List, [], ◌∷◌, ◌++◌, arith, ok, >>=-eq-ok, All, length,
  length-append, take, drop, nat_hashable, take-append_length, drop-append_length,
}
use mini_postgres.Bytes.{pack}
use mini_postgres.Bytes.Struct.{
  Fields, pack_fields, unpack_fields-pack_fields, unpack_fields-pack, length-pack_fields,
}
use mini_postgres.Storage.Identifiers.{PageKey, fork_value, page_size, fork_kind-fork_value}
use mini_postgres.Wal.Records.{
  Image, WalRecord, begin, commit, abort, heap_page_images, checkpoint, all_complete,
  make_page_images, kind_value, pack_images, payload, decode_images, decode_payload,
}

abbrev pub IsCompleteImage : Image → Type 0
IsCompleteImage i = length i.1 ≡ page_size

-- What the constructors of the record classes check.
abbrev pub IsRecord : WalRecord → Type 0
IsRecord (heap_page_images []) = ⊥
IsRecord (heap_page_images (i ∷ images)) = All IsCompleteImage (i ∷ images)
IsRecord _ = Unit

take_page : (xs ys : List ℕ) → length xs ≡ page_size → take page_size (xs ++ ys) ≡ xs
take_page xs ys h = rw (← h) (take-append_length xs ys)

drop_page : (xs ys : List ℕ) → length xs ≡ page_size → drop page_size (xs ++ ys) ≡ ys
drop_page xs ys h = rw (← h) (drop-append_length xs ys)

abbrev image_fields : PageKey → Fields
image_fields key =
    (1, fork_value key.relation.fork) ∷ (8, key.relation.object_id) ∷ (8, key.page_id) ∷ []

image_room :
    (key : PageKey) (header image rest : List ℕ)
    → pack_fields (image_fields key) ≡ ok header
    → length image ≡ page_size
    → 17 + page_size ≤ length (header ++ (image ++ rest))
image_room key header image rest h c = omega (
  arith,
  length-append header (image ++ rest),
  length-append image rest,
  length-pack_fields (image_fields key) header h,
)

decode_images_step :
    (key : PageKey) (header image rest left : List ℕ) (count : ℕ) (images : List Image)
    → pack_fields (image_fields key) ≡ ok header
    → length image ≡ page_size
    → decode_images count rest ≡ ok (images, left)
    → decode_images (suc count) (header ++ (image ++ rest)) ≡ ok ((key, image) ∷ images, left)
unfolding decode_images
decode_images_step key header image rest left count images h c e = ground (
  arith,
  image_room key header image rest h c,
  unpack_fields-pack_fields (image_fields key) header (image ++ rest) h,
  fork_kind-fork_value key.relation.fork,
  take_page image rest c,
  drop_page image rest c,
)

pub decode_images-pack_images :
    (images : List Image) (bs rest : List ℕ)
    → All IsCompleteImage images
    → pack_images images ≡ ok bs
    → decode_images (length images) (bs ++ rest) ≡ ok (images, rest)
unfolding pack_images
decode_images-pack_images [] bs rest c h = unfold decode_images in ground arith
decode_images-pack_images ((key, image) ∷ images) bs rest c h =
    let (header, hh, h') = >>=-eq-ok (pack_fields (image_fields key)) _ h in
    let (cs, hcs, e) = >>=-eq-ok (pack_images images) _ h' in
    let e' : header ++ (image ++ cs) ≡ bs = cc in
    rw (← e', append_assoc header (image ++ cs) rest, append_assoc image cs rest)
      (decode_images_step key header image (cs ++ rest) rest (length images) images hh c.0
        (decode_images-pack_images images cs rest c.1 hcs))

decode_image_record :
    (i : Image) (images : List Image) (count chunks : List ℕ)
    → All IsCompleteImage (i ∷ images)
    → pack 4 (length (i ∷ images)) ≡ ok count
    → pack_images (i ∷ images) ≡ ok chunks
    → decode_payload 2 (count ++ chunks) ≡ make_page_images (i ∷ images)
unfolding decode_payload
decode_image_record i images count chunks c h hs = ground (
  arith,
  unpack_fields-pack 4 (length (i ∷ images)) count chunks h,
  decode_images-pack_images (i ∷ images) chunks [] c hs,
  append-nil chunks,
)

decode_checkpoint :
    (redo_lsn : ℕ) (body : List ℕ)
    → pack 8 redo_lsn ≡ ok body
    → decode_payload 5 body ≡ ok (checkpoint redo_lsn)
unfolding decode_payload
decode_checkpoint redo_lsn body h =
    ground (arith, unpack_fields-pack 8 redo_lsn body [] h, append-nil body)

all_complete-All : (images : List Image) → All IsCompleteImage images → all_complete images ≡ true
unfolding all_complete
all_complete-All [] c = refl
all_complete-All (i ∷ images) c = ground (arith, all_complete-All images c.1)

make_page_images_complete :
    (images : List Image)
    → IsRecord (heap_page_images images)
    → make_page_images images ≡ ok (heap_page_images images)
unfolding make_page_images
make_page_images_complete [] c = absurd c
make_page_images_complete (i ∷ images) c = ground (arith, all_complete-All (i ∷ images) c)

-- Decoding the payload of a record, under its kind, gives back the record.
pub decode_payload-payload :
    (r : WalRecord) (body : List ℕ)
    → IsRecord r
    → payload r ≡ ok body
    → decode_payload (kind_value r) body ≡ ok r
unfolding payload kind_value
decode_payload-payload begin body c h = unfold decode_payload in ground arith
decode_payload-payload commit body c h = unfold decode_payload in ground arith
decode_payload-payload abort body c h = unfold decode_payload in ground arith
decode_payload-payload (heap_page_images []) body c h = absurd c
decode_payload-payload (heap_page_images (i ∷ images)) body c h =
    let (count, hc, h') = >>=-eq-ok (pack 4 (length (i ∷ images))) _ h in
    let (chunks, hs, e) = >>=-eq-ok (pack_images (i ∷ images)) _ h' in
    let e' : count ++ chunks ≡ body = cc in
    rw (← e') (decode_image_record i images count chunks c hc hs ∙ make_page_images_complete _ c)
decode_payload-payload (checkpoint redo_lsn) body c h = decode_checkpoint redo_lsn body h
