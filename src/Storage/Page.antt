-- ===== src/Storage/Page.antt =====
-- storage/page.py: the checksummed envelope of a page, and storage/constants.py's page kinds.
use mini_postgres.Base.{
  ℕ, ◌+◌, ◌-◌, ◌%◌, ◌^◌, not, ◌||◌, Option, none, some, List, [], ◌∷◌, ◌++◌, ltb, leb,
  if◌then◌else◌, Result, ok, err, ◌>>=◌, value_error, row_too_large, corrupt_page, struct_error,
  length, take, drop, replicate, nat_hashable, ◌==◌, Bool, ◌≡◌, arith,
}
use mini_postgres.Bytes.{be_bytes, put_slice}
use mini_postgres.Bytes.Struct.{Fields, pack_fields, unpack_fields}
use mini_postgres.Storage.Identifiers.{ForkKind, PageKey, fork_value, fork_kind, page_size}

pub data PageKind : Type 0 where
  heap_page btree_meta btree_internal btree_leaf : PageKind

-- int(kind)
unfoldable pub kind_of_page : PageKind → ℕ
kind_of_page heap_page = 1
kind_of_page btree_meta = 2
kind_of_page btree_internal = 3
kind_of_page btree_leaf = 4

-- PageKind(value); none is the ValueError
unfoldable pub page_kind : ℕ → Option PageKind
page_kind n =
    if n == 1
    then some heap_page
    else if n == 2
    then some btree_meta
    else if n == 3
    then some btree_internal
    else if n == 4
    then some btree_leaf
    else none

pub record DecodedPage : Type 0 where
  pub key : PageKey
  pub kind : PageKind
  pub page_lsn : ℕ
  pub lower : ℕ
  pub upper : ℕ
  pub special : ℕ
  pub body : List ℕ

-- b"MPG1", the size of the header and the offset of its checksum
abbrev pub page_magic : ℕ
page_magic = 0x4d504731

abbrev pub page_header_size : ℕ
page_header_size = 44

abbrev pub page_checksum_offset : ℕ
page_checksum_offset = 40

abbrev pub page_header : PageKey → PageKind → ℕ → ℕ → Fields
page_header key kind page_lsn body_length =
    (4, page_magic)
    ∷ (1, 1)
    ∷ (1, kind_of_page kind)
    ∷ (1, fork_value key.relation.fork)
    ∷ (1, 0)
    ∷ (8, key.relation.object_id)
    ∷ (8, key.page_id)
    ∷ (8, page_lsn)
    ∷ (2, page_header_size)
    ∷ (2, page_header_size + body_length)
    ∷ (2, page_size)
    ∷ (2, 0)
    ∷ (4, 0)
    ∷ []

abbrev pub page_header_widths : List ℕ
page_header_widths = 4 ∷ 1 ∷ 1 ∷ 1 ∷ 1 ∷ 8 ∷ 8 ∷ 8 ∷ 2 ∷ 2 ∷ 2 ∷ 2 ∷ 4 ∷ []

unfoldable pub encode_page : (List ℕ → ℕ) → PageKey → PageKind → ℕ → List ℕ → Result (List ℕ)
encode_page crc32 key kind page_lsn body =
    if leb (2 ^ 64) page_lsn
    then err value_error
    else if ltb (page_size - page_header_size) (length body)
    then err row_too_large
    else do
      header ← pack_fields (page_header key kind page_lsn (length body))
      let padding = replicate (page_size - length header - length body) 0
      let encoded = header ++ (body ++ padding)
      let checksum = crc32 encoded % 2 ^ 32
      ok (put_slice page_checksum_offset (be_bytes 4 checksum) encoded)

unfoldable pub same_fork : ForkKind → ForkKind → Bool
same_fork f g = fork_value f == fork_value g

-- the slice encoded[44:upper]
unfoldable pub body_of : List ℕ → ℕ → List ℕ
body_of encoded upper = drop page_header_size (take upper encoded)

-- decode_page from its check of the identity on
unfoldable pub decode_checked :
    (List ℕ → ℕ) → PageKey → List ℕ → PageKind → ForkKind → List ℕ → Result DecodedPage
unfolding same_fork body_of
decode_checked crc32 key encoded kind fork
      (object_id ∷ page_id ∷ page_lsn ∷ lower ∷ upper ∷ special ∷ crc ∷ []) =
    if not (same_fork fork key.relation.fork)
      || (not (object_id == key.relation.object_id) || not (page_id == key.page_id))
    then err corrupt_page
    else if ltb lower page_header_size
        || (ltb upper lower || (ltb special upper || ltb page_size special))
    then err corrupt_page
    else if not (crc32 (put_slice page_checksum_offset (be_bytes 4 0) encoded) % 2 ^ 32 == crc)
    then err corrupt_page
    else ok (record {
      key = key;
      kind = kind;
      page_lsn = page_lsn;
      lower = lower;
      upper = upper;
      special = special;
      body = body_of encoded upper;
    })
decode_checked crc32 key encoded kind fork _ = err struct_error

-- PageKind(kind_value) and ForkKind(fork_value)
unfoldable pub with_kinds :
    Option PageKind
    → Option ForkKind
    → (PageKind → ForkKind → Result DecodedPage)
    → Result DecodedPage
with_kinds (some kind) (some fork) next = next kind fork
with_kinds _ _ next = err corrupt_page

unfoldable pub decode_fields_of_page :
    (List ℕ → ℕ) → PageKey → List ℕ → Option (List ℕ × List ℕ) → Result DecodedPage
unfolding decode_checked with_kinds
decode_fields_of_page crc32 key encoded
      (some (
        m ∷ version ∷ kind ∷ fork ∷ flags ∷ object_id ∷ page_id ∷ page_lsn ∷ lower ∷ upper ∷ special
            ∷ reserved ∷ crc ∷ [],
        rest,
      )) =
    if not (m == page_magic) || not (version == 1)
    then err corrupt_page
    else with_kinds (page_kind kind) (fork_kind fork) λ k f.
      if not (flags == 0) || not (reserved == 0)
      then err corrupt_page
      else decode_checked crc32 key encoded k f
          (object_id ∷ page_id ∷ page_lsn ∷ lower ∷ upper ∷ special ∷ crc ∷ [])
decode_fields_of_page crc32 key encoded _ = err struct_error

unfoldable pub decode_page : (List ℕ → ℕ) → PageKey → List ℕ → Result DecodedPage
unfolding decode_fields_of_page
decode_page crc32 expected_key encoded =
    if not (length encoded == page_size)
    then err corrupt_page
    else decode_fields_of_page crc32 expected_key encoded (unpack_fields page_header_widths encoded)

page_kind-kind_of_page : (k : PageKind) → page_kind (kind_of_page k) ≡ some k
unfolding page_kind kind_of_page
page_kind-kind_of_page k = ground arith
