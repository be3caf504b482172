-- ===== src/Core/Refs.antt =====
-- crates/quantydb-core/src/refs.rs: the heads of branches, their keys and names. A name is the bytes
-- of its UTF-8, in which an ASCII character is one byte.
use quanty_database.Prelude.{
  ℕ, ◌≡◌, Bool, true, false, ◌&&◌, ◌||◌, not, none, List, [], ◌∷◌, ◌++◌, arith, leb, ◌==◌,
  if◌then◌else◌, length, All,
}
use quanty_database.Prelude.Bytes.{
  IsU64, IsAscii, is_utf8_ascii, IsByte-ascii, le_bytes, from_le, from_le-le_bytes, ascii,
}
use quanty_database.Prelude.Buffer.{slice}
use quanty_database.Prelude.Result.{Result, ok, err}
use quanty_database.Core.Error.{Error, corrupted, invalid_argument}
use quanty_database.Core.Page.{PageId}
use quanty_database.Core.Value.{text, IsValue}
use quanty_database.Core.Encoding.{encode_key, decode_key}
use quanty_database.Core.Encoding.RoundTrip.{decode_key-encode_key}

pub record BranchRef : Type 0 where
  pub head_id : ℕ
  pub head_page : PageId
  pub floor_id : ℕ

pub encode_ref : BranchRef → List ℕ
encode_ref r = le_bytes 8 r.head_id ++ le_bytes 8 r.head_page ++ le_bytes 8 r.floor_id

pub decode_ref : List ℕ → Result Error BranchRef
decode_ref buf =
    if not (length buf == 24)
    then err (corrupted none)
    else ok (record {
      head_id = from_le (slice 0 8 buf);
      head_page = from_le (slice 8 8 buf);
      floor_id = from_le (slice 16 8 buf);
    })

pub head_key : List ℕ
head_key = encode_key (text (ascii "head") ∷ [])

pub branch_key : List ℕ → List ℕ
branch_key name = encode_key (text (ascii "branch") ∷ text name ∷ [])

pub branches_prefix : List ℕ
branches_prefix = encode_key (text (ascii "branch") ∷ [])

-- `char::is_ascii_alphanumeric`
abbrev pub is_ascii_alphanumeric : ℕ → Bool
is_ascii_alphanumeric c =
    leb 0x30 c && leb c 0x39 || leb 0x41 c && leb c 0x5a || leb 0x61 c && leb c 0x7a

abbrev pub is_name_char : ℕ → Bool
is_name_char c = is_ascii_alphanumeric c || c == 0x5f || c == 0x2d

unfoldable pub all_name_chars : List ℕ → Bool
all_name_chars [] = true
all_name_chars (c ∷ cs) = is_name_char c && all_name_chars cs

unfoldable pub starts_alphanumeric : List ℕ → Bool
starts_alphanumeric [] = false
starts_alphanumeric (c ∷ cs) = is_ascii_alphanumeric c

abbrev pub is_empty : List ℕ → Bool
is_empty [] = true
is_empty (c ∷ cs) = false

unfoldable pub validate_name : List ℕ → Result Error (Unit {0})
validate_name name =
    if not (is_empty name)
      && leb (length name) 64
      && all_name_chars name
      && starts_alphanumeric name
    then ok tt
    else err invalid_argument

pub record IsRef (r : BranchRef) : Type 0 where
  pub head_id_fits : IsU64 r.head_id
  pub head_page_fits : IsU64 r.head_page
  pub floor_id_fits : IsU64 r.floor_id

-- The head of a branch is read back as it was written, if its three numbers are of 64 bits.
pub decode-encode_ref : (r : BranchRef) → IsRef r → decode_ref (encode_ref r) ≡ ok r
unfolding decode_ref encode_ref slice le_bytes
decode-encode_ref r h = rw (
  from_le-le_bytes 8 r.head_id h.head_id_fits,
  from_le-le_bytes 8 r.head_page h.head_page_fits,
  from_le-le_bytes 8 r.floor_id h.floor_id_fits,
)

name_char-IsAscii : (c : ℕ) → is_name_char c ≡ true → IsAscii c
name_char-IsAscii c h = ground arith

all_name_chars-IsAscii : (name : List ℕ) → all_name_chars name ≡ true → All IsAscii name
unfolding all_name_chars
all_name_chars-IsAscii [] h = tt
all_name_chars-IsAscii (c ∷ cs) h =
    let (hc, hs) : (is_name_char c ≡ true) × (all_name_chars cs ≡ true) = ground arith in
    (name_char-IsAscii c hc, all_name_chars-IsAscii cs hs)

validate_name-chars : (name : List ℕ) → validate_name name ≡ ok tt → all_name_chars name ≡ true
unfolding validate_name
validate_name-chars name h = ground arith

-- The key of a branch whose name is accepted decodes to the name.
pub decode_key-branch_key :
    (name : List ℕ)
    → validate_name name ≡ ok tt
    → decode_key (branch_key name) ≡ ok (text (ascii "branch") ∷ text name ∷ [])
unfolding branch_key
decode_key-branch_key name h =
    let plain = all_name_chars-IsAscii name (validate_name-chars name h) in
    decode_key-encode_key (text (ascii "branch") ∷ text name ∷ [])
      (branch_word, ((IsByte-ascii name plain, is_utf8_ascii name plain), tt))
  where
    branch_word : IsValue (text (ascii "branch"))
    branch_word =
        let plain : All IsAscii (ascii "branch") = omega arith in
        (IsByte-ascii (ascii "branch") plain, is_utf8_ascii (ascii "branch") plain)
