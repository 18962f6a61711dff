-- ===== src/Tests/Images.antt =====
-- Image headers.
use roosterwake.Prelude.{◌≡◌, refl, Bool, true, false, Option, some, [], ◌∷◌, ◌++◌, replicate, take}
use roosterwake.Prelude.Bytes.{Bytes, eq_bytes, slice, le16, le32}
use roosterwake.Ota.Image.{
  ImageHeader, ota_magic, board_tag, printable_prefix, all_nul, field_str, opened, refused,
  err_board, verify_signature, signed, open_strings, header_open,
}
use roosterwake.Ota.Image.Verified.{IsVerified, header_open-IsVerified}

abbrev first_32 : Bytes → Option Bytes
first_32 bytes = some (take 32 bytes)

abbrev accepting : Bytes → Bytes → Bytes → Bytes → Bool
accepting point digest r s = true

abbrev image : Bytes → Bytes
image board =
    ota_magic
    ++ (1 ∷ 0 ∷ 0 ∷ 0 ∷ 16 ∷ 0 ∷ 0 ∷ 0 ∷ 49 ∷ 46 ∷ 52 ∷ [])
    ++ replicate 13 0
    ++ board
    ++ replicate 32 7
    ++ replicate 64 9

abbrev read : ImageHeader
read = record {
  format = 1;
  flags = 0;
  payload_len = 16;
  version = 49 ∷ 46 ∷ 52 ∷ [];
  board = board_tag false;
  payload_sha256 = replicate 32 7;
}

image_opened :
    header_open first_32 accepting [] false (some (image (board_tag false ++ (0 ∷ 0 ∷ [])))) 4096
    ≡ opened read
unfolding header_open open_strings signed verify_signature field_str all_nul printable_prefix slice
    le16 le32 eq_bytes
image_opened = refl

-- An image for the other board
other_board_refused :
    header_open first_32 accepting [] false (some (image (board_tag true ++ (0 ∷ [])))) 4096
    ≡ refused err_board
unfolding header_open open_strings signed verify_signature field_str all_nul printable_prefix slice
    le16 le32 eq_bytes
other_board_refused = refl

header_open-IsVerified_example :
    IsVerified first_32 accepting [] false (image (board_tag false ++ (0 ∷ 0 ∷ []))) 4096 read
header_open-IsVerified_example =
    header_open-IsVerified first_32 accepting [] false (image (board_tag false ++ (0 ∷ 0 ∷ [])))
      4096 read image_opened
