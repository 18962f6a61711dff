-- ===== src/Tests/Frames.antt =====
-- WebSocket frames.
use roosterwake.Prelude.{
  ℕ, ◌++◌, ◌≡◌, ◌<◌, ◌≤◌, ◌+◌, ◌^◌, ◌⊎◌, inl, refl, true, some, none, [], ◌∷◌, length, arith,
}
use roosterwake.Prelude.Bytes.{Bytes}
use roosterwake.Ws.Frame.{
  Header, ok, error, known_opcode, is_control, parse_header, needed, length_bytes, encode_header,
  apply_mask, build_frame, parse_len, checked,
}
use roosterwake.Ws.Frame.Accept.{IsLegal, server_header, verdict, reported, parse-server_header}
use roosterwake.Ws.Frame.Sound.{BeginsWith, parse_header-BeginsWith}
use roosterwake.Ws.Frame.Build.{ReadsBack, build_frame-ReadsBack}

-- "Hello" in one unmasked text frame, RFC 6455 §5.7
abbrev hello : Bytes
hello = 0x81 ∷ 0x05 ∷ 0x48 ∷ 0x65 ∷ 0x6c ∷ 0x6c ∷ 0x6f ∷ []

abbrev hello_header : Header
hello_header = record { fin = true; opcode = 1; payload_len = 5; header_len = 2 }

hello_parsed : parse_header hello ≡ ok hello_header
unfolding parse_header parse_len checked known_opcode is_control
hello_parsed = refl

-- "Hello" in one masked text frame, RFC 6455 §5.7
hello_masked :
    build_frame 64 true 1 (0x48 ∷ 0x65 ∷ 0x6c ∷ 0x6c ∷ 0x6f ∷ []) (0x37 ∷ 0xfa ∷ 0x21 ∷ 0x3d ∷ [])
    ≡ some (0x81 ∷ 0x85 ∷ 0x37 ∷ 0xfa ∷ 0x21 ∷ 0x3d ∷ 0x7f ∷ 0x9f ∷ 0x4d ∷ 0x51 ∷ 0x58 ∷ [])
unfolding build_frame encode_header apply_mask needed length_bytes
hello_masked = refl

-- A reserved bit
reserved_refused : parse_header (0xc1 ∷ 0x05 ∷ []) ≡ error
unfolding parse_header
reserved_refused = refl

text_IsLegal : (n : ℕ) → n ≤ 2 ^ 60 → IsLegal true 1 n
unfolding known_opcode is_control
text_IsLegal n h = record { opcode_known = refl; length_63 = omega arith; control = inl refl }

parse_header-BeginsWith_example : BeginsWith hello hello_header
parse_header-BeginsWith_example =
    parse_header-BeginsWith hello hello_header (ground arith) hello_parsed

build_frame-ReadsBack_example :
    ((64 < needed 2 + 2) × (build_frame 64 true 1 (104 ∷ 105 ∷ []) (1 ∷ 2 ∷ 3 ∷ 4 ∷ []) ≡ none))
    ⊎ ((frame : Bytes) × (build_frame 64 true 1 (104 ∷ 105 ∷ []) (1 ∷ 2 ∷ 3 ∷ 4 ∷ []) ≡ some frame)
        × ReadsBack 1 2 3 4 true 1 (104 ∷ 105 ∷ []) frame
        × (length frame ≤ 64))
build_frame-ReadsBack_example =
    build_frame-ReadsBack 1 2 3 4 64 true 1 (104 ∷ 105 ∷ []) (text_IsLegal 2 (omega arith))

parse-server_header_example :
    parse_header (server_header true 1 300 ++ (7 ∷ [])) ≡ verdict (reported true 1 300)
parse-server_header_example =
    parse-server_header true 1 300 (7 ∷ []) (text_IsLegal 300 (omega arith))
