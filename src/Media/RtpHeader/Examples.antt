-- ===== src/Media/RtpHeader/Examples.antt =====
-- src/rtsp/server.rs: a run of its own test, and the theorems at concrete headers.
use buddy3d_proxy.Prelude.{◌+◌, ◌*◌, ◌≡◌, refl, arith, true, false, [], ◌∷◌, ◌++◌, some, length}
use buddy3d_proxy.Media.RtpHeader.{
  Header, first_byte, second_byte, push_csrc, header_to_bytes, payload_len_words, push_extensions,
}
use buddy3d_proxy.Media.RtpHeader.Plain.{IsPlain, read_header, read_header-header_to_bytes}
use buddy3d_proxy.Media.RtpHeader.Extended.{
  declared_words, media, short_count, length-header_to_bytes,
}

abbrev minimal : Header
minimal = record {
  version = 2;
  padding = false;
  extension = false;
  marker = true;
  payload_type = 96;
  sequence_number = 12345;
  timestamp = 67890;
  ssrc = 0xDEADBEEF;
  csrc = [];
  extension_profile = 0;
  extensions = [];
}

minimal_bytes :
    header_to_bytes minimal
    ≡ 0x80 ∷ 0xE0 ∷ 0x30 ∷ 0x39 ∷ 0 ∷ 1 ∷ 9 ∷ 0x32 ∷ 0xDE ∷ 0xAD ∷ 0xBE ∷ 0xEF ∷ []
unfolding header_to_bytes first_byte second_byte push_csrc
minimal_bytes = refl

minimal-IsPlain : IsPlain minimal
minimal-IsPlain = record {
  version = omega arith;
  payload_type = omega arith;
  sequence_number = omega arith;
  timestamp = omega arith;
  ssrc = omega arith;
  sources = omega arith;
  csrc = tt;
  no_extension = refl;
}

read_header-header_to_bytes_example :
    read_header (header_to_bytes minimal ++ (1 ∷ 2 ∷ [])) ≡ some (minimal, 1 ∷ 2 ∷ [])
read_header-header_to_bytes_example =
    read_header-header_to_bytes minimal (1 ∷ 2 ∷ []) minimal-IsPlain

-- One extension with a payload of three bytes: one word declared, two written.
abbrev extended : Header
extended = record minimal {
  extension = true;
  extensions = record { id = 1; payload = 7 ∷ 8 ∷ 9 ∷ [] } ∷ [];
}

one_word_short : declared_words 0 (header_to_bytes extended) ≡ 1
unfolding header_to_bytes payload_len_words push_extensions push_csrc
one_word_short = refl

length-header_to_bytes_example :
    (length (header_to_bytes extended)
      ≡ 16
        + 4 * 0
        + 4 * (declared_words 0 (header_to_bytes extended) + short_count extended.extensions))
    × (length (media 0 (header_to_bytes extended)) ≡ 4 * short_count extended.extensions)
unfolding payload_len_words short_count
length-header_to_bytes_example = length-header_to_bytes extended refl (omega arith)
