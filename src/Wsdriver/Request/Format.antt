-- ===== src/Wsdriver/Request/Format.antt =====
-- The Command frame of wsdriver/README.md, sections 4.2 and 5, and what `ParseRequestV1` of
-- wsdriver/ws_req.go makes of it.
use selenoid.Base.{
  ℕ, suc, ◌+◌, ◌-◌, ◌*◌, ◌/◌, ◌≤◌, ◌≡◌, refl, ◌≢◌, none, some, List, [], ◌∷◌, ◌++◌, arith, bit,
  length, All, drop-drop, ap, ◌∙◌, drop, length-append, take-append,
}
use selenoid.Wsdriver.Bytes.{
  IsU32, put_uint16, put_uint32, index_byte-append, bit_and_fifteen, bit_and_three, bit_and_one,
  byte_at, slice, index_byte, uint16, uint32,
}
use selenoid.Wsdriver.Message.{RequestMessage, Header}
use selenoid.Wsdriver.Request.{header_of, parse_request_v1, parse_path, parse_method}

-- `(MessageType << 4) | (CompressionType << 2) | (IsJSON << 1) | IsWsdriverError`
abbrev pub header_byte : Header → ℕ
header_byte h =
    h.message_type * 16 + h.compression_type * 4 + bit h.is_json * 2 + bit h.is_wsdriver_error

-- A frame, from its fields in order.
abbrev pub frame : RequestMessage → List ℕ
frame m =
    m.version
    ∷ header_byte m.header
    ∷ (put_uint32 m.request_id
        ++ (put_uint16 m.request_method ++ (m.request_path ++ (0 ∷ m.buffer))))

abbrev pub StartsPlain : List ℕ → Type 0
StartsPlain [] = ⊥
StartsPlain (c ∷ path) = (c ≢ b'.') × (c ≢ b'/')

-- What the README demands of a command.
pub record IsCommand (m : RequestMessage) : Type 0 where
  pub version_one : m.version ≡ 1
  pub is_request : m.header.message_type ≡ 0
  pub known_compression : m.header.compression_type ≤ 2
  pub id_fits : IsU32 m.request_id
  pub known_method : m.request_method ≤ 8
  pub path_start : StartsPlain m.request_path
  pub path_without_nul : All (λ c. c ≢ 0) m.request_path

header_of-header_byte :
    (h : Header) → h.message_type ≡ 0 → h.compression_type ≤ 2 → header_of (header_byte h) ≡ h
unfolding header_of
header_of-header_byte h t c = ground (
  arith,
  bit_and_fifteen (header_byte h / 16),
  bit_and_three (header_byte h / 4),
  bit_and_one (header_byte h / 2),
  bit_and_one (header_byte h),
)

module _ (bytes path buf : List ℕ) (behind : drop 8 bytes ≡ path ++ (0 ∷ buf)) where
  path_slice : slice bytes 8 (8 + length path) ≡ path
  path_slice =
      let e : 8 + length path - 8 ≡ length path = omega arith in
      rw (e, behind) (take-append path (0 ∷ buf))

  buf_slice : drop (9 + length path) bytes ≡ buf
  buf_slice =
      let e : 9 + length path ≡ 8 + suc (length path) = omega arith in
      rw (e, drop-drop 8 (suc (length path)) bytes, behind) (drop_suc path)
    where
      drop_suc : (front : List ℕ) → drop (suc (length front)) (front ++ (0 ∷ buf)) ≡ buf
      drop_suc [] = refl
      drop_suc (c ∷ front) = drop_suc front

-- The path and the body, once the terminator is found.
parse_path_found :
    (bytes path buf : List ℕ) (req : RequestMessage)
    → drop 8 bytes ≡ path ++ (0 ∷ buf)
    → StartsPlain path
    → parse_path bytes req (some (length path))
      ≡ (record req { request_path = path; buffer = buf }, none)
unfolding parse_request_v1
parse_path_found bytes [] buf req behind h = absurd h
parse_path_found bytes (c ∷ path) buf req behind h =
    rw (path_slice bytes (c ∷ path) buf behind, buf_slice bytes (c ∷ path) buf behind)
      (ground arith)

-- What a list of bytes holds, field by field.
pub record Holds (bytes : List ℕ) (m : RequestMessage) : Type 0 where
  pub long_enough : 9 ≤ length bytes
  pub version_at : byte_at bytes 0 ≡ m.version
  pub header_at : header_of (byte_at bytes 1) ≡ m.header
  pub id_at : uint32 bytes 2 ≡ m.request_id
  pub method_at : uint16 bytes 6 ≡ m.request_method
  pub path_at : drop 8 bytes ≡ m.request_path ++ (0 ∷ m.buffer)

parse_method-Holds :
    (bytes : List ℕ) (m req : RequestMessage)
    → Holds bytes m
    → IsCommand m
    → req.version ≡ m.version
    → req.header ≡ m.header
    → parse_method bytes req ≡ (m, none)
unfolding parse_request_v1
parse_method-Holds bytes m req h c v e = ground (
  arith,
  h.method_at,
  h.id_at,
  c.known_method,
  ap (λ l. index_byte l 0) h.path_at
      ∙ index_byte-append m.request_path m.buffer 0 c.path_without_nul,
  parse_path_found bytes m.request_path m.buffer
      (record req { request_id = uint32 bytes 2; request_method = uint16 bytes 6 }) h.path_at
      c.path_start,
)

parse-Holds :
    (bytes : List ℕ) (m old : RequestMessage)
    → Holds bytes m
    → IsCommand m
    → parse_request_v1 bytes old ≡ (m, none)
unfolding parse_request_v1
parse-Holds bytes m old h c = ground (
  arith,
  h.long_enough,
  h.version_at,
  ap (λ x. x.message_type) h.header_at,
  ap (λ x. x.compression_type) h.header_at,
  parse_method-Holds bytes m
      (record old { version = byte_at bytes 0; header = header_of (byte_at bytes 1) }) h c
      h.version_at h.header_at,
)

frame-Holds : (m : RequestMessage) → IsCommand m → Holds (frame m) m
frame-Holds m c = record {
  long_enough = omega (arith, length-append m.request_path (0 ∷ m.buffer));
  version_at = refl;
  header_at = header_of-header_byte m.header c.is_request c.known_compression;
  id_at = omega (arith, c.id_fits);
  method_at = omega (arith, c.known_method);
  path_at = refl;
}

-- `ParseRequestV1` reads every command back from its frame, whatever the message held before.
pub parse-frame :
    (m old : RequestMessage) → IsCommand m → parse_request_v1 (frame m) old ≡ (m, none)
parse-frame m old c = parse-Holds (frame m) m old (frame-Holds m c) c
