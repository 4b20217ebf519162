-- ===== src/Wsdriver/Request/Sound.antt =====
-- What the guards of `ParseRequestV1` in wsdriver/ws_req.go let through.
use selenoid.Base.{
  ℕ, zero, suc, ◌+◌, ◌/◌, ◌≤◌, ◌≡◌, refl, ◌≢◌, none, some, List, [], ◌∷◌, ◌++◌, arith, length, All,
  drop-drop, sym, ap, ◌∙◌, take, drop, Option-cases, inl, inr,
}
use mathlib.Core.Path.{subst}
use selenoid.Wsdriver.Bytes.{
  IsByte, IsU32, index_byte-some, bit_and_fifteen, bit_and_three, bit_and_one, byte_at, slice,
  index_byte, uint16, uint32,
}
use selenoid.Wsdriver.Message.{RequestMessage}
use selenoid.Wsdriver.Request.{header_of, parse_request_v1, parse_path}
use selenoid.Wsdriver.Request.Format.{IsCommand, Holds, frame, header_byte, StartsPlain}

header_byte-header_of : (b : ℕ) → IsByte b → header_byte (header_of b) ≡ b
unfolding header_of
header_byte-header_of b h =
    ground
      (arith, bit_and_fifteen (b / 16), bit_and_three (b / 4), bit_and_one (b / 2), bit_and_one b)

-- The frame of what was read is what was read from.
Holds-frame :
    (bytes : List ℕ) (m : RequestMessage) → All IsByte bytes → Holds bytes m → bytes ≡ frame m
Holds-frame (b0 ∷ b1 ∷ b2 ∷ b3 ∷ b4 ∷ b5 ∷ b6 ∷ b7 ∷ rest) m h d =
    ground
      (arith, ap header_byte d.header_at ∙ refl, header_byte-header_of b1, d.id_at, d.method_at)
Holds-frame _ m h d = absurd (omega (arith, d.long_enough))

parse_path_shape :
    (bytes : List ℕ) (req m : RequestMessage) (n : ℕ)
    → parse_path bytes req (some n) ≡ (m, none)
    → (n ≢ 0)
      × (m.request_path ≡ slice bytes 8 (8 + n))
      × (m.buffer ≡ drop (9 + n) bytes)
      × (byte_at m.request_path 0 ≢ b'.')
      × (byte_at m.request_path 0 ≢ b'/')
      × (m ≡ record req { request_path = m.request_path; buffer = m.buffer })
unfolding parse_request_v1
parse_path_shape bytes req m n e = ground arith

take-StartsPlain :
    (path rest : List ℕ) (n : ℕ)
    → n ≢ 0
    → path ≡ take n rest
    → rest ≡ take n rest ++ (0 ∷ drop (suc n) rest)
    → byte_at path 0 ≢ b'.'
    → byte_at path 0 ≢ b'/'
    → StartsPlain path
take-StartsPlain [] rest zero pos e r dot slash = absurd (pos refl)
take-StartsPlain [] [] (suc n) pos e r dot slash = cc
take-StartsPlain [] (x ∷ rest) (suc n) pos e r dot slash = cc
take-StartsPlain (c ∷ path) rest n pos e r dot slash = (dot, slash)

-- A path that was accepted ends at the first null byte, and does not begin with `.` or `/`.
parse_path_inv :
    (bytes : List ℕ) (req m : RequestMessage)
    → parse_path bytes req (index_byte (drop 8 bytes) 0) ≡ (m, none)
    → (drop 8 bytes ≡ m.request_path ++ (0 ∷ m.buffer))
      × StartsPlain m.request_path
      × All (λ c. c ≢ 0) m.request_path
      × (m ≡ record req { request_path = m.request_path; buffer = m.buffer })
parse_path_inv bytes req m e = elim (Option-cases (index_byte (drop 8 bytes) 0)) [
  | inl missing ↦ absurd (unfold parse_request_v1 in ground arith)
  | inr (n, found) ↦
      let (pos, path_is, buf_is, dot, slash, shape) =
        parse_path_shape bytes req m n (subst (λ o. parse_path bytes req o ≡ (m, none)) found e) in
      let (clean, split) = index_byte-some (drop 8 bytes) 0 n found in
      let p : m.request_path ≡ take n (drop 8 bytes) =
        path_is ∙ ap (λ k. take k (drop 8 bytes)) (omega arith) in
      let b : m.buffer ≡ drop (suc n) (drop 8 bytes) =
        buf_is ∙ ap (λ k. drop k bytes) (omega arith) ∙ drop-drop 8 (suc n) bytes in
      (
        split ∙ cc,
        take-StartsPlain m.request_path (drop 8 bytes) n pos p split dot slash,
        subst (All (λ c. c ≢ 0)) (sym p) clean,
        shape,
      )
]

abbrev filled : List ℕ → RequestMessage → RequestMessage
filled bytes old = record {
  version = byte_at bytes 0;
  header = header_of (byte_at bytes 1);
  request_id = uint32 bytes 2;
  request_method = uint16 bytes 6;
  request_path = old.request_path;
  buffer = old.buffer;
}

-- What the guards have let through.
parse_guards :
    (bytes : List ℕ) (m old : RequestMessage)
    → parse_request_v1 bytes old ≡ (m, none)
    → (9 ≤ length bytes)
      × (byte_at bytes 0 ≡ 1)
      × ((header_of (byte_at bytes 1)).message_type ≡ 0)
      × ((header_of (byte_at bytes 1)).compression_type ≤ 2)
      × (uint16 bytes 6 ≤ 8)
      × (parse_path bytes (filled bytes old) (index_byte (drop 8 bytes) 0) ≡ (m, none))
unfolding parse_request_v1
parse_guards bytes m old e = ground arith

byte_at-IsByte : (bytes : List ℕ) (i : ℕ) → All IsByte bytes → IsByte (byte_at bytes i)
byte_at-IsByte [] i h = omega arith
byte_at-IsByte (b ∷ bytes) zero h = h.0
byte_at-IsByte (b ∷ bytes) (suc i) h = byte_at-IsByte bytes i h.1

uint32-IsU32 : (bytes : List ℕ) (i : ℕ) → All IsByte bytes → IsU32 (uint32 bytes i)
uint32-IsU32 bytes i h = omega (
  arith,
  byte_at-IsByte bytes i h,
  byte_at-IsByte bytes (suc i) h,
  byte_at-IsByte bytes (suc (suc i)) h,
  byte_at-IsByte bytes (suc (suc (suc i))) h,
)

pub parse_sound :
    (bytes : List ℕ) (m old : RequestMessage)
    → All IsByte bytes
    → parse_request_v1 bytes old ≡ (m, none)
    → IsCommand m × (bytes ≡ frame m)
parse_sound bytes m old bs e =
    let (long, one, type, known, method, found) = parse_guards bytes m old e in
    let (split, plain, clean, shape) = parse_path_inv bytes (filled bytes old) m found in
    let version_is : byte_at bytes 0 ≡ m.version = sym (ap (λ x. x.version) shape) in
    let header_is : header_of (byte_at bytes 1) ≡ m.header = sym (ap (λ x. x.header) shape) in
    let id_is : uint32 bytes 2 ≡ m.request_id = sym (ap (λ x. x.request_id) shape) in
    let method_is : uint16 bytes 6 ≡ m.request_method = sym (ap (λ x. x.request_method) shape) in
    (
      record {
        version_one = sym version_is ∙ one;
        is_request = ap (λ h. h.message_type) (sym header_is) ∙ type;
        known_compression = subst (λ h. h.compression_type ≤ 2) header_is known;
        id_fits = subst IsU32 id_is (uint32-IsU32 bytes 2 bs);
        known_method = subst (λ k. k ≤ 8) method_is method;
        path_start = plain;
        path_without_nul = clean;
      },
      Holds-frame bytes m bs (record {
        long_enough = long;
        version_at = version_is;
        header_at = header_is;
        id_at = id_is;
        method_at = method_is;
        path_at = split;
      }),
    )
