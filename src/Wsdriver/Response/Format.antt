-- ===== src/Wsdriver/Response/Format.antt =====
-- The Response frame of wsdriver/README.md, section 5.2, as a client reads it, and what
-- `WriteResponse` of wsdriver/ws_res.go writes.
use selenoid.Base.{
  Bool-cases, inl, inr, ℕ, ◌+◌, ◌*◌, ◌/◌, ◌%◌, ◌≡◌, refl, Bool, true, false, Option, none, some,
  List, ◌∷◌, ◌++◌, Text, codes, has_prefix, length, ◌==◌, if◌then◌else◌, arith, ap, ◌∙◌, ◌&&◌,
}
use selenoid.Wsdriver.Bytes.{IsU16, IsU32}
use selenoid.Wsdriver.Codecs.{Codecs, IsLossless}
use selenoid.Wsdriver.Response.{
  HttpResponse, SupportedEncoding, write_response, Compression, plain, gzip, zstd, after_read,
  compression_for, header_for, fixed_part, write_body,
}

-- What a client gets out of a frame.
pub record Reply : Type 0 where
  pub request_id : ℕ
  pub status : ℕ
  pub is_json : Bool
  pub is_wsdriver_error : Bool
  pub body : List ℕ

finished : List ℕ × Option Text → Option (List ℕ)
finished (body, none) = some body
finished (body, some error) = none

-- Decompression by the two bits of the header.
pub inflate : Codecs → ℕ → List ℕ → Option (List ℕ)
unfolding finished
inflate codecs code bytes =
    if code == 0
    then some bytes
    else if code == 1
    then finished (codecs.gzip.decompress bytes)
    else if code == 2
    then finished (codecs.zstd.decompress bytes)
    else none

abbrev pub reply_with : ℕ → ℕ → ℕ → Option (List ℕ) → Option Reply
reply_with header request_id status none = none
reply_with header request_id status (some body) = some (record {
  request_id = request_id;
  status = status;
  is_json = header / 2 % 2 == 1;
  is_wsdriver_error = header % 2 == 1;
  body = body;
})

-- A client that follows the README: version 1, a response, an empty path.
pub read_reply : Codecs → List ℕ → Option Reply
read_reply codecs (v ∷ h ∷ i0 ∷ i1 ∷ i2 ∷ i3 ∷ s0 ∷ s1 ∷ nul ∷ rest) =
    if (v == 1) && (h / 16 == 1) && (nul == 0)
    then reply_with h (i0 * 16777216 + i1 * 65536 + i2 * 256 + i3) (s0 * 256 + s1)
        (inflate codecs (h / 4 % 4) rest)
    else none
read_reply codecs _ = none

pub read_fixed_part :
    (codecs : Codecs) (header request_id status : ℕ) (rest : List ℕ)
    → header / 16 ≡ 1
    → IsU32 request_id
    → IsU16 status
    → read_reply codecs (fixed_part header request_id status ++ rest)
      ≡ reply_with header request_id status (inflate codecs (header / 4 % 4) rest)
unfolding read_reply write_response
read_fixed_part codecs header request_id status rest hh hi hs =
    let ids : request_id / 16777216 % 256 * 16777216
          + request_id / 65536 % 256 * 65536
          + request_id / 256 % 256 * 256
          + request_id % 256
        ≡ request_id =
      omega arith in
    let statuses : status % 65536 / 256 % 256 * 256 + status % 65536 % 256 ≡ status = omega arith in
    let one : (header / 16 == 1) ≡ true = ground arith in rw (ids, statuses, one)

abbrev code_of : Compression → ℕ
code_of plain = 0
code_of gzip = 1
code_of zstd = 2

abbrev says_json : Text → Bool
says_json content_type = has_prefix content_type (codes "application/json")

-- The header byte carries the compression and the JSON flag, marks a response and no error.
header_for_fields :
    (c : Compression) (content_type : Text)
    → (header_for c content_type / 16 ≡ 1)
      × (header_for c content_type / 4 % 4 ≡ code_of c)
      × ((header_for c content_type / 2 % 2 == 1) ≡ says_json content_type)
      × ((header_for c content_type % 2 == 1) ≡ false)
unfolding write_response
header_for_fields plain content_type = elim (Bool-cases (says_json content_type)) [
  | inl yes_json ↦ rw yes_json (refl, refl, refl, refl)
  | inr not_json ↦ rw not_json (refl, refl, refl, refl)
]
header_for_fields gzip content_type = elim (Bool-cases (says_json content_type)) [
  | inl yes_json ↦ rw yes_json (refl, refl, refl, refl)
  | inr not_json ↦ rw not_json (refl, refl, refl, refl)
]
header_for_fields zstd content_type = elim (Bool-cases (says_json content_type)) [
  | inl yes_json ↦ rw yes_json (refl, refl, refl, refl)
  | inr not_json ↦ rw not_json (refl, refl, refl, refl)
]

pub inflate_none : (codecs : Codecs) (body : List ℕ) → inflate codecs 0 body ≡ some body
unfolding inflate
inflate_none codecs body = refl

inflate_gzip :
    (codecs : Codecs) (body packed : List ℕ)
    → codecs.gzip.decompress packed ≡ (body, none)
    → inflate codecs 1 packed ≡ some body
unfolding inflate
inflate_gzip codecs body packed e = ap finished e

inflate_zstd :
    (codecs : Codecs) (body packed : List ℕ)
    → codecs.zstd.decompress packed ≡ (body, none)
    → inflate codecs 2 packed ≡ some body
unfolding inflate
inflate_zstd codecs body packed e = ap finished e

abbrev expected : ℕ → ℕ → Text → List ℕ → Reply
expected request_id status content_type body = record {
  request_id = request_id;
  status = status;
  is_json = says_json content_type;
  is_wsdriver_error = false;
  body = body;
}

module _ (codecs : Codecs) (content_type : Text) (request_id status : ℕ) (body : List ℕ)
    (id_fits : IsU32 request_id) (status_fits : IsU16 status) where
  read_packed :
      (c : Compression) (packed : List ℕ)
      → inflate codecs (code_of c) packed ≡ some body
      → read_reply codecs (fixed_part (header_for c content_type) request_id status ++ packed)
        ≡ some (expected request_id status content_type body)
  read_packed c packed inflates =
      let (one, code, json, error) = header_for_fields c content_type in
      read_fixed_part codecs (header_for c content_type) request_id status packed one id_fits
        status_fits
      ∙ rw (code, inflates, json, error)

  reply_of :
      (ws ws' : List ℕ)
      → ws' ≡ ws
      → read_reply codecs ws' ≡ some (expected request_id status content_type body)
      → read_reply codecs ws ≡ some (expected request_id status content_type body)
  reply_of ws ws' e r = rw e at r

  -- Whatever compression was chosen, the body that was written is what the client inflates.
  written_body :
      (c : Compression) (ws : List ℕ)
      → IsLossless codecs.gzip
      → IsLossless codecs.zstd
      → write_body codecs c (fixed_part (header_for c content_type) request_id status) body
        ≡ (ws, none)
      → read_reply codecs ws ≡ some (expected request_id status content_type body)
  unfolding write_response
  written_body plain ws lg lz e =
      reply_of ws _ (ap (λ x. x.0) e) (read_packed plain body (unfold inflate in refl))
  written_body gzip ws lg lz e =
      let packed = (codecs.gzip.compress body).0 in
      reply_of ws _ (ap (λ x. x.0) e) (
        read_packed gzip packed
          (inflate_gzip codecs body packed (lg body packed (λ i. (packed, (e i).1)))))
  written_body zstd ws lg lz e =
      let packed = (codecs.zstd.compress body).0 in
      reply_of ws _ (ap (λ x. x.0) e) (
        read_packed zstd packed
          (inflate_zstd codecs body packed (lz body packed (λ i. (packed, (e i).1)))))

after_read_ok :
    (codecs : Codecs) (response : HttpResponse) (request_id : ℕ) (client : SupportedEncoding)
    (unread unclosed : Option Text) (ws : List ℕ)
    → after_read codecs response request_id client unread unclosed ≡ (ws, none)
    → (unread ≡ none) × (unclosed ≡ none)
unfolding write_response
after_read_ok codecs response request_id client none none ws e = (refl, refl)
after_read_ok codecs response request_id client none (some x) ws e = (refl, cc)
after_read_ok codecs response request_id client (some x) unclosed ws e = absurd (cc)

-- What `WriteResponse` writes without an error is read back by the client of the README: the request
-- id, the status, whether the body is JSON, and the body, compressed or not. Conditions: the
-- compressors lose nothing, the id and the status fit their fields.
pub write_response-read_reply :
    (codecs : Codecs) (response : HttpResponse) (request_id : ℕ) (client : SupportedEncoding)
    (ws : List ℕ)
    → IsLossless codecs.gzip
    → IsLossless codecs.zstd
    → IsU32 request_id
    → IsU16 response.status_code
    → write_response codecs response request_id client ≡ (ws, none)
    → read_reply codecs ws
      ≡ some (record {
        request_id = request_id;
        status = response.status_code;
        is_json = has_prefix response.content_type (codes "application/json");
        is_wsdriver_error = false;
        body = response.body;
      })
unfolding write_response
write_response-read_reply codecs response request_id client ws lg lz hi hs e =
    let (unread, unclosed) =
      after_read_ok codecs response request_id client response.read_error response.close_error ws
        e in
    written_body codecs response.content_type request_id response.status_code response.body hi hs
      (compression_for (length response.body) client) ws lg lz (rw (unread, unclosed) at e)
