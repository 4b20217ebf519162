-- ===== src/Wsdriver/Response/Examples.antt =====
-- A response that is long enough to be compressed, written and read back.
use selenoid.Base.{
  ℕ, zero, suc, has_prefix, ◌≡◌, refl, true, false, none, some, codes, List, [], ◌∷◌, arith,
}
use selenoid.Wsdriver.Samples.{sample_codecs, marking-IsLossless}
use selenoid.Wsdriver.Response.{HttpResponse, SupportedEncoding, write_response}
use selenoid.Wsdriver.Response.Format.{read_reply, write_response-read_reply}

zeros : ℕ → List ℕ
zeros zero = []
zeros (suc n) = 0 ∷ zeros n

abbrev page : HttpResponse
page = record {
  status_code = 200;
  content_type = codes "application/json; charset=utf-8";
  body = zeros 1025;
  read_error = none;
  close_error = none;
}

abbrev both : SupportedEncoding
both = record { is_gzip_supported = true; is_zstd_supported = true }

page_written :
    write_response sample_codecs page 70000 both
    ≡ (1 ∷ 26 ∷ 0 ∷ 1 ∷ 17 ∷ 112 ∷ 0 ∷ 200 ∷ 0 ∷ 40 ∷ zeros 1025, none)
unfolding write_response zeros has_prefix
page_written = refl

write_response-read_reply_example :
    read_reply sample_codecs (1 ∷ 26 ∷ 0 ∷ 1 ∷ 17 ∷ 112 ∷ 0 ∷ 200 ∷ 0 ∷ 40 ∷ zeros 1025)
    ≡ some (record {
      request_id = 70000;
      status = 200;
      is_json = true;
      is_wsdriver_error = false;
      body = zeros 1025;
    })
unfolding has_prefix
write_response-read_reply_example =
    write_response-read_reply sample_codecs page 70000 both _ (marking-IsLossless 31)
      (marking-IsLossless 40) (omega arith) (omega arith) page_written
