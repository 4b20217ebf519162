-- ===== src/Wsdriver/Codecs.antt =====
-- The compressors of github.com/klauspost/compress, which the package calls: parameters of the model.
use selenoid.Base.{ℕ, ◌≡◌, Text, Option, none, List}

-- Writing a body and closing the writer, and reading a body: the bytes that come out, and the error.
pub record Compressor : Type 0 where
  pub compress : List ℕ → List ℕ × Option Text
  pub decompress : List ℕ → List ℕ × Option Text

pub record Codecs : Type 0 where
  pub gzip : Compressor
  pub zstd : Compressor

-- The documented behaviour: what was compressed without an error is decompressed to what it was.
abbrev pub IsLossless : Compressor → Type 0
IsLossless c =
    (body packed : List ℕ) → c.compress body ≡ (packed, none) → c.decompress packed ≡ (body, none)
