-- ===== src/Wsdriver/Bytes.antt =====
-- Bytes of a message: big-endian numbers, slices and the search for a byte (`encoding/binary` and
-- `bytes`), and masks on one byte as arithmetic.
use Prim.Native.Nat.{bit_and}
use selenoid.Base.{
  ℕ, zero, suc, ◌+◌, ◌-◌, ◌*◌, ◌/◌, ◌%◌, ◌<◌, ◌≡◌, refl, ◌≢◌, Bool, true, ◌&&◌, Option, none, some,
  List, [], ◌∷◌, ◌++◌, arith, ◌==◌, if◌then◌else◌, length, take, drop, All,
}

abbrev pub IsByte : ℕ → Type 0
IsByte b = b < 256

abbrev pub IsU16 : ℕ → Type 0
IsU16 n = n < 65536

abbrev pub IsU32 : ℕ → Type 0
IsU32 n = n < 4294967296

-- `data[i]`, where the guards of the code keep `i` in range.
abbrev pub byte_at : List ℕ → ℕ → ℕ
byte_at [] i = 0
byte_at (b ∷ data') zero = b
byte_at (b ∷ data') (suc i) = byte_at data' i

-- `data[lo:hi]`
abbrev pub slice : List ℕ → ℕ → ℕ → List ℕ
slice bytes lo hi = take (hi - lo) (drop lo bytes)

-- `binary.BigEndian.Uint16` and `Uint32` of the bytes from `i` on.
abbrev pub uint16 : List ℕ → ℕ → ℕ
uint16 bytes i = byte_at bytes i * 256 + byte_at bytes (suc i)

abbrev pub uint32 : List ℕ → ℕ → ℕ
uint32 bytes i = uint16 bytes i * 65536 + uint16 bytes (suc (suc i))

-- `binary.BigEndian.PutUint16` and `PutUint32`
abbrev pub put_uint16 : ℕ → List ℕ
put_uint16 n = n / 256 % 256 ∷ n % 256 ∷ []

abbrev pub put_uint32 : ℕ → List ℕ
put_uint32 n = n / 16777216 % 256 ∷ n / 65536 % 256 ∷ n / 256 % 256 ∷ n % 256 ∷ []

-- `bytes.IndexByte`, which returns -1 where this returns `none`.
unfoldable pub index_byte : List ℕ → ℕ → Option ℕ
index_byte [] b = none
index_byte (c ∷ bytes) b =
    let later = index_byte bytes b in
    if c == b then some 0 else elim later [ none ↦ none | some i ↦ some (suc i) ]

-- The bytes up to the one that is found do not hold it, and it stands there.
pub index_byte-some :
    (bytes : List ℕ) (b i : ℕ)
    → index_byte bytes b ≡ some i
    → All (λ c. c ≢ b) (take i bytes) × (bytes ≡ take i bytes ++ (b ∷ drop (suc i) bytes))
unfolding index_byte
index_byte-some [] b i e = absurd (ground arith)
index_byte-some (c ∷ bytes) b zero e = ground arith
index_byte-some (c ∷ bytes) b (suc i) e = ground (arith, index_byte-some bytes b i)

pub index_byte-append :
    (front back : List ℕ) (b : ℕ)
    → All (λ c. c ≢ b) front
    → index_byte (front ++ (b ∷ back)) b ≡ some (length front)
unfolding index_byte
index_byte-append [] back b h = ground arith
index_byte-append (c ∷ front) back b h = ground (arith, index_byte-append front back b h.1)

-- Equations between functions of one byte, by a table.
module _ (f g : ℕ → ℕ) where
  agree_below : ℕ → Bool
  agree_below zero = true
  agree_below (suc n) = f n == g n && agree_below n

  agree_below→eq : (n : ℕ) → agree_below n ≡ true → (i : ℕ) → i < n → f i ≡ g i
  unfolding agree_below
  agree_below→eq zero e i h = absurd (omega arith)
  agree_below→eq (suc n) e i h = ground (arith, agree_below→eq n (ground arith) i)

pub bit_and_fifteen : (b : ℕ) → b < 256 → bit_and b 0x0f ≡ b % 16
unfolding agree_below
bit_and_fifteen = agree_below→eq _ _ 256 refl

pub bit_and_three : (b : ℕ) → b < 256 → bit_and b 0x03 ≡ b % 4
unfolding agree_below
bit_and_three = agree_below→eq _ _ 256 refl

pub bit_and_one : (b : ℕ) → b < 256 → bit_and b 0x01 ≡ b % 2
unfolding agree_below
bit_and_one = agree_below→eq _ _ 256 refl
