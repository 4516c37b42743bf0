-- ===== src/ByteSwap.antt =====
-- The macros `byteswap_16` and `byteswap_32` of cjunk/ringBuffer.h, on an `unsigned int` of 32 bits.
mod Bytes
mod Tests
use Prim.Native.Nat.{bit_and, bit_or}
use cpp_examples.Prelude.{ℕ, ◌*◌, ◌/◌, ◌%◌, ◌^◌}

-- `x << k` and `x >> k`
infixl 60 ◌<<<◌ ◌>>>◌
abbrev pub ◌<<<◌ : ℕ → ℕ → ℕ
x <<< k = x * 2 ^ k % 2 ^ 32

abbrev pub ◌>>>◌ : ℕ → ℕ → ℕ
x >>> k = x / 2 ^ k

unfoldable pub byteswap_16 : ℕ → ℕ
byteswap_16 x = bit_or (bit_and x 0xff00 >>> 8) (bit_and x 0x00ff <<< 8)

unfoldable pub byteswap_32 : ℕ → ℕ
byteswap_32 x =
    bit_or
      (bit_or (bit_or (bit_and x 0xff000000 >>> 24) (bit_and x 0x00ff0000 >>> 8))
        (bit_and x 0x0000ff00 <<< 8))
      (bit_and x 0x000000ff <<< 24)
