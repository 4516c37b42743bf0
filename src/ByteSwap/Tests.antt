-- ===== src/ByteSwap/Tests.antt =====
-- The macros of cjunk/ringBuffer.h on the number that its disabled test uses.
use mathlib.Core.List.{reverse}
use cpp_examples.Prelude.{◌≡◌, refl, arith}
use cpp_examples.ByteSwap.{byteswap_16, byteswap_32}
use cpp_examples.ByteSwap.Bytes.{bytes, byteswap_32-reverse}

swaps : byteswap_32 0x12345678 ≡ 0x78563412
unfolding byteswap_32
swaps = refl

byteswap_32-reverse_example :
    (bytes 4 (byteswap_32 0x12345678) ≡ reverse (bytes 4 0x12345678))
    × (byteswap_32 (byteswap_32 0x12345678) ≡ 0x12345678)
    × (bytes 2 (byteswap_16 0x1234) ≡ reverse (bytes 2 0x1234))
    × (byteswap_16 (byteswap_16 0x1234) ≡ 0x1234)
byteswap_32-reverse_example = byteswap_32-reverse 0x12345678 0x1234 (omega arith) (omega arith)
