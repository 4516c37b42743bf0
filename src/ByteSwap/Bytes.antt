-- ===== src/ByteSwap/Bytes.antt =====
-- The bytes of a word that a macro of cjunk/ringBuffer.h swaps.
use Prim.Native.Nat.{bit_and, bit_or}
use mathlib.Core.List.{reverse}
use cpp_examples.Prelude.{
  ℕ, zero, suc, ◌+◌, ◌*◌, ◌/◌, ◌%◌, ◌^◌, ◌<◌, ◌≡◌, ◌∙◌, refl, ap, ap₂, arith, List, [], ◌∷◌,
}
use cpp_examples.Prelude.Bits.{and-shifted, and-byte, or-fields}
use cpp_examples.ByteSwap.{byteswap_16, byteswap_32, ◌<<<◌, ◌>>>◌}

-- The bytes of a word, the lowest first.
unfoldable pub bytes : ℕ → ℕ → List ℕ
bytes zero x = []
bytes (suc count) x = x % 256 ∷ bytes count (x / 256)

-- The byte that stands k digits up.
masked : (k x : ℕ) → bit_and x (255 * 2 ^ k) ≡ x / 2 ^ k % 256 * 2 ^ k
masked k x = and-shifted k x 255 ∙ ap (λ b. b * 2 ^ k) (and-byte (x / 2 ^ k))

byteswap_16-sum : (x : ℕ) → byteswap_16 x ≡ x / 2 ^ 8 % 256 + x % 256 * 2 ^ 8
unfolding byteswap_16
byteswap_16-sum x =
    let high : bit_and x 0xff00 >>> 8 ≡ x / 2 ^ 8 % 256 = omega (arith, masked 8 x) in
    let low : bit_and x 0x00ff <<< 8 ≡ x % 256 * 2 ^ 8 = omega (arith, and-byte x) in
    ap₂ bit_or high low ∙ or-fields 8 (x / 2 ^ 8 % 256) (x % 256) (omega arith)

byteswap_32-sum :
    (x : ℕ)
    → byteswap_32 x
      ≡ x / 2 ^ 24 % 256 + x / 2 ^ 16 % 256 * 2 ^ 8 + x / 2 ^ 8 % 256 * 2 ^ 16 + x % 256 * 2 ^ 24
unfolding byteswap_32
byteswap_32-sum x =
    let a = x / 2 ^ 24 % 256 in
    let b = x / 2 ^ 16 % 256 in
    let c = x / 2 ^ 8 % 256 in
    let first : bit_and x 0xff000000 >>> 24 ≡ a = omega (arith, masked 24 x) in
    let second : bit_and x 0x00ff0000 >>> 8 ≡ b * 2 ^ 8 = omega (arith, masked 16 x) in
    let third : bit_and x 0x0000ff00 <<< 8 ≡ c * 2 ^ 16 = omega (arith, masked 8 x) in
    let fourth : bit_and x 0x000000ff <<< 24 ≡ x % 256 * 2 ^ 24 = omega (arith, and-byte x) in
    let two = ap₂ bit_or first second ∙ or-fields 8 a b (omega arith) in
    let three = ap₂ bit_or two third ∙ or-fields 16 (a + b * 2 ^ 8) c (omega arith) in
    ap₂ bit_or three fourth ∙ or-fields 24 (a + b * 2 ^ 8 + c * 2 ^ 16) (x % 256) (omega arith)

-- The bytes of a word that is given by its bytes.
two-bytes : (a b : ℕ) → a < 256 → b < 256 → bytes 2 (a + b * 2 ^ 8) ≡ a ∷ b ∷ []
unfolding bytes
two-bytes a b h i =
    let first : (a + b * 2 ^ 8) % 256 ≡ a = omega arith in
    let second : (a + b * 2 ^ 8) / 256 ≡ b = omega arith in
    let kept : b % 256 ≡ b = omega arith in rw (first, second, kept) refl

four-bytes :
    (a b c d : ℕ)
    → a < 256
    → b < 256
    → c < 256
    → d < 256
    → bytes 4 (a + b * 2 ^ 8 + c * 2 ^ 16 + d * 2 ^ 24) ≡ a ∷ b ∷ c ∷ d ∷ []
unfolding bytes
four-bytes a b c d ha hb hc hd =
    let first : (a + b * 2 ^ 8 + c * 2 ^ 16 + d * 2 ^ 24) % 256 ≡ a = omega arith in
    let rest : (a + b * 2 ^ 8 + c * 2 ^ 16 + d * 2 ^ 24) / 256 ≡ b + (c + d * 2 ^ 8) * 256 =
      omega arith in
    let second : (b + (c + d * 2 ^ 8) * 256) % 256 ≡ b = omega arith in
    let more : (b + (c + d * 2 ^ 8) * 256) / 256 ≡ c + d * 2 ^ 8 = omega arith in
    rw (first, rest, second, more) (ap (λ l. a ∷ b ∷ l) (two-bytes c d hc hd))

-- A word of 32 bits is the sum of its bytes.
word :
    (x : ℕ)
    → x < 2 ^ 32
    → x ≡ x % 256 + x / 2 ^ 8 % 256 * 2 ^ 8 + x / 2 ^ 16 % 256 * 2 ^ 16 + x / 2 ^ 24 % 256 * 2 ^ 24
word x h = omega arith

swapped-bytes : (x : ℕ) → bytes 4 (byteswap_32 x) ≡ reverse (bytes 4 x)
unfolding bytes
swapped-bytes x =
    let third : x / 2 ^ 16 ≡ x / 256 / 256 = omega arith in
    let fourth : x / 2 ^ 24 ≡ x / 256 / 256 / 256 = omega arith in
    ap (bytes 4) (byteswap_32-sum x)
    ∙ four-bytes (x / 2 ^ 24 % 256) (x / 2 ^ 16 % 256) (x / 2 ^ 8 % 256) (x % 256) (omega arith)
        (omega arith) (omega arith) (omega arith)
    ∙ rw (third, fourth) refl

swapped_twice : (x : ℕ) → x < 2 ^ 32 → byteswap_32 (byteswap_32 x) ≡ x
swapped_twice x h =
    let a = x % 256 in
    let b = x / 2 ^ 8 % 256 in
    let c = x / 2 ^ 16 % 256 in
    let d = x / 2 ^ 24 % 256 in
    let once = byteswap_32-sum x in
    let s = byteswap_32 x in
    let low : s % 256 ≡ d = omega (arith, once) in
    let second : s / 2 ^ 8 % 256 ≡ c = omega (arith, once) in
    let third : s / 2 ^ 16 % 256 ≡ b = omega (arith, once) in
    let high : s / 2 ^ 24 % 256 ≡ a = omega (arith, once) in
    omega (arith, byteswap_32-sum s, low, second, third, high, word x h)

-- For a word of 32 bits byteswap_32 turns the order of its four bytes around, and for one of 16 bits
-- byteswap_16 that of its two; each of them undoes itself.
pub byteswap_32-reverse :
    (x y : ℕ)
    → x < 2 ^ 32
    → y < 2 ^ 16
    → (bytes 4 (byteswap_32 x) ≡ reverse (bytes 4 x))
      × (byteswap_32 (byteswap_32 x) ≡ x)
      × (bytes 2 (byteswap_16 y) ≡ reverse (bytes 2 y))
      × (byteswap_16 (byteswap_16 y) ≡ y)
unfolding bytes
byteswap_32-reverse x y h i =
    let once = byteswap_16-sum y in
    (
      swapped-bytes x,
      swapped_twice x h,
      ap (bytes 2) once ∙ two-bytes (y / 2 ^ 8 % 256) (y % 256) (omega arith) (omega arith),
      omega (arith, once, byteswap_16-sum (byteswap_16 y)),
    )
