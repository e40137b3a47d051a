-- ===== src/Process/Bytes.antt =====
-- encoding/binary: the big-endian unsigned integers of the log's files. A byte is a number.
use native.Mathlib.Nat.{pow-suc}
use remote_code.Prelude.{
  ℕ, zero, suc, ◌+◌, ◌*◌, ◌/◌, ◌%◌, ◌^◌, ◌<◌, ◌≡◌, refl, List, [], ◌∷◌, ◌++◌, arith,
}

abbrev pub Bytes : Type 0
Bytes = List ℕ

-- The last `count` bytes of a number, the high ones first: `PutUint32` and `PutUint64` at 4 and 8, which
-- drop what does not fit.
unfoldable pub put_uint : ℕ → ℕ → Bytes
put_uint zero n = []
put_uint (suc count) n = put_uint count (n / 256) ++ n % 256 ∷ []

unfoldable pub value_after : ℕ → Bytes → ℕ
value_after acc [] = acc
value_after acc (b ∷ bytes) = value_after (acc * 256 + b) bytes

unfoldable pub uint : Bytes → ℕ
unfolding value_after
uint bytes = value_after 0 bytes

value_after-append :
    (acc b : ℕ) (bytes : Bytes)
    → value_after acc (bytes ++ b ∷ []) ≡ value_after acc bytes * 256 + b
unfolding value_after
value_after-append acc b [] = refl
value_after-append acc b (c ∷ bytes) = value_after-append (acc * 256 + c) b bytes

-- A number that fits reads back.
pub uint-put_uint : (count n : ℕ) → n < 256 ^ count → uint (put_uint count n) ≡ n
unfolding uint value_after put_uint
uint-put_uint zero n h = omega (arith, h)
uint-put_uint (suc count) n h =
    let fits : n / 256 < 256 ^ count = omega (arith, h, pow-suc 256 count) in
    omega (
      arith,
      value_after-append 0 (n % 256) (put_uint count (n / 256)),
      uint-put_uint count (n / 256) fits,
    )
