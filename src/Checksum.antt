-- ===== src/Checksum.antt =====
-- `checksum64` of src/wal.cpp: four lanes of multiply-rotate rounds over 64-bit words, and an
-- avalanche. Words are numbers below 2 ^ 64; every operation that can pass it is cut.
pub mod Congruence
use Prim.Native.Nat.{bit_xor}
use labdb.Prelude.{
  ℕ, zero, suc, ◌+◌, ◌-◌, ◌*◌, ◌/◌, ◌%◌, ◌^◌, ◌==◌, Outcome, ok, check_that, ◌>>=◌, ◌>>◌,
}
use labdb.Common.{Bytes, load_u64}

abbrev pub u64 : ℕ → ℕ
u64 n = n % 2 ^ 64

abbrev p1 : ℕ
p1 = 0x9E3779B185EBCA87

abbrev p2 : ℕ
p2 = 0xC2B2AE3D27D4EB4F

abbrev p3 : ℕ
p3 = 0x165667B19E3779F9

abbrev p4 : ℕ
p4 = 0x85EBCA77C2B2AE63

-- The two halves have no bit in common, so `|` is `+`.
rotl64 : ℕ → ℕ → ℕ
rotl64 x r = u64 (x * 2 ^ r) + x / 2 ^ (64 - r)

round64 : ℕ → ℕ → ℕ
unfolding rotl64
round64 acc w = u64 (rotl64 (u64 (acc + w * p2)) 31 * p1)

xor_shift : ℕ → ℕ → ℕ
xor_shift h r = u64 (bit_xor h (h / 2 ^ r))

pub record Lanes : Type 0 where
  pub a : ℕ
  pub b : ℕ
  pub c : ℕ
  pub d : ℕ

lanes_of : ℕ → Lanes
lanes_of seed = record {
  a = u64 (seed + p1 + p2);
  b = u64 (seed + p2);
  c = u64 seed;
  d = u64 (seed + 2 ^ 64 - p1);
}

-- One round of the loop over 32 bytes at `i`.
step_lanes : Bytes → ℕ → Lanes → Lanes
unfolding round64
step_lanes p i v = record {
  a = round64 v.a (load_u64 p i);
  b = round64 v.b (load_u64 p (i + 8));
  c = round64 v.c (load_u64 p (i + 16));
  d = round64 v.d (load_u64 p (i + 24));
}

-- The loop over 32 bytes at a time, over `left` blocks from `i` on.
run_lanes : ℕ → Bytes → ℕ → Lanes → Lanes
unfolding step_lanes
run_lanes zero p i v = v
run_lanes (suc left) p i v = run_lanes left p (i + 32) (step_lanes p i v)

merge_lanes : Lanes → ℕ
unfolding rotl64
merge_lanes v = u64 (rotl64 v.a 1 + rotl64 v.b 7 + rotl64 v.c 12 + rotl64 v.d 18)

-- The loop over the words that are left, `left` of them from `i` on.
run_tail : ℕ → Bytes → ℕ → ℕ → ℕ
unfolding rotl64 round64
run_tail zero p i h = h
run_tail (suc left) p i h =
    run_tail left p (i + 8) (u64 (rotl64 (bit_xor h (round64 0 (load_u64 p i))) 27 * p1 + p4))

avalanche : ℕ → ℕ
unfolding xor_shift
avalanche h = xor_shift (u64 (xor_shift (u64 (xor_shift h 33 * p2)) 29 * p3)) 32

-- `checksum64` behind its test, of the `n` bytes of `p` from `at` on.
unfoldable pub digest : Bytes → ℕ → ℕ → ℕ → ℕ
unfolding lanes_of run_lanes merge_lanes run_tail avalanche
digest p at n seed =
    let v = run_lanes (n / 32) p at (lanes_of seed) in
    avalanche (u64 (run_tail (n % 32 / 8) p (at + n / 32 * 32) (merge_lanes v) + n))

unfoldable pub checksum64 : Bytes → ℕ → ℕ → ℕ → Outcome ℕ
checksum64 p at n seed = do
  check_that (n % 8 == 0) "checksum64: length must be a multiple of 8"
  ok (digest p at n seed)
