-- ===== src/Checksum/Congruence.antt =====
-- The checksum is a function of the bytes it covers, and a 64-bit word.
use mathlib.Core.Path.{subst₂}
use labdb.Prelude.{ℕ, zero, suc, ◌+◌, ◌*◌, ◌/◌, ◌%◌, ◌^◌, ◌≤◌, ◌<◌, ◌≡◌, refl, arith, ap, ◌∙◌}
use labdb.Common.{Bytes, load}
use labdb.Common.Fields.{load-shift}
use labdb.Checksum.{
  Lanes, lanes_of, step_lanes, run_lanes, merge_lanes, run_tail, xor_shift, avalanche, digest,
}

-- The same bytes in two buffers, `n` of them from `a` and from `b` on.
abbrev pub SameBytes : Bytes → ℕ → Bytes → ℕ → ℕ → Type 0
SameBytes p a q b n = (k : ℕ) → k < n → p (a + k) ≡ q (b + k)

module _ (p q : Bytes) where
  pub SameBytes-drop :
      (a b n o m : ℕ) → SameBytes p a q b n → o + m ≤ n → SameBytes p (a + o) q (b + o) m
  SameBytes-drop a b n o m h l k u =
      subst₂ (λ x y. p x ≡ q y) {x = a + (o + k)} (omega arith) (omega arith)
        (h (o + k) (omega arith))

  word-congr : (a b n o : ℕ) → SameBytes p a q b n → o + 8 ≤ n → load 8 p (a + o) ≡ load 8 q (b + o)
  word-congr a b n o h l = load-shift 8 p q (a + o) (b + o) (SameBytes-drop a b n o 8 h l)

  step_lanes-congr :
      (a b : ℕ) (v : Lanes) → SameBytes p a q b 32 → step_lanes p a v ≡ step_lanes q b v
  unfolding step_lanes
  step_lanes-congr a b v h =
      let e : load 8 p a ≡ load 8 q b = load-shift 8 p q a b (λ k u. h k (omega arith)) in
      rw (
        e,
        word-congr a b 32 8 h (omega arith),
        word-congr a b 32 16 h (omega arith),
        word-congr a b 32 24 h (omega arith),
      )

  run_lanes-congr :
      (left a b : ℕ) (v : Lanes)
      → SameBytes p a q b (left * 32)
      → run_lanes left p a v ≡ run_lanes left q b v
  unfolding run_lanes
  run_lanes-congr zero a b v h = refl
  run_lanes-congr (suc left) a b v h =
      ap (run_lanes left p (a + 32)) (step_lanes-congr a b v (λ k u. h k (omega arith)))
      ∙ run_lanes-congr left (a + 32) (b + 32) (step_lanes q b v)
          (SameBytes-drop a b (suc left * 32) 32 (left * 32) h (omega arith))

  run_tail-congr :
      (left a b h : ℕ) → SameBytes p a q b (left * 8) → run_tail left p a h ≡ run_tail left q b h
  unfolding run_tail
  run_tail-congr zero a b h s = refl
  run_tail-congr (suc left) a b h s =
      let e : load 8 p a ≡ load 8 q b = load-shift 8 p q a b (λ k u. s k (omega arith)) in
      rw e (
        run_tail-congr left (a + 8) (b + 8) _
          (SameBytes-drop a b (suc left * 8) 8 (left * 8) s (omega arith)))

  -- Equal bytes have equal checksums, wherever they stand.
  pub digest-congr : (a b n seed : ℕ) → SameBytes p a q b n → digest p a n seed ≡ digest q b n seed
  unfolding digest
  digest-congr a b n seed h = rw (
    run_lanes-congr (n / 32) a b (lanes_of seed) (λ k u. h k (omega arith)),
    run_tail-congr (n % 32 / 8) (a + n / 32 * 32) (b + n / 32 * 32)
        (merge_lanes (run_lanes (n / 32) q b (lanes_of seed)))
        (SameBytes-drop a b n (n / 32 * 32) (n % 32 / 8 * 8) h (omega arith)),
  )

pub digest-lt : (p : Bytes) (at n seed : ℕ) → digest p at n seed < 2 ^ 64
unfolding digest avalanche xor_shift
digest-lt p at n seed = omega arith
