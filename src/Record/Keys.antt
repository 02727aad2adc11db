-- ===== src/Record/Keys.antt =====
-- The keys of an index keep the order of the values.
use native.Mathlib.Nat.{pow-suc, mul-le-mul_right}
use labdb.Prelude.{
  ℕ, zero, suc, ◌-◌, ◌^◌, ◌≤◌, ◌<◌, ◌≡◌, inl, inr, arith, List, [], ◌∷◌, Bool, true, false, ltb,
  if◌then◌else◌, ◌==◌, Bool-cases, ==→eq,
}
use labdb.Prelude.Int.{ℤ, pos, negsuc}
use labdb.Record.{order_key_int, text_key, order_key_text}

-- The integer that a 64-bit pattern stands for.
abbrev pub int_value : ℕ → ℤ
int_value v = if ltb v (2 ^ 63) then pos v else negsuc (2 ^ 64 - 1 - v)

abbrev pub int_ltb : ℤ → ℤ → Bool
int_ltb (pos a) (pos b) = ltb a b
int_ltb (pos a) (negsuc b) = false
int_ltb (negsuc a) (pos b) = true
int_ltb (negsuc a) (negsuc b) = ltb b a

-- On 64-bit patterns the unsigned order of the keys is the signed order of the integers,
-- exactly.
pub order_key_int-ltb :
    (a b : ℕ)
    → a < 2 ^ 64
    → b < 2 ^ 64
    → ltb (order_key_int a) (order_key_int b) ≡ int_ltb (int_value a) (int_value b)
unfolding order_key_int
order_key_int-ltb a b p q = ground arith

-- The order of texts by their bytes, a prefix first.
abbrev pub text_leb : List ℕ → List ℕ → Bool
text_leb [] u = true
text_leb (c ∷ t) [] = false
text_leb (c ∷ t) (d ∷ u) = if c == d then text_leb t u else ltb c d

abbrev pub AllBytes : List ℕ → Type 0
AllBytes [] = Unit
AllBytes (c ∷ t) = (c < 256) × AllBytes t

below : {c : ℕ} → c < 256 → c ≤ 255
below h = omega arith

text_key-lt : (n : ℕ) (t : List ℕ) → AllBytes t → text_key n t < 256 ^ n
unfolding text_key
text_key-lt zero t h = omega arith
text_key-lt (suc n) [] h = omega (arith, pow-suc 256 n, text_key-lt n [] tt)
text_key-lt (suc n) (c ∷ t) h =
    omega (arith, pow-suc 256 n, text_key-lt n t h.1, mul-le-mul_right (256 ^ n) (below h.0))

text_key_mono :
    (n : ℕ) (t u : List ℕ)
    → AllBytes t
    → AllBytes u
    → text_leb t u ≡ true
    → text_key n t ≤ text_key n u
unfolding text_key
text_key_mono zero t u h k l = omega arith
text_key_mono (suc n) [] u h k l = omega arith
text_key_mono (suc n) (c ∷ t) [] h k l = absurd (cc)
text_key_mono (suc n) (c ∷ t) (d ∷ u) h k l = elim (Bool-cases (c == d)) [
  | inl e ↦
      let e' : c ≡ d = ==→eq c d e in
      rw e' (omega (arith, text_key_mono n t u h.1 k.1 (ground arith)))
  | inr e ↦
      let less : c < d = ground arith in
      omega (arith, text_key-lt n t h.1, mul-le-mul_right (256 ^ n) less)
]

-- On texts of bytes the keys never reverse the order: of two texts in order, the keys are in
-- order or equal.
pub order_key_text_mono :
    (t u : List ℕ)
    → AllBytes t
    → AllBytes u
    → text_leb t u ≡ true
    → order_key_text t ≤ order_key_text u
unfolding order_key_text
order_key_text_mono t u = text_key_mono 8 t u
