-- ===== src/Common.antt =====
-- src/common.hpp: bytes and the byte-exact access to little-endian fields. A buffer is the function
-- from an offset to the byte there; code that stays in bounds never looks past the buffer's end.
pub mod Fields
use labdb.Prelude.{ℕ, zero, suc, ◌+◌, ◌-◌, ◌*◌, ◌/◌, ◌%◌, Bool, ◌&&◌, if◌then◌else◌, ◌==◌, leb, ltb}

abbrev pub Bytes : Type 0
Bytes = ℕ → ℕ

-- `Page() : bytes_{}`, and every zeroed buffer
abbrev pub zeroes : Bytes
zeroes i = 0

-- p[o] = b
unfoldable pub put : Bytes → ℕ → ℕ → Bytes
put p o b i = if i == o then b else p i

-- memcpy(dst + at, src + from, n), the regions apart
unfoldable pub memcpy : Bytes → ℕ → Bytes → ℕ → ℕ → Bytes
memcpy dst at src from n i = if leb at i && ltb i (at + n) then src (i - at + from) else dst i

-- `load_u16`, `load_u32` and `load_u64` at the width of `w` bytes
unfoldable pub load : ℕ → Bytes → ℕ → ℕ
load zero p o = 0
load (suc w) p o = p o + 256 * load w p (o + 1)

-- `store_u16`, `store_u32` and `store_u64` at the width of `w` bytes
unfoldable pub store : ℕ → Bytes → ℕ → ℕ → Bytes
store zero p o v = p
store (suc w) p o v = store w (put p o (v % 256)) (o + 1) (v / 256)

abbrev pub load_u16 : Bytes → ℕ → ℕ
load_u16 = load 2

abbrev pub load_u32 : Bytes → ℕ → ℕ
load_u32 = load 4

abbrev pub load_u64 : Bytes → ℕ → ℕ
load_u64 = load 8

abbrev pub store_u16 : Bytes → ℕ → ℕ → Bytes
store_u16 = store 2

abbrev pub store_u32 : Bytes → ℕ → ℕ → Bytes
store_u32 = store 4

abbrev pub store_u64 : Bytes → ℕ → ℕ → Bytes
store_u64 = store 8
