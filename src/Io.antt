-- ===== src/Io.antt =====
-- src/io.cpp: exact reads and writes of a file. The system calls are the operating system's; a call
-- that fails throws, and the process dies with it, so the model follows the calls that succeed: the
-- loops of `pread_exact` and `pwrite_exact` then move all their bytes, however the calls split them.
use labdb.Prelude.{ℕ, ◌+◌, if◌then◌else◌, leb, ltb, Outcome, ok, fail}
use labdb.Common.{Bytes, zeroes, memcpy}

-- A file: its bytes, and how many there are. Past its end no byte is read.
pub record File : Type 0 where
  pub bytes : Bytes
  pub size : ℕ

abbrev pub empty_file : File
empty_file = record { bytes = zeroes; size = 0 }

-- What `pread_exact` leaves in a buffer of its own: the `n` bytes at `off`.
unfoldable pub pread_exact : File → ℕ → ℕ → Outcome Bytes
pread_exact f n off =
    if leb (off + n) f.size
    then ok (λ i. f.bytes (off + i))
    else fail "pread hit end of file (truncated database?)"

-- A write past the end extends the file.
unfoldable pub pwrite_exact : File → Bytes → ℕ → ℕ → File
pwrite_exact f buf n off = record {
  bytes = memcpy f.bytes off buf 0 n;
  size = if leb (off + n) f.size then f.size else off + n;
}

-- Bytes that a longer file gains are zero.
unfoldable pub truncate_exact : File → ℕ → File
truncate_exact f size = record { bytes = λ i. if ltb i f.size then f.bytes i else 0; size = size }
