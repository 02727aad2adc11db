-- ===== src/Record/Rids.antt =====
-- A record's address packs into the 64-bit value of a tree entry, and back.
use labdb.Prelude.{◌^◌, ◌<◌, ◌≡◌, arith}
use labdb.Record.{Rid, rid_encode, rid_decode}

-- An address of a 32-bit page id and a 16-bit slot packs into 64 bits and unpacks to itself.
pub rid_decode-rid_encode :
    (r : Rid)
    → r.page < 2 ^ 32
    → r.slot < 2 ^ 16
    → (rid_encode r < 2 ^ 64) × (rid_decode (rid_encode r) ≡ r)
unfolding rid_encode rid_decode
rid_decode-rid_encode r p s = (omega arith, ground arith)
