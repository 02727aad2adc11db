-- ===== src/JoinHash.antt =====
-- src/join_hash.hpp: the table of a hash join. Row ids are grouped by bucket, `offset` says where each
-- bucket's run starts, and `order` holds the ids. Offsets and ids have 32 bits. A position past a
-- vector's end, which the code never reads, reads as 0 or as an empty row.
pub mod Buckets
use Prim.Native.Nat.{bit_xor, bit_and}
use labdb.Prelude.{
  ℕ, zero, suc, ◌+◌, ◌-◌, ◌*◌, ◌/◌, ◌%◌, ◌^◌, Bool, true, false, List, [], ◌∷◌, ◌++◌, if◌then◌else◌,
  ◌==◌, leb, ltb, length, get_or, set,
}
use labdb.Record.{Row}

abbrev pub word : ℕ → ℕ
word n = n % 2 ^ 64

-- x ^= x >> 33
abbrev pub fold_high : ℕ → ℕ
fold_high x = bit_xor x (x / 2 ^ 33)

unfoldable pub mix64 : ℕ → ℕ
mix64 x =
    let a = word (fold_high x * 18397679294719823053) in
    let b = word (fold_high a * 14181476777654086739) in fold_high b

-- The loop over the bytes.
unfoldable pub fnv1a_from : ℕ → List ℕ → ℕ
fnv1a_from h [] = h
fnv1a_from h (c ∷ s) = fnv1a_from (word (bit_xor h c * 1099511628211)) s

unfoldable pub fnv1a : List ℕ → ℕ
unfolding fnv1a_from
fnv1a s = fnv1a_from 14695981039346656037 s

pub record JoinHashTable : Type 0 where
  pub mix : ℕ → ℕ
  pub rows : List Row
  pub hashes : List ℕ
  pub offset : List ℕ
  pub order : List ℕ
  pub mask : ℕ

abbrev pub new_table : (ℕ → ℕ) → JoinHashTable
new_table mix = record { mix = mix; rows = []; hashes = []; offset = []; order = []; mask = 0 }

unfoldable pub add : JoinHashTable → ℕ → Row → JoinHashTable
add t key_hash row = record t { hashes = t.hashes ++ key_hash ∷ []; rows = t.rows ++ row ∷ [] }

unfoldable pub add_key : JoinHashTable → ℕ → JoinHashTable
add_key t key_hash = record t { hashes = t.hashes ++ key_hash ∷ [] }

-- while (nb < n) nb <<= 1, whose shift loses the bits from 2 ^ 64 on. Up to 2 ^ 63 rows each round doubles
-- `nb`, so `n` rounds are enough; with more rows than that the source's loop does not end.
unfoldable pub bucket_loop : ℕ → ℕ → ℕ → ℕ
bucket_loop zero n nb = nb
bucket_loop (suc fuel) n nb =
    let rest = bucket_loop fuel n (nb * 2 % 2 ^ 64) in if ltb nb n then rest else nb

unfoldable pub bucket_count : ℕ → ℕ
unfolding bucket_loop
bucket_count n = bucket_loop n n 1

abbrev pub bucket_of : JoinHashTable → ℕ → ℕ
bucket_of t h = bit_and (t.mix h) t.mask

unfoldable pub zeros : ℕ → List ℕ
zeros zero = []
zeros (suc n) = 0 ∷ zeros n

-- ++l[i] of 32 bits
abbrev pub increment : List ℕ → ℕ → List ℕ
increment l i = set l i ((get_or l i 0 + 1) % 2 ^ 32)

-- for (h : hashes) ++offset[bucket_of(h) + 1]
unfoldable pub count_rows : JoinHashTable → List ℕ → List ℕ → List ℕ
count_rows t [] offset = offset
count_rows t (h ∷ hashes) offset = count_rows t hashes (increment offset (bucket_of t h + 1))

-- for (b = from; left more; ++b) offset[b + 1] += offset[b]
unfoldable pub add_up : ℕ → ℕ → List ℕ → List ℕ
add_up b zero offset = offset
add_up b (suc left) offset =
    add_up (b + 1) left
      (set offset (b + 1) ((get_or offset (b + 1) 0 + get_or offset b 0) % 2 ^ 32))

-- The last loop: each id to the next free position of its bucket, which `fill` has.
unfoldable pub place_ids : JoinHashTable → List ℕ → ℕ → List ℕ → List ℕ → List ℕ
place_ids t [] id fill order = order
place_ids t (h ∷ hashes) id fill order =
    let b = bucket_of t h in
    place_ids t hashes (id + 1) (increment fill b) (set order (get_or fill b 0) id)

unfoldable pub finish : JoinHashTable → JoinHashTable
unfolding bucket_count zeros count_rows add_up place_ids
finish t =
    let n = length t.hashes in
    let nb = bucket_count n in
    let t' = record t { mask = nb - 1 } in
    let offset = add_up 0 nb (count_rows t' t.hashes (zeros (nb + 1))) in
    record t' { offset = offset; order = place_ids t' t.hashes 0 offset (zeros n) }

abbrev pub bucket_range : JoinHashTable → ℕ → ℕ × ℕ
bucket_range t key_hash =
    let b = bucket_of t key_hash in (get_or t.offset b 0, get_or t.offset (b + 1) 0)

abbrev pub id_at : JoinHashTable → ℕ → ℕ
id_at t pos = get_or t.order pos 0

abbrev pub hash_of : JoinHashTable → ℕ → ℕ
hash_of t id = get_or t.hashes id 0

abbrev pub row_of : JoinHashTable → ℕ → Row
row_of t id = get_or t.rows id []

abbrev pub size : JoinHashTable → ℕ
size t = length t.hashes

pub record Occupancy : Type 0 where
  pub rows : ℕ
  pub buckets : ℕ
  pub used : ℕ
  pub longest : ℕ
  pub chain_hist : List ℕ

-- for (cap = 1; cap < len; cap <<= 1) ++cls
unfoldable pub class_loop : ℕ → ℕ → ℕ → ℕ → ℕ
class_loop zero len cap cls = cls
class_loop (suc fuel) len cap cls =
    let rest = class_loop fuel len (cap * 2) (cls + 1) in if ltb cap len then rest else cls

unfoldable pub chain_class : ℕ → ℕ
unfolding class_loop
chain_class len = if ltb 0 len then class_loop len len 1 1 else 0

-- One bucket counted.
unfoldable pub tally : Occupancy → ℕ → Occupancy
unfolding chain_class zeros
tally o len =
    let cls = chain_class len in
    let hist =
      if leb (length o.chain_hist) cls
      then o.chain_hist ++ zeros (cls + 1 - length o.chain_hist)
      else o.chain_hist in
    record o {
      used = if len == 0 then o.used else o.used + 1;
      longest = if ltb o.longest len then len else o.longest;
      chain_hist = set hist cls (get_or hist cls 0 + 1);
    }

-- The loop over the buckets: two neighbours of `offset` bound each.
unfoldable pub tally_all : Occupancy → List ℕ → Occupancy
unfolding tally
tally_all o [] = o
tally_all o (a ∷ []) = o
tally_all o (a ∷ b ∷ offset) = tally_all (tally o (b - a)) (b ∷ offset)

unfoldable pub occupancy : JoinHashTable → Occupancy
unfolding tally_all
occupancy t =
    tally_all
      (record {
        rows = length t.hashes;
        buckets = length t.offset - 1;
        used = 0;
        longest = 0;
        chain_hist = [];
      })
      t.offset
