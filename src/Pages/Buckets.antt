-- ===== src/Pages/Buckets.antt =====
-- crates/wavedb-storage/src/directory.rs: the addressing of the buckets by linear hashing.
-- A shift is a product or a quotient, and a mask of low bits is a remainder.
pub mod Laws
use wavedb.Base.{ℕ, zero, suc, ◌+◌, ◌-◌, ◌*◌, ◌/◌, ◌%◌, ◌^◌, ltb, if◌then◌else◌}

-- `u64::ilog2`: the halvings that leave 1, of which a `u64` takes fewer than 64.
abbrev pub ilog2_loop : ℕ → ℕ → ℕ
ilog2_loop zero n = 0
ilog2_loop (suc fuel) n = let rest = suc (ilog2_loop fuel (n / 2)) in if ltb n 2 then 0 else rest

unfoldable pub ilog2 : ℕ → ℕ
ilog2 n = ilog2_loop 64 n

unfoldable pub bucket_index : ℕ → ℕ → ℕ
bucket_index dir_len hash =
    let base = 2 ^ ilog2 dir_len in
    let split = dir_len - base in
    let b = hash % base in if ltb b split then hash % (base * 2) else b

unfoldable pub next_split_bucket : ℕ → ℕ
next_split_bucket dir_len = dir_len - 2 ^ ilog2 dir_len

-- `(hash >> level) & 1`: the bit by which a split divides a bucket, whose number is `split_bit`.
unfoldable pub split_bit : ℕ → ℕ
split_bit dir_len = ilog2 dir_len

abbrev pub hash_bit : ℕ → ℕ → ℕ
hash_bit hash level = hash / 2 ^ level % 2
