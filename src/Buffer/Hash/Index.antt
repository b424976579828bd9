-- ===== src/Buffer/Hash/Index.antt =====
-- The partition and the bucket of a key.
use toadb.Base.{ℕ, zero, suc, ◌+◌, ◌-◌, ◌*◌, ◌/◌, ◌%◌, ◌^◌, ◌≡◌, refl, sym, ap, ◌∙◌, arith}
use toadb.Buffer.Hash.{HashTableInfo, bit_and, get_partition_index, get_bucket_index}

bit_and-zero : (w a : ℕ) → bit_and w a 0 ≡ 0
unfolding bit_and
bit_and-zero zero a = refl
bit_and-zero (suc w) a = let ih = bit_and-zero w (a / 2) in omega (arith, ih)

-- A mask of one more bit.
bit_and-mask :
    (w a m k : ℕ)
    → bit_and w (a / 2) m ≡ a / 2 % k
    → bit_and (suc w) a (2 * m + 1) ≡ a % 2 + 2 * (a / 2 % k)
unfolding bit_and
bit_and-mask w a m k e =
    let odd : (2 * m + 1) % 2 ≡ 1 = omega arith in
    let half : (2 * m + 1) / 2 ≡ m = omega arith in rw (odd, half, e) (omega arith)

bit_and-1 : (w a : ℕ) → bit_and (suc w) a 1 ≡ a % 2
bit_and-1 w a = bit_and-mask w a 0 1 (bit_and-zero w (a / 2) ∙ omega arith) ∙ omega arith

bit_and-3 : (w a : ℕ) → bit_and (suc (suc w)) a 3 ≡ a % 4
bit_and-3 w a = bit_and-mask (suc w) a 1 2 (bit_and-1 w (a / 2)) ∙ omega arith

bit_and-7 : (w a : ℕ) → bit_and (suc (suc (suc w))) a 7 ≡ a % 8
bit_and-7 w a = bit_and-mask (suc (suc w)) a 3 4 (bit_and-3 w (a / 2)) ∙ omega arith

bit_and-15 : (w a : ℕ) → bit_and (suc (suc (suc (suc w)))) a 15 ≡ a % 16
bit_and-15 w a = bit_and-mask (suc (suc (suc w))) a 7 8 (bit_and-7 w (a / 2)) ∙ omega arith

bit_and-31 : (w a : ℕ) → bit_and (suc (suc (suc (suc (suc w))))) a 31 ≡ a % 32
bit_and-31 w a = bit_and-mask (suc (suc (suc (suc w)))) a 15 16 (bit_and-15 w (a / 2)) ∙ omega arith

low_bits : (n : ℕ) → n % 32 % 4 ≡ n % 4
low_bits n = omega arith

-- With the masks for 4 partitions and 32 buckets in each, the partition is the key modulo 4 and
-- the bucket the key modulo 32, so that the bucket modulo 4 is the partition.
index_low_bits :
    (t : HashTableInfo) (key : ℕ)
    → t.partition_mask ≡ 2 ^ 64 - 2 ^ 62
    → t.partition_shift ≡ 62
    → t.hash_segment_size ≡ 32
    → (get_partition_index key t ≡ key % 4)
      × (get_bucket_index key t ≡ key % 32)
      × (get_bucket_index key t % 4 ≡ get_partition_index key t)
unfolding get_partition_index get_bucket_index
index_low_bits t key mask shift size =
    let p : get_partition_index key t ≡ key % 4 =
      rw (get_partition_index, mask, shift) (bit_and-3 62 key) in
    let b : get_bucket_index key t ≡ key % 32 =
      rw (get_bucket_index, mask, size) (bit_and-31 59 key) in
    (p, b, ap (λ n. n % 4) b ∙ low_bits key ∙ sym p)
