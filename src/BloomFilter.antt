-- ===== src/BloomFilter.antt =====
-- src/bloomFilter.h and src/bloomFilter.cpp: the Bloom filter. A `const char *` with its length is
-- the list of the bytes that are read; `strlen` stops at a zero byte.
pub mod Bits
pub mod Membership
pub mod Substring
use Prim.Native.Nat.{bit_and, bit_or}
use monero_sci_parser.Base.{
  ℕ, zero, suc, ◌+◌, ◌-◌, ◌*◌, ◌/◌, ◌%◌, ◌^◌, Bool, true, false, not, ◌&&◌, Option, none, some,
  List, [], ◌∷◌, u32, ◌==◌, if◌then◌else◌, ◌>>=◌, get_or, get_elem?, set, length, replicate, take,
  tail, head_or,
}
use monero_sci_parser.HashFn.{HashFn, make_hash_fn, hash_of, roll_hash}

-- `buffer` holds the bytes as 0 to 255. `last_hashes` is the array that `substringExists` reuses.
pub record BloomFilter : Type 0 where
  pub hash_fns : List HashFn
  pub last_hashes : List ℕ
  pub byte_buffer_size : ℕ
  pub bit_buffer_size : ℕ
  pub buffer : List ℕ

-- `defaultHashFns`
unfoldable pub default_hash_fns : List HashFn
unfolding make_hash_fn
default_hash_fns =
    make_hash_fn 13 true
    ∷ make_hash_fn 17 true
    ∷ make_hash_fn 31 true
    ∷ make_hash_fn 41 true
    ∷ make_hash_fn 53 true
    ∷ []

-- The constructor from sizes; the products are `unsigned int`.
unfoldable pub make : ℕ → ℕ → List HashFn → BloomFilter
make bits_per_element estimated_num_elements hash_fns =
    let bytes = u32 (u32 (bits_per_element * estimated_num_elements) / 8 + 1) in
    record {
      hash_fns = hash_fns;
      last_hashes = replicate (length hash_fns) 0;
      byte_buffer_size = bytes;
      bit_buffer_size = u32 (bytes * 8);
      buffer = replicate bytes 0;
    }

-- The constructor that copies a buffer of `byteBufferSize` bytes.
unfoldable pub of_buffer : List ℕ → List HashFn → BloomFilter
of_buffer source hash_fns = record {
  hash_fns = hash_fns;
  last_hashes = replicate (length hash_fns) 0;
  byte_buffer_size = length source;
  bit_buffer_size = u32 (length source * 8);
  buffer = source;
}

-- `buffer[bitLocation / 8] |= 1 << bitLocation % 8`, on a buffer of bytes
pub set_bit : List ℕ → ℕ → List ℕ
set_bit buffer bit_location =
    set buffer (bit_location / 8)
      (bit_or (get_or buffer (bit_location / 8) 0) (2 ^ (bit_location % 8)))

-- `isBitSet`, where the buffer has the byte
pub is_bit_set : List ℕ → ℕ → Bool
is_bit_set buffer bit_location =
    not (bit_and (get_or buffer (bit_location / 8) 0) (2 ^ (bit_location % 8)) == 0)

-- The loop of `add`, over the functors that are left.
pub add_loop : List HashFn → ℕ → List ℕ → List ℕ → List ℕ
add_loop [] bits input buffer = buffer
add_loop (h ∷ hs) bits input buffer =
    add_loop hs bits input (set_bit buffer (hash_of h input % bits))

-- `add(input, len)`
unfoldable pub add : BloomFilter → List ℕ → BloomFilter
unfolding add_loop set_bit hash_of
add b input = record b { buffer = add_loop b.hash_fns b.bit_buffer_size input b.buffer }

-- The loop of `exists`, with `allSet` so far.
pub exists_loop : List HashFn → ℕ → List ℕ → List ℕ → Bool → Bool
exists_loop [] bits input buffer all_set = all_set
exists_loop (h ∷ hs) bits input buffer all_set =
    exists_loop hs bits input buffer (all_set && is_bit_set buffer (hash_of h input % bits))

-- `exists(input, len)`
unfoldable pub exists : BloomFilter → List ℕ → Bool
unfolding exists_loop is_bit_set hash_of
exists b input = exists_loop b.hash_fns b.bit_buffer_size input b.buffer true

-- `strlen`: the bytes before the first zero.
pub c_string : List ℕ → List ℕ
c_string [] = []
c_string (c ∷ cs) = if c == 0 then [] else c ∷ c_string cs

-- `add(sz)`
unfoldable pub add_c_string : BloomFilter → List ℕ → BloomFilter
unfolding c_string add
add_c_string b sz = add b (c_string sz)

-- `exists(sz)`
unfoldable pub exists_c_string : BloomFilter → List ℕ → Bool
unfolding c_string exists
exists_c_string b sz = exists b (c_string sz)

-- `clear`
pub clear : BloomFilter → BloomFilter
clear b = record b { buffer = replicate b.byte_buffer_size 0 }

-- `isBitSet`; `none` is a read behind the buffer.
pub read_bit : List ℕ → ℕ → Option Bool
read_bit buffer bit_location = get_elem? buffer (bit_location / 8) >>= λ byte.
    some (not (bit_and byte (2 ^ (bit_location % 8)) == 0))

-- `getHashesForCharCodes`. The arrays of the last and of the new hashes are one, and a round reads
-- its entry before it writes it; `none` is an entry behind the array. `rolling` is false where the
-- source passes no last hashes.
pub get_hashes_for_char_codes : List HashFn → Bool → List ℕ → List ℕ → ℕ → Option (List ℕ)
get_hashes_for_char_codes [] rolling input last last_char_code = some []
get_hashes_for_char_codes (h ∷ hs) rolling input [] last_char_code = none
get_hashes_for_char_codes (h ∷ hs) rolling input (l ∷ ls) last_char_code = do
  new ← if rolling then roll_hash h input last_char_code l else some (hash_of h input)
  news ← get_hashes_for_char_codes hs rolling input ls last_char_code
  some (new ∷ news)

-- The inner loop of `substringExists`: the bits of all the hashes, read as long as all are set.
-- `none` is a remainder by 0 or a read behind the buffer.
pub all_bits_set : List ℕ → ℕ → List ℕ → Bool → Option Bool
unfolding read_bit
all_bits_set [] bits buffer all_set = some all_set
all_bits_set (x ∷ xs) bits buffer false = all_bits_set xs bits buffer false
all_bits_set (x ∷ xs) zero buffer true = none
all_bits_set (x ∷ xs) (suc n) buffer true =
    read_bit buffer (x % suc n) >>= all_bits_set xs (suc n) buffer

-- The outer loop of `substringExists` on the bytes from index `i` on, with `rounds` rounds left;
-- `rolling` is `i != 0`.
pub substring_loop : ℕ → Bool → ℕ → BloomFilter → List ℕ → ℕ → Option (BloomFilter × Bool)
substring_loop zero rolling width b bytes last_char_code = some (b, false)
substring_loop (suc rounds) rolling width b bytes last_char_code = do
  hashes ←
      get_hashes_for_char_codes b.hash_fns rolling (take width bytes) b.last_hashes last_char_code
  let b' = record b { last_hashes = hashes }
  let rest = substring_loop rounds true width b' (tail bytes) (head_or bytes 0)
  all_set ← all_bits_set hashes b.bit_buffer_size b.buffer true
  if all_set then some (b', true) else rest

-- `substringExists(data, dataLen, substringLength)`. `none` is a read out of range, a write behind
-- the array of hashes or a remainder by 0.
unfoldable pub substring_exists : BloomFilter → List ℕ → ℕ → Option (BloomFilter × Bool)
unfolding substring_loop get_hashes_for_char_codes all_bits_set read_bit hash_of roll_hash
substring_exists b bytes substring_length =
    substring_loop (length bytes + 1 - substring_length) false substring_length b bytes 0

-- `substringExists(sz, substringLength)`
unfoldable pub substring_exists_c_string : BloomFilter → List ℕ → ℕ → Option (BloomFilter × Bool)
substring_exists_c_string b sz substring_length = substring_exists b (c_string sz) substring_length
