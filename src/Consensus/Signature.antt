-- ===== src/Consensus/Signature.antt =====
-- detection/c3.py: the chain that makes one signed number of a payload's words. A mask by 2 ^ 64 - 1 is
-- the remainder by 2 ^ 64.
use Prim.Native.Nat.{◌^◌, bit_xor}
use lm_resiliency.Base.{
  ℕ, zero, suc, ◌+◌, ◌-◌, ◌*◌, ◌%◌, List, [], ◌∷◌, map, if◌then◌else◌, length, take, drop, leb,
}
use lm_resiliency.Base.Int.{ℤ, pos, negsuc}

abbrev pub word : ℕ
word = 2 ^ 64

abbrev pub signature_offset_basis : ℕ
signature_offset_basis = 14_695_981_039_346_656_037

abbrev pub signature_prime : ℕ
signature_prime = 1_099_511_628_211

-- `value & SIGNATURE_MASK`
abbrev pub masked : ℤ → ℕ
masked (pos n) = n % word
masked (negsuc n) = word - 1 - n % word

-- `h = (h ^ v) & MASK`, `h = (h * PRIME) & MASK`
unfoldable pub mix : ℕ → ℕ → ℕ
mix h v = (bit_xor h v % word * signature_prime) % word

unfoldable pub chain : ℕ → List ℤ → ℕ
chain h [] = h
chain h (v ∷ vs) = chain (mix h (masked v)) vs

-- The signed 64-bit number with these bits.
abbrev pub signed64 : ℕ → ℤ
signed64 h = if leb (2 ^ 63) h then negsuc (word - 1 - h) else pos h

unfoldable pub finalize_signature : List ℤ → ℕ → ℤ
finalize_signature values payload_nbytes =
    signed64 (mix (chain signature_offset_basis values) (payload_nbytes % word))

unfoldable pub string_chain : ℕ → List ℕ → ℕ
string_chain s [] = s
string_chain s (b ∷ bs) = string_chain ((bit_xor s b * signature_prime) % word) bs

-- `_signature_string` on the ASCII codes of a text.
unfoldable pub signature_string : List ℕ → ℕ
signature_string = string_chain 0

-- The number of a list of bytes, the lowest first; padding by zeros at the end changes nothing.
abbrev pub little_endian : List ℕ → ℕ
little_endian [] = 0
little_endian (b ∷ bs) = b + 256 * little_endian bs

-- Pieces of eight bytes; one piece for each eight, and one for the rest.
abbrev pub pieces : ℕ → List ℕ → List ℕ
pieces fuel [] = []
pieces zero (b ∷ bs) = []
pieces (suc fuel) (b ∷ bs) = little_endian (take 8 (b ∷ bs)) ∷ pieces fuel (drop 8 (b ∷ bs))

unfoldable pub signature_bytes : List ℕ → ℤ
signature_bytes bs = finalize_signature (map pos (pieces (length bs) bs)) (length bs)
