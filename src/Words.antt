-- ===== src/Words.antt =====
-- The binary files that the programs exchange, as their 32-bit words: all that they hold is written
-- and read in units of four or eight bytes, the eight bytes as two words, the low one first.
pub mod Laws
use max_embed.Prelude.{ℕ, ◌+◌, ◌*◌, ◌/◌, ◌%◌, ◌^◌, List, [], ◌∷◌, get_or}

-- An int or a uint32_t.
abbrev pub u32 : ℕ → ℕ
u32 n = n % 2 ^ 32

-- fwrite of a uint64_t.
abbrev pub u64 : ℕ → List ℕ
u64 n = u32 n ∷ u32 (n / 2 ^ 32) ∷ []

-- *(uint64_t *) at a word.
abbrev pub read_u64 : List ℕ → ℕ → ℕ
read_u64 words i = get_or words i 0 + 2 ^ 32 * get_or words (i + 1) 0

-- fwrite of an array of int or uint32_t.
unfoldable pub words_of : List ℕ → List ℕ
words_of [] = []
words_of (x ∷ xs) = u32 x ∷ words_of xs

-- fwrite of an array of uint64_t.
unfoldable pub longs_of : List ℕ → List ℕ
longs_of [] = []
longs_of (x ∷ xs) = u32 x ∷ u32 (x / 2 ^ 32) ∷ longs_of xs
