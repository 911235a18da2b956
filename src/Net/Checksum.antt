-- ===== src/Net/Checksum.antt =====
-- The Internet checksum as miscUtils/traceroute.c and miscUtils/icmpping.c compute it, over the 16-bit
-- words of the data as the machine reads them.
pub mod Sums
use rtems_ssrl_apps.Prelude.{
  ℕ, ◌+◌, ◌-◌, ◌*◌, ◌/◌, ◌%◌, ◌^◌, Bool, Option, none, some, List, [], ◌∷◌, if◌then◌else◌,
}

-- `ones_sum`: the carry is added at the bottom, and the result kept in 16 bits.
abbrev pub ones_sum : ℕ → ℕ → ℕ
ones_sum lhs rhs = ((lhs + rhs) % 2 ^ 16 + (lhs + rhs) / 2 ^ 16) % 2 ^ 16

-- The loop of `ip_cksum`, from the sum `s` on.
unfoldable pub sum_words : ℕ → List ℕ → ℕ
sum_words s [] = s
sum_words s (w ∷ ws) = sum_words (ones_sum s w) ws

-- The word of an odd last byte: `tb.a` with `tb.b[0]` set.
abbrev pub tail_word : (big_endian : Bool) → ℕ → ℕ
tail_word big_endian b = if big_endian then b * 2 ^ 8 else b

-- `ip_cksum` of whole words and the odd byte behind them, if there is one.
unfoldable pub ip_cksum : (big_endian : Bool) → List ℕ → Option ℕ → ℕ
unfolding sum_words
ip_cksum big_endian ws none = 2 ^ 16 - 1 - sum_words 0 ws
ip_cksum big_endian ws (some b) = 2 ^ 16 - 1 - ones_sum (sum_words 0 ws) (tail_word big_endian b)

-- The loop of `rtems_ping_cksum`, over a 32-bit accumulator.
unfoldable pub accumulate : ℕ → List ℕ → ℕ
accumulate accu [] = accu
accumulate accu (w ∷ ws) = accumulate ((accu + w) % 2 ^ 32) ws

-- `accu = (accu >> 16) + (accu & 0xffff); accu += (accu >> 16); return ~accu & 0xffff`.
abbrev pub fold : ℕ → ℕ
fold accu = let a = accu / 2 ^ 16 + accu % 2 ^ 16 in 2 ^ 16 - 1 - (a + a / 2 ^ 16) % 2 ^ 16

-- `rtems_ping_cksum`: behind the whole words, `next` is the word whose upper byte is added.
unfoldable pub rtems_ping_cksum : List ℕ → Option ℕ → ℕ
unfolding accumulate
rtems_ping_cksum ws none = fold (accumulate 0 ws)
rtems_ping_cksum ws (some next) = fold ((accumulate 0 ws + next / 2 ^ 8 * 2 ^ 8) % 2 ^ 32)
