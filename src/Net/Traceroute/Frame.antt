-- ===== src/Net/Traceroute/Frame.antt =====
-- The frame that miscUtils/traceroute.c sends, as a big-endian machine lays it out: `_tr_make_ip_frame`
-- and `_tr_make_icmp`. The ICMP header of four words has `tail` words of `struct icmp` behind it.
use rtems_ssrl_apps.Prelude.{
  ℕ, ◌+◌, ◌*◌, ◌/◌, ◌%◌, ◌^◌, ◌<◌, ◌≡◌, zero, suc, true, none, List, [], ◌∷◌, ◌++◌, arith,
  replicate,
}
use rtems_ssrl_apps.Net.Checksum.{ip_cksum}
use rtems_ssrl_apps.Net.Checksum.Sums.{AllWords, ip_cksum-verifies}

-- `struct ip`, with `ip_v` and `ip_hl` in one byte.
pub record Ip : Type 0 where
  pub version : ℕ
  pub header_length : ℕ
  pub tos : ℕ
  pub total_length : ℕ
  pub id : ℕ
  pub off : ℕ
  pub ttl : ℕ
  pub protocol : ℕ
  pub sum : ℕ
  pub src : ℕ
  pub dst : ℕ

-- The words before the checksum and those behind it.
abbrev bytes : ℕ → ℕ → ℕ
bytes hi lo = hi * 256 + lo

abbrev head_words : Ip → List ℕ
head_words h =
    bytes (h.version * 16 + h.header_length) h.tos
    ∷ h.total_length
    ∷ h.id
    ∷ h.off
    ∷ bytes h.ttl h.protocol
    ∷ []

abbrev address_words : Ip → List ℕ
address_words h = h.src / 2 ^ 16 ∷ h.src % 2 ^ 16 ∷ h.dst / 2 ^ 16 ∷ h.dst % 2 ^ 16 ∷ []

abbrev pub ip_words : Ip → List ℕ
ip_words h = head_words h ++ h.sum ∷ address_words h

-- The header and the length returned. `dst` is the address of the options, `src` the local one.
unfoldable pub tr_make_ip_frame : (dst src ident ttl datalen : ℕ) → Ip × ℕ
tr_make_ip_frame dst src ident ttl datalen =
    let h : Ip = record {
      version = 4;
      header_length = 5;
      tos = 0;
      total_length = (datalen + 20) % 2 ^ 16;
      id = ident;
      off = 0;
      ttl = ttl;
      protocol = 1;
      sum = 0;
      src = src;
      dst = dst;
    } in
    (record h { sum = ip_cksum true (ip_words h) none }, h.total_length)

-- The words of `struct icmp`: an echo request with the sequence number 0.
abbrev icmp_words : (cksum ident tail : ℕ) → List ℕ
icmp_words cksum ident tail = 8 * 256 ∷ [] ++ cksum ∷ ident ∷ 0 ∷ replicate tail 0

unfoldable pub tr_make_icmp : (ident tail : ℕ) → List ℕ
tr_make_icmp ident tail = icmp_words (ip_cksum true (icmp_words 0 ident tail) none) ident tail

replicate-AllWords : (n : ℕ) → AllWords (replicate n 0)
replicate-AllWords zero = tt
replicate-AllWords (suc n) = (omega arith, replicate-AllWords n)

-- Both checksums of a frame verify, with the header's over its ten words, whatever the addresses, the
-- identifier and the ttl, and the length returned is that of the header and the data.
pub frame-verifies :
    (dst src ident ttl tail : ℕ)
    → dst < 2 ^ 32
    → src < 2 ^ 32
    → ident < 2 ^ 16
    → ttl < 256
    → tail < 1000
    → let (h, len) = tr_make_ip_frame dst src ident ttl (8 + 2 * tail) in
      (ip_cksum true (ip_words h) none ≡ 0)
      × (ip_cksum true (tr_make_icmp ident tail) none ≡ 0)
      × (len ≡ 28 + 2 * tail)
unfolding tr_make_ip_frame tr_make_icmp
frame-verifies dst src ident ttl tail d s i t l = (
  ip_cksum-verifies true (17664 ∷ (8 + 2 * tail + 20) % 2 ^ 16 ∷ ident ∷ 0 ∷ bytes ttl 1 ∷ [])
      (src / 2 ^ 16 ∷ src % 2 ^ 16 ∷ dst / 2 ^ 16 ∷ dst % 2 ^ 16 ∷ []) (ground arith)
      (ground arith),
  ip_cksum-verifies true (8 * 256 ∷ []) (ident ∷ 0 ∷ replicate tail 0) (ground arith)
      (i, (omega arith, replicate-AllWords tail)),
  omega arith,
)
