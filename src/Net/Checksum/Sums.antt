-- ===== src/Net/Checksum/Sums.antt =====
-- What the checksums are as numbers, and that a packet with its checksum in place verifies.
use rtems_ssrl_apps.Prelude.{
  ℕ, ◌+◌, ◌-◌, ◌*◌, ◌%◌, ◌^◌, ◌≤◌, ◌<◌, ◌≡◌, refl, ◌∙◌, Bool, none, List, [], ◌∷◌, ◌++◌, arith,
  ◌==◌, if◌then◌else◌, length,
}
use rtems_ssrl_apps.Net.Checksum.{ones_sum, sum_words, ip_cksum, accumulate, rtems_ping_cksum}

abbrev pub total : List ℕ → ℕ
total [] = 0
total (w ∷ ws) = w + total ws

abbrev pub AllWords : List ℕ → Type 0
AllWords [] = Unit {0}
AllWords (w ∷ ws) = (w < 65536) × AllWords ws

-- A number reduced modulo 65535 to 1, …, 65535, and 0 to itself.
abbrev pub reduced : ℕ → ℕ
reduced n = if n == 0 then 0 else (n - 1) % 65535 + 1

reduced-ones_sum :
    (s w : ℕ) → s < 65536 → w < 65536 → (ones_sum s w < 65536) × (ones_sum s w ≡ reduced (s + w))
reduced-ones_sum s w a b = ground arith

reduced-reduced : (n t : ℕ) → reduced (reduced n + t) ≡ reduced (n + t)
reduced-reduced n t = ground arith

-- The end-around carry keeps the sum below 65536, and gives the plain total, reduced.
pub sum_words-reduced :
    (s : ℕ) (ws : List ℕ) → s < 65536 → AllWords ws → sum_words s ws ≡ reduced (s + total ws)
unfolding sum_words
sum_words-reduced s [] a h = ground arith
sum_words-reduced s (w ∷ ws) a h =
    let (lt, e) = reduced-ones_sum s w a h.0 in
    let ih = sum_words-reduced (ones_sum s w) ws lt h.1 in
    let same = reduced-reduced (s + w) (total ws) in
    let shift : s + w + total ws ≡ s + (w + total ws) = omega arith in rw (ih, e, same, shift) refl

total-append : (xs ys : List ℕ) → total (xs ++ ys) ≡ total xs + total ys
total-append [] ys = omega arith
total-append (x ∷ xs) ys = omega (arith, total-append xs ys)

AllWords-append : (xs ys : List ℕ) → AllWords xs → AllWords ys → AllWords (xs ++ ys)
AllWords-append [] ys h k = k
AllWords-append (x ∷ xs) ys h k = (h.0, AllWords-append xs ys h.1 k)

-- Words whose checksum, computed with the field at 0, is put into the field: the checksum of the whole
-- is 0, wherever the field stands.
pub ip_cksum-verifies :
    (big_endian : Bool) (xs ys : List ℕ)
    → AllWords xs
    → AllWords ys
    → ip_cksum big_endian (xs ++ ip_cksum big_endian (xs ++ 0 ∷ ys) none ∷ ys) none ≡ 0
unfolding ip_cksum
ip_cksum-verifies big_endian xs ys h k =
    let s = sum_words 0 (xs ++ 0 ∷ ys) in
    let empty =
      sum_words-reduced 0 (xs ++ 0 ∷ ys) (omega arith)
        (AllWords-append xs (0 ∷ ys) h (omega arith, k)) in
    let full =
      sum_words-reduced 0 (xs ++ (65535 - s) ∷ ys) (omega arith)
        (AllWords-append xs ((65535 - s) ∷ ys) h (omega arith, k)) in
    rw full (ground (arith, empty, total-append xs (0 ∷ ys), total-append xs ((65535 - s) ∷ ys)))

total-le : (ws : List ℕ) → AllWords ws → total ws ≤ length ws * 65535
total-le [] h = omega arith
total-le (w ∷ ws) h = omega (arith, total-le ws h.1)

accumulate-total : (s : ℕ) (ws : List ℕ) → s + total ws < 2 ^ 32 → accumulate s ws ≡ s + total ws
unfolding accumulate
accumulate-total s [] h = omega arith
accumulate-total s (w ∷ ws) h =
    let e : (s + w) % 2 ^ 32 ≡ s + w = omega arith in
    rw e (accumulate-total (s + w) ws (omega arith) ∙ omega arith)

-- For up to 65536 whole words, ping and traceroute compute the same checksum.
pub rtems_ping_cksum-ip_cksum :
    (big_endian : Bool) (ws : List ℕ)
    → length ws ≤ 65536
    → AllWords ws
    → rtems_ping_cksum ws none ≡ ip_cksum big_endian ws none
unfolding rtems_ping_cksum ip_cksum
rtems_ping_cksum-ip_cksum big_endian ws l h =
    let b = total-le ws h in
    rw (accumulate-total 0 ws (omega arith), sum_words-reduced 0 ws (omega arith) h) (ground arith)
