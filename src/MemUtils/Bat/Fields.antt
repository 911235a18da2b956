-- ===== src/MemUtils/Bat/Fields.antt =====
-- The fields that `pbat` of miscUtils/memUtils.c shows, of registers that were filled by fields.
use rtems_ssrl_apps.Prelude.{
  ℕ, zero, suc, ◌+◌, ◌-◌, ◌*◌, ◌/◌, ◌%◌, ◌^◌, ◌<◌, ◌≡◌, refl, Bool, Option, none, some, arith, ◌&&◌,
  ltb, ◌==◌, Bool-cases, inl, inr, true, false, leb, if◌then◌else◌,
}
use rtems_ssrl_apps.Prelude.Int.{pos, minus_one}
use rtems_ssrl_apps.MemUtils.{u32}
use rtems_ssrl_apps.MemUtils.Bat.{Shown, block_size, decode, pbat}

-- The fields of a pair of registers: the numbers of the two blocks in units of 128k, the size of 128k
-- doubled `order` times, the validity bits, the memory mode and the access.
pub record Block : Type 0 where
  pub effective : ℕ
  pub physical : ℕ
  pub order : ℕ
  pub vs : ℕ
  pub vp : ℕ
  pub wimg : ℕ
  pub access : ℕ

pub record IsBlock (b : Block) : Type 0 where
  pub effective : b.effective < 2 ^ 15
  pub physical : b.physical < 2 ^ 15
  pub order : b.order < 12
  pub vs : b.vs < 2
  pub vp : b.vp < 2
  pub wimg : b.wimg < 16
  pub access : b.access < 4

abbrev pub length_field : ℕ → ℕ
length_field n = 2 ^ n - 1

abbrev pub upper : Block → ℕ
upper b = b.effective * 2 ^ 17 + (length_field b.order * 4 + (b.vs * 2 + b.vp))

abbrev pub lower : Block → ℕ
lower b = b.physical * 2 ^ 17 + (b.wimg * 8 + b.access)

-- What is to be shown of it.
abbrev pub shown_of : Block → Shown
shown_of b = record {
  effective = b.effective * 2 ^ 17;
  block_mask = 2 ^ 32 - 2 ^ b.order * 2 ^ 17;
  size = some b.order;
  physical = b.physical * 2 ^ 17;
  wimg = b.wimg;
  access = b.access;
  vs = b.vs * 2;
  vp = b.vp;
}

-- A test of the length field, for all sizes.
abbrev is_size : ℕ → Option ℕ → Bool
is_size n none = false
is_size n (some k) = k == n

abbrev is_order : ℕ → Bool
is_order n =
    let bl = length_field n in
    is_size n (block_size bl)
    && (ltb bl (2 ^ 11) && u32 ((2 ^ 32 - 1 - bl) * 2 ^ 17) == 2 ^ 32 - 2 ^ n * 2 ^ 17)

abbrev all_below : ℕ → (ℕ → Bool) → Bool
all_below zero f = true
all_below (suc k) f = f k && all_below k f

all_below-at : (k : ℕ) (f : ℕ → Bool) (n : ℕ) → n < k → all_below k f ≡ true → f n ≡ true
all_below-at zero f n h e = absurd (omega arith)
all_below-at (suc k) f n h e = elim (Bool-cases (k == n)) [
  | inl x ↦ let y : k ≡ n = ground arith in rw (← y) (ground arith)
  | inr x ↦ all_below-at k f n (ground arith) (ground arith)
]

orders : all_below 12 is_order ≡ true
unfolding block_size
orders = refl

is_size-some : (n : ℕ) (o : Option ℕ) → is_size n o ≡ true → o ≡ some n
is_size-some n none e = cc
is_size-some n (some k) e = ground arith

record IsOrder (n : ℕ) : Type 0 where
  pub bound : length_field n < 2 ^ 11
  pub size : block_size (length_field n) ≡ some n
  pub mask : u32 ((2 ^ 32 - 1 - length_field n) * 2 ^ 17) ≡ 2 ^ 32 - 2 ^ n * 2 ^ 17

length_field-IsOrder : (n : ℕ) → n < 12 → IsOrder n
length_field-IsOrder n h =
    let e = all_below-at 12 is_order n h orders in
    record {
      bound = ground arith;
      size = is_size-some n (block_size (length_field n)) (ground arith);
      mask = ground arith;
    }

-- The fields of the two words; `len` is the length field.
upper_fields :
    (e len vs vp : ℕ)
    → len < 2 ^ 11
    → vs < 2
    → vp < 2
    → let u = e * 2 ^ 17 + (len * 4 + (vs * 2 + vp)) in
      (u - u % 2 ^ 17 ≡ e * 2 ^ 17)
      × (u % 2 ^ 13 / 2 ^ 2 ≡ len)
      × (u % 2 ^ 2 / 2 * 2 ≡ vs * 2)
      × (u % 2 ≡ vp)
upper_fields e len vs vp a b c = (omega arith, omega arith, omega arith, omega arith)

lower_fields :
    (p wimg access : ℕ)
    → wimg < 16
    → access < 4
    → let l = p * 2 ^ 17 + (wimg * 8 + access) in
      (l - l % 2 ^ 17 ≡ p * 2 ^ 17) × (l / 2 ^ 3 % 2 ^ 4 ≡ wimg) × (l % 2 ^ 2 ≡ access)
lower_fields p wimg access a b = (omega arith, omega arith, omega arith)

decode-fields : (b : Block) → IsBlock b → decode (upper b) (lower b) ≡ shown_of b
unfolding decode
decode-fields b w =
    let o = length_field-IsOrder b.order w.order in
    let (a1, a2, a3, a4) =
      upper_fields b.effective (length_field b.order) b.vs b.vp o.bound w.vs w.vp in
    let (c1, c2, c3) = lower_fields b.physical b.wimg b.access w.wimg w.access in
    rw (a2, o.size, o.mask, a3, a4, c1, c2, c3, a1, decode) refl

-- `pbat` of one of the registers 0 to 3 that was filled by fields shows these fields: the addresses, the
-- mask and the size of the block, the memory mode, the access and the validity bits; of any other number
-- it returns -1 and shows nothing.
pub pbat-fields :
    (registers : Bool → ℕ → ℕ × ℕ) (bat : ℕ) (dbat : Bool) (b : Block)
    → IsBlock b
    → registers dbat bat ≡ (upper b, lower b)
    → pbat registers bat dbat
      ≡ (if leb bat 3 then (pos 0, some (shown_of b)) else (minus_one, none))
unfolding pbat
pbat-fields registers bat dbat b w e = rw (e, decode-fields b w, pbat) refl
