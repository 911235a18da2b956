-- ===== src/MemUtils/Numbers.antt =====
-- The numbers that the main program of miscUtils/memUtils.c reads.
use rtems_ssrl_apps.Prelude.{
  ℕ, ◌+◌, ◌*◌, ◌^◌, ◌≤◌, ◌<◌, ◌≡◌, refl, ◌∙◌, none, some, List, [], ◌∷◌, ◌++◌, arith, map,
}
use rtems_ssrl_apps.MemUtils.{u32, valdig, digits, some_digits, after_zero, getn}

abbrev pub AllDigits : List ℕ → Type 0
AllDigits [] = Unit {0}
AllDigits (d ∷ ds) = (d < 10) × AllDigits ds

-- The number that digits stand for behind the value `acc`.
abbrev pub number : (acc : ℕ) → List ℕ → ℕ
number acc [] = acc
number acc (d ∷ ds) = number (acc * 10 + d) ds

abbrev pub digit_char : ℕ → ℕ
digit_char d = 48 + d

valdig-digit : (d : ℕ) → d < 10 → valdig (digit_char d) 10 ≡ some d
unfolding valdig
valdig-digit d l = ground arith

digits_end : (acc t : ℕ) (cs : List ℕ) → t < 48 → digits 10 acc (t ∷ cs) ≡ (acc, t ∷ cs)
unfolding digits valdig
digits_end acc t cs l = ground arith

-- Behind a value there is no smaller one.
number_le : (acc : ℕ) (ds : List ℕ) → acc ≤ number acc ds
number_le acc [] = omega arith
number_le acc (d ∷ ds) = omega (arith, number_le (acc * 10 + d) ds)

digits-number :
    (ds : List ℕ) (acc t : ℕ) (cs : List ℕ)
    → AllDigits ds
    → number acc ds < 2 ^ 31
    → t < 48
    → digits 10 acc (map digit_char ds ++ t ∷ cs) ≡ (number acc ds, t ∷ cs)
unfolding digits
digits-number [] acc t cs h b l = digits_end acc t cs l
digits-number (d ∷ ds) acc t cs h b l =
    let k = number_le (acc * 10 + d) ds in
    let e : u32 (acc * 10 + d) ≡ acc * 10 + d = omega arith in
    rw (valdig-digit d h.0, digits, e) (digits-number ds (acc * 10 + d) t cs h.1 b l)

getn-some_digits : (c : ℕ) (cs : List ℕ) → 49 ≤ c → c ≤ 57 → getn (c ∷ cs) ≡ some_digits 10 (c ∷ cs)
unfolding getn
getn-some_digits c cs l h = ground arith

some_digits-number :
    (d : ℕ) (cs : List ℕ) {r : ℕ × List ℕ}
    → d < 10
    → digits 10 d cs ≡ r
    → some_digits 10 (digit_char d ∷ cs) ≡ (some r.0, r.1)
unfolding some_digits
some_digits-number d cs l e = rw (valdig-digit d l, e, some_digits) refl

-- A decimal number below 2 ^ 31 that does not start with 0 is read as the number that it is, up to the character
-- behind it, if that is below the digits.
pub getn-number :
    (d : ℕ) (ds : List ℕ) (t : ℕ) (cs : List ℕ)
    → 0 < d
    → d < 10
    → AllDigits ds
    → number d ds < 2 ^ 31
    → t < 48
    → getn (map digit_char (d ∷ ds) ++ t ∷ cs) ≡ (some (number d ds), t ∷ cs)
getn-number d ds t cs p l h m b =
    let rest = map digit_char ds ++ t ∷ cs in
    getn-some_digits (digit_char d) rest (omega arith) (omega arith)
    ∙ some_digits-number d rest l (digits-number ds d t cs h m b)

-- The number 0 is refused, unless it is written with a second digit: the 0 alone is taken for the prefix
-- of another base.
pub getn_zero : (c : ℕ) (cs : List ℕ) → c < 48 → getn (48 ∷ c ∷ cs) ≡ (none, c ∷ cs)
unfolding getn after_zero some_digits valdig
getn_zero c cs l = ground arith
