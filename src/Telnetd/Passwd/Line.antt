-- ===== src/Telnetd/Passwd/Line.antt =====
-- The line ends that `check_passwd` cuts off in place, against a description on texts.
use rtems_ssrl_apps.Prelude.{
  ℕ, zero, suc, ◌≡◌, refl, sym, ◌∙◌, ap, ◌≢◌, true, false, inl, inr, List, [], ◌∷◌, ◌++◌, arith,
  ◌==◌, if◌then◌else◌, length, length-append, get_or, set, Bool-cases,
}
use mathlib.Core.List.{append_assoc}
use rtems_ssrl_apps.Telnetd.Passwd.{is_line_end, c_str, cut_ends, strip}

-- A character is dropped if it is a line end and nothing is left behind it.
unfoldable pub keep_front : ℕ → List ℕ → List ℕ
keep_front x [] = if is_line_end x then [] else x ∷ []
keep_front x (y ∷ ys) = x ∷ y ∷ ys

-- The text less the line ends at its end.
unfoldable pub chomp : List ℕ → List ℕ
unfolding keep_front
chomp [] = []
chomp (x ∷ xs) = keep_front x (chomp xs)

abbrev NoNul : List ℕ → Type 0
NoNul [] = Unit {0}
NoNul (x ∷ xs) = (x ≢ 0) × NoNul xs

-- What stands behind a text in its buffer: nothing, or a NUL.
abbrev Ended : List ℕ → Type 0
Ended [] = Unit {0}
Ended (x ∷ xs) = x ≡ 0

c_str-append : (t r : List ℕ) → NoNul t → Ended r → c_str (t ++ r) ≡ t
unfolding c_str
c_str-append [] [] n e = refl
c_str-append [] (x ∷ r) n e = ground arith
c_str-append (x ∷ t) r n e = ground (arith, c_str-append t r n.1 e)

chomp-snoc_end : (u : List ℕ) (c : ℕ) → is_line_end c ≡ true → chomp (u ++ c ∷ []) ≡ chomp u
unfolding chomp
chomp-snoc_end [] c e = rw e
chomp-snoc_end (x ∷ u) c e = rw (chomp-snoc_end u c e)

chomp-snoc_other : (u : List ℕ) (c : ℕ) → is_line_end c ≡ false → chomp (u ++ c ∷ []) ≡ u ++ c ∷ []
unfolding chomp
chomp-snoc_other [] c e = rw e
chomp-snoc_other (x ∷ []) c e = rw e
chomp-snoc_other (x ∷ y ∷ u) c e = rw (chomp-snoc_other (y ∷ u) c e)

get_or-middle : (u r : List ℕ) (c : ℕ) → get_or (u ++ c ∷ r) (length u) 0 ≡ c
get_or-middle [] r c = refl
get_or-middle (x ∷ u) r c = get_or-middle u r c

set-middle : (u r : List ℕ) (c v : ℕ) → set (u ++ c ∷ r) (length u) v ≡ u ++ v ∷ r
set-middle [] r c v = refl
set-middle (x ∷ u) r c v = ap (λ l. x ∷ l) (set-middle u r c v)

-- A list is empty or has a last element.
data Snoc : List ℕ → Type 0 where
  empty : Snoc []
  last : (u : List ℕ) (c : ℕ) → Snoc (u ++ c ∷ [])

snoc : (xs : List ℕ) → Snoc xs
snoc [] = empty
snoc (x ∷ xs) = under x (snoc xs)
  where
    under : (x : ℕ) {ys : List ℕ} → Snoc ys → Snoc (x ∷ ys)
    under x empty = last [] x
    under x (last u c) = last (x ∷ u) c

NoNul-front : (u v : List ℕ) → NoNul (u ++ v) → NoNul u
NoNul-front [] v n = tt
NoNul-front (x ∷ u) v n = (n.0, NoNul-front u v n.1)

cut_ends_lem :
    (n : ℕ) {t : List ℕ} (r : List ℕ)
    → Snoc t
    → n ≡ length t
    → NoNul t
    → Ended r
    → c_str (cut_ends n (t ++ r)) ≡ chomp t
unfolding cut_ends
cut_ends_lem zero r empty l n e = unfold chomp in c_str-append [] r n e
cut_ends_lem zero r (last u c) l n e = absurd (omega (arith, length-append u (c ∷ [])))
cut_ends_lem (suc k) r empty l n e = absurd (omega arith)
cut_ends_lem (suc k) r (last u c) l n e =
    let k' : k ≡ length u = omega (arith, length-append u (c ∷ [])) in
    let g : get_or (u ++ c ∷ r) k 0 ≡ c = rw k' (get_or-middle u r c) in
    let s : set (u ++ c ∷ r) k 0 ≡ u ++ 0 ∷ r = rw k' (set-middle u r c 0) in
    let kept : c_str (u ++ c ∷ r) ≡ u ++ c ∷ [] =
      ap c_str (sym (append_assoc u (c ∷ []) r)) ∙ c_str-append (u ++ c ∷ []) r n e in
    let ih = cut_ends_lem k (0 ∷ r) (snoc u) k' (NoNul-front u (c ∷ []) n) refl in
    rw (append_assoc u (c ∷ []) r, g, s)
      (elim (Bool-cases (is_line_end c)) [
        | inl end ↦ rw end (ih ∙ sym (chomp-snoc_end u c end))
        | inr other ↦ rw other (kept ∙ sym (chomp-snoc_other u c other))
      ])

c_str-NoNul : (buf : List ℕ) → NoNul (c_str buf)
unfolding c_str
c_str-NoNul [] = tt
c_str-NoNul (x ∷ xs) = elim (Bool-cases (x == 0)) [
  | inl e ↦ rw e tt
  | inr e ↦ rw e (ground arith, c_str-NoNul xs)
]

-- A buffer is its text and what stands behind it.
c_str-rest : (buf : List ℕ) → (r : List ℕ) × (buf ≡ c_str buf ++ r) × Ended r
unfolding c_str
c_str-rest [] = ([], refl, tt)
c_str-rest (x ∷ xs) = elim (Bool-cases (x == 0)) [
  | inl e ↦ (x ∷ xs, rw e, ground arith)
  | inr e ↦ let (r, q, z) = c_str-rest xs in (r, rw e (ap (λ l. x ∷ l) q), z)
]

-- Whatever `fgets` leaves in the buffer, the loop leaves the text before the first NUL less all the
-- line feeds and carriage returns at its end.
pub strip-chomp : (buf : List ℕ) → strip buf ≡ chomp (c_str buf)
unfolding strip
strip-chomp buf =
    let (r, q, z) = c_str-rest buf in
    ap (λ b. c_str (cut_ends (length (c_str buf)) b)) q
    ∙ cut_ends_lem (length (c_str buf)) r (snoc (c_str buf)) refl (c_str-NoNul buf) z
