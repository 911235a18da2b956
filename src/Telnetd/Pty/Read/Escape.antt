-- ===== src/Telnetd/Pty/Read/Escape.antt =====
-- Data through the telnet machine: what an NVT client encodes reaches the terminal unchanged.
use rtems_ssrl_apps.Prelude.{ℕ, ◌≡◌, refl, false, List, [], ◌∷◌, ◌++◌, arith, ◌==◌, if◌then◌else◌}
use rtems_ssrl_apps.Prelude.Int.{pos}
use rtems_ssrl_apps.Telnetd.Pty.Slot.{Pty, iac_esc}
use rtems_ssrl_apps.Telnetd.Pty.Read.{result, read_byte}
use rtems_ssrl_apps.Telnetd.Pty.Read.Stream.{final, delivered, replies}

-- A client doubles the escape, and sends CR as CR NUL.
unfoldable pub encode : List ℕ → List ℕ
encode [] = []
encode (b ∷ bs) =
    if b == iac_esc
    then iac_esc ∷ iac_esc ∷ encode bs
    else if b == 13
    then 13 ∷ 0 ∷ encode bs
    else b ∷ encode bs

-- The slot `p` between commands, and not behind a CR.
abbrev pub idle : Pty → Pty
idle p = record p { iac_mode = 0; last_cr = false }

-- From the slot `p`, the stream `vs` delivers `bs` more than `ws` does, and nothing else differs.
abbrev Carries : List ℕ → List ℕ → List ℕ → Pty → Type 0
Carries vs bs ws p =
    (delivered vs p ≡ bs ++ delivered ws p)
    × (replies vs p ≡ replies ws p)
    × (final vs p ≡ final ws p)

module _ (p : Pty) (vs : List ℕ) where
  esc_pair-Carries : Carries (255 ∷ 255 ∷ vs) (255 ∷ []) vs (idle p)
  unfolding delivered replies final read_byte
  esc_pair-Carries = (refl, refl, refl)

  cr_nul-Carries : Carries (13 ∷ 0 ∷ vs) (13 ∷ []) vs (idle p)
  unfolding delivered replies final read_byte
  cr_nul-Carries = (refl, refl, refl)

  read_plain :
      (b : ℕ)
      → (b == 255) ≡ false
      → (b == 13) ≡ false
      → read_byte b (idle p) ≡ result (pos b) (idle p) []
  unfolding read_byte
  read_plain b e c = ground arith

  plain-Carries :
      (b : ℕ) → (b == 255) ≡ false → (b == 13) ≡ false → Carries (b ∷ vs) (b ∷ []) vs (idle p)
  unfolding delivered replies final
  plain-Carries b e c = rw (read_plain b e c) (refl, refl, refl)

-- Every list of bytes, encoded, is delivered as it was, is answered by nothing and leaves the slot
-- as it was.
pub delivered-encode :
    (bs : List ℕ) (p : Pty)
    → (delivered (encode bs) (idle p) ≡ bs)
      × (replies (encode bs) (idle p) ≡ [])
      × (final (encode bs) (idle p) ≡ idle p)
unfolding encode
delivered-encode [] p = unfold delivered replies final in (refl, refl, refl)
delivered-encode (b ∷ bs) p = ground (
  arith,
  delivered-encode bs p,
  esc_pair-Carries p (encode bs),
  cr_nul-Carries p (encode bs),
  plain-Carries p (encode bs) b,
)
