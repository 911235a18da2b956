-- ===== src/Telnetd/Pty/Read/Naws.antt =====
-- The window size of the client (NAWS), sent as a subnegotiation of option 31.
use rtems_ssrl_apps.Prelude.{
  ℕ, ◌+◌, ◌*◌, ◌≡◌, refl, ap, ◌≢◌, false, List, [], ◌∷◌, ◌++◌, arith, ◌<◌, set,
}
use rtems_ssrl_apps.Prelude.Int.{minus_one}
use rtems_ssrl_apps.Telnetd.Pty.Slot.{Pty, iac_esc, iac_sb, iac_se}
use rtems_ssrl_apps.Telnetd.Pty.Read.{result, read_byte}
use rtems_ssrl_apps.Telnetd.Pty.Read.Stream.{
  final, delivered, replies, final-append, delivered-append,
}
use rtems_ssrl_apps.Telnetd.Pty.Read.Silent.{Silent, nil, cons}
use rtems_ssrl_apps.Telnetd.Pty.Read.Ready.{IsReady, ready, by_ready}

-- IAC SB NAWS, the four bytes of the size, IAC SE.
abbrev pub naws : ℕ → ℕ → ℕ → ℕ → List ℕ
naws w1 w0 h1 h0 = iac_esc ∷ iac_sb ∷ 31 ∷ w1 ∷ w0 ∷ h1 ∷ h0 ∷ iac_esc ∷ iac_se ∷ []

abbrev Sized : ℕ → ℕ → ℕ → ℕ → Pty → Type 0
Sized w1 w0 h1 h0 p =
    (delivered (naws w1 w0 h1 h0) p ≡ [])
    × (replies (naws w1 w0 h1 h0) p ≡ [])
    × IsReady (final (naws w1 w0 h1 h0) p)
    × ((final (naws w1 w0 h1 h0) p).width ≡ w1 * 256 + w0)
    × ((final (naws w1 w0 h1 h0) p).height ≡ h1 * 256 + h0)

-- A slot within a subnegotiation, behind `i` bytes of it.
abbrev inside : Pty → ℕ → List ℕ → Pty
inside p i xs = record p { iac_mode = 250; last_cr = false; sb_buf = xs; sb_ind = i }

store_byte :
    (v i : ℕ) (p : Pty) (xs : List ℕ)
    → v ≢ 255
    → i < 16
    → read_byte v (inside p i xs) ≡ result minus_one (inside p (i + 1) (set xs i v)) []
unfolding read_byte
store_byte v i p xs h l = ground arith

module _ (w1 w0 h1 h0 : ℕ) (p : Pty) where
  naws-Silent :
      (a b c d e : ℕ) (r : List ℕ)
      → w1 ≢ 255
      → w0 ≢ 255
      → h1 ≢ 255
      → h0 ≢ 255
      → Silent (naws w1 w0 h1 h0) (ready p a b c d e r) (record p {
        iac_mode = 0;
        last_cr = false;
        sb_buf = 31 ∷ w1 ∷ w0 ∷ h1 ∷ h0 ∷ r;
        sb_ind = 5;
        width = w1 * 256 + w0;
        height = h1 * 256 + h0;
      })
  unfolding read_byte
  naws-Silent a b c d e r n1 n0 m1 m0 = cons refl (
      cons refl (
        cons refl (
          cons (store_byte w1 1 p _ n1 (omega arith)) (
            cons (store_byte w0 2 p _ n0 (omega arith)) (
              cons (store_byte h1 3 p _ m1 (omega arith))
                (cons (store_byte h0 4 p _ m0 (omega arith)) (cons refl (cons refl (nil _)))))))))

-- Where no byte of the size is an escape, the subnegotiation sets the size of the window; the
-- terminal gets nothing, the client no reply, and the slot is ready again.
pub naws-Sized :
    (w1 w0 h1 h0 : ℕ)
    → w1 ≢ 255
    → w0 ≢ 255
    → h1 ≢ 255
    → h0 ≢ 255
    → (p : Pty) → IsReady p
    → Sized w1 w0 h1 h0 p
naws-Sized w1 w0 h1 h0 n1 n0 m1 m0 = by_ready (Sized w1 w0 h1 h0) λ q a b c d e r n.
    let s = naws-Silent w1 w0 h1 h0 q a b c d e r n1 n0 m1 m0 in
    rw s.leads (
      s.nothing,
      s.no_reply,
      record { no_command = refl; no_cr = refl; size = omega arith },
      refl,
      refl,
    )

-- A width whose low byte is 255, doubled as the telnet protocol wants it.
abbrev pub escaped_front : ℕ → List ℕ
escaped_front w1 = iac_esc ∷ iac_sb ∷ 31 ∷ w1 ∷ iac_esc ∷ []

abbrev pub escaped_back : ℕ → ℕ → List ℕ
escaped_back h1 h0 = iac_esc ∷ h1 ∷ h0 ∷ iac_esc ∷ iac_se ∷ []

module _ (w1 h1 h0 : ℕ) (p : Pty) (a b c d e : ℕ) (r : List ℕ) where
  abbrev halfway : Pty
  halfway = record p {
    iac_mode = 64255;
    last_cr = false;
    sb_buf = 31 ∷ w1 ∷ c ∷ d ∷ e ∷ r;
    sb_ind = 2;
  }

  escaped_front-Silent : w1 ≢ 255 → Silent (escaped_front w1) (ready p a b c d e r) halfway
  unfolding read_byte
  escaped_front-Silent n1 =
      cons refl
        (cons refl (cons refl (cons (store_byte w1 1 p _ n1 (omega arith)) (cons refl (nil _)))))

  escaped_rest-Silent :
      h1 ≢ 255
      → h0 ≢ 255
      → Silent (h1 ∷ h0 ∷ iac_esc ∷ iac_se ∷ []) (inside p 2 (31 ∷ w1 ∷ c ∷ d ∷ e ∷ r)) (record p {
        iac_mode = 0;
        last_cr = false;
        sb_buf = 31 ∷ w1 ∷ h1 ∷ h0 ∷ e ∷ r;
        sb_ind = 4;
        width = w1 * 256 + h1;
        height = h0 * 256 + e;
      })
  unfolding read_byte
  escaped_rest-Silent m1 m0 =
      cons (store_byte h1 2 p _ m1 (omega arith))
        (cons (store_byte h0 3 p _ m0 (omega arith)) (cons refl (cons refl (nil _))))

  escaped_back_lem :
      h1 ≢ 255
      → h0 ≢ 255
      → (delivered (escaped_back h1 h0) halfway ≡ 255 ∷ [])
        × ((final (escaped_back h1 h0) halfway).width ≡ w1 * 256 + h1)
  unfolding delivered final read_byte
  escaped_back_lem m1 m0 =
      let s = escaped_rest-Silent m1 m0 in
      (ap (λ bs. 255 ∷ bs) s.nothing, ap (λ q. q.width) s.leads)

-- Of a doubled escape in a window size the slot stores nothing: the byte goes to the terminal, and
-- the height's first byte becomes the width's second.
pub naws_escaped-misread :
    (w1 h1 h0 : ℕ)
    → w1 ≢ 255
    → h1 ≢ 255
    → h0 ≢ 255
    → (p : Pty) → IsReady p
    → (delivered (escaped_front w1 ++ escaped_back h1 h0) p ≡ 255 ∷ [])
      × ((final (escaped_front w1 ++ escaped_back h1 h0) p).width ≡ w1 * 256 + h1)
naws_escaped-misread w1 h1 h0 n1 m1 m0 = by_ready _ λ q a b c d e r n.
    let s = escaped_front-Silent w1 h1 h0 q a b c d e r n1 in
    let t = escaped_back_lem w1 h1 h0 q a b c d e r m1 m0 in
    rw (delivered-append, final-append, s.nothing, s.leads) t
