-- ===== src/Telnetd/Pty/Read/Session.antt =====
-- What a telnet session means, and that the byte machine `read_pty` implements it.
use rtems_ssrl_apps.Prelude.{ℕ, ◌+◌, ◌*◌, ◌≡◌, refl, ◌∙◌, ap, ◌≢◌, List, [], ◌∷◌, ◌++◌}
use mathlib.Core.Path.{ap₂}
use rtems_ssrl_apps.Telnetd.Pty.Slot.{Pty}
use rtems_ssrl_apps.Telnetd.Pty.Read.Stream.{
  final, delivered, replies, final-append, delivered-append, replies-append,
}
use rtems_ssrl_apps.Telnetd.Pty.Read.Ready.{IsReady, by_ready}
use rtems_ssrl_apps.Telnetd.Pty.Read.Escape.{encode, idle, delivered-encode}
use rtems_ssrl_apps.Telnetd.Pty.Read.Naws.{naws, naws-Sized}
use rtems_ssrl_apps.Telnetd.Pty.Read.Negotiation.{Verb, negotiate, answer, negotiate-answer}

-- What a client does: it types, it negotiates an option, its window changes its size.
pub data Item : Type 0 where
  type_in : List ℕ → Item
  ask : Verb → ℕ → Item
  resize : ℕ → ℕ → ℕ → ℕ → Item

abbrev pub wire : Item → List ℕ
wire (type_in bs) = encode bs
wire (ask v o) = negotiate v o
wire (resize w1 w0 h1 h0) = naws w1 w0 h1 h0

abbrev pub wires : List Item → List ℕ
wires [] = []
wires (i ∷ is) = wire i ++ wires is

-- The bytes of a size are no escapes.
abbrev pub IsPlain : List Item → Type 0
IsPlain [] = Unit {0}
IsPlain (resize w1 w0 h1 h0 ∷ is) = (w1 ≢ 255) × (w0 ≢ 255) × (h1 ≢ 255) × (h0 ≢ 255) × IsPlain is
IsPlain (type_in _ ∷ is) = IsPlain is
IsPlain (ask _ _ ∷ is) = IsPlain is

abbrev pub typed : List Item → List ℕ
typed [] = []
typed (type_in bs ∷ is) = bs ++ typed is
typed (_ ∷ is) = typed is

abbrev pub answers : List Item → List (List ℕ)
answers [] = []
answers (ask v o ∷ is) = answer v o ++ answers is
answers (_ ∷ is) = answers is

-- The size of the window after a session that begins with `w` by `h`.
abbrev pub size : List Item → ℕ → ℕ → ℕ × ℕ
size [] w h = (w, h)
size (resize w1 w0 h1 h0 ∷ is) w h = size is (w1 * 256 + w0) (h1 * 256 + h0)
size (_ ∷ is) w h = size is w h

abbrev pub Means : List Item → Pty → Type 0
Means is p =
    (delivered (wires is) p ≡ typed is)
    × (replies (wires is) p ≡ answers is)
    × IsReady (final (wires is) p)
    × (((final (wires is) p).width, (final (wires is) p).height) ≡ size is p.width p.height)

ready-idle : (p : Pty) → IsReady p → idle p ≡ p
ready-idle = by_ready _ λ p a b c d e r n. refl

type_in_lem :
    (bs : List ℕ) (p : Pty)
    → IsReady p
    → (delivered (encode bs) p ≡ bs) × (replies (encode bs) p ≡ []) × (final (encode bs) p ≡ p)
type_in_lem bs p r = rw (ready-idle p r) at (delivered-encode bs p)

-- A session of typing, negotiation and changes of the window, from a ready slot: the terminal gets
-- what was typed, the client the answers in order, and the size is the last one sent.
pub session-Means : (is : List Item) (p : Pty) → IsPlain is → IsReady p → Means is p
session-Means [] p ok r = unfold delivered replies final in (refl, refl, r, refl)
session-Means (type_in bs ∷ is) p ok r =
    let (d, w, f) = type_in_lem bs p r in
    let (d', w', r', s') = session-Means is p ok r in
    rw (delivered-append, replies-append, final-append, d, w, f) (ap (λ l. bs ++ l) d', w', r', s')
session-Means (ask v o ∷ is) p ok r =
    let (d, w, f) = negotiate-answer v o p r in
    let (d', w', r', s') = session-Means is p ok r in
    rw (delivered-append, replies-append, final-append, d, w, f)
      (d', ap (λ l. answer v o ++ l) w', r', s')
session-Means (resize w1 w0 h1 h0 ∷ is) p ok r =
    let (d, w, r1, sw, sh) = naws-Sized w1 w0 h1 h0 ok.0 ok.1 ok.2 ok.3 p r in
    let (d', w', r', s') = session-Means is (final (naws w1 w0 h1 h0) p) ok.4 r1 in
    rw (delivered-append, replies-append, final-append, d, w)
      (d', w', r', s' ∙ ap₂ (λ a b. size is a b) sw sh)
