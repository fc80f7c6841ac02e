-- ===== src/Replay/Check.antt =====
-- `CheckReplay`: its verdict, and the counters that it remembers.
use neth.Base.{
  ℕ, ◌-◌, ◌/◌, ◌%◌, ◌<◌, max, bit_or, Bool, true, false, ◌&&◌, ◌||◌, ◌≡◌, refl, inl, inr, ◌∙◌, ap,
  List, ltb, leb, ◌==◌, if◌then◌else◌, arith, tests, Bool-cases, ltb→lt, get_or, get_or-set,
}
use neth.Bits.{bit_at-le, shl64, bit_at-bit_or, bit_at-one_shl, bit_and-one_shl, bit_or-lt}
use neth.Replay.{
  ReplayWindow, empty_window, shift_window, mark, advance, check_inside, check_replay,
}
use neth.Replay.Shift.{
  IsWindow, window_bit, set-IsWindow, empty_window-IsWindow, shift_window-IsWindow,
  window_bit-shift_window, window_bit-empty,
}

-- The counter lies in the window and its bit is set.
abbrev pub seen : ReplayWindow → ℕ → Bool
seen h c =
    leb c h.window_end && ltb (h.window_end - c) 4096 && window_bit h.window (h.window_end - c) == 1

pub mark-IsWindow : (w : List ℕ) (pos : ℕ) → IsWindow w → IsWindow (mark w pos)
unfolding mark
mark-IsWindow w pos k =
    set-IsWindow (pos / 64) _ (bit_or-lt 64 _ _ (k.fits (pos / 64)) (omega arith)) k

window_bit-mark :
    (w : List ℕ) (pos q : ℕ)
    → IsWindow w
    → pos < 4096
    → window_bit (mark w pos) q ≡ (if q == pos then 1 else window_bit w q)
unfolding mark
window_bit-mark w pos q k h = ground (
  arith,
  k.words,
  get_or-set w (pos / 64) (q / 64) (bit_or (get_or w (pos / 64) 0) (shl64 1 (pos % 64))) 0,
  bit_at-bit_or (get_or w (pos / 64) 0) (shl64 1 (pos % 64)) (q % 64),
  bit_at-one_shl (pos % 64) (q % 64),
  bit_at-le (get_or w (pos / 64) 0) (q % 64),
)

-- The branch past the end starts from the map moved up, or from an empty one after a long jump.
moved : List ℕ → ℕ → List ℕ
moved w diff = if leb 4096 diff then empty_window else shift_window w diff

moved-IsWindow : (w : List ℕ) (diff : ℕ) → IsWindow w → IsWindow (moved w diff)
unfolding moved
moved-IsWindow w diff k = elim (Bool-cases (leb 4096 diff)) [
  | inl far ↦ rw far empty_window-IsWindow
  | inr near ↦ rw near (shift_window-IsWindow w diff k)
]

window_bit-moved :
    (w : List ℕ) (diff q : ℕ)
    → IsWindow w
    → q < 4096
    → window_bit (moved w diff) q ≡ (if ltb q diff then 0 else window_bit w (q - diff))
unfolding moved
window_bit-moved w diff q k h =
    ground (arith, window_bit-empty q, window_bit-shift_window w diff q k h)

advance-mark :
    (h : ReplayWindow) (c : ℕ)
    → advance h c ≡ record { window_end = c; window = mark (moved h.window (c - h.window_end)) 0 }
unfolding advance moved mark
advance-mark h c = refl

-- The branch past the end remembers the counter, and of the others those still in the window.
seen-advance :
    (h : ReplayWindow) (c d : ℕ)
    → IsWindow h.window
    → h.window_end < c
    → seen (advance h c) d ≡ (d == c || (seen h d && ltb (c - d) 4096))
seen-advance h c d k later =
    let gap = c - h.window_end in
    rw (advance-mark h c) (
      ground (
        arith,
        window_bit-mark (moved h.window gap) 0 (c - d) (moved-IsWindow h.window gap k)
            (omega arith),
        window_bit-moved h.window gap (c - d) k,
      ))

-- Inside the window the verdict is the bit.
check_inside-verdict :
    (h : ReplayWindow) (pos : ℕ) → (check_inside h pos).1 ≡ (window_bit h.window pos == 1)
unfolding check_inside
check_inside-verdict h pos = ground (
  arith,
  bit_and-one_shl (get_or h.window (pos / 64) 0) (pos % 64) (omega arith),
  bit_at-le (get_or h.window (pos / 64) 0) (pos % 64),
)

check_inside-marks :
    (h : ReplayWindow) (pos : ℕ)
    → (check_inside h pos).1 ≡ false
    → (check_inside h pos).0 ≡ record h { window = mark h.window pos }
unfolding check_inside
check_inside-marks h pos fresh = ground arith

check_inside-keeps :
    (h : ReplayWindow) (pos : ℕ) → (check_inside h pos).1 ≡ true → (check_inside h pos).0 ≡ h
unfolding check_inside
check_inside-keeps h pos old = ground arith

-- The verdict: a replay is a counter at or below the end that was seen or is too old.
pub check_replay-verdict :
    (h : ReplayWindow) (c : ℕ)
    → (check_replay h c).1 ≡ (leb c h.window_end && (leb 4096 (h.window_end - c) || seen h c))
unfolding check_replay
check_replay-verdict h c = ground (arith, check_inside-verdict h (h.window_end - c))

-- A refused counter leaves the window alone.
pub check_replay-refused :
    (h : ReplayWindow) (c : ℕ) → (check_replay h c).1 ≡ true → (check_replay h c).0 ≡ h
unfolding check_replay
check_replay-refused h c old = ground (arith, check_inside-keeps h (h.window_end - c))

-- An accepted counter is remembered, and so is what was seen and stays in the window.
pub check_replay-accepted :
    (h : ReplayWindow) (c d : ℕ)
    → IsWindow h.window
    → (check_replay h c).1 ≡ false
    → ((check_replay h c).0.window_end ≡ max h.window_end c)
      × (seen (check_replay h c).0 d ≡ (d == c || (seen h d && ltb (max h.window_end c - d) 4096)))
unfolding check_replay
check_replay-accepted h c d k fresh = elim (Bool-cases (ltb h.window_end c)) [
  | inl later ↦ rw later (
    ap (λ (w : ReplayWindow). w.window_end) (advance-mark h c) ∙ omega (tests, later),
    seen-advance h c d k (ltb→lt _ _ later) ∙ ground arith,
  )
  | inr old ↦ ground (
    arith,
    check_inside-marks h (h.window_end - c),
    window_bit-mark h.window (h.window_end - c) (h.window_end - d) k,
  )
]

advance-IsWindow : (h : ReplayWindow) (c : ℕ) → IsWindow h.window → IsWindow (advance h c).window
advance-IsWindow h c k =
    rw (advance-mark h c) (mark-IsWindow _ 0 (moved-IsWindow h.window (c - h.window_end) k))

check_inside-IsWindow :
    (h : ReplayWindow) (pos : ℕ) → IsWindow h.window → IsWindow (check_inside h pos).0.window
check_inside-IsWindow h pos k = elim (Bool-cases (check_inside h pos).1) [
  | inl old ↦ rw (check_inside-keeps h pos old) k
  | inr fresh ↦ rw (check_inside-marks h pos fresh) (mark-IsWindow h.window pos k)
]

-- The array keeps its 64 words of 64 bits.
pub check_replay-IsWindow :
    (h : ReplayWindow) (c : ℕ) → IsWindow h.window → IsWindow (check_replay h c).0.window
unfolding check_replay
check_replay-IsWindow h c k = elim (Bool-cases (ltb h.window_end c)) [
  | inl later ↦ rw later (advance-IsWindow h c k)
  | inr old ↦ rw old (elim (Bool-cases (leb 4096 (h.window_end - c))) [
    | inl far ↦ rw far k
    | inr near ↦ rw near (check_inside-IsWindow h (h.window_end - c) k)
  ])
]
