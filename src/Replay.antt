-- ===== src/Replay.antt =====
-- hostmap.go: the sliding window of a session, `HostInfo.CheckReplay` and `shiftWindow`.
-- The window is the array of 64 words of type uint64, bit 0 of word 0 standing for `windowEnd`.
-- Counters are uint64; every subtraction below is guarded as in the source, so none wraps.
pub mod Shift
pub mod Check
pub mod History
use neth.Base.{
  ℕ, zero, suc, ◌+◌, ◌-◌, ◌*◌, ◌/◌, ◌%◌, ◌^◌, ◌≤◌, ◌<◌, bit_and, bit_or, Bool, true, false, not,
  List, [], ◌∷◌, ltb, leb, ◌==◌, if◌then◌else◌, get_or, set, replicate,
}
use neth.Bits.{shl64, shr}

-- replayWindowSize
abbrev pub replay_window_size : ℕ
replay_window_size = 64 * 64

-- [64]uint64{}
abbrev pub empty_window : List ℕ
empty_window = replicate 64 0

-- The fields `windowEnd` and `window` of `HostInfo`.
pub record ReplayWindow : Type 0 where
  pub window_end : ℕ
  pub window : List ℕ

-- A session's window as Go makes it.
abbrev pub new_window : ReplayWindow
new_window = record { window_end = 0; window = empty_window }

-- The first loop, at the indices below the first argument: `w[i] = w[i - wordShift]`, or 0.
unfoldable pub shift_words : ℕ → ℕ → List ℕ → List ℕ
shift_words zero word_shift w = w
shift_words (suc i) word_shift w =
    shift_words i word_shift (set w i (if ltb i word_shift then 0 else get_or w (i - word_shift) 0))

-- The second loop, at the indices from the first argument down to 1.
unfoldable pub carry_bits : ℕ → ℕ → List ℕ → List ℕ
carry_bits zero bit_shift w = w
carry_bits (suc i) bit_shift w = carry_bits i bit_shift (
    set w (suc i)
      (bit_or (shl64 (get_or w (suc i) 0) bit_shift) (shr (get_or w i 0) (64 - bit_shift))))

-- `if bitShift > 0`: the second loop and `w[0] <<= bitShift`.
unfoldable pub shift_bits : ℕ → List ℕ → List ℕ
shift_bits bit_shift w =
    let carried = carry_bits 63 bit_shift w in
    if ltb 0 bit_shift then set carried 0 (shl64 (get_or carried 0 0) bit_shift) else w

unfoldable pub shift_window : List ℕ → ℕ → List ℕ
shift_window w n =
    let word_shift = n / 64 in
    let bit_shift = n % 64 in
    if leb 64 word_shift then empty_window else shift_bits bit_shift (shift_words 64 word_shift w)

-- h.window[word] |= 1 << bit
unfoldable pub mark : List ℕ → ℕ → List ℕ
mark w pos = set w (pos / 64) (bit_or (get_or w (pos / 64) 0) (shl64 1 (pos % 64)))

-- The branch `counter > end`.
unfoldable pub advance : ReplayWindow → ℕ → ReplayWindow
unfolding mark
advance h counter =
    let diff = counter - h.window_end in
    let shifted =
      if leb replay_window_size diff then empty_window else shift_window h.window diff in
    record { window_end = counter; window = set shifted 0 (bit_or (get_or shifted 0 0) 1) }

-- The branch of a counter inside the window, `pos` below its end.
unfoldable pub check_inside : ReplayWindow → ℕ → ReplayWindow × Bool
check_inside h pos =
    if not (bit_and (get_or h.window (pos / 64) 0) (shl64 1 (pos % 64)) == 0)
    then (h, true)
    else (record h { window = mark h.window pos }, false)

-- CheckReplay: the new window, and whether the packet is a replay or too old.
unfoldable pub check_replay : ReplayWindow → ℕ → ReplayWindow × Bool
check_replay h counter =
    if ltb h.window_end counter
    then (advance h counter, false)
    else if leb replay_window_size (h.window_end - counter)
    then (h, true)
    else check_inside h (h.window_end - counter)
