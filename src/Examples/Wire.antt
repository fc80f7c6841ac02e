-- ===== src/Examples/Wire.antt =====
-- Headers, nonces and the replay window at concrete inputs.
use neth.Base.{
  ℕ, zero, suc, ◌≤◌, ◌<◌, ◌≡◌, refl, arith, true, false, List, [], ◌∷◌, length, get_or, set,
  replicate, All, ltb, ◌-◌, if◌then◌else◌, ok,
}
use neth.Header.{Header, encode, parse, get_big_endian}
use neth.Header.Laws.{IsHeader, clear_reserved, parse-encode, encode-parse}
use neth.Header.Wire.{IsBytes}
use neth.NoiseUtil.Laws.{counter_nonce_injective}
use neth.Replay.{new_window, empty_window, check_replay, shift_window}
use neth.Replay.Shift.{
  IsWindow, window_bit, empty_window-IsWindow, set-IsWindow, window_bit-shift_window,
}
use neth.Replay.History.{
  receive, verdicts, spec_verdicts, verdicts-new_window, check_replay-receive,
}

abbrev ping : Header
ping = record { version = 1; type = 3; sub_type = 0; remote_index = 7; message_counter = 9 }

ping-IsHeader : IsHeader ping
ping-IsHeader = record {
  version_fits = omega arith;
  type_fits = omega arith;
  sub_type_fits = omega arith;
  index_fits = omega arith;
  counter_fits = omega arith;
}

abbrev zeros : List ℕ
zeros = replicate 18 0

parse-encode_example :
    (out : List ℕ) × (encode ping zeros ≡ ok out)
    × (parse out ≡ ok ping)
    × (length out ≡ length zeros)
    × ((j : ℕ) → 16 ≤ j → get_or out j 0 ≡ get_or zeros j 0)
parse-encode_example = parse-encode ping zeros (omega arith) ping-IsHeader refl (omega arith)

-- The bytes of `ping`, with the reserved ones set.
abbrev ping_bytes : List ℕ
ping_bytes = 0x13 ∷ 0 ∷ 5 ∷ 6 ∷ 0 ∷ 0 ∷ 0 ∷ 7 ∷ 0 ∷ 0 ∷ 0 ∷ 0 ∷ 0 ∷ 0 ∷ 0 ∷ 9 ∷ []

IsBytes-below : (buf : List ℕ) → All (λ b. b < 256) buf → IsBytes buf
IsBytes-below [] all j = omega arith
IsBytes-below (b ∷ buf) all zero = all.0
IsBytes-below (b ∷ buf) all (suc j) = IsBytes-below buf all.1 j

ping_bytes-IsBytes : IsBytes ping_bytes
ping_bytes-IsBytes = IsBytes-below ping_bytes (ground arith)

parse-ping_bytes : parse ping_bytes ≡ ok ping
unfolding parse get_big_endian
parse-ping_bytes = refl

encode-parse_example : encode ping ping_bytes ≡ ok (clear_reserved ping_bytes)
encode-parse_example = encode-parse ping_bytes ping ping_bytes-IsBytes parse-ping_bytes

abbrev some_counter : ℕ
some_counter = 258

counter_nonce_injective_example : some_counter ≡ some_counter
counter_nonce_injective_example =
    counter_nonce_injective some_counter some_counter (omega arith) (omega arith) refl

abbrev arrivals : List ℕ
arrivals = 5 ∷ 5 ∷ 3 ∷ 9000 ∷ 5 ∷ 4904 ∷ 4905 ∷ []

verdicts-new_window_example : verdicts new_window arrivals ≡ spec_verdicts [] arrivals
verdicts-new_window_example = verdicts-new_window arrivals

-- Counter 5 again, counters that are too old, and one that is just in the window.
spec_verdicts_test :
    spec_verdicts [] arrivals ≡ false ∷ true ∷ false ∷ false ∷ true ∷ true ∷ false ∷ []
unfolding spec_verdicts
spec_verdicts_test = refl

first_counter : (check_replay new_window 5).1 ≡ false
unfolding check_replay
first_counter = refl

check_replay-receive_example :
    (check_replay (receive (check_replay new_window 5).0 (9 ∷ 5000 ∷ [])) 5).1 ≡ true
check_replay-receive_example =
    check_replay-receive new_window 5 (9 ∷ 5000 ∷ []) empty_window-IsWindow first_counter

-- A window with one bit set.
abbrev one_bit : List ℕ
one_bit = set empty_window 0 1

one_bit-IsWindow : IsWindow one_bit
one_bit-IsWindow = set-IsWindow 0 1 (omega arith) empty_window-IsWindow

window_bit-shift_window_example :
    window_bit (shift_window one_bit 70) 70
    ≡ (if ltb 70 70 then 0 else window_bit one_bit (70 - 70))
window_bit-shift_window_example =
    window_bit-shift_window one_bit 70 70 one_bit-IsWindow (omega arith)
