-- ===== src/Replay/History.antt =====
-- A session's packets in the order of arrival, against a specification that keeps every accepted
-- counter for ever and has no bitmap.
use neth.Base.{
  ℕ, ◌+◌, ◌-◌, ◌≤◌, max, Bool, true, false, ◌&&◌, ◌||◌, ◌≡◌, refl, ap, ◌∙◌, List, [], ◌∷◌, ltb, leb,
  ◌==◌, if◌then◌else◌, arith, any, Bool-cases, inl, inr,
}
use neth.Replay.{ReplayWindow, new_window, check_replay}
use neth.Replay.Shift.{IsWindow, empty_window-IsWindow, window_bit-empty}
use neth.Replay.Check.{
  seen, check_replay-verdict, check_replay-refused, check_replay-accepted, check_replay-IsWindow,
}

-- The window after a sequence of packets.
pub receive : ReplayWindow → List ℕ → ReplayWindow
receive h [] = h
receive h (c ∷ cs) = receive (check_replay h c).0 cs

-- The verdicts on a sequence of packets.
pub verdicts : ReplayWindow → List ℕ → List Bool
verdicts h [] = []
verdicts h (c ∷ cs) = (check_replay h c).1 ∷ verdicts (check_replay h c).0 cs

-- The specification: the highest counter accepted so far, 0 at the start.
abbrev pub newest : List ℕ → ℕ
newest [] = 0
newest (c ∷ cs) = max (newest cs) c

-- A packet is refused if its counter was accepted before or lies 4096 or more below the newest.
abbrev pub must_refuse : List ℕ → ℕ → Bool
must_refuse accepted c = any (λ a. c == a) accepted || leb (c + 4096) (newest accepted)

unfoldable pub spec_verdicts : List ℕ → List ℕ → List Bool
spec_verdicts accepted [] = []
spec_verdicts accepted (c ∷ cs) =
    must_refuse accepted c
    ∷ spec_verdicts (if must_refuse accepted c then accepted else c ∷ accepted) cs

-- The window holds what the specification needs of the accepted counters.
pub record Refines (h : ReplayWindow) (accepted : List ℕ) : Type 0 where
  pub is_window : IsWindow h.window
  pub end_newest : h.window_end ≡ newest accepted
  pub remembers :
      (d : ℕ) → seen h d ≡ (any (λ a. d == a) accepted && ltb (newest accepted) (d + 4096))

new_window-Refines : Refines new_window []
new_window-Refines = record {
  is_window = empty_window-IsWindow;
  end_newest = refl;
  remembers = λ d. ground (arith, window_bit-empty (0 - d));
}

le_newest : (d : ℕ) (accepted : List ℕ) → any (λ a. d == a) accepted ≡ true → d ≤ newest accepted
le_newest d [] h = cc
le_newest d (a ∷ accepted) h = ground (arith, le_newest d accepted)

Refines-verdict :
    (h : ReplayWindow) (accepted : List ℕ) (c : ℕ)
    → Refines h accepted
    → (check_replay h c).1 ≡ must_refuse accepted c
Refines-verdict h accepted c r =
    check_replay-verdict h c ∙ ground (arith, r.end_newest, r.remembers c, le_newest c accepted)

Refines-accept :
    (h : ReplayWindow) (accepted : List ℕ) (c : ℕ)
    → Refines h accepted
    → (check_replay h c).1 ≡ false
    → Refines (check_replay h c).0 (c ∷ accepted)
Refines-accept h accepted c r fresh = record {
  is_window = check_replay-IsWindow h c r.is_window;
  end_newest = (check_replay-accepted h c c r.is_window fresh).0 ∙ ap (λ e. max e c) r.end_newest;
  remembers = λ d.
      (check_replay-accepted h c d r.is_window fresh).1
      ∙ ground (
        arith,
        r.end_newest,
        r.remembers d,
        le_newest d accepted,
        Refines-verdict h accepted c r,
      );
}

verdicts-eq-spec :
    (h : ReplayWindow) (accepted cs : List ℕ)
    → Refines h accepted
    → verdicts h cs ≡ spec_verdicts accepted cs
unfolding verdicts spec_verdicts
verdicts-eq-spec h accepted [] r = refl
verdicts-eq-spec h accepted (c ∷ cs) r =
    let same = Refines-verdict h accepted c r in
    elim (Bool-cases (must_refuse accepted c)) [
      | inl refuse ↦
          rw (same, refuse, check_replay-refused h c (same ∙ refuse))
            (ap (◌∷◌ true) (verdicts-eq-spec h accepted cs r))
      | inr accept ↦
          rw (same, accept)
            (ap (◌∷◌ false) (
              verdicts-eq-spec (check_replay h c).0 (c ∷ accepted) cs
                (Refines-accept h accepted c r (same ∙ accept))))
    ]

-- On every sequence of packets, a new session's window gives the verdicts of the specification:
-- a packet is refused exactly when its counter was accepted before or lies 4096 or more below
-- the newest accepted one.
pub verdicts-new_window : (cs : List ℕ) → verdicts new_window cs ≡ spec_verdicts [] cs
verdicts-new_window cs = verdicts-eq-spec new_window [] cs new_window-Refines

-- A counter is spent once it lies in the window with its bit set, or below the window.
abbrev pub Spent : ReplayWindow → ℕ → Type 0
Spent h c = (leb c h.window_end && (leb 4096 (h.window_end - c) || seen h c)) ≡ true

pub check_replay-Spent :
    (h : ReplayWindow) (c d : ℕ) → IsWindow h.window → Spent h c → Spent (check_replay h d).0 c
check_replay-Spent h c d k spent = elim (Bool-cases (check_replay h d).1) [
  | inl old ↦ rw (check_replay-refused h d old) spent
  | inr fresh ↦ let after = check_replay-accepted h d c k fresh in ground (arith, after.0, after.1)
]

receive-Spent :
    (h : ReplayWindow) (c : ℕ) (cs : List ℕ)
    → IsWindow h.window
    → Spent h c
    → Spent (receive h cs) c
unfolding receive
receive-Spent h c [] k spent = spent
receive-Spent h c (d ∷ cs) k spent =
    receive-Spent (check_replay h d).0 c cs (check_replay-IsWindow h d k)
      (check_replay-Spent h c d k spent)

pub Spent-check_replay : (h : ReplayWindow) (c : ℕ) → Spent h c → (check_replay h c).1 ≡ true
Spent-check_replay h c spent = check_replay-verdict h c ∙ spent

pub accepted-Spent :
    (h : ReplayWindow) (c : ℕ)
    → IsWindow h.window
    → (check_replay h c).1 ≡ false
    → Spent (check_replay h c).0 c
accepted-Spent h c k fresh =
    let after = check_replay-accepted h c c k fresh in ground (arith, after.0, after.1)

-- Once `CheckReplay` has accepted a counter it refuses that counter for ever, whatever packets
-- arrive in between, from every window that is an array of 64 words.
pub check_replay-receive :
    (h : ReplayWindow) (c : ℕ) (cs : List ℕ)
    → IsWindow h.window
    → (check_replay h c).1 ≡ false
    → (check_replay (receive (check_replay h c).0 cs) c).1 ≡ true
check_replay-receive h c cs k fresh =
    Spent-check_replay _ c
      (receive-Spent _ c cs (check_replay-IsWindow h c k) (accepted-Spent h c k fresh))
