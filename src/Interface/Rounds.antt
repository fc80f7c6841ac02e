-- ===== src/Interface/Rounds.antt =====
-- interface.go: the loop of readFromTUN and readFromUDP, over rounds.
-- What a loop meets in each round is a function of the round; the other goroutines change the state
-- between two rounds.
use neth.Base.{
  ℕ, suc, zero, ◌≡◌, refl, arith, Bool, true, false, List, [], ◌++◌, Option, none, some,
  if◌then◌else◌,
}
use neth.Interface.{Effect}

-- A round: whether the context is done at its start, what the read gives, if it gives anything, and
-- whether the context is done after a read that failed.
pub record Round (A : Type 0) : Type 0 where
  pub done : Bool
  pub read : Option A
  pub done_after : Bool

-- What was sent first goes in front.
abbrev pub prepend :
    {S : Type 0} → List Effect → Option (S × List Effect) → Option (S × List Effect)
prepend sent none = none
prepend sent (some (s, more)) = some (s, sent ++ more)

-- The loop that both goroutines have, on fuel; `none` means that the fuel ran out.
module _ {A S : Type 0} (rounds : ℕ → Round A) (others : ℕ → S → S)
    (handle : ℕ → A → S → S × List Effect) where
  unfoldable pub read_loop : ℕ → ℕ → S → Option (S × List Effect)
  read_loop zero k s = none
  read_loop (suc fuel) k s =
      let waiting = read_loop fuel (suc k) (others k s) in
      let go_on : A → Option (S × List Effect) =
        λ a. let (s', sent) = handle k a s in prepend sent (read_loop fuel (suc k) (others k s')) in
      if (rounds k).done then some (s, []) else elim ((rounds k).read) [
        | none ↦ if (rounds k).done_after then some (s, []) else waiting
        | some a ↦ go_on a
      ]

  pub read_loop-done :
      (fuel k : ℕ) (s : S) → (rounds k).done ≡ true → read_loop (suc fuel) k s ≡ some (s, [])
  unfolding read_loop
  read_loop-done fuel k s h = ground (arith, h)

  pub read_loop-failed :
      (fuel k : ℕ) (s : S)
      → (rounds k).done ≡ false
      → (rounds k).read ≡ none
      → (rounds k).done_after ≡ false
      → read_loop (suc fuel) k s ≡ read_loop fuel (suc k) (others k s)
  unfolding read_loop
  read_loop-failed fuel k s running failed not_after =
      rw (read_loop, running) (rw failed (rw not_after refl))

  pub read_loop-got :
      (fuel k : ℕ) (s : S) (a : A)
      → (rounds k).done ≡ false
      → (rounds k).read ≡ some a
      → read_loop (suc fuel) k s
        ≡ prepend (handle k a s).1 (read_loop fuel (suc k) (others k (handle k a s).0))
  unfolding read_loop
  read_loop-got fuel k s a running got = rw (read_loop, running) (rw got refl)
