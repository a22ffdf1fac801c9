-- ===== src/Reconnect.antt =====
-- crates/aether-agent/src/reconnect.rs: an agent that reconnects to its controller. The attempts
-- are given by what each of them ends with, and so are finitely many; durations are nanoseconds,
-- none so long that doubling it leaves the range of `Duration`.
mod Gaps
mod Tests
use aether_mesh.Base.{ℕ, ◌*◌, ◌==◌, min, if◌then◌else◌, List, [], ◌∷◌}

abbrev pub first_delay : ℕ
first_delay = 1_000_000_000

-- How an attempt ends.
pub data Outcome : Type 0 where
  closed failed : Outcome

-- The run so far: it returned with the outcome of an attempt, or it sleeps for a gap and goes on,
-- up to the attempt that has not ended.
pub data Run : Type 0 where
  returned : Outcome → Run
  slept : (gap : ℕ) → Run → Run
  trying : Run

-- The loop of `with_reconnect`.
unfoldable pub reconnect_from : ℕ → ℕ → List Outcome → Run
reconnect_from ceiling delay [] = trying
reconnect_from ceiling delay (outcome ∷ later) =
    let rest = slept delay (reconnect_from ceiling (min (delay * 2) ceiling) later) in
    if ceiling == 0 then returned outcome else rest

unfoldable pub with_reconnect : ℕ → List Outcome → Run
with_reconnect ceiling outcomes = reconnect_from ceiling first_delay outcomes
