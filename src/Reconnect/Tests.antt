-- ===== src/Reconnect/Tests.antt =====
-- Gaps of an agent with a ceiling of five seconds, and the end of one without.
use aether_mesh.Base.{ℕ, ◌≡◌, refl, List, [], ◌∷◌, some, get_elem?, arith}
use aether_mesh.Reconnect.{
  Outcome, closed, failed, returned, first_delay, reconnect_from, with_reconnect,
}
use aether_mesh.Reconnect.Gaps.{gaps, gap_after, with_reconnect-gaps}

abbrev five_seconds : ℕ
five_seconds = 5_000_000_000

abbrev outcomes : List Outcome
outcomes = failed ∷ closed ∷ failed ∷ closed ∷ []

up_to_the_ceiling :
    gaps (with_reconnect five_seconds outcomes)
    ≡ 1_000_000_000 ∷ 2_000_000_000 ∷ 4_000_000_000 ∷ 5_000_000_000 ∷ []
unfolding with_reconnect reconnect_from
up_to_the_ceiling = refl

without_a_ceiling : with_reconnect 0 outcomes ≡ returned failed
unfolding with_reconnect reconnect_from
without_a_ceiling = refl

with_reconnect-gaps_example :
    get_elem? (gaps (with_reconnect five_seconds outcomes)) 3
    ≡ some (gap_after five_seconds first_delay 3)
with_reconnect-gaps_example =
    with_reconnect-gaps five_seconds outcomes 3 (λ h. omega arith) (omega arith)
