-- ===== src/Reconnect/Gaps.antt =====
-- The gaps between the attempts.
use aether_mesh.Base.{
  ℕ, zero, suc, ◌*◌, ◌<◌, ◌≡◌, ◌≢◌, refl, ap, ◌∙◌, ◌==◌, min, false, List, [], ◌∷◌, some, length,
  get_elem?, arith,
}
use aether_mesh.Reconnect.{
  Outcome, Run, returned, slept, trying, first_delay, reconnect_from, with_reconnect,
}

abbrev pub gaps : Run → List ℕ
gaps (returned outcome) = []
gaps (slept gap rest) = gap ∷ gaps rest
gaps trying = []

-- Doubled so many times.
abbrev pub doubled : ℕ → ℕ → ℕ
doubled zero d = d
doubled (suc k) d = doubled k d * 2

-- The first gap is the first delay; each later one is twice the one before, up to the ceiling.
abbrev pub gap_after : ℕ → ℕ → ℕ → ℕ
gap_after ceiling delay zero = delay
gap_after ceiling delay (suc k) = min (doubled (suc k) delay) ceiling

doubled-shift : (k d : ℕ) → doubled k (d * 2) ≡ doubled (suc k) d
doubled-shift zero d = refl
doubled-shift (suc k) d = ap (λ (n : ℕ). n * 2) (doubled-shift k d)

-- Doubling what was cut at the ceiling, and cutting again.
min-doubled :
    (k d ceiling : ℕ)
    → min (doubled (suc k) (min d ceiling)) ceiling ≡ min (doubled (suc k) d) ceiling
min-doubled zero d ceiling = omega arith
min-doubled (suc k) d ceiling = omega (arith, min-doubled k d ceiling)

gap_after-next :
    (ceiling delay k : ℕ)
    → gap_after ceiling (min (delay * 2) ceiling) k ≡ gap_after ceiling delay (suc k)
gap_after-next ceiling delay zero = refl
gap_after-next ceiling delay (suc k) =
    min-doubled k (delay * 2) ceiling ∙ ap (λ (n : ℕ). min n ceiling) (doubled-shift (suc k) delay)

reconnect_from-gaps :
    (ceiling delay : ℕ) (outcomes : List Outcome) (k : ℕ)
    → ceiling ≢ 0
    → k < length outcomes
    → get_elem? (gaps (reconnect_from ceiling delay outcomes)) k ≡ some (gap_after ceiling delay k)
unfolding reconnect_from
reconnect_from-gaps ceiling delay [] k some_ceiling h = absurd (omega arith)
reconnect_from-gaps ceiling delay (outcome ∷ later) zero some_ceiling h =
    let goes_on : (ceiling == 0) ≡ false = ground arith in rw goes_on refl
reconnect_from-gaps ceiling delay (outcome ∷ later) (suc k) some_ceiling h =
    let goes_on : (ceiling == 0) ≡ false = ground arith in
    rw goes_on (
      reconnect_from-gaps ceiling (min (delay * 2) ceiling) later k some_ceiling (omega arith)
      ∙ ap some (gap_after-next ceiling delay k))

-- With a ceiling, the gap behind the attempt with the index k is a second where k is zero, and a
-- second doubled k times, or the ceiling where that is less, otherwise: it depends on how many
-- attempts there were before, and not on whether they failed or held a connection for long.
pub with_reconnect-gaps :
    (ceiling : ℕ) (outcomes : List Outcome) (k : ℕ)
    → ceiling ≢ 0
    → k < length outcomes
    → get_elem? (gaps (with_reconnect ceiling outcomes)) k ≡ some (gap_after ceiling first_delay k)
unfolding with_reconnect
with_reconnect-gaps ceiling outcomes k some_ceiling h =
    reconnect_from-gaps ceiling first_delay outcomes k some_ceiling h
