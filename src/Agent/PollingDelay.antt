-- ===== src/Agent/PollingDelay.antt =====
-- AtlasAgent/src/atlas-agent.cpp: `initial_polling_delay`. The random draw from a range is a
-- parameter.
use atlas_system_agent.Base.{ℕ, ◌+◌, ◌-◌, ◌*◌, ◌/◌, ◌%◌, ◌≤◌, ltb, if◌then◌else◌, arith}

-- The epoch is in seconds.
unfoldable pub initial_polling_delay : (ℕ → ℕ → ℕ) → ℕ → ℕ
initial_polling_delay draw epoch =
    let step_boundary = epoch / 60 * 60 in
    let start_second = epoch - step_boundary in
    if ltb start_second 10
    then draw (10 - start_second) (50 - start_second)
    else if ltb 50 start_second
    then 60 - start_second + draw 10 50
    else 0

-- The delay is at most 59 seconds, and it never ends within ten seconds of a minute boundary.
pub initial_polling_delay_lem :
    (draw : ℕ → ℕ → ℕ) (epoch : ℕ)
    → ((a b : ℕ) → a ≤ b → (a ≤ draw a b) × (draw a b ≤ b))
    → let delay = initial_polling_delay draw epoch in
      (delay ≤ 59) × (10 ≤ (epoch + delay) % 60) × ((epoch + delay) % 60 ≤ 50)
unfolding initial_polling_delay
initial_polling_delay_lem draw epoch draws =
    let s = epoch - epoch / 60 * 60 in ground (arith, draws (10 - s) (50 - s), draws 10 50)
