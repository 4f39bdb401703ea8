-- ===== src/Agent/Terminator.antt =====
-- AtlasAgent/src/atlas-agent.h: `terminator`. The state is the flag that the signal handler sets.
use atlas_system_agent.Base.{zero, suc, Bool, true, not}
use atlas_system_agent.Base.Int.{ℤ, pos, negsuc}

unfoldable pub kill : Bool → Bool
kill terminate = true

-- `wait_for`, with the value of `terminate` when the wait ends: false if killed, but a wait of no
-- time returns true.
unfoldable pub wait_for : ℤ → Bool → Bool
wait_for (pos zero) terminate = true
wait_for (pos (suc n)) terminate = not terminate
wait_for (negsuc n) terminate = true
