-- ===== src/Iso20022/Tests.antt =====
-- The theorems on the longest run: pending, accepted, in process, in part, completed.
use swift.Prelude.{◌≤◌, refl}
use swift.Iso20022.States.{
  pdng, accp, acsp, part, accc, is_valid_transition, valid_transitions, Run, here, then, runs_end,
}

longest : Run 4 pdng accc
unfolding is_valid_transition valid_transitions
longest = then {t = accp} refl (then {t = acsp} refl (then {t = part} refl (then refl here)))

runs_end_example : 4 ≤ 4
runs_end_example = runs_end 4 pdng accc longest
