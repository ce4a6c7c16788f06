-- ===== src/Executor/Effect/Calls.antt =====
-- Actions that send no request, and the requests that run a command.
use aads.Prelude.{◌≡◌, refl, ◌∙◌, String, List, [], ◌∷◌}
use aads.Store.{Db}
use aads.Executor.Effect.{World, Call, get_facts, run_command, audit, change, mint}
use aads.Executor.Effect.Steps.{Frame, Stays}

abbrev pub SameCalls : World → World → Type 0
SameCalls u v = v.calls ≡ u.calls

pub SameCalls-Frame : Frame SameCalls
SameCalls-Frame = record { same = λ w. refl; then' = λ u v w a b. b ∙ a }

pub change-SameCalls : (f : Db → Db) → Stays SameCalls (change f)
unfolding change
change-SameCalls f = record { at = λ w. refl }

pub mint-SameCalls : Stays SameCalls mint
unfolding mint
mint-SameCalls = record { at = λ w. refl }

pub audit-SameCalls : (e p d r : String) → Stays SameCalls (audit e p d r)
unfolding audit
audit-SameCalls e p d r = change-SameCalls _

-- the requests that run a command, latest first
unfoldable pub commands : List Call → List Call
commands [] = []
commands (get_facts u ∷ calls) = commands calls
commands (run_command u r c i p ∷ calls) = run_command u r c i p ∷ commands calls
