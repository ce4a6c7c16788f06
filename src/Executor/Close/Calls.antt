-- ===== src/Executor/Close/Calls.antt =====
-- `pause_execution` and `finish_execution` of layer4-executor/src/executor.py, by the requests sent.
use aads.Prelude.{String, Option, none, some}
use aads.Python.{Fields}
use aads.Store.{Status, Execution}
use aads.Executor.Effect.Steps.{Stays, Stays-bind, Stays-gets, Stays-pure}
use aads.Executor.Effect.Calls.{
  SameCalls, SameCalls-Frame, change-SameCalls, mint-SameCalls, audit-SameCalls,
}
use aads.Executor.Close.{pause_execution, announce, finish_execution}

pub pause_execution-SameCalls :
    (execution_id plan_id drift : String)
    → Stays SameCalls (pause_execution execution_id plan_id drift)
unfolding pause_execution
pause_execution-SameCalls e p d =
    Stays-bind SameCalls-Frame _ _ mint-SameCalls
      λ id. Stays-bind SameCalls-Frame _ _ (change-SameCalls _) λ _. audit-SameCalls _ _ _ _

announce-SameCalls : (s : Status) (o : Option Execution) → Stays SameCalls (announce s o)
unfolding announce
announce-SameCalls s none = Stays-pure SameCalls-Frame _
announce-SameCalls s (some e) = audit-SameCalls _ _ _ _

pub finish_execution-SameCalls :
    (execution_id : String) (s : Status) (r : Fields)
    → Stays SameCalls (finish_execution execution_id s r)
unfolding finish_execution
finish_execution-SameCalls e s r =
    Stays-bind SameCalls-Frame _ _ (Stays-gets SameCalls-Frame _)
      λ o. Stays-bind SameCalls-Frame _ _ (change-SameCalls _) λ _. announce-SameCalls s o
