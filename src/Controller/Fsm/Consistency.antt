-- ===== src/Controller/Fsm/Consistency.antt =====
-- internal/controller/fsm.go: the metadata stays consistent under every command.
use distributed_messaging_sy.Common.{
  ℕ, ◌≡◌, Option, none, some, List, [], ◌∷◌, arith, nat_eq, bytes_Eq, Option-cases, inl, inr,
}
use distributed_messaging_sy.Controller.State.{key_Eq, ControllerState, new_controller_state, ok}
use distributed_messaging_sy.Controller.Assignment.Exact.{Result-cases}
use distributed_messaging_sy.Controller.Fsm.{
  Command, register_broker, unfence_broker, create_topic, update_partition, unknown_type,
  apply_command, RaftLog, apply_result, apply, apply_all,
}
use distributed_messaging_sy.Controller.Fsm.Invariant.{IsConsistent, IsConsistent-new}
use distributed_messaging_sy.Controller.Fsm.Brokers.{
  apply_register_broker-IsConsistent, apply_unfence_broker-IsConsistent,
}
use distributed_messaging_sy.Controller.Fsm.Topics.{
  apply_create_topic-IsConsistent, apply_update_partition-IsConsistent,
}

apply_command-IsConsistent :
    (s : ControllerState) (index : ℕ) (cmd : Command) (s' : ControllerState)
    → IsConsistent s
    → apply_command s index cmd ≡ ok s'
    → IsConsistent s'
unfolding apply_command
apply_command-IsConsistent s index (register_broker none) s' c h = absurd (ground arith)
apply_command-IsConsistent s index (register_broker (some cmd)) s' c h =
    apply_register_broker-IsConsistent s cmd index s' c h
apply_command-IsConsistent s index (unfence_broker none) s' c h = absurd (ground arith)
apply_command-IsConsistent s index (unfence_broker (some cmd)) s' c h =
    apply_unfence_broker-IsConsistent s cmd s' c h
apply_command-IsConsistent s index (create_topic none) s' c h = absurd (ground arith)
apply_command-IsConsistent s index (create_topic (some cmd)) s' c h =
    apply_create_topic-IsConsistent s cmd s' c h
apply_command-IsConsistent s index (update_partition none) s' c h = absurd (ground arith)
apply_command-IsConsistent s index (update_partition (some cmd)) s' c h =
    apply_update_partition-IsConsistent s cmd s' c h
apply_command-IsConsistent s index unknown_type s' c h = absurd (ground arith)

apply_result-IsConsistent :
    (s : ControllerState) (log : RaftLog) (s' : ControllerState)
    → IsConsistent s
    → apply_result s log ≡ ok s'
    → IsConsistent s'
unfolding apply_result
apply_result-IsConsistent s log s' c h = elim (Option-cases log.envelope) [
  | inl missing ↦ absurd (ground arith)
  | inr (env, found) ↦ apply_command-IsConsistent s log.index env.command s' c (ground arith)
]

-- Apply keeps the metadata consistent, whatever the log entry.
pub apply-IsConsistent :
    (s : ControllerState) (log : Option RaftLog) → IsConsistent s → IsConsistent (apply s log).0
unfolding apply
apply-IsConsistent s none c = c
apply-IsConsistent s (some log) c = elim (Result-cases (apply_result s log)) [
  | inl (s', p) ↦ rw p (apply_result-IsConsistent s log s' c p)
  | inr (e, p) ↦ rw p c
]

apply_all-IsConsistent_from :
    (s : ControllerState) (logs : List RaftLog) → IsConsistent s → IsConsistent (apply_all s logs)
unfolding apply_all
apply_all-IsConsistent_from s [] c = c
apply_all-IsConsistent_from s (log ∷ logs) c =
    apply_all-IsConsistent_from (apply s (some log)).0 logs (apply-IsConsistent s (some log) c)

-- Whatever log is replicated, well formed or not, a controller that started empty has consistent
-- metadata: each partition has a live leader in its ISR, an ISR of live registered replicas
-- without repetition, and a topic. In particular no broker of an ISR is ever fenced.
pub apply_all-IsConsistent :
    (logs : List RaftLog) → IsConsistent (apply_all new_controller_state logs)
apply_all-IsConsistent logs = apply_all-IsConsistent_from new_controller_state logs IsConsistent-new
