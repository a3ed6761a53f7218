-- ===== src/Controller/Examples.antt =====
-- internal/controller/fsm.go: a log of commands, and what the theorems give for it.
use distributed_messaging_sy.Common.{
  ℕ, ◌≡◌, ◌↔◌, refl, subst, Bool, true, false, some, List, [], ◌∷◌, arith, lookup, insert, contains,
  nat_eq,
}
use distributed_messaging_sy.Controller.State.{
  BrokerEndpoint, BrokerInfo, PartitionState, ControllerState, new_controller_state,
  RegisterBrokerCommand, UnfenceBrokerCommand, CreateTopicCommand, UpdatePartitionCommand, ok, err,
  stale_broker_epoch,
}
use distributed_messaging_sy.Controller.Endpoints.{
  normalize_endpoints, to_upper, trim_space, trim_right, trim_left, is_space, upper,
}
use distributed_messaging_sy.Controller.Assignment.{validate_partition_spec}
use distributed_messaging_sy.Controller.Assignment.Exact.{IsAssignment, validate_partition_spec_iff}
use distributed_messaging_sy.Controller.Fsm.{
  write_broker, has_topic, int32_bound, register_broker, unfence_broker, create_topic,
  update_partition, RaftLog, apply_all, apply_create_topic, apply_register_broker,
  apply_unfence_broker, apply_update_partition, updated_partition,
}
use distributed_messaging_sy.Controller.Fsm.Invariant.{IsConsistent}
use distributed_messaging_sy.Controller.Fsm.Consistency.{apply_all-IsConsistent}
use distributed_messaging_sy.Controller.Fsm.Epochs.{
  IsUpdate, apply_update_partition-IsUpdate, apply_register_broker_fences,
}
use distributed_messaging_sy.Controller.Snapshot.{
  SnapshotData, each, has_partition, partition_count, has_all, restore,
}
use distributed_messaging_sy.Controller.Snapshot.Restored.{restore-IsConsistent}

abbrev endpoint : BrokerEndpoint
endpoint = record { name = 80 ∷ []; host = 104 ∷ []; port = 9092; security_protocol = 0 }

-- The broker `id` by the process with the one-byte incarnation id `incarnation`.
abbrev joins : ℕ → ℕ → RegisterBrokerCommand
joins id incarnation = record {
  id = id;
  incarnation_id = incarnation ∷ [];
  endpoints = endpoint ∷ [];
}

abbrev topic : CreateTopicCommand
topic = record {
  topic = 116 ∷ [];
  partitions =
      record { partition = 0; leader_broker_id = 1; replicas = 1 ∷ 2 ∷ []; isr = 1 ∷ 2 ∷ [] } ∷ [];
}

abbrev update : ℕ → List ℕ → UpdatePartitionCommand
update leader isr = record {
  topic = 116 ∷ [];
  partition = 0;
  expected_partition_epoch = 0;
  leader_broker_id = leader;
  replicas = 1 ∷ 2 ∷ [];
  isr = isr;
  allow_unclean_election = false;
}

abbrev setup : List RaftLog
setup =
    record {
      index = 1;
      envelope = some (record { version = 1; command = register_broker (some (joins 1 7)) });
    }
    ∷ record {
      index = 2;
      envelope = some (record { version = 1; command = register_broker (some (joins 2 8)) });
    }
    ∷ record {
      index = 3;
      envelope = some (record {
        version = 1;
        command = unfence_broker (some (record { broker_id = 1; broker_epoch = 1 }));
      });
    }
    ∷ record {
      index = 4;
      envelope = some (record {
        version = 1;
        command = unfence_broker (some (record { broker_id = 2; broker_epoch = 2 }));
      });
    }
    ∷ record {
      index = 5;
      envelope = some (record { version = 1; command = create_topic (some topic) });
    }
    ∷ []

abbrev broker : ℕ → ℕ → ℕ → Bool → BrokerInfo
broker id incarnation epoch fenced = record {
  id = id;
  incarnation_id = incarnation ∷ [];
  broker_epoch = epoch;
  endpoints = endpoint ∷ [];
  fenced = fenced;
}

-- The state behind `setup`.
abbrev ready : ControllerState
ready = record {
  brokers = (1, broker 1 7 1 false) ∷ (2, broker 2 8 2 false) ∷ [];
  topics = (116 ∷ [], record { name = 116 ∷ [] }) ∷ [];
  partitions =
      (
        record { topic = 116 ∷ []; partition = 0 },
        record {
          leader_broker_id = 1;
          leader_epoch = 0;
          partition_epoch = 0;
          replicas = 1 ∷ 2 ∷ [];
          isr = 1 ∷ 2 ∷ [];
        },
      )
      ∷ [];
}

setup_ready : apply_all new_controller_state setup ≡ ready
unfolding apply_all new_controller_state apply_create_topic lookup apply_unfence_broker
    apply_register_broker normalize_endpoints to_upper trim_space trim_right trim_left is_space
    contains insert validate_partition_spec upper
setup_ready = refl

apply_all-IsConsistent_example : IsConsistent (apply_all new_controller_state setup)
apply_all-IsConsistent_example = apply_all-IsConsistent setup

ready-IsConsistent : IsConsistent ready
ready-IsConsistent = subst IsConsistent setup_ready (apply_all-IsConsistent setup)

abbrev election : RaftLog
election = record {
  index = 6;
  envelope = some (record { version = 1; command = update_partition (some (update 2 (2 ∷ []))) });
}

validate_partition_spec_iff_example :
    (validate_partition_spec ready.brokers 1 (1 ∷ 2 ∷ []) (1 ∷ []) ≡ ok tt)
    ↔ IsAssignment ready.brokers 1 (1 ∷ 2 ∷ []) (1 ∷ [])
validate_partition_spec_iff_example =
    validate_partition_spec_iff ready.brokers 1 (1 ∷ 2 ∷ []) (1 ∷ [])

-- Broker 2 takes the partition over.
abbrev elected : ControllerState
elected = record ready {
  partitions =
      (
        record { topic = 116 ∷ []; partition = 0 },
        record {
          leader_broker_id = 2;
          leader_epoch = 1;
          partition_epoch = 1;
          replicas = 1 ∷ 2 ∷ [];
          isr = 2 ∷ [];
        },
      )
      ∷ [];
}

elects : apply_update_partition ready (update 2 (2 ∷ [])) ≡ ok elected
unfolding apply_update_partition lookup validate_partition_spec contains insert
elects = refl

apply_update_partition-IsUpdate_example :
    (old : PartitionState) × IsUpdate ready elected
      (update 2 (2 ∷ []))
      old
      (updated_partition (update 2 (2 ∷ [])) old)
apply_update_partition-IsUpdate_example =
    apply_update_partition-IsUpdate ready (update 2 (2 ∷ [])) elected elects

-- A fenced broker 1, and its successor with another incarnation.
abbrev one_fenced : ControllerState
one_fenced = record { brokers = (1, broker 1 7 1 true) ∷ []; topics = []; partitions = [] }

abbrev succeeded : ControllerState
succeeded = record { brokers = (1, broker 1 9 5 true) ∷ []; topics = []; partitions = [] }

broker_1 : lookup 1 one_fenced.brokers ≡ some (broker 1 7 1 true)
unfolding lookup
broker_1 = refl

succeeds : apply_register_broker one_fenced (joins 1 9) 5 ≡ ok succeeded
unfolding apply_register_broker normalize_endpoints to_upper trim_space trim_right trim_left
    is_space contains lookup insert upper
succeeds = refl

apply_register_broker_fences_example :
    (true ≡ true)
    × (apply_unfence_broker succeeded (record { broker_id = 1; broker_epoch = 1 })
        ≡ err stale_broker_epoch)
apply_register_broker_fences_example =
    apply_register_broker_fences one_fenced succeeded (joins 1 9) 5 (broker 1 7 1 true) broker_1
      refl (omega arith) succeeds

abbrev unfence : UnfenceBrokerCommand
unfence = record { broker_id = 1; broker_epoch = 1 }

-- A snapshot of the topic with its one partition.
abbrev saved : SnapshotData
saved = record {
  version = 2;
  brokers = broker 1 7 1 false ∷ broker 2 8 2 false ∷ [];
  topics = (116 ∷ []) ∷ [];
  partitions =
      record {
        topic = 116 ∷ [];
        partition = 0;
        leader_broker_id = 2;
        leader_epoch = 1;
        partition_epoch = 1;
        replicas = 1 ∷ 2 ∷ [];
        isr = 2 ∷ [];
      }
      ∷ [];
}

restores : (restore ready (some saved)).0 ≡ elected
unfolding restore each normalize_endpoints to_upper trim_space trim_right trim_left is_space
    contains lookup insert upper validate_partition_spec new_controller_state write_broker has_topic
    has_partition partition_count has_all int32_bound
restores = refl

restore-IsConsistent_example : IsConsistent (restore ready (some saved)).0
restore-IsConsistent_example = restore-IsConsistent ready (some saved) ready-IsConsistent
