-- ===== src/Log/Samples.antt =====
-- internal/log: a log of one segment of two batches, for runs at concrete bytes.
use distributed_messaging_sy.Common.{refl, false, [], ◌∷◌}
use distributed_messaging_sy.Segment.Samples.{pair_batch, single_batch, segment, segment-Holds}
use distributed_messaging_sy.Log.State.{LogConfig, Log, oldest_offset}
use distributed_messaging_sy.Log.Joined.{IsLog}

abbrev pub config : LogConfig
config = record {
  max_segment_bytes = 1000;
  max_index_bytes = 12;
  index_interval_bytes = 50;
  max_message_bytes = 100;
}

abbrev pub log : Log
log = record {
  config = config;
  active = record {
    segment = segment;
    index = record { mmap = []; base_offset = 0; size = 12; max_bytes = 120 };
    bytes_since_index = 0;
  };
  sealed = [];
  epoch_entries = [];
  epoch_checkpoint = [];
  epoch_checkpoint_dirty = false;
}

pub log-IsLog : IsLog log
unfolding oldest_offset
log-IsLog = record { joined = refl; active = (pair_batch ∷ single_batch ∷ [], segment-Holds) }
