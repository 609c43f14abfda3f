-- ===== src/Wire/Fields.antt =====
-- What the writers of one device id and of one range emit.
use coriolis_snapshot_agent.Types.{DevId, Range}
use coriolis_snapshot_agent.Wire.{put_dev_id, put_range}
use coriolis_snapshot_agent.Wire.Buffer.{Emits, Emits-write, Emits-seq}
use coriolis_snapshot_agent.Wire.Reading.{dev_id_bytes, range_bytes}

pub Emits-put_dev_id : (d : DevId) → Emits (put_dev_id d) (dev_id_bytes d)
unfolding put_dev_id
Emits-put_dev_id d = search (Emits-seq, Emits-write)

pub Emits-put_range : (r : Range) → Emits (put_range r) (range_bytes r)
unfolding put_range
Emits-put_range r = search (Emits-seq, Emits-write)
