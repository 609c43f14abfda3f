-- ===== src/Watcher/Messages.antt =====
-- worker/common/messages.go: what a watcher tells the manager.
use coriolis_snapshot_agent.Common.{ℕ, List, String}
use coriolis_snapshot_agent.Errors.{Error}

pub data Message : Type 0 where
  -- the snap store, the path and the size of the file, and the fill status
  add_file : List ℕ → String → ℕ → ℕ → Message
  deleted : List ℕ → Message
  overflowed : List ℕ → Error → Message
  failed : List ℕ → Error → Message

-- The snap store that a message is about.
abbrev pub about : Message → List ℕ
about (add_file id path size fill) = id
about (deleted id) = id
about (overflowed id e) = id
about (failed id e) = id
