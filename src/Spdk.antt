-- ===== src/Spdk.antt =====
-- client/src/spdk_wrapper.cpp: the commands that SpdkWrapperImplementation submits. SPDK itself is not
-- here: what it answers to one call after the other is a list.
pub mod Submit
mod Tests
use max_embed.Prelude.{
  ℕ, ◌+◌, ◌-◌, ◌*◌, ◌/◌, ◌%◌, ◌^◌, List, [], ◌∷◌, Option, none, some, ◌==◌, leb, if◌then◌else◌,
}

-- kLBASize_ and LBASize_.
abbrev pub lba_size : ℕ
lba_size = 4096

-- What spdk_nvme_ns_cmd_read is called with; `queue` stands for qpair[qp_id].
pub record Command : Type 0 where
  pub ssd : ℕ
  pub queue : ℕ
  pub real_lba : ℕ
  pub lba_count : ℕ

unfoldable pub command : ℕ → ℕ → ℕ → ℕ → Command
command bytes lba qp_id ssd_id = record {
  ssd = ssd_id;
  queue = qp_id;
  real_lba = lba * (lba_size / lba_size);
  lba_count = (bytes + lba_size - 1) / lba_size % 2 ^ 32;
}

-- The return values 0, -ENOMEM and any other.
pub data Answer : Type 0 where
  accepted no_memory failed : Answer

-- How SubmitReadCommand ends, with the number of calls of PollCompleteQueue; `waiting` where the
-- answers end before the loop does.
pub data Outcome : Type 0 where
  submitted fatal waiting : ℕ → Outcome

unfoldable pub submit_read : List Answer → ℕ → Outcome
submit_read [] polls = waiting polls
submit_read (accepted ∷ answers) polls = submitted polls
submit_read (no_memory ∷ answers) polls = submit_read answers (polls + 1)
submit_read (failed ∷ answers) polls = fatal polls

-- GetLBANumber; `none` is the failed CHECK.
unfoldable pub lba_number : ℕ → Option ℕ
lba_number size =
    let capacity = 300 * 1024 * 1024 * 1024 in
    if capacity % size == 0 then some (capacity / size) else none

-- SubmitWriteCommand: the command, and what it returns for SPDK's answer; `none` is the failed CHECK.
unfoldable pub submit_write : ℕ → ℕ → ℕ → ℕ → Answer → Option (Command × Answer)
submit_write bytes lba qp_id ssd_id accepted = some (command bytes lba qp_id ssd_id, accepted)
submit_write bytes lba qp_id ssd_id no_memory = some (command bytes lba qp_id ssd_id, no_memory)
submit_write bytes lba qp_id ssd_id failed = none

abbrev pub max_qpair_num : ℕ
max_qpair_num = 128

-- The constructor's queue_cnt, for at least one thread; `none` is the failed CHECK.
unfoldable pub queue_cnt : ℕ → ℕ → Option ℕ
queue_cnt thread_cnt ssd_num =
    let cnt = (thread_cnt - 1) / ssd_num + 1 in if leb cnt max_qpair_num then some cnt else none
