-- ===== src/Spdk/Tests.antt =====
-- Runs of the SPDK wrapper at concrete inputs, and its theorems there.
use max_embed.Prelude.{◌+◌, ◌*◌, ◌≤◌, ◌<◌, ◌≡◌, refl, [], ◌∷◌, ◌++◌, arith, replicate, some, none}
use max_embed.Spdk.{
  lba_size, command, accepted, no_memory, failed, submitted, fatal, waiting, submit_read,
  submit_write, queue_cnt, lba_number,
}
use max_embed.Spdk.Submit.{submit_read-replicate, command_bounds}

submit_read-replicate_example :
    (submit_read (replicate 2 no_memory ++ accepted ∷ []) 0 ≡ submitted 2)
    × (submit_read (replicate 2 no_memory ++ failed ∷ []) 0 ≡ fatal 2)
    × (submit_read (replicate 2 no_memory) 0 ≡ waiting 2)
submit_read-replicate_example = submit_read-replicate 2 0 []

command_bounds_example :
    let c = command 5000 7 0 1 in
    (5000 ≤ c.lba_count * lba_size) × (c.lba_count * lba_size < 5000 + lba_size) × (c.real_lba ≡ 7)
command_bounds_example = command_bounds 5000 7 0 1 (omega arith)

blocks_of_disk : lba_number lba_size ≡ some 78643200
unfolding lba_number
blocks_of_disk = refl

write_refused : submit_write 4096 3 0 0 failed ≡ none
unfolding submit_write
write_refused = refl

queues_of_three : queue_cnt 3 2 ≡ some 2
unfolding queue_cnt
queues_of_three = refl
