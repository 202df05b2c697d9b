-- ===== src/Spdk/Submit.antt =====
-- client/src/spdk_wrapper.cpp, SubmitReadCommand: the retry loop and the range of a command.
use max_embed.Prelude.{
  ℕ, zero, suc, ◌+◌, ◌*◌, ◌^◌, ◌≤◌, ◌<◌, ◌≡◌, ap, ◌∙◌, List, ◌∷◌, ◌++◌, arith, replicate,
}
use max_embed.Spdk.{
  lba_size, command, Answer, accepted, no_memory, failed, submitted, fatal, waiting, submit_read,
}

-- While SPDK is out of memory the loop polls, once for each such answer; it ends with the first other
-- answer, and only -ENOMEM forever keeps it from ending.
pub submit_read-replicate :
    (n polls : ℕ) (rest : List Answer)
    → (submit_read (replicate n no_memory ++ accepted ∷ rest) polls ≡ submitted (polls + n))
      × (submit_read (replicate n no_memory ++ failed ∷ rest) polls ≡ fatal (polls + n))
      × (submit_read (replicate n no_memory) polls ≡ waiting (polls + n))
unfolding submit_read
submit_read-replicate zero polls rest =
    let e : polls ≡ polls + 0 = omega arith in (ap submitted e, ap fatal e, ap waiting e)
submit_read-replicate (suc n) polls rest =
    let e : polls + 1 + n ≡ polls + suc n = omega arith in
    let (a, f, w) = submit_read-replicate n (polls + 1) rest in
    (a ∙ ap submitted e, f ∙ ap fatal e, w ∙ ap waiting e)

-- The blocks of a command for fewer than 2 ^ 43 bytes hold the bytes, with less than a block to spare,
-- and start at the block that was asked for.
pub command_bounds :
    (bytes lba qp_id ssd_id : ℕ)
    → bytes < 2 ^ 43
    → let c = command bytes lba qp_id ssd_id in
      (bytes ≤ c.lba_count * lba_size)
      × (c.lba_count * lba_size < bytes + lba_size)
      × (c.real_lba ≡ lba)
unfolding command
command_bounds bytes lba qp_id ssd_id h = (omega arith, omega arith, omega arith)
