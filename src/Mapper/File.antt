-- ===== src/Mapper/File.antt =====
-- client/src/mapper.cpp, the constructor's first lines: the tables of a mapping file, where they
-- stand in its words.
use max_embed.Prelude.{ℕ, ◌+◌, List, take, drop}
use max_embed.Words.{read_u64}
use max_embed.Mapper.{MappingFile}

-- The pointers into the file have no end; here each table ends where the next one starts.
unfoldable pub open_mapping : List ℕ → MappingFile
open_mapping words =
    let item_cnt = read_u64 words 0 in
    let all_blocks_cnt = read_u64 words 2 in
    record {
      item_cnt = item_cnt;
      all_blocks_cnt = all_blocks_cnt;
      block_idx = take item_cnt (drop 4 words);
      block_cnt = take item_cnt (drop (4 + item_cnt) words);
      all_blocks = take all_blocks_cnt (drop (4 + item_cnt + item_cnt) words);
    }
