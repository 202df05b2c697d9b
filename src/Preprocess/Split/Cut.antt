-- ===== src/Preprocess/Split/Cut.antt =====
-- partition/preprocess/criteoTB_script/split_train_test.cpp: the two files, without is_reindex.
use max_embed.Prelude.{List}
