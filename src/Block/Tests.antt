-- ===== src/Block/Tests.antt =====
-- The block operations on a small memory.
use ece391_mp.Base.{◌+◌, ◌≡◌, refl, arith}
use ece391_mp.Base.Mem.{Mem}
use ece391_mp.Block.{memcpy, memmove}
use ece391_mp.Block.Laws.{filled, memcpy_lem, memmove_lem}

abbrev counting : Mem
counting a = a

memmove_overlaps : memmove counting 2 0 4 3 ≡ 1
unfolding memmove
memmove_overlaps = refl

memmove_lem_example : memmove counting 2 0 4 3 ≡ filled counting 2 4 (λ j. 0 + j) 3
memmove_lem_example = memmove_lem counting 2 0 4 3

memcpy_lem_example : memcpy counting 17 2 9 20 ≡ filled counting 17 9 (λ j. counting (2 + j)) 20
memcpy_lem_example = memcpy_lem counting 17 2 9 20 (omega arith)
