-- ===== src/Paging/Tests.antt =====
-- The paging structures at concrete addresses.
use ece391_mp.Base.{ℕ, ◌≤◌, ◌≡◌, arith}
use ece391_mp.Paging.{Tables, change_process, user_process_index}
use ece391_mp.Paging.Frames.{frame, present, writable, user, large, process_isolation}

abbrev blank : Tables
blank = record { page_directory = λ i. 0; vid_page_table = λ i. 0; user_vid_page_table = λ i. 0 }

process_isolation_example :
    let e = (change_process 1 blank).page_directory user_process_index in
    let e' = (change_process 4 blank).page_directory user_process_index in
    (frame e ≡ frame e' → ◌≡◌ {A = ℕ} 1 4)
    × (2 ≤ frame e)
    × (present e ≡ 1)
    × (writable e ≡ 1)
    × (user e ≡ 1)
    × (large e ≡ 1)
process_isolation_example = process_isolation 1 4 blank blank (omega arith) (omega arith)
