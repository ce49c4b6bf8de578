-- ===== src/Tests/Loops.antt =====
-- src/util.c and src/server.c on concrete runs.
use bytekv.Prelude.{◌≡◌, refl, List, [], ◌∷◌}
use bytekv.Util.{
  Call, moved, interrupted, failed, all_moved, at_end, write_loop, write_all, read_loop, read_exact,
  error, write_all_lem,
}

-- two bytes, an interrupt, and the rest
abbrev calls : List Call
calls = moved 2 ∷ interrupted ∷ moved 8 ∷ []

write_run : write_all calls (1 ∷ 2 ∷ 3 ∷ []) (9 ∷ []) ≡ (all_moved, 9 ∷ 1 ∷ 2 ∷ 3 ∷ [])
unfolding write_all write_loop
write_run = refl

read_run : read_exact calls (1 ∷ 2 ∷ []) 3 ≡ (at_end, 1 ∷ 2 ∷ [])
unfolding read_exact read_loop
read_run = refl

-- two bytes, an interrupt, and an error
write_all_lem_example :
    let (end, file) =
      write_all (moved 2 ∷ interrupted ∷ failed ∷ moved 8 ∷ []) (1 ∷ 2 ∷ 3 ∷ []) (9 ∷ []) in
    (end ≡ error) × (file ≡ 9 ∷ 1 ∷ 2 ∷ [])
write_all_lem_example =
    write_all_lem (moved 2 ∷ interrupted ∷ failed ∷ moved 8 ∷ []) (1 ∷ 2 ∷ 3 ∷ []) (9 ∷ [])
