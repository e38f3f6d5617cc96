-- ===== src/Buffer/Tests.antt =====
-- Runs of buffer.cc's `buffer` on small inputs, and its theorems at concrete inputs.
use multithread_libevent_exa.Prelude.{
  ℕ, ◌<◌, ◌≡◌, refl, arith, List, [], ◌∷◌, some, length, replicate, length-replicate, add_size,
  sub_size, store,
}
use multithread_libevent_exa.Buffer.{
  Buffer, init, push_rest, fill_front, front?, add_chunk, split_last, data_at, gather, gather_round,
  gather_copy, contents_of, push, data_of, space, space_chunk, contents,
}
use multithread_libevent_exa.Buffer.Memory.{fill, new_chunk, room, used, skip}
use multithread_libevent_exa.Buffer.Valid.{Holds}
use multithread_libevent_exa.Buffer.Push.{push_lem}
use multithread_libevent_exa.Buffer.Space.{space_lem, space_chunk_lem, Offers}
use multithread_libevent_exa.Buffer.Refine.{
  Call, pushes, fills, drains, joins, reads, sizes, Reply, count, byte, pointer, done, spec_step,
  spec_run, run, run_refines,
}

-- `new` hands out zeroed blocks.
abbrev zeroes : ℕ → List ℕ
zeroes n = replicate n 0

length-zeroes : (n : ℕ) → length (zeroes n) ≡ n
length-zeroes n = length-replicate n 0

-- A buffer with chunks of two bytes.
abbrev narrow : Buffer
narrow = record { size = 0; default_chunk_size = 2; chunk_list = [] }

narrow-Holds : Holds narrow []
unfolding contents contents_of
narrow-Holds = record { valid = omega arith; held = refl }

-- Three bytes, in two chunks.
abbrev three : Buffer
three = (push zeroes (push zeroes narrow (1 ∷ [])).0 (2 ∷ 3 ∷ [])).0

three-Holds : Holds three (1 ∷ 2 ∷ 3 ∷ [])
three-Holds =
    (push_lem zeroes length-zeroes (push zeroes narrow (1 ∷ [])).0 (1 ∷ []) (2 ∷ 3 ∷ [])
      (push_lem zeroes length-zeroes narrow [] (1 ∷ []) narrow-Holds (omega arith)).0
      (omega arith)).0

-- `data` puts the two chunks together, and then there is one.
three_joined :
    data_of zeroes three 3
    ≡ some (
      record {
        size = 3;
        default_chunk_size = 2;
        chunk_list = record { p = 1 ∷ 2 ∷ 3 ∷ []; offset = 0; end = 3; cap = 3 } ∷ [];
      },
      some (1 ∷ 2 ∷ 3 ∷ []),
    )
unfolding push push_rest fill_front front? add_chunk split_last fill add_size sub_size new_chunk
    room used skip data_of data_at gather gather_round gather_copy store
three_joined = refl

abbrev calls : List Call
calls = pushes (7 ∷ 8 ∷ []) ∷ fills (9 ∷ []) ∷ drains 1 ∷ joins 2 ∷ reads 1 ∷ sizes ∷ drains 5 ∷ []

abbrev replies : List Reply
replies = count 2 ∷ done ∷ count 1 ∷ pointer (some (8 ∷ 9 ∷ [])) ∷ byte 9 ∷ count 2 ∷ count 2 ∷ []

run_refines_example : run zeroes init calls ≡ some replies
unfolding spec_run spec_step
run_refines_example = run_refines zeroes length-zeroes calls (omega arith)

space_chunk_lem_example :
    Holds (space_chunk zeroes three).0 (1 ∷ 2 ∷ 3 ∷ [])
    × Offers (space_chunk zeroes three).0 (space_chunk zeroes three).2 (space_chunk zeroes three).1
    × (0 < (space_chunk zeroes three).2)
space_chunk_lem_example = space_chunk_lem zeroes length-zeroes three-Holds

space_lem_example : let r = space zeroes three 2 in Holds r.0 (1 ∷ 2 ∷ 3 ∷ []) × Offers r.0 2 r.1
space_lem_example = space_lem zeroes length-zeroes three-Holds 2 (omega arith)
