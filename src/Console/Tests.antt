-- ===== src/Console/Tests.antt =====
-- "hi", typed before "exit", and without it.
use multithread_libevent_exa.Prelude.{ℕ, ◌≡◌, refl, arith, false, List, [], ◌∷◌, ◌++◌, All}
use multithread_libevent_exa.FdBridge.{returns, out_of_fuel}
use multithread_libevent_exa.Console.{newline, is_exit, read_commands}
use multithread_libevent_exa.Console.Lines.{
  IsOther, lines_of, reads, exit_line, read_commands-never, read_commands-exit,
}

abbrev hi : List (List ℕ)
hi = (104 ∷ 105 ∷ []) ∷ []

hi-IsOther : All IsOther hi
unfolding is_exit
hi-IsOther = (((refl, (refl, tt)), omega arith, refl), tt)

-- The input ends behind "ex".
abbrev begun : List ℕ
begun = 101 ∷ 120 ∷ []

begun-other : is_exit begun ≡ false
unfolding is_exit
begun-other = refl

read_commands-never_example : read_commands 9 (reads (lines_of hi ++ begun)) ≡ out_of_fuel
read_commands-never_example =
    read_commands-never 9 hi begun hi-IsOther (refl, (refl, tt)) begun-other

read_commands-exit_example :
    read_commands 5 (reads (lines_of hi ++ (exit_line ++ (newline ∷ begun))))
    ≡ returns (reads begun)
read_commands-exit_example = read_commands-exit 5 hi begun hi-IsOther (omega arith)
