-- ===== src/Console.antt =====
-- Net.cc and ExtNet/Gate/Gate.cpp: the loop of `main` over what is typed, which serves until "exit". `std::cin` is
-- what is left of the input, and whether its state is still good. What is printed, and the sleep, which
-- lasts no time at all, are left out.
pub mod Lines
mod Tests
use multithread_libevent_exa.Prelude.{
  ℕ, zero, suc, Bool, true, false, List, [], ◌∷◌, Option, none, some, ◌==◌, ◌&&◌, if◌then◌else◌,
}
use multithread_libevent_exa.FdBridge.{Run, returns, fault, out_of_fuel}
use multithread_libevent_exa.Listener.{Listener}
use multithread_libevent_exa.Listener.Net.{Net}
use multithread_libevent_exa.Service.Start.{set_addr_and_port, on_start, stop_listening}

pub record Cin : Type 0 where
  pub chars : List ℕ
  pub good : Bool

abbrev pub newline : ℕ
newline = 10

-- How many characters fit `char cmdbuf[128]` before the zero.
abbrev pub line_room : ℕ
line_room = 127

-- `std::cin.getline` with `room` characters to go: those that it stores, and what it leaves. The end of the
-- input, and a line that does not fit, leave a state that is not good.
pub scan : ℕ → List ℕ → List ℕ × Cin
scan room [] = ([], record { chars = []; good = false })
scan zero (c ∷ cs) =
    if c == newline
    then ([], record { chars = cs; good = true })
    else ([], record { chars = c ∷ cs; good = false })
scan (suc room) (c ∷ cs) =
    let (line, cin) = scan room cs in
    if c == newline then ([], record { chars = cs; good = true }) else (c ∷ line, cin)

-- In a state that is not good it stores nothing.
unfoldable pub get_line : Cin → List ℕ × Cin
get_line cin = if cin.good then scan line_room cin.chars else ([], cin)

-- `strcmp(cmdbuf, "exit") == 0`, with zeros behind the characters.
unfoldable pub is_end : List ℕ → Bool
is_end [] = true
is_end (c ∷ cs) = c == 0

unfoldable pub is_exit : List ℕ → Bool
is_exit (e ∷ (x ∷ (i ∷ (t ∷ rest)))) =
    ((e == 101) && (x == 120)) && (((i == 105) && (t == 116)) && is_end rest)
is_exit line = false

-- The loop of `main`, on fuel: the input as it is behind "exit".
unfoldable pub after_line : (Cin → Run Cin) → List ℕ × Cin → Run Cin
after_line go (line, cin) = elim (is_exit line) [ true ↦ returns cin | false ↦ go cin ]

pub read_commands : ℕ → Cin → Run Cin
read_commands zero cin = out_of_fuel
read_commands (suc fuel) cin = after_line (read_commands fuel) (get_line cin)
