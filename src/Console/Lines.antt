-- ===== src/Console/Lines.antt =====
-- Net.cc and Gate.cpp: the loop over the lines that are typed.
use multithread_libevent_exa.Prelude.{
  ℕ, zero, suc, ◌<◌, ◌≤◌, ◌≡◌, refl, ap, ◌∙◌, arith, true, false, List, [], ◌∷◌, ◌++◌, length, take,
  ◌==◌, All, append_assoc,
}
use multithread_libevent_exa.FdBridge.{Run, returns, out_of_fuel}
use multithread_libevent_exa.Console.{
  Cin, newline, line_room, scan, get_line, is_end, is_exit, after_line, read_commands,
}

abbrev pub Typed : ℕ → Type 0
Typed c = (c == newline) ≡ false

-- A line that fits and is not "exit".
abbrev pub IsOther : List ℕ → Type 0
IsOther line = All Typed line × (length line ≤ line_room) × (is_exit line ≡ false)

abbrev pub lines_of : List (List ℕ) → List ℕ
lines_of [] = []
lines_of (line ∷ lines) = line ++ (newline ∷ lines_of lines)

abbrev pub reads : List ℕ → Cin
reads chars = record { chars = chars; good = true }

abbrev pub exit_line : List ℕ
exit_line = 101 ∷ (120 ∷ (105 ∷ (116 ∷ [])))

-- A line that fits is stored, and what follows it is left.
scan_line :
    (room : ℕ) (line rest : List ℕ)
    → All Typed line
    → length line ≤ room
    → scan room (line ++ (newline ∷ rest)) ≡ (line, reads rest)
unfolding scan
scan_line zero [] rest a h = refl
scan_line (suc room) [] rest a h = refl
scan_line zero (c ∷ line) rest a h = absurd (omega arith)
scan_line (suc room) (c ∷ line) rest a h = rw (scan_line room line rest a.1 (omega arith), a.0) refl

-- Characters without a newline where the line would have to end are stored as far as they fit, and the state
-- is not good then.
scan_tail :
    (room : ℕ) (t : List ℕ)
    → All Typed (take (suc room) t)
    → (scan room t).0 ≡ take room t × (scan room t).1.good ≡ false
unfolding scan
scan_tail zero [] a = (refl, refl)
scan_tail (suc room) [] a = (refl, refl)
scan_tail zero (c ∷ t) a = rw a.0 (refl, refl)
scan_tail (suc room) (c ∷ t) a =
    let (line, bad) = scan_tail room t a.1 in rw a.0 (ap (◌∷◌ c) line, bad)

get_line_lem :
    (line rest : List ℕ)
    → All Typed line
    → length line ≤ line_room
    → get_line (reads (line ++ (newline ∷ rest))) ≡ (line, reads rest)
unfolding get_line
get_line_lem line rest a h = scan_line line_room line rest a h

after_line-other :
    (go : Cin → Run Cin) (line : List ℕ) (cin : Cin)
    → is_exit line ≡ false
    → after_line go (line, cin) ≡ go cin
unfolding after_line
after_line-other go line cin e = rw (e, after_line) refl

-- A line that is not "exit" is passed over.
read_commands-other :
    (fuel : ℕ) (line rest : List ℕ)
    → IsOther line
    → read_commands (suc fuel) (reads (line ++ (newline ∷ rest))) ≡ read_commands fuel (reads rest)
unfolding read_commands
read_commands-other fuel line rest h =
    ap (after_line (read_commands fuel)) (get_line_lem line rest h.0 h.1)
    ∙ after_line-other (read_commands fuel) line (reads rest) h.2

exit-Typed : All Typed exit_line
exit-Typed = (refl, (refl, (refl, (refl, tt))))

-- When the input begins with lines that are not "exit" and have at most 127 characters each, then has
-- the line "exit", and then anything: on fuel above the number of the lines before "exit", the loop of
-- Net.cc and Gate.cpp ends, and has read exactly up to the end of the line "exit".
pub read_commands-exit :
    (fuel : ℕ) (lines : List (List ℕ)) (rest : List ℕ)
    → All IsOther lines
    → length lines < fuel
    → read_commands fuel (reads (lines_of lines ++ (exit_line ++ (newline ∷ rest))))
      ≡ returns (reads rest)
unfolding read_commands after_line is_exit is_end
read_commands-exit zero lines rest a f = absurd (omega arith)
read_commands-exit (suc fuel) [] rest a f =
    ap (after_line (read_commands fuel)) (get_line_lem exit_line rest exit-Typed (omega arith))
read_commands-exit (suc fuel) (line ∷ lines) rest a f =
    let tail = exit_line ++ (newline ∷ rest) in
    ap (λ cs. read_commands (suc fuel) (reads cs))
      (append_assoc line (newline ∷ lines_of lines) tail)
    ∙ read_commands-other fuel line (lines_of lines ++ tail) a.0
    ∙ read_commands-exit fuel lines rest a.1 (omega arith)

get_line-bad : (cin : Cin) → cin.good ≡ false → get_line cin ≡ ([], cin)
unfolding get_line
get_line-bad cin e = rw e refl

-- In a state that is not good the loop has no end.
read_commands-bad : (fuel : ℕ) (cin : Cin) → cin.good ≡ false → read_commands fuel cin ≡ out_of_fuel
unfolding read_commands after_line is_exit
read_commands-bad zero cin e = refl
read_commands-bad (suc fuel) cin e =
    ap (after_line (read_commands fuel)) (get_line-bad cin e) ∙ read_commands-bad fuel cin e

read_commands-tail :
    (fuel : ℕ) (t : List ℕ)
    → All Typed (take 128 t)
    → is_exit (take 127 t) ≡ false
    → read_commands fuel (reads t) ≡ out_of_fuel
unfolding read_commands get_line
read_commands-tail zero t a e = refl
read_commands-tail (suc fuel) t a e =
    let (line, bad) = scan_tail line_room t a in
    after_line-other (read_commands fuel) (scan line_room t).0 (scan line_room t).1
      (ap is_exit line ∙ e)
    ∙ read_commands-bad fuel (scan line_room t).1 bad

-- When the input begins with lines that are not "exit" and have at most 127 characters each, and in
-- what follows there is no newline among the first 128 characters, be it a longer line or the end of
-- the input, and its first 127 characters are not "exit", then the loop of Net.cc and Gate.cpp ends
-- with no fuel: std::cin gives nothing more, and "exit" is not found any more.
pub read_commands-never :
    (fuel : ℕ) (lines : List (List ℕ)) (t : List ℕ)
    → All IsOther lines
    → All Typed (take 128 t)
    → is_exit (take 127 t) ≡ false
    → read_commands fuel (reads (lines_of lines ++ t)) ≡ out_of_fuel
unfolding read_commands
read_commands-never zero lines t a b e = refl
read_commands-never (suc fuel) [] t a b e = read_commands-tail (suc fuel) t b e
read_commands-never (suc fuel) (line ∷ lines) t a b e =
    ap (λ cs. read_commands (suc fuel) (reads cs)) (append_assoc line (newline ∷ lines_of lines) t)
    ∙ read_commands-other fuel line (lines_of lines ++ t) a.0
    ∙ read_commands-never fuel lines t a.1 b e
