-- ===== src/Process/Pid.antt =====
-- `get_pid` of lab5/kern/process/proc.c. The processes of `proc_list` are given by their pids, in
-- list order, and the two static variables are a record.
use nku_os.Base.{
  ℕ, zero, suc, ◌+◌, Bool, ◌&&◌, Option, none, some, ltb, leb, ◌==◌, if◌then◌else◌, List, [], ◌∷◌,
}
pub mod Scan
pub mod Fresh

-- MAX_PID
abbrev pub max_pid : ℕ
max_pid = 8192

pub record PidState : Type 0 where
  pub next_safe : ℕ
  pub last_pid : ℕ

-- How one round of the `while` loop ends: at the head of the list, or by `goto repeat`.
pub data Round : Type 0 where
  passed repeats : PidState → Round

-- The lines before `goto repeat`.
abbrev pub restarted : ℕ → PidState
restarted last = record { next_safe = max_pid; last_pid = if leb max_pid last then 1 else last }

unfoldable pub scan_pids : List ℕ → PidState → Round
scan_pids [] s = Round.passed s
scan_pids (p ∷ ps) s =
    let last = s.last_pid + 1 in
    let skipped = scan_pids ps (record s { last_pid = last }) in
    let lowered = scan_pids ps (record s { next_safe = p }) in
    let rest = scan_pids ps s in
    if p == s.last_pid
    then (if leb s.next_safe last then Round.repeats (restarted last) else skipped)
    else if ltb s.last_pid p && ltb p s.next_safe
    then lowered
    else rest

-- From the label `repeat` on; `none` is out of fuel.
unfoldable pub repeat_pids : ℕ → List ℕ → PidState → Option PidState
unfolding scan_pids
repeat_pids zero pids s = none
repeat_pids (suc f) pids s = elim (scan_pids pids s) [
  | passed t ↦ some t
  | repeats t ↦ repeat_pids f pids t
]

-- From the label `inside` on.
abbrev pub inside : ℕ → List ℕ → PidState → Option PidState
inside f pids s = repeat_pids f pids (record s { next_safe = max_pid })

-- The new pid is `last_pid` of the result.
unfoldable pub get_pid : ℕ → List ℕ → PidState → Option PidState
unfolding repeat_pids
get_pid f pids s =
    let last = s.last_pid + 1 in
    if leb max_pid last
    then inside f pids (record s { last_pid = 1 })
    else if leb s.next_safe last
    then inside f pids (record s { last_pid = last })
    else some (record s { last_pid = last })
