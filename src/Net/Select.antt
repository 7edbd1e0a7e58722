-- ===== src/Net/Select.antt =====
-- `Fdevents` of src/net/fde_select.cpp, the variant for systems without epoll, over the same table of
-- src/net/fde.cpp. A set of descriptors is a function into Bool. What `select` answers is a parameter, and
-- so is FD_SETSIZE. `none` is an access out of bounds.
pub mod Tracked
pub mod Kept
pub mod Cleared
pub mod Ready
pub mod Agree
use geminidb.Prelude.{
  ℕ, zero, suc, ◌+◌, ◌-◌, Bool, true, false, ◌&&◌, ◌||◌, Option, none, some, ◌>>=◌, List, [], ◌∷◌,
  leb, ltb, ◌==◌, set, if◌then◌else◌,
}
use geminidb.Prelude.Int.{ℤ, pos, negsuc, minus_one}
use geminidb.Net.Fdevents.{Mask, fdevent_none, either, both, without, any, Fdevent, get_fde, entry}

pub record Selects : Type 0 where
  pub maxfd : ℤ
  pub readset : ℕ → Bool
  pub writeset : ℕ → Bool
  pub table : List Fdevent

abbrev pub init : Selects
init = record { maxfd = minus_one; readset = λ fd. false; writeset = λ fd. false; table = [] }

-- FD_SET and FD_CLR, if the flag is among those of the call.
unfoldable pub put_fd : Bool → ℕ → Bool → (ℕ → Bool) → ℕ → Bool
put_fd flag fd bit fds i = if flag && i == fd then bit else fds i

unfoldable pub isset : ℕ → Mask → Selects → Bool × Selects
unfolding get_fde entry
isset fd flag s =
    let table = get_fde fd s.table in
    (any (both (entry fd table).s_flags flag), record s { table = table })

-- `fd > maxfd? fd: maxfd`
unfoldable pub raised : ℕ → ℤ → ℤ
raised fd (pos m) = if ltb m fd then pos fd else pos m
raised fd (negsuc n) = pos fd

-- `Fdevents::set`.
unfoldable pub set_flags : ℕ → ℕ → Mask → ℤ → ℕ → Selects → ℤ × Selects
unfolding get_fde entry put_fd raised
set_flags fd_setsize fd flags data_num data_ptr s =
    let table = get_fde fd s.table in
    let fde = entry fd table in
    if leb fd_setsize fd
    then (minus_one, s)
    else if any (both fde.s_flags flags)
    then (pos 0, record s { table = table })
    else (
      pos 0,
      record {
        maxfd = raised fd s.maxfd;
        readset = put_fd flags.in_bit fd true s.readset;
        writeset = put_fd flags.out_bit fd true s.writeset;
        table = set table fd (record fde {
          s_flags = either fde.s_flags flags;
          data_num = data_num;
          data_ptr = data_ptr;
        });
      },
    )

-- The loops that lower `maxfd` past the entries without a flag.
unfoldable pub lowered_from : ℕ → List Fdevent → ℤ
unfolding entry
lowered_from zero table = if any (entry 0 table).s_flags then pos 0 else minus_one
lowered_from (suc m) table =
    let lower = lowered_from m table in
    if any (entry (suc m) table).s_flags then pos (suc m) else lower

-- The loop of `del`, which tests `maxfd` first.
unfoldable pub lowered : ℤ → List Fdevent → ℤ
unfolding lowered_from
lowered (pos m) table = lowered_from m table
lowered (negsuc n) table = negsuc n

-- FD_CLR of a descriptor from FD_SETSIZE on is out of bounds.
unfoldable pub del : ℕ → ℕ → Selects → Option (ℤ × Selects)
unfolding get_fde entry put_fd lowered
del fd_setsize fd s =
    let got = get_fde fd s.table in
    let table = set got fd (record (entry fd got) { s_flags = fdevent_none }) in
    if leb fd_setsize fd
    then none
    else some (
      pos 0,
      record {
        maxfd = lowered s.maxfd table;
        readset = put_fd true fd false s.readset;
        writeset = put_fd true fd false s.writeset;
        table = table;
      },
    )

-- The loop of `clr`, which reads the entry at -1 when it finds no flag.
unfoldable pub found_flag : ℤ → Option ℤ
found_flag (pos m) = some (pos m)
found_flag (negsuc n) = none

unfoldable pub clr : ℕ → Mask → Selects → Option (ℤ × Selects)
unfolding get_fde entry put_fd lowered found_flag
clr fd flags s =
    let got = get_fde fd s.table in
    let fde = entry fd got in
    let table = set got fd (record fde { s_flags = without fde.s_flags flags }) in
    let cleared = found_flag (lowered s.maxfd table) >>= λ maxfd. some (
      pos 0,
      record {
        maxfd = maxfd;
        readset = put_fd flags.in_bit fd false s.readset;
        writeset = put_fd flags.out_bit fd false s.writeset;
        table = table;
      },
    ) in
    if any (both fde.s_flags flags) then cleared else some (pos 0, record s { table = got })

-- What `select` answers: how many bits it left, and the two sets.
pub data Selected : Type 0 where
  selected : ℕ → (ℕ → Bool) → (ℕ → Bool) → Selected
  select_interrupted : Selected
  select_failed : Selected

abbrev pub ready_mask : Bool → Bool → Mask
ready_mask r w = record fdevent_none { in_bit = r; out_bit = w }

-- The loop of `wait` from the descriptor `i` on, with the rounds that are left and the entries that are
-- still to be found.
unfoldable pub collect : ℕ → ℕ → ℕ → (ℕ → Bool) → (ℕ → Bool) → List Fdevent → List ℕ × List Fdevent
unfolding entry
collect zero i left r w table = ([], table)
collect (suc rounds) i zero r w table = ([], table)
collect (suc rounds) i (suc left) r w table =
    let marked = set table i (record (entry i table) { events = ready_mask (r i) (w i) }) in
    let taken = collect rounds (suc i) left r w marked in
    let passed = collect rounds (suc i) (suc left) r w marked in
    if r i || w i then (i ∷ taken.0, taken.1) else passed

-- How many descriptors are there up to `maxfd`.
abbrev pub watched_to : ℤ → ℕ
watched_to (pos m) = suc m
watched_to (negsuc n) = 0

unfoldable pub wait : Selected → Selects → Option (List ℕ) × Selects
unfolding collect
wait select_interrupted s = (some [], s)
wait select_failed s = (none, s)
wait (selected ret r w) s =
    let (ready, table) = collect (watched_to s.maxfd) 0 ret r w s.table in
    (some ready, record s { table = table })
