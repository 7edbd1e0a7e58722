-- ===== src/Net/Fdevents.antt =====
-- `Fdevents` of src/net/fde.h, src/net/fde.cpp and src/net/fde_epoll.cpp: the table of the watched
-- descriptors. The calls of epoll are a parameter. A pointer to an entry of the table is its index, and
-- the pointer that a client leaves with an entry is a number.
pub mod Watched
pub mod Reliable
pub mod Calls
pub mod Flags
pub mod Others
use geminidb.Prelude.{
  ℕ, zero, suc, ◌+◌, ◌-◌, ◌≡◌, ◌≢◌, Bool, true, false, not, ◌&&◌, ◌||◌, Option, none, some, List,
  [], ◌∷◌, ◌++◌, get_or, set, length, if◌then◌else◌,
}
use geminidb.Prelude.Int.{ℤ, pos, minus_one}

-- The bits of an `int` of flags: FDEVENT_IN, FDEVENT_PRI, FDEVENT_OUT, FDEVENT_HUP and FDEVENT_ERR.
pub record Mask : Type 0 where
  pub in_bit : Bool
  pub pri_bit : Bool
  pub out_bit : Bool
  pub hup_bit : Bool
  pub err_bit : Bool

abbrev pub fdevent_none : Mask
fdevent_none = record {
  in_bit = false;
  pri_bit = false;
  out_bit = false;
  hup_bit = false;
  err_bit = false;
}

abbrev pub fdevent_in : Mask
fdevent_in = record fdevent_none { in_bit = true }

abbrev pub fdevent_out : Mask
fdevent_out = record fdevent_none { out_bit = true }

-- `|`, `&`, `& ~` and the test for 0 of an `int`.
abbrev pub either : Mask → Mask → Mask
either a b = record {
  in_bit = a.in_bit || b.in_bit;
  pri_bit = a.pri_bit || b.pri_bit;
  out_bit = a.out_bit || b.out_bit;
  hup_bit = a.hup_bit || b.hup_bit;
  err_bit = a.err_bit || b.err_bit;
}

abbrev pub both : Mask → Mask → Mask
both a b = record {
  in_bit = a.in_bit && b.in_bit;
  pri_bit = a.pri_bit && b.pri_bit;
  out_bit = a.out_bit && b.out_bit;
  hup_bit = a.hup_bit && b.hup_bit;
  err_bit = a.err_bit && b.err_bit;
}

abbrev pub without : Mask → Mask → Mask
without a b = record {
  in_bit = a.in_bit && not b.in_bit;
  pri_bit = a.pri_bit && not b.pri_bit;
  out_bit = a.out_bit && not b.out_bit;
  hup_bit = a.hup_bit && not b.hup_bit;
  err_bit = a.err_bit && not b.err_bit;
}

abbrev pub any : Mask → Bool
any a = a.in_bit || a.pri_bit || a.out_bit || a.hup_bit || a.err_bit

pub record Fdevent : Type 0 where
  pub fd : ℕ
  pub s_flags : Mask
  pub events : Mask
  pub data_num : ℤ
  pub data_ptr : ℕ

-- `epoll_ctl`: what it is asked for, and the bits EPOLLIN and EPOLLOUT of the event.
pub data CtlOp : Type 0 where
  ctl_add : CtlOp
  ctl_mod : CtlOp
  ctl_del : CtlOp

pub record EpollEvents : Type 0 where
  pub epollin : Bool
  pub epollout : Bool

-- The interest list of the kernel, as the manual describes it: a call that succeeds changes the entry of
-- its descriptor, and a call that fails changes nothing. The calls for an entry fail where there is
-- none, and that for a new one fails where there is one.
pub record Epoll (K : Type 0) : Type 0 where
  pub ctl : CtlOp → ℕ → EpollEvents → K → Bool × K
  pub interest : K → ℕ → Option EpollEvents
  pub ctl_failed :
      (op : CtlOp) (fd : ℕ) (ev : EpollEvents) (k : K)
      → (ctl op fd ev k).0 ≡ false
      → interest (ctl op fd ev k).1 ≡ interest k
  pub ctl_other :
      (op : CtlOp) (fd fd' : ℕ) (ev : EpollEvents) (k : K)
      → fd' ≢ fd
      → interest (ctl op fd ev k).1 fd' ≡ interest k fd'
  pub ctl_added :
      (fd : ℕ) (ev : EpollEvents) (k : K)
      → (ctl ctl_add fd ev k).0 ≡ true
      → interest (ctl ctl_add fd ev k).1 fd ≡ some ev
  pub ctl_modified :
      (fd : ℕ) (ev : EpollEvents) (k : K)
      → (ctl ctl_mod fd ev k).0 ≡ true
      → interest (ctl ctl_mod fd ev k).1 fd ≡ some ev
  pub ctl_deleted :
      (fd : ℕ) (ev : EpollEvents) (k : K)
      → (ctl ctl_del fd ev k).0 ≡ true
      → interest (ctl ctl_del fd ev k).1 fd ≡ none

pub record Fdevents (K : Type 0) : Type 0 where
  pub kernel : K
  pub table : List Fdevent

-- The entry that `get_fde` appends.
abbrev pub new_fdevent : ℕ → Fdevent
new_fdevent fd = record {
  fd = fd;
  s_flags = fdevent_none;
  events = fdevent_none;
  data_num = pos 0;
  data_ptr = 0;
}

-- The loop of `get_fde`, with the number of its rounds.
unfoldable pub extend : ℕ → List Fdevent → List Fdevent
extend zero table = table
extend (suc rounds) table = extend rounds (table ++ new_fdevent (length table) ∷ [])

-- The table behind `get_fde`, whose entry at `fd` it returns.
unfoldable pub get_fde : ℕ → List Fdevent → List Fdevent
unfolding extend
get_fde fd table = extend (suc fd - length table) table

unfoldable pub entry : ℕ → List Fdevent → Fdevent
entry fd table = get_or table fd (new_fdevent fd)

abbrev pub events_of : Mask → EpollEvents
events_of m = record { epollin = m.in_bit; epollout = m.out_bit }

-- An event of `epoll_wait`: the index behind its pointer, and its bits.
pub record Ready : Type 0 where
  pub index : ℕ
  pub ready_in : Bool
  pub ready_pri : Bool
  pub ready_out : Bool
  pub ready_hup : Bool
  pub ready_err : Bool

pub data Polled : Type 0 where
  polled : List Ready → Polled
  poll_interrupted : Polled
  poll_failed : Polled

-- The chain of tests in `wait`.
unfoldable pub ready_mask : Ready → Mask
ready_mask e = record fdevent_none {
  in_bit = e.ready_in || e.ready_pri;
  out_bit = e.ready_out;
  err_bit = e.ready_hup || e.ready_err;
}

-- The loop of `wait` over the events: what it writes into the table, and the list that it fills.
unfoldable pub mark_ready : List Ready → List Fdevent → List Fdevent
unfolding ready_mask entry
mark_ready [] table = table
mark_ready (e ∷ es) table =
    mark_ready es (set table e.index (record (entry e.index table) { events = ready_mask e }))

abbrev pub indices : List Ready → List ℕ
indices [] = []
indices (e ∷ es) = e.index ∷ indices es

module _ {K : Type 0} (E : Epoll K) where
  abbrev pub init : K → Fdevents K
  init k = record { kernel = k; table = [] }

  unfoldable pub isset : ℕ → Mask → Fdevents K → Bool × Fdevents K
  unfolding get_fde entry
  isset fd flag s =
      let table = get_fde fd s.table in
      (any (both (entry fd table).s_flags flag), record s { table = table })

  -- The end of `set` and of `clr`: the entry is in the table before the call of epoll.
  unfoldable pub control : CtlOp → ℕ → Fdevent → List Fdevent → K → ℤ × Fdevents K
  control op fd fde table k =
      let (ok, k') = E.ctl op fd (events_of fde.s_flags) k in
      (if ok then pos 0 else minus_one, record { kernel = k'; table = set table fd fde })

  -- `Fdevents::set`.
  unfoldable pub set_flags : ℕ → Mask → ℤ → ℕ → Fdevents K → ℤ × Fdevents K
  unfolding get_fde entry control
  set_flags fd flags data_num data_ptr s =
      let table = get_fde fd s.table in
      let fde = entry fd table in
      if any (both fde.s_flags flags)
      then (pos 0, record s { table = table })
      else control (if any fde.s_flags then ctl_mod else ctl_add) fd
          (record fde {
            s_flags = either fde.s_flags flags;
            data_num = data_num;
            data_ptr = data_ptr;
          })
          table s.kernel

  unfoldable pub del : ℕ → Fdevents K → ℤ × Fdevents K
  unfolding get_fde entry
  del fd s =
      let (ok, k) = E.ctl ctl_del fd (events_of fdevent_none) s.kernel in
      let table = get_fde fd s.table in
      if ok
      then (
        pos 0,
        record {
          kernel = k;
          table = set table fd (record (entry fd table) { s_flags = fdevent_none });
        },
      )
      else (minus_one, record s { kernel = k })

  unfoldable pub clr : ℕ → Mask → Fdevents K → ℤ × Fdevents K
  unfolding get_fde entry control
  clr fd flags s =
      let table = get_fde fd s.table in
      let fde = entry fd table in
      let s_flags = without fde.s_flags flags in
      if any (both fde.s_flags flags)
      then control (if any s_flags then ctl_mod else ctl_del) fd (record fde { s_flags = s_flags })
          table s.kernel
      else (pos 0, record s { table = table })

  -- `wait`, with the answer of `epoll_wait`. The result is the list of ready entries, or nothing for NULL.
  unfoldable pub wait : Polled → Fdevents K → Option (List ℕ) × Fdevents K
  unfolding mark_ready
  wait poll_interrupted s = (some [], s)
  wait poll_failed s = (none, s)
  wait (polled es) s = (some (indices es), record s { table = mark_ready es s.table })
