-- ===== src/Serv/Loop.antt =====
-- The event loop of `NetworkServer::serve` of src/net/server.cpp: its state, `proc_result` and
-- `proc_request`. A pointer to a link is its number. What
-- the sockets answer is a list for each call; `none` is a pointer to no link, or a fault of a handler.
-- The clocks and the log are left out.
pub mod Requests
pub mod Placed
pub mod Turns
pub mod Apart
pub mod Rounds
pub mod Homed
pub mod Watching
pub mod Answers
use geminidb.Prelude.{
  ℕ, zero, suc, ◌+◌, ◌%◌, ◌^◌, Bool, true, false, not, ◌&&◌, Option, none, some, ◌>>=◌, List, [],
  ◌∷◌, ◌++◌, Octets, codes, octets_eq, ◌==◌, if◌then◌else◌,
}
use geminidb.Prelude.Int.{ℤ, pos, negsuc, minus_one, is_minus_one, is_nonpos, int_eq}
use geminidb.Util.Buffer
use geminidb.Util.Buffer.{Buffer}
use geminidb.Data.LevelDb.{LevelDb}
use geminidb.Net.Link.{Received, null, received, undefined_result, recv, send}
use geminidb.Net.Link.Socket.{Reading, Writing, read, write}
use geminidb.Net.Fdevents.{Fdevents, Epoll, Mask, fdevent_in, fdevent_out, set_flags, clr, del}
use geminidb.Net.Response.{Response}
use geminidb.Net.Proc.{Command, get_proc}
use geminidb.Serv.Kv.{Request}
use geminidb.Serv.Commands.{Proc, Server}
use geminidb.Serv.Commands.Dispatch.{run, Handled, to_writer, to_reader, answered}
use geminidb.Serv.Commands.Dispatch

-- The fields of `Link` that the loop uses.
pub record Link : Type 0 where
  pub sock : ℕ
  pub noblock : Bool
  pub error : Bool
  pub input : Buffer
  pub output : Buffer

pub record ProcJob : Type 0 where
  pub result : ℤ
  pub link : ℕ
  pub cmd : Option (Command Proc)
  pub req : Request
  pub resp : Response

abbrev pub proc_ok : ℤ
proc_ok = pos 0

abbrev pub proc_error : ℤ
proc_error = minus_one

abbrev pub proc_thread : ℤ
proc_thread = pos 1

abbrev pub proc_backend : ℤ
proc_backend = pos 100

-- The links that are not deleted, and the jobs that were pushed to the pools of threads.
pub record NetworkServer (S K : Type 0) : Type 0 where
  pub net : Server S
  pub fdes : Fdevents K
  pub links : ℕ → Option Link
  pub writer : List ProcJob
  pub reader : List ProcJob

abbrev pub is_negative : ℤ → Bool
is_negative (pos n) = false
is_negative (negsuc n) = true

abbrev pub less_one : ℤ → ℤ
less_one (pos zero) = minus_one
less_one (pos (suc n)) = pos n
less_one (negsuc n) = negsuc (suc n)

abbrev pub plus_one : ℤ → ℤ
plus_one (pos n) = pos (suc n)
plus_one (negsuc zero) = pos 0
plus_one (negsuc (suc n)) = negsuc n

-- `calls += 1` through the pointer to a command of the map.
unfoldable pub count_call : Octets → List (Command Proc) → List (Command Proc)
count_call name [] = []
count_call name (cmd ∷ map) =
    let rest = count_call name map in
    if octets_eq name cmd.name
    then record cmd { calls = (cmd.calls + 1) % 2 ^ 64 } ∷ map
    else cmd ∷ rest

module _ {S K : Type 0} (E : Epoll K) where
  unfoldable pub put_link : ℕ → Option Link → NetworkServer S K → NetworkServer S K
  put_link id link s = record s { links = λ i. if i == id then link else s.links i }

  -- `link_count --`, `fdes->del` and `delete link`.
  unfoldable pub drop_link : ℕ → Link → NetworkServer S K → NetworkServer S K
  unfolding put_link
  drop_link id link s = put_link id none (record s {
    net = record s.net { link_count = less_one s.net.link_count };
    fdes = (del E link.sock s.fdes).1;
  })

  unfoldable pub count_command : Option (Command Proc) → NetworkServer S K → NetworkServer S K
  unfolding count_call
  count_command none s = s
  count_command (some cmd) s = record s {
    net = record s.net { proc_map = count_call cmd.name s.net.proc_map };
  }

  unfoldable pub count_job : ProcJob → NetworkServer S K → NetworkServer S K
  unfolding count_command
  count_job job s = count_command job.cmd s

  -- The part of `proc_result` behind the write of the output.
  unfoldable pub watch_link : ℕ → Link → List ℕ → NetworkServer S K → ℤ × List ℕ × NetworkServer S K
  unfolding put_link
  watch_link id link ready s =
      let fdes =
        if Buffer.empty link.output
        then s.fdes
        else (set_flags E link.sock fdevent_out (pos 1) id s.fdes).1 in
      let s' = put_link id (some link) s in
      if Buffer.empty link.input
      then (
        proc_ok,
        ready,
        record s' { fdes = (set_flags E link.sock fdevent_in (pos 1) id fdes).1 },
      )
      else (proc_ok, ready ++ id ∷ [], record s' { fdes = (clr E link.sock fdevent_in fdes).1 })

  -- `proc_result` of a job whose link is there.
  unfoldable pub finish_job :
      List Writing → ProcJob → Link → List ℕ → NetworkServer S K → ℤ × List ℕ × NetworkServer S K
  unfolding count_job drop_link watch_link
  finish_job ws job link ready s =
      let counted = count_job job s in
      let (len, output) = write link.noblock link.output ws in
      let written = record link { output = output } in
      if is_minus_one job.result
      then (proc_error, ready, drop_link job.link link counted)
      else if Buffer.empty link.output
      then watch_link job.link link ready counted
      else if is_negative len
      then (proc_error, ready, drop_link job.link link counted)
      else watch_link job.link written ready counted

  unfoldable pub proc_result :
      List Writing → ProcJob → List ℕ → NetworkServer S K → Option (ℤ × List ℕ × NetworkServer S K)
  unfolding finish_job
  proc_result ws job ready s = s.links job.link >>= λ link. some (finish_job ws job link ready s)

  -- `proc_request`, for the link and the readiness of an entry of the table.
  unfoldable pub proc_request :
      (ℕ → Bool)
      → List Reading
      → ℕ
      → Mask
      → List ℕ
      → NetworkServer S K
      → Option (List ℕ × NetworkServer S K)
  unfolding put_link
  proc_request realloc rs id events ready s =
      let handle = s.links id >>= λ link.
      let (len, input) = read realloc link.noblock link.input rs in
      let got = record link { input = input; error = is_nonpos len } in
      some (ready ++ id ∷ [], if link.error then s else put_link id (some got) s) in
      if events.in_bit then handle else some (ready, s)

  -- The branch of `serve` for a link that `accept_link` has made.
  unfoldable pub add_link : ℕ → Link → NetworkServer S K → NetworkServer S K
  unfolding put_link
  add_link id link s = put_link id (some link) (record s {
    net = record s.net { link_count = plus_one s.net.link_count };
    fdes = (set_flags E link.sock fdevent_in (pos 1) id s.fdes).1;
  })
