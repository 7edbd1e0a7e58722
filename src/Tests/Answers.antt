-- ===== src/Tests/Answers.antt =====
-- The answers to a request for `ping`, which runs at once, and to one for `get`, which a thread runs.
use geminidb.Prelude.{
  ℕ, ◌||◌, ◌≡◌, ◌≤◌, refl, true, false, some, List, [], ◌∷◌, ◌++◌, Octets, octets_eq, codes, length,
  drop, arith,
}
use geminidb.Util.Number.{decimal}
use geminidb.Net.Link.{max_packet_size}
use geminidb.Net.Link.Packet.{packet_of, records_of}
use geminidb.Net.Link.Socket.{Writing, accepted, write_would_block}
use geminidb.Net.Link.Socket.Taken.{fails, offered}
use geminidb.Net.Proc.{Command, set_proc}
use geminidb.Serv.Kv.{Request, proc_get}
use geminidb.Serv.Commands.{Proc, Server, proc_ping}
use geminidb.Serv.Commands.Dispatch.{answered, run}
use geminidb.Serv.Commands.Dispatch
use geminidb.Serv.Loop.{ProcJob, NetworkServer}
use geminidb.Serv.Loop.Requests.{serve_link, worker_proc}
use geminidb.Serv.Loop.Rounds.{popped}
use geminidb.Serv.Loop.Answers.{IsAnswered, serve_link-answers}
use geminidb.Serv.Loop.Answers.Threads.{pushed, worker_proc-answers}
use geminidb.Tests.{sure, jobs}
use geminidb.Tests.Watches.{epoll, Kernel}
use geminidb.Tests.Turns.{given, no_usage, client, server}

abbrev ping : Octets
ping = codes "ping"

abbrev ok : Octets
ok = codes "ok"

abbrev with_ping : Server sure.State
with_ping = record server.net { proc_map = set_proc ping (codes "r") Proc.ping [] }

abbrev ready_server : NetworkServer sure.State Kernel
ready_server = record server { net = with_ping }

abbrev behind : Octets
behind = codes "4\npi"

abbrev calls : List Writing
calls = accepted 2 ∷ write_would_block ∷ []

arrived : client.input.bytes ≡ packet_of (ping ∷ []) ++ behind
unfolding decimal
arrived = refl

small : length (records_of (ping ∷ [])) ≤ max_packet_size
unfolding decimal
small = omega arith

ping_handled :
    Dispatch.proc sure no_usage (ping ∷ []) with_ping ≡ some (answered (ok ∷ []) with_ping)
unfolding Dispatch.proc set_proc octets_eq proc_ping
ping_handled = refl

serve_link-answers_example :
    (ready' : List ℕ) × (t : NetworkServer sure.State Kernel) × (serve_link epoll sure no_usage
        given calls 3 [] ready_server
      ≡ some (ready', t))
    × IsAnswered epoll 3 behind (packet_of (ok ∷ [])) with_ping (fails calls) (offered calls) t
serve_link-answers_example =
    serve_link-answers epoll sure no_usage given (λ n. refl) 3 behind ok [] with_ping calls ping []
      client [] ready_server refl refl arrived small refl (omega arith) ping_handled

abbrev get_command : Command Proc
get_command = record {
  name = codes "get";
  flags = record { read = true; write = false; backend = false; thread = true };
  proc = Proc.get;
  calls = 0;
}

abbrev get_jobs : Request
get_jobs = codes "get" ∷ jobs ∷ []

abbrev not_found : Octets
not_found = codes "not_found"

get_ran : run sure no_usage Proc.get get_jobs server.net ≡ some (not_found ∷ [], server.net)
unfolding run proc_get
get_ran = refl

worker_proc-answers_example :
    (job' : ProcJob) × (s' : NetworkServer sure.State Kernel) × (ready' : List ℕ)
    × (t : NetworkServer sure.State Kernel) × (k : ℕ) × (k ≤ offered calls)
    × (worker_proc epoll sure no_usage given calls (pushed 3 get_command get_jobs) server
        ≡ some (job', s'))
    × (popped epoll calls job' [] s' ≡ some (ready', t))
    × IsAnswered epoll 3 client.input.bytes
        (drop k (packet_of (not_found ∷ [])))
        server.net
        (fails calls || fails calls)
        (offered calls)
        t
worker_proc-answers_example =
    worker_proc-answers epoll sure no_usage given (λ n. refl) 3 calls [] client.input.bytes
      not_found [] server.net calls get_command get_jobs client server refl get_ran refl refl
      (omega arith)
