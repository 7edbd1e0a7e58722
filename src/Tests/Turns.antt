-- ===== src/Tests/Turns.antt =====
-- The turns of the event loop, at a server with one link.
use geminidb.Prelude.{
  arith, ℕ, ◌≡◌, refl, Bool, true, false, Option, none, some, List, [], ◌∷◌, Octets, codes, ◌==◌,
  if◌then◌else◌,
}
use geminidb.Prelude.Int.{pos}
use geminidb.Util.Buffer
use geminidb.Util.Buffer.{Buffer}
use geminidb.Net.Link.Socket.{accepted}
use geminidb.Net.Fdevents.{Fdevents, Epoll}
use geminidb.Net.Fdevents
use geminidb.Net.Proc.{Command}
use geminidb.Serv.Commands.{Proc}
use geminidb.Serv.Loop.{Link, NetworkServer}
use geminidb.Serv.Loop.Requests.{serve_link}
use geminidb.Serv.Loop.Apart.{Untouched}
use geminidb.Serv.Loop.Apart.Turn.{serve_link-Untouched}
use geminidb.Serv.Loop.Watching.Heard.{Attended, serve_link-Attended}
use geminidb.Tests.{sure, empty_db}
use geminidb.Tests.Watches.{epoll, epoll-IsReliable, empty_table-IsWatched, no_interest, Kernel}

abbrev pub given : ℕ → Bool
given n = true

abbrev pub no_usage : Command Proc → Octets
no_usage cmd = []

abbrev pub client : Link
client = record {
  sock = 7;
  noblock = true;
  error = false;
  input = record (Buffer.init 8) { bytes = codes "4\nping\n\n4\npi" };
  output = Buffer.init 8;
}

abbrev pub server : NetworkServer sure.State Kernel
server = record {
  net = record { geminidb = empty_db; proc_map = []; link_count = pos 1 };
  fdes = Fdevents.init epoll no_interest;
  links = λ id. if id == 3 then some client else none;
  writer = [];
  reader = [];
}

abbrev or_server :
    Option (List ℕ × NetworkServer sure.State Kernel) → List ℕ × NetworkServer sure.State Kernel
or_server none = ([], server)
or_server (some r) = r

behind : List ℕ × NetworkServer sure.State Kernel
behind = or_server (serve_link epoll sure no_usage given (accepted 4 ∷ []) 3 [] server)

served :
    serve_link epoll sure no_usage given (accepted 4 ∷ []) 3 [] server ≡ some (behind.0, behind.1)
unfolding behind serve_link
served = refl

serve_link-Attended_example : Attended epoll 3 7 [] server behind.0 behind.1
serve_link-Attended_example =
    serve_link-Attended epoll sure no_usage given (accepted 4 ∷ []) 3 client [] behind.0 server
      behind.1 epoll-IsReliable empty_table-IsWatched refl served

serve_link-Untouched_example : Untouched epoll 4 9 server behind.1
serve_link-Untouched_example =
    serve_link-Untouched epoll sure no_usage 4 9 given (accepted 4 ∷ []) 3 client [] behind.0 server
      behind.1 refl (λ e. ground arith) (λ e. ground arith) served
