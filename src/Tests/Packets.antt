-- ===== src/Tests/Packets.antt =====
-- The properties of the buffers and of the protocol, at a small response.
use geminidb.Prelude.{
  false, zero, suc, some, All, replicate, List, ℕ, ◌≤◌, ◌≡◌, ◌≢◌, refl, Bool, true, [], ◌∷◌, ◌++◌,
  Octets, codes, length, arith,
}
use geminidb.Prelude.Int.{pos}
use geminidb.Util.Number.{decimal}
use geminidb.Util.Buffer
use geminidb.Util.Buffer.{Buffer, reserve, rounds}
use geminidb.Util.Buffer.Room.{Ended, reserve-Ended}
use geminidb.Net.Link.{parse, out_of_rounds, send, recv, received, max_packet_size}
use geminidb.Net.Link.Packet.{packet_of, records_of}
use geminidb.Net.Link.Socket.{Writing, accepted, arrived}
use geminidb.Net.Link.Rounds.{parse_ends}
use geminidb.Net.Link.Sent.{recv-send}
use geminidb.Net.Link.Client.{Client, flush, request}
use geminidb.Net.Link.Client.Flushed.{Takes, flush-whole}
use geminidb.Net.Link.Client.Answered.{room_for, request-answered}

abbrev given : ℕ → Bool
given n = true

abbrev ok : Octets
ok = codes "ok"

abbrev item : Octets
item = codes "run the tests"

abbrev output : Buffer
output = Buffer.init 8

-- The bytes of the response and of the next packet's first record.
abbrev rest : Octets
rest = codes "2\nok\n"

abbrev input : Buffer
input = record {
  total = 8192;
  origin_total = 8;
  offset = 0;
  bytes = packet_of (ok ∷ item ∷ []) ++ rest;
}

reserve-Ended_example : Ended given 20 (reserve given rounds 20 output)
reserve-Ended_example = reserve-Ended given 20 output

short : length (records_of (ok ∷ item ∷ [])) ≤ max_packet_size
unfolding decimal
short = omega arith

abbrev sent : Buffer
sent = record {
  total = 8192;
  origin_total = 8;
  offset = 0;
  bytes = (send given (ok ∷ item ∷ []) output).1.bytes ++ rest;
}

recv-send_example :
    ((recv given sent).0 ≡ received (ok ∷ item ∷ [])) × ((recv given sent).1.bytes ≡ rest)
recv-send_example =
    recv-send given (λ n. refl) ok (item ∷ []) rest output sent refl refl (omega arith) short

parse_ends_example : parse 5 rest 0 [] ≢ out_of_rounds
parse_ends_example = parse_ends 5 rest 0 [] (omega arith)

-- A socket that blocks until it takes five bytes.
abbrev takes_five : List Writing
takes_five = accepted 5 ∷ []

abbrev many_calls : List (List Writing)
many_calls = replicate 40 takes_five

All-take : (n : ℕ) → All Takes (replicate n takes_five)
All-take zero = tt
All-take (suc n) = (omega arith, All-take n)

flush-whole_example :
    (left : Buffer) × (flush false input many_calls ≡ some (pos (length input.bytes), left))
    × (length left.bytes ≡ 0)
unfolding decimal
flush-whole_example = flush-whole input many_calls (All-take 40) (omega arith)

-- A client whose block for the input is of 64 bytes.
abbrev client : Client
client = record { noblock = false; input = Buffer.init 64; output = output }

has_room : length (packet_of (ok ∷ item ∷ []) ++ rest) ≤ Buffer.space (room_for given client.input)
unfolding decimal room_for Buffer.space Buffer.nice
has_room = omega arith

request-answered_example :
    (d : Client) × (request given
        (ok ∷ [])
        many_calls
        ((arrived (packet_of (ok ∷ item ∷ []) ++ rest) ∷ []) ∷ [])
        client
      ≡ some (received (ok ∷ item ∷ []), d))
    × (d.input.bytes ≡ rest)
    × (length d.output.bytes ≡ 0)
unfolding decimal
request-answered_example =
    request-answered given (λ n. refl) client ok [] many_calls ok (item ∷ []) rest [] [] refl refl
      refl (omega arith) (All-take 40) (omega arith) has_room short
