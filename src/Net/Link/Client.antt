-- ===== src/Net/Link/Client.antt =====
-- The calls of a client of src/net/link.cpp: the `send` of byte strings, `flush`, `response` and
-- `request`. The lists of answers of the socket have one entry for each `write` and each `read`; `none`
-- is a loop that goes on where they end.
pub mod Flushed
pub mod Answered
use geminidb.Prelude.{
  ℕ, zero, suc, ◌+◌, Bool, true, false, Option, none, some, ◌>>=◌, List, [], ◌∷◌, Octets, length,
  ◌==◌, if◌then◌else◌,
}
use geminidb.Prelude.Int.{ℤ, pos, negsuc, minus_one, is_nonpos, is_minus_one}
use geminidb.Util.Buffer.{Buffer, empty, append}
use geminidb.Net.Link.{Received, null, received, undefined_result, recv, append_records}
use geminidb.Net.Link.Socket.{Reading, Writing, read, write}

-- `send` of one to five byte strings, and of a vector of them, whose emptiness it does not test.
unfoldable pub send_items : (ℕ → Bool) → List Octets → Buffer → ℤ × Buffer
unfolding append_records append
send_items realloc items output =
    (pos 0, (append realloc (b'\n' ∷ []) (append_records realloc items output)).1)

-- The loop of `flush`, with the bytes that were written.
unfoldable pub flush_loop : Bool → ℕ → Buffer → List (List Writing) → Option (ℤ × Buffer)
unfolding write
flush_loop noblock len output [] = if empty output then some (pos len, output) else none
flush_loop noblock len output (ws ∷ wss) =
    let (ret, left) = write noblock output ws in
    let next : Option (ℤ × Buffer) = elim ret [
      | pos n ↦ flush_loop noblock (len + n) left wss
      | negsuc n ↦ some (minus_one, left)
    ] in
    if empty output then some (pos len, output) else next

unfoldable pub flush : Bool → Buffer → List (List Writing) → Option (ℤ × Buffer)
unfolding flush_loop
flush noblock output wss = flush_loop noblock 0 output wss

-- What `response` does with the records that it got, where `again` is the rest of its round.
abbrev pub take_answer : Received → Buffer → Option (Received × Buffer) → Option (Received × Buffer)
take_answer null input again = some (null, input)
take_answer undefined_result input again = some (undefined_result, input)
take_answer (received []) input again = again
take_answer (received (x ∷ xs)) input again = some (received (x ∷ xs), input)

-- The rounds of `response`.
unfoldable pub response :
    (ℕ → Bool) → Bool → Buffer → List (List Reading) → Option (Received × Buffer)
unfolding recv read
response realloc noblock input [] =
    let (got, rest) = recv realloc input in take_answer got rest none
response realloc noblock input (rs ∷ rss) =
    let (got, rest) = recv realloc input in
    let (ret, filled) = read realloc noblock rest rs in
    let again = response realloc noblock filled rss in
    take_answer got rest (if is_nonpos ret then some (null, filled) else again)

-- The two buffers of a client's link.
pub record Client : Type 0 where
  pub noblock : Bool
  pub input : Buffer
  pub output : Buffer

-- `request` of one to five byte strings. A `send` never returns -1.
unfoldable pub request :
    (ℕ → Bool)
    → List Octets
    → List (List Writing)
    → List (List Reading)
    → Client
    → Option (Received × Client)
unfolding send_items flush response
request realloc items wss rss c =
    let (sent, output) = send_items realloc items c.output in
    let answered = flush c.noblock output wss >>= (λ flushed.
      let failed : Option (Received × Client) = some (null, record c { output = flushed.1 }) in
      let asked =
        response realloc c.noblock c.input rss
        >>= (λ r. some (r.0, record c { input = r.1; output = flushed.1 })) in
      if is_minus_one flushed.0 then failed else asked) in
    if is_minus_one sent then some (null, record c { output = output }) else answered
