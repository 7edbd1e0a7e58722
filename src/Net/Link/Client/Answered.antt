-- ===== src/Net/Link/Client/Answered.antt =====
-- A request whose answer arrives in one piece.
use geminidb.Prelude.{
  ℕ, zero, suc, ◌+◌, ◌^◌, ◌≡◌, ◌≤◌, ◌<◌, refl, ap, ◌∙◌, Bool, true, false, Option, none, some,
  ◌>>=◌, List, [], ◌∷◌, ◌++◌, All, Octets, length, length-append, take, ◌==◌, if◌then◌else◌, arith,
}
use geminidb.Prelude.Int.{ℤ, pos, is_nonpos, is_minus_one}
use geminidb.Util.Buffer.{Buffer, empty, space, incr, nice, grow}
use geminidb.Net.Link.{Received, null, received, recv, max_packet_size, send}
use geminidb.Net.Link.Packet.{packet_of, records_of, recv-packet_of}
use geminidb.Net.Link.Sent.{bound, used, send-bytes}
use geminidb.Net.Link.Socket.{Reading, Writing, arrived, init_buffer_size, read, read_loop}
use geminidb.Net.Link.Client.{Client, send_items, flush, take_answer, response, request}
use geminidb.Net.Link.Client.Flushed.{Takes, flush-whole}

take-whole : (n : ℕ) (p : Octets) → length p ≤ n → take n p ≡ p
take-whole zero [] h = refl
take-whole zero (c ∷ p) h = absurd (omega arith)
take-whole (suc n) [] h = refl
take-whole (suc n) (c ∷ p) h = ap (λ s. c ∷ s) (take-whole n p (omega arith))

module _ (realloc : ℕ → Bool) where
  -- The block that `read` fills.
  unfoldable pub room_for : Buffer → Buffer
  room_for input = nice (if input.total == init_buffer_size then (grow realloc input).1 else input)

  room_for-bytes : (input : Buffer) → (room_for input).bytes ≡ input.bytes
  unfolding room_for nice grow
  room_for-bytes input = ground arith

  read-whole :
      (input : Buffer) (p : Octets) (rs : List Reading)
      → 0 < length p
      → length p ≤ space (room_for input)
      → read realloc false input (arrived p ∷ rs) ≡ (pos (0 + length p), incr p (room_for input))
  unfolding read read_loop room_for
  read-whole input p rs filled fits =
      let some_room : (space (room_for input) == 0) ≡ false = ground (arith, filled, fits) in
      let some_byte : (length p == 0) ≡ false = ground (arith, filled) in
      rw (some_room, take-whole (space (room_for input)) p fits, some_byte) refl

  response-now :
      (noblock : Bool) (input : Buffer) (y : Octets) (ys : List Octets) (rss : List (List Reading))
      → (recv realloc input).0 ≡ received (y ∷ ys)
      → response realloc noblock input rss ≡ some (received (y ∷ ys), (recv realloc input).1)
  unfolding response
  response-now noblock input y ys [] h = ap (λ g. take_answer g (recv realloc input).1 none) h
  response-now noblock input y ys (rs ∷ rss) h =
      let (ret, filled) = read realloc noblock (recv realloc input).1 rs in
      let again : Option (Received × Buffer) =
        if is_nonpos ret then some (null, filled) else response realloc noblock filled rss in
      ap (λ g. take_answer g (recv realloc input).1 again) h

  abbrev read_on : Bool → List (List Reading) → ℤ × Buffer → Option (Received × Buffer)
  read_on noblock rss r =
      if is_nonpos r.0 then some (null, r.1) else response realloc noblock r.1 rss

  response-more :
      (noblock : Bool) (input rest : Buffer) (n : ℕ) (filled : Buffer) (rs : List Reading)
      (rss : List (List Reading))
      → recv realloc input ≡ (received [], rest)
      → read realloc noblock rest rs ≡ (pos n, filled)
      → 0 < n
      → response realloc noblock input (rs ∷ rss) ≡ response realloc noblock filled rss
  unfolding response
  response-more noblock input rest n filled rs rss e e' h =
      let some_byte : is_nonpos (pos n) ≡ false = ground (arith, h) in
      ap (λ g. take_answer g.0 g.1 (read_on noblock rss (read realloc noblock g.1 rs))) e
      ∙ ap (read_on noblock rss) e'
      ∙ rw some_byte refl

  recv-nothing : (input : Buffer) → input.bytes ≡ [] → recv realloc input ≡ (received [], input)
  unfolding recv
  recv-nothing input none_there =
      let nothing : empty input ≡ true = ap (λ s. length s == 0) none_there in rw nothing refl

  response-whole :
      (input : Buffer) (y : Octets) (ys : List Octets) (rest : Octets) (rs : List Reading)
      (rss : List (List Reading))
      → input.bytes ≡ []
      → length (packet_of (y ∷ ys) ++ rest) ≤ space (room_for input)
      → length (records_of (y ∷ ys)) ≤ max_packet_size
      → (left : Buffer) × (response realloc false input
            ((arrived (packet_of (y ∷ ys) ++ rest) ∷ rs) ∷ rss)
          ≡ some (received (y ∷ ys), left))
        × (left.bytes ≡ rest)
  unfolding incr
  response-whole input y ys rest rs rss none_there fits small =
      let p = packet_of (y ∷ ys) ++ rest in
      let filled = incr p (room_for input) in
      let bytes : filled.bytes ≡ p = ap (λ s. s ++ p) (room_for-bytes input ∙ none_there) in
      let (got, kept) = recv-packet_of realloc y ys rest filled bytes small in
      let some_byte : 0 < length p = omega (
        arith,
        length-append (packet_of (y ∷ ys)) rest,
        length-append (records_of (y ∷ ys)) (b'\n' ∷ []),
      ) in
      (
        (recv realloc filled).1,
        response-more false input input (0 + length p) filled (arrived p ∷ rs) rss
              (recv-nothing input none_there) (read-whole input p rs some_byte fits)
              (omega (arith, some_byte))
            ∙ response-now false filled y ys rss got,
        kept,
      )

  send_items-send :
      (x : Octets) (xs : List Octets) (output : Buffer)
      → send_items realloc (x ∷ xs) output ≡ send realloc (x ∷ xs) output
  unfolding send_items send
  send_items-send x xs output = refl

  -- A client's `request` over a link that blocks, with nothing left in its buffers, to a socket
  -- that takes a byte at least in each call, writes all of its packet and returns the records of
  -- the response that arrives in one piece, and keeps the bytes behind it, if memory is given, the
  -- output block stays below 1 GB, the piece fits into the space for the input and the packet is
  -- within the size limit.
  pub request-answered :
      (given : (n : ℕ) → realloc n ≡ true)
      → (c : Client) (x : Octets) (xs : List Octets) (wss : List (List Writing)) (y : Octets)
        (ys : List Octets) (rest : Octets) (rs : List Reading) (rss : List (List Reading))
      → c.noblock ≡ false
      → c.output.bytes ≡ []
      → c.input.bytes ≡ []
      → bound realloc given (x ∷ xs) + used c.output < 2 ^ 30
      → All Takes wss
      → length (packet_of (x ∷ xs)) ≤ length wss
      → length (packet_of (y ∷ ys) ++ rest) ≤ space (room_for c.input)
      → length (records_of (y ∷ ys)) ≤ max_packet_size
      → (d : Client) × (request realloc
            (x ∷ xs)
            wss
            ((arrived (packet_of (y ∷ ys) ++ rest) ∷ rs) ∷ rss)
            c
          ≡ some (received (y ∷ ys), d))
        × (d.input.bytes ≡ rest)
        × (length d.output.bytes ≡ 0)
  unfolding request send_items
  request-answered given c x xs wss y ys rest rs rss blocks fresh none_there small takes enough fits
        size =
      let output = (send_items realloc (x ∷ xs) c.output).1 in
      let bytes : output.bytes ≡ packet_of (x ∷ xs) =
        ap (λ r. r.1.bytes) (send_items-send x xs c.output)
        ∙ send-bytes realloc given x xs c.output small
        ∙ ap (λ s. s ++ packet_of (x ∷ xs)) fresh in
      let (out, flushed, gone) = flush-whole output wss takes (rw bytes enough) in
      let (left, answer, kept) = response-whole c.input y ys rest rs rss none_there fits size in
      let rss' = (arrived (packet_of (y ∷ ys) ++ rest) ∷ rs) ∷ rss in
      let asked : Buffer → Option (Received × Buffer) → Option (Received × Client) =
        λ left_out o. o >>= (λ r. some (r.0, record c { input = r.1; output = left_out })) in
      let next : ℤ × Buffer → Option (Received × Client) = λ f.
        if is_minus_one f.0
        then some (null, record c { output = f.1 })
        else asked f.1 (response realloc c.noblock c.input rss') in
      (
        record c { input = left; output = out },
        ap (λ o. o >>= next) (ap (λ b. flush b output wss) blocks ∙ flushed)
            ∙ ap (asked out) (ap (λ b. response realloc b c.input rss') blocks ∙ answer),
        kept,
        gone,
      )
