-- ===== src/Serv/Loop/Answers.antt =====
-- A turn of the loop over a link with a whole request that is answered at once.
pub mod Threads
use geminidb.Prelude.{
  ℕ, ◌+◌, ◌^◌, ◌<◌, ◌≤◌, ◌≡◌, refl, sym, ◌∙◌, ap, subst, ◌⊎◌, inl, inr, Bool, true, false,
  Bool-cases, Option, none, some, ◌>>=◌, List, [], ◌∷◌, ◌++◌, Octets, length, drop, if◌then◌else◌,
  arith,
}
use geminidb.Prelude.Int.{ℤ, pos, negsuc, is_minus_one}
use geminidb.Util.Buffer
use geminidb.Util.Buffer.{Buffer}
use geminidb.Data.LevelDb.{LevelDb}
use geminidb.Net.Link.{received, Received, recv, send, max_packet_size}
use geminidb.Net.Link.Packet.{packet_of, records_of, recv-packet_of}
use geminidb.Net.Link.Sent.{bound, used, send-bytes}
use geminidb.Net.Link.Socket.{Writing, write}
use geminidb.Net.Link.Socket.Taken.{fails, is_refused, write-fails, offered, write-Sent}
use geminidb.Net.Fdevents.{Epoll}
use geminidb.Net.Proc.{Command}
use geminidb.Serv.Kv.{Request}
use geminidb.Serv.Commands.{Proc, Server}
use geminidb.Serv.Commands.Dispatch.{answered}
use geminidb.Serv.Commands.Dispatch
use geminidb.Serv.Loop.{
  Link, ProcJob, NetworkServer, put_link, drop_link, count_command, count_job, watch_link,
  finish_job, proc_result, is_negative, proc_error, proc_ok,
}
use geminidb.Serv.Loop.Placed.{put_link_lem}
use geminidb.Serv.Loop.Requests.{
  send_response, command_of, new_job, hand_over, proc, after_proc, serve_request, serve_parsed,
  serve_link,
}

negative : (n : ℤ) → is_negative n ≡ true → is_refused n ≡ true
negative (pos n) h = h
negative (negsuc n) h = refl

module _ {S K : Type 0} (E : Epoll K) where
  -- The database is that of the handler, and the link keeps the bytes behind the request, and what is
  -- left of the packet stands in its output; or it is deleted, where a write was refused.
  pub record IsAnswered (id : ℕ) (rest packet : Octets) (net : Server S) (refused : Bool) (most : ℕ)
      (t : NetworkServer S K) : Type 0 where
    pub same_db : t.net.geminidb ≡ net.geminidb
    pub outcome :
        ((t.links id ≡ none) × (refused ≡ true))
        ⊎ ((link : Link) × (k : ℕ) × (k ≤ most)
            × (t.links id ≡ some link)
            × (link.input.bytes ≡ rest)
            × (link.output.bytes ≡ drop k packet))

  counted_db :
      (cmd : Option (Command Proc)) (t : NetworkServer S K)
      → (count_command E cmd t).net.geminidb ≡ t.net.geminidb
  unfolding count_command
  counted_db none t = refl
  counted_db (some cmd) t = refl

  watched-IsAnswered :
      (id : ℕ) (link : Link) (ready : List ℕ) (k : ℕ) (rest packet : Octets) (net : Server S)
      (refused : Bool) (most : ℕ) (t : NetworkServer S K)
      → t.net.geminidb ≡ net.geminidb
      → link.input.bytes ≡ rest
      → k ≤ most
      → link.output.bytes ≡ drop k packet
      → IsAnswered id rest packet net refused most (watch_link E id link ready t).2
  unfolding watch_link put_link
  watched-IsAnswered id link ready k rest packet net refused most t db kept few left =
      let there = put_link_lem E id (some link) t in
      elim (Bool-cases (Buffer.empty link.input)) [
        | inl e ↦ rw e (record { same_db = db; outcome = inr (link, k, few, there, kept, left) })
        | inr e ↦ rw e (record { same_db = db; outcome = inr (link, k, few, there, kept, left) })
      ]

  dropped-IsAnswered :
      (id : ℕ) (link : Link) (rest packet : Octets) (net : Server S) (refused : Bool) (most : ℕ)
      (t : NetworkServer S K)
      → t.net.geminidb ≡ net.geminidb
      → refused ≡ true
      → IsAnswered id rest packet net refused most (drop_link E id link t)
  unfolding drop_link put_link
  dropped-IsAnswered id link rest packet net refused most t db why = record {
    same_db = db;
    outcome = inl (put_link_lem E id none t, why);
  }

  one_of :
      (id : ℕ) (rest packet : Octets) (net : Server S) (refused : Bool) (most : ℕ) (b : Bool)
      (r r' : ℤ × List ℕ × NetworkServer S K)
      → (b ≡ true → IsAnswered id rest packet net refused most r.2)
      → (b ≡ false → IsAnswered id rest packet net refused most r'.2)
      → IsAnswered id rest packet net refused most (if b then r else r').2
  one_of id rest packet net refused most true r r' h h' = h refl
  one_of id rest packet net refused most false r r' h h' = h' refl

  -- The end of `proc_result`, whatever the result of the job.
  pub finish_job-IsAnswered :
      (ws : List Writing) (job : ProcJob) (link : Link) (ready : List ℕ) (rest packet : Octets)
      (net : Server S) (refused : Bool) (most : ℕ) (t : NetworkServer S K)
      → (is_minus_one job.result ≡ true → refused ≡ true)
      → (fails ws ≡ true → refused ≡ true)
      → offered ws ≤ most
      → t.net.geminidb ≡ net.geminidb
      → link.input.bytes ≡ rest
      → link.output.bytes ≡ packet
      → IsAnswered job.link rest packet net refused most (finish_job E ws job link ready t).2
  unfolding finish_job count_job
  finish_job-IsAnswered ws job link ready rest packet net refused most t of_job of_write enough db
        kept there =
      let id = job.link in
      let counted = count_command E job.cmd t in
      let db' = counted_db job.cmd t ∙ db in
      let (len, output) = write link.noblock link.output ws in
      let (k, few, left) = write-Sent link.noblock link.output ws in
      let gone : ℤ × List ℕ × NetworkServer S K =
        (proc_error, ready, drop_link E id link counted) in
      let plain = watch_link E id link ready counted in
      let written : Link = record link { output = output } in
      let wrote = watch_link E id written ready counted in
      let late = if is_negative len then gone else wrote in
      let drops = dropped-IsAnswered id link rest packet net refused most counted db' in
      one_of id rest packet net refused most (is_minus_one job.result) gone
        (if Buffer.empty link.output then plain else late) (λ h. drops (of_job h))
        (λ _.
          one_of id rest packet net refused most (Buffer.empty link.output) plain late
            (λ _.
              watched-IsAnswered id link ready 0 rest packet net refused most counted db' kept
                (omega arith) there)
            (λ _.
              one_of id rest packet net refused most (is_negative len) gone wrote
                (λ h. drops (of_write (write-fails link.noblock link.output ws (negative len h))))
                (λ _.
                  watched-IsAnswered id written ready k rest packet net refused most counted db'
                    kept (omega (arith, few, enough)) (left ∙ ap (λ s. drop k s) there))))

module _ {K : Type 0} (E : Epoll K) (L : LevelDb) (usage : Command Proc → Octets)
    (realloc : ℕ → Bool) (given : (n : ℕ) → realloc n ≡ true) (id : ℕ) (rest : Octets) (y : Octets)
    (ys : List Octets) (net : Server L.State) (ws : List Writing) where
  abbrev packet : Octets
  packet = packet_of (y ∷ ys)

  abbrev By : Option (List ℕ × NetworkServer L.State K) → Type 0
  By none = ⊥
  By (some (ready', t)) = IsAnswered E id rest packet net (fails ws) (offered ws) t

  result_of :
      (o : Option (List ℕ × NetworkServer L.State K))
      → By o
      → (ready' : List ℕ) × (t : NetworkServer L.State K) × (o ≡ some (ready', t))
        × IsAnswered E id rest packet net (fails ws) (offered ws) t
  result_of none h = elim h [ ]
  result_of (some (ready', t)) h = (ready', t, refl, h)

  inline-By :
      (req : Request) (link : Link) (ready : List ℕ) (s : NetworkServer L.State K)
      → link.input.bytes ≡ rest
      → link.output.bytes ≡ []
      → bound realloc given (y ∷ ys) + used link.output < 2 ^ 30
      → By (
          after_proc E L usage ws link ready
            (hand_over E L usage realloc (new_job id req) link s (answered (y ∷ ys) net)))
  unfolding after_proc hand_over send_response send proc_result put_link
  inline-By req link ready s kept fresh small =
      let ran : ProcJob = record (new_job id req) {
        result = proc_ok;
        cmd = command_of req s.net.proc_map;
        resp = y ∷ ys;
      } in
      let output = (send realloc (y ∷ ys) link.output).1 in
      let link' : Link = record link { output = output } in
      let t : NetworkServer L.State K = put_link E id (some link') (record s { net = net }) in
      let bytes : output.bytes ≡ packet =
        send-bytes realloc given y ys link.output small ∙ ap (λ b. b ++ packet) fresh in
      rw (put_link_lem E id (some link') (record s { net = net })) (
        finish_job-IsAnswered E ws ran link' ready rest packet net (fails ws) (offered ws) t
          (λ h. absurd (ground (arith, h))) (λ h. h) (omega arith) refl kept bytes)

  request-By :
      (req : Request) (link : Link) (ready : List ℕ) (s : NetworkServer L.State K)
      → Dispatch.proc L usage req s.net ≡ some (answered (y ∷ ys) net)
      → link.input.bytes ≡ rest
      → link.output.bytes ≡ []
      → bound realloc given (y ∷ ys) + used link.output < 2 ^ 30
      → By (serve_request E L usage realloc ws id req link ready s)
  unfolding serve_request proc
  request-By req link ready s handled kept fresh small =
      rw handled (inline-By req link ready s kept fresh small)

  parsed-By :
      (x : Octets) (xs : List Octets) (link : Link) (ready : List ℕ) (s : NetworkServer L.State K)
      → Dispatch.proc L usage (x ∷ xs) s.net ≡ some (answered (y ∷ ys) net)
      → link.input.bytes ≡ rest
      → link.output.bytes ≡ []
      → bound realloc given (y ∷ ys) + used link.output < 2 ^ 30
      → By (serve_parsed E L usage realloc ws id link ready s (received (x ∷ xs)))
  unfolding serve_parsed
  parsed-By x xs link ready s handled kept fresh small =
      request-By (x ∷ xs) link ready s handled kept fresh small

  -- A turn of the event loop over a ready link without an error and with nothing in its output,
  -- whose input begins with the packet of a request that `proc` answers at once, returns. Behind it
  -- the database is the handler's, and the link keeps the bytes behind the request and has the
  -- response's packet in its output, but for bytes from the front, no more than the calls of the
  -- system take; it is deleted only where a call of the system fails. Memory is given, the output
  -- block stays below 1 GB and the request is within the size limit.
  pub serve_link-answers :
      (x : Octets) (xs : List Octets) (link : Link) (ready : List ℕ) (s : NetworkServer L.State K)
      → s.links id ≡ some link
      → link.error ≡ false
      → link.input.bytes ≡ packet_of (x ∷ xs) ++ rest
      → length (records_of (x ∷ xs)) ≤ max_packet_size
      → link.output.bytes ≡ []
      → bound realloc given (y ∷ ys) + used link.output < 2 ^ 30
      → Dispatch.proc L usage (x ∷ xs) s.net ≡ some (answered (y ∷ ys) net)
      → (ready' : List ℕ) × (t : NetworkServer L.State K) × (serve_link E L usage realloc ws id
            ready s
          ≡ some (ready', t))
        × IsAnswered E id rest packet net (fails ws) (offered ws) t
  unfolding serve_link put_link
  serve_link-answers x xs link ready s there fine arrived size fresh small handled =
      let (got, kept) = recv-packet_of realloc x xs rest link.input arrived size in
      let link' : Link = record link { input = (recv realloc link.input).1 } in
      let s' : NetworkServer L.State K = put_link E id (some link') s in
      let parsed : Received → Option (List ℕ × NetworkServer L.State K) =
        serve_parsed E L usage realloc ws id link' ready s' in
      let h : By (parsed (recv realloc link.input).0) =
        subst (λ r. By (parsed r)) (sym got)
          (parsed-By x xs link' ready s' handled kept fresh small) in
      result_of (serve_link E L usage realloc ws id ready s) (
        rw there (
          subst
            (λ b. By (
              if b
              then some (ready, drop_link E id link s)
              else parsed (recv realloc link.input).0))
            (sym fine) h))
