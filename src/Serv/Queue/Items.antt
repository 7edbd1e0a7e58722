-- ===== src/Serv/Queue/Items.antt =====
-- The queue commands, from the request to the response and the queue left behind.
use geminidb.Prelude.{
  ℕ, zero, suc, ◌+◌, ◌^◌, ◌<◌, ◌≡◌, ◌≢◌, refl, sym, ap, ◌∙◌, inl, false, none, some, List, [], ◌∷◌,
  ◌++◌, append_assoc, append-nil, Octets, codes, length, take, drop, ◌==◌, arith,
}
use geminidb.Prelude.Int.{pos}
use geminidb.Util.Number.{decimal, str_to_uint64, print_int}
use geminidb.Util.Number.RoundTrip.{length-decimal}
use geminidb.Data.LevelDb.{LevelDb}
use geminidb.Data.Keys.{qfront_seq}
use geminidb.Data.Binlog.{Geminidb}
use geminidb.Data.Queue.{qpop_front, qpush_back, error64}
use geminidb.Data.Queue.View.{IsQueue, IsHealthy}
use geminidb.Data.Queue.Pop.{qpop_front_takes}
use geminidb.Data.Queue.Push.{RoomBack, qpush_back_appends}
use geminidb.Data.Queue.Peek.{qpop_empty}
use geminidb.Net.Response.{Response, reply_int, add_int64}
use geminidb.Serv.Kv.{check_num_params}
use geminidb.Serv.Queue.{
  front, pop_items, pop_reply, pop_count, proc_qpop, proc_qpop_func, push_items, proc_qpush,
  proc_qpush_func,
}

-- The database holds the queue with these items.
abbrev pub Holds : (L : LevelDb) → L.State → Octets → List Octets → Type 0
Holds L s name items = (first : ℕ) × IsQueue (L.contents s) name first items

-- A size is printed within the 20 bytes.
reply_int-size : (n : ℕ) → n < 2 ^ 63 → reply_int (pos 0) n [] ≡ some (codes "ok" ∷ decimal n ∷ [])
unfolding reply_int add_int64 print_int
reply_int-size n h = ground (arith, length-decimal 18 n (omega arith))

room-small : (first : ℕ) (items : List Octets) → RoomBack first items → length items + 1 < 2 ^ 63
room-small first [] room = omega arith
room-small first (x ∷ xs) room = omega arith

module _ (L : LevelDb) (healthy : (s : L.State) → IsHealthy L s) (name : Octets) where
  qpop_front-empty :
      (first : ℕ) (g : Geminidb L.State)
      → IsQueue (L.contents g.ldb) name first []
      → ((qpop_front L name g).0 ≡ (pos 0, none)) × ((qpop_front L name g).1.ldb ≡ g.ldb)
  unfolding qpop_front
  qpop_front-empty first g q =
      qpop_empty L name first g qfront_seq (inl refl) (healthy g.ldb).reads q

  -- The loop of `qpop` takes the first `n` items in their order, or all, and leaves the others.
  pop_items-takes :
      (n first : ℕ) (items : List Octets) (resp : Response) (g : Geminidb L.State)
      → IsQueue (L.contents g.ldb) name first items
      → ((pop_items L front name n resp g).0 ≡ resp ++ take n items)
        × Holds L (pop_items L front name n resp g).1.ldb name (drop n items)
  unfolding pop_items
  pop_items-takes zero first items resp g q = (sym (append-nil resp), (first, q))
  pop_items-takes (suc n) first [] resp g q =
      let (result, kept) = qpop_front-empty first g q in
      rw (pop_items, result, kept) (sym (append-nil resp), (first, q))
  pop_items-takes (suc n) first (x ∷ items) resp g q =
      let (result, done) = qpop_front_takes L name x g first items (healthy g.ldb) q in
      let rest =
        pop_items-takes n done.front items (resp ++ (x ∷ [])) (qpop_front L name g).1 done.queue in
      rw (pop_items, result, ap (λ p. p.1) result)
        (rest.0 ∙ append_assoc resp (x ∷ []) (take n items), rest.1)

  -- Over a database that never fails, `qpop` with a count other than 1 answers `ok` with as many
  -- items from the front, in their order, or with all that there are, and leaves the others in the
  -- queue.
  pub proc_qpop-takes :
      (cmd count : Octets) (n first : ℕ) (items : List Octets) (g : Geminidb L.State)
      → str_to_uint64 count ≡ n
      → n ≢ 1
      → IsQueue (L.contents g.ldb) name first items
      → (r : Response) × (h : Geminidb L.State) × (proc_qpop L (cmd ∷ name ∷ count ∷ []) g
          ≡ some (r, h))
        × (r ≡ codes "ok" ∷ take n items)
        × Holds L h.ldb name (drop n items)
  unfolding proc_qpop proc_qpop_func check_num_params pop_count pop_reply
  proc_qpop-takes cmd count n first items g e many q =
      let (reply, left) = pop_items-takes n first items (codes "ok" ∷ []) g q in
      let result = pop_items L front name n (codes "ok" ∷ []) g in
      let counted : pop_count (cmd ∷ name ∷ count ∷ []) ≡ n = e in
      (
        result.0,
        result.1,
        ap (λ k. some (pop_reply L front name k g)) counted ∙ rw (pop_reply, several) refl,
        reply,
        left,
      )
    where
      several : (n == 1) ≡ false
      several = ground arith

  -- Over a database that never fails, `qpush` with one item answers `ok` and the new size in
  -- decimal and leaves the queue with the item at its back, if a number is left there.
  pub proc_qpush-appends :
      (cmd item : Octets) (first : ℕ) (items : List Octets) (g : Geminidb L.State)
      → IsQueue (L.contents g.ldb) name first items
      → RoomBack first items
      → (h : Geminidb L.State) × (proc_qpush L (cmd ∷ name ∷ item ∷ []) g
          ≡ some (codes "ok" ∷ decimal (length items + 1) ∷ [], h))
        × Holds L h.ldb name (items ++ (item ∷ []))
  unfolding proc_qpush proc_qpush_func check_num_params push_items
  proc_qpush-appends cmd item first items g q room =
      let (result, done) = qpush_back_appends L name item g first items (healthy g.ldb) q room in
      let small : length items + 1 < 2 ^ 63 = room-small first items room in
      let no_error : (length items + 1 == error64) ≡ false = ground arith in
      (
        (qpush_back L name item g).1,
        rw (push_items, result, no_error)
            (rw (push_items, reply_int-size (length items + 1) small) refl),
        (done.front, done.queue),
      )
