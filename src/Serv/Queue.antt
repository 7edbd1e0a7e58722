-- ===== src/Serv/Queue.antt =====
-- The handlers of src/proc_queue.cpp.
pub mod Items
use geminidb.Prelude.{
  ℕ, zero, suc, ◌+◌, ◌-◌, Bool, true, false, Option, none, some, ◌>>=◌, List, [], ◌∷◌, ◌++◌, Octets,
  codes, length, drop, get_elem?, ltb, ◌==◌, if◌then◌else◌,
}
use geminidb.Prelude.Int.{ℤ, pos, is_minus_one, is_nonpos, int_of_word}
use geminidb.Util.Number.{str_to_uint64}
use geminidb.Data.LevelDb.{LevelDb}
use geminidb.Data.Binlog.{Geminidb}
use geminidb.Data.Queue
use geminidb.Data.Queue.{
  error64, qsize, qfront, qback, qpush_front, qpush_back, qpop_front, qpop_back,
}
use geminidb.Net.Response.{Response, push_back, push_message, reply_int, reply_get}
use geminidb.Serv.Kv.{Request, Outcome, answer, check_num_params}

-- `QFRONT` and `QBACK`
pub data End : Type 0 where
  front : End
  back : End

-- `size` of `proc_qpop_func`
unfoldable pub pop_count : Request → ℕ
unfolding str_to_uint64
pop_count req = elim (get_elem? req 2) [ none ↦ 1 | some count ↦ str_to_uint64 count ]

module _ (L : LevelDb) where
  -- The size is cut to an `int` where it stands for the status.
  unfoldable pub proc_qsize : Request → Geminidb L.State → Outcome (Geminidb L.State)
  unfolding check_num_params qsize reply_int
  proc_qsize req g = check_num_params 2 req g (do
    name ← get_elem? req 1
    let ret = qsize L g.ldb name
    answer (reply_int (int_of_word ret) ret []) g)

  unfoldable pub proc_qfront : Request → Geminidb L.State → Outcome (Geminidb L.State)
  unfolding check_num_params qfront reply_get
  proc_qfront req g = check_num_params 2 req g (do
    name ← get_elem? req 1
    let (ret, item) = qfront L g.ldb name
    some (reply_get ret item none [], g))

  unfoldable pub proc_qback : Request → Geminidb L.State → Outcome (Geminidb L.State)
  unfolding check_num_params qback reply_get
  proc_qback req g = check_num_params 2 req g (do
    name ← get_elem? req 1
    let (ret, item) = qback L g.ldb name
    some (reply_get ret item none [], g))

  abbrev pub push_one : End → Octets → Octets → Geminidb L.State → ℕ × Geminidb L.State
  push_one front name item g = qpush_front L name item g
  push_one back name item g = qpush_back L name item g

  -- The loop over the items, each in a transaction of its own; `size` is the last result.
  unfoldable pub push_items :
      End → Octets → List Octets → ℕ → Geminidb L.State → Outcome (Geminidb L.State)
  unfolding reply_int
  push_items front_or_back name [] size g = do resp ← reply_int (pos 0) size []; some (resp, g)
  push_items front_or_back name (item ∷ items) size g =
      let (size', g') = push_one front_or_back name item g in
      let rest = push_items front_or_back name items size' g' in
      if size' == error64 then some (codes "error" ∷ [], g') else rest

  unfoldable pub proc_qpush_func : End → Request → Geminidb L.State → Outcome (Geminidb L.State)
  unfolding check_num_params push_items
  proc_qpush_func front_or_back req g =
      check_num_params 3 req g
        (do name ← get_elem? req 1; push_items front_or_back name (drop 2 req) 0 g)

  unfoldable pub proc_qpush_front : Request → Geminidb L.State → Outcome (Geminidb L.State)
  unfolding proc_qpush_func
  proc_qpush_front = proc_qpush_func front

  unfoldable pub proc_qpush_back : Request → Geminidb L.State → Outcome (Geminidb L.State)
  unfolding proc_qpush_func
  proc_qpush_back = proc_qpush_func back

  unfoldable pub proc_qpush : Request → Geminidb L.State → Outcome (Geminidb L.State)
  unfolding proc_qpush_func
  proc_qpush = proc_qpush_func back

  abbrev pub pop_one : End → Octets → Geminidb L.State → (ℤ × Option Octets) × Geminidb L.State
  pop_one front name g = qpop_front L name g
  pop_one back name g = qpop_back L name g

  -- `while(size-- > 0)`, which ends at a pop without an item.
  unfoldable pub pop_items :
      End → Octets → ℕ → Response → Geminidb L.State → Response × Geminidb L.State
  pop_items front_or_back name zero resp g = (resp, g)
  pop_items front_or_back name (suc size) resp g =
      let ((ret, item), g') = pop_one front_or_back name g in
      elim (is_nonpos ret) [
        | true ↦ (resp, g')
        | false ↦ pop_items front_or_back name size (push_message item resp) g'
      ]

  pop_reply : End → Octets → ℕ → Geminidb L.State → Response × Geminidb L.State
  unfolding reply_get pop_items
  pop_reply front_or_back name size g =
      let ((ret, item), g') = pop_one front_or_back name g in
      elim (size == 1) [
        | true ↦ (reply_get ret item none [], g')
        | false ↦ pop_items front_or_back name size (codes "ok" ∷ []) g
      ]

  unfoldable pub proc_qpop_func : End → Request → Geminidb L.State → Outcome (Geminidb L.State)
  unfolding check_num_params pop_count pop_reply
  proc_qpop_func front_or_back req g =
      check_num_params 2 req g
        (do name ← get_elem? req 1; some (pop_reply front_or_back name (pop_count req) g))

  unfoldable pub proc_qpop_front : Request → Geminidb L.State → Outcome (Geminidb L.State)
  unfolding proc_qpop_func
  proc_qpop_front = proc_qpop_func front

  unfoldable pub proc_qpop_back : Request → Geminidb L.State → Outcome (Geminidb L.State)
  unfolding proc_qpop_func
  proc_qpop_back = proc_qpop_func back

  unfoldable pub proc_qpop : Request → Geminidb L.State → Outcome (Geminidb L.State)
  unfolding proc_qpop_func
  proc_qpop = proc_qpop_func front
