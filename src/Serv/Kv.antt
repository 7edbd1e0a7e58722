-- ===== src/Serv/Kv.antt =====
-- The handlers of src/proc_kv.cpp. A handler takes the request and gives the response with the
-- database; `none` is an access out of bounds.
pub mod Stored
use geminidb.Prelude.{
  ℕ, ◌%◌, not, ◌||◌, Option, none, some, ◌>>=◌, List, [], ◌∷◌, Octets, codes, length, drop,
  get_elem?, ltb, ◌==◌, if◌then◌else◌,
}
use geminidb.Prelude.Int.{pos, is_minus_one, int_eq, int64_of_int}
use geminidb.Data.LevelDb.{LevelDb}
use geminidb.Data.Binlog.{Geminidb}
use geminidb.Data.Kv
use geminidb.Net.Response.{Response, push_back, push_message, reply_bool, reply_int, reply_get}

abbrev pub Request : Type 0
Request = List Octets

-- The outcome of a handler, over the database `D`.
abbrev pub Outcome : Type 0 → Type 0
Outcome D = Option (Response × D)

-- A response that leaves the state.
abbrev pub answer : {D : Type 0} → Option Response → D → Outcome D
answer none g = none
answer (some resp) g = some (resp, g)

-- `CHECK_NUM_PARAMS` of src/serv.h
unfoldable pub check_num_params : {D : Type 0} → ℕ → Request → D → Outcome D → Outcome D
check_num_params n req g body =
    if ltb (length req) n
    then some (codes "client_error" ∷ codes "wrong number of arguments" ∷ [], g)
    else body

module _ (L : LevelDb) where
  unfoldable pub proc_get : Request → Geminidb L.State → Outcome (Geminidb L.State)
  unfolding check_num_params Kv.get reply_get
  proc_get req g = check_num_params 2 req g (do
    key ← get_elem? req 1
    let (ret, val) = Kv.get L g.ldb key
    some (reply_get ret val none [], g))

  unfoldable pub proc_set : Request → Geminidb L.State → Outcome (Geminidb L.State)
  unfolding check_num_params Kv.set
  proc_set req g = check_num_params 3 req g (do
    key ← get_elem? req 1
    val ← get_elem? req 2
    let (ret, g') = Kv.set L key val g
    some (if is_minus_one ret then codes "error" ∷ [] else codes "ok" ∷ codes "1" ∷ [], g'))

  unfoldable pub proc_exists : Request → Geminidb L.State → Outcome (Geminidb L.State)
  unfolding check_num_params Kv.get reply_bool
  proc_exists req g =
      check_num_params 2 req g
        (do key ← get_elem? req 1; some (reply_bool (Kv.get L g.ldb key).0 none [], g))

  unfoldable pub exists_all : L.State → List Octets → Response → Response
  unfolding Kv.get
  exists_all s [] resp = resp
  exists_all s (key ∷ keys) resp =
      let mark = if int_eq (Kv.get L s key).0 (pos 1) then codes "1" else codes "0" in
      exists_all s keys (push_back mark (push_back key resp))

  unfoldable pub proc_multi_exists : Request → Geminidb L.State → Outcome (Geminidb L.State)
  unfolding check_num_params exists_all
  proc_multi_exists req g =
      check_num_params 2 req g (some (exists_all g.ldb (drop 1 req) (codes "ok" ∷ []), g))

  -- The status of the reply is 0, also where `multi_set` fails.
  unfoldable pub proc_multi_set : Request → Geminidb L.State → Outcome (Geminidb L.State)
  unfolding Kv.multi_set reply_int
  proc_multi_set req g =
      let stored = do
        (ret, g') ← Kv.multi_set L req 1 g
        resp ← reply_int (pos 0) (int64_of_int ret) []
        some (resp, g')
      in if ltb (length req) 3 || not (length req % 2 == 1)
        then some (codes "client_error" ∷ [], g)
        else stored

  unfoldable pub proc_multi_del : Request → Geminidb L.State → Outcome (Geminidb L.State)
  unfolding check_num_params Kv.multi_del reply_int
  proc_multi_del req g =
      let (ret, g') = Kv.multi_del L req 1 g in
      let counted = do resp ← reply_int (pos 0) (int64_of_int ret) []; some (resp, g')
      in check_num_params 2 req g
        (if is_minus_one ret then some (codes "error" ∷ [], g') else counted)

  unfoldable pub get_all : L.State → List Octets → Response → Response
  unfolding Kv.get
  get_all s [] resp = resp
  get_all s (key ∷ keys) resp =
      let (ret, val) = Kv.get L s key in
      get_all s keys (if int_eq ret (pos 1) then push_message val (push_back key resp) else resp)

  unfoldable pub proc_multi_get : Request → Geminidb L.State → Outcome (Geminidb L.State)
  unfolding check_num_params get_all
  proc_multi_get req g =
      check_num_params 2 req g (some (get_all g.ldb (drop 1 req) (codes "ok" ∷ []), g))

  unfoldable pub proc_del : Request → Geminidb L.State → Outcome (Geminidb L.State)
  unfolding check_num_params Kv.del
  proc_del req g = check_num_params 2 req g (do
    key ← get_elem? req 1
    let (ret, g') = Kv.del L key g
    some (if is_minus_one ret then codes "error" ∷ [] else codes "ok" ∷ codes "1" ∷ [], g'))
