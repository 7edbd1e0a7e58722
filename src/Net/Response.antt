-- ===== src/Net/Response.antt =====
-- `class Response` of src/net/resp.cpp: a list of byte strings, to which the calls append. A number is
-- printed into 20 bytes with its terminator: `none` is a print that does not fit.
use geminidb.Prelude.{
  ℕ, Option, none, some, List, [], ◌∷◌, ◌++◌, Octets, codes, length, ltb, if◌then◌else◌,
}
use geminidb.Prelude.Int.{ℤ, pos, is_minus_one, int_eq, signed64, int64_of_int}
use geminidb.Util.Number.{decimal, print_int}

abbrev pub Response : Type 0
Response = List Octets

abbrev pub push_back : Octets → Response → Response
push_back s resp = resp ++ (s ∷ [])

abbrev pub push_text : Octets → Response → Option Response
push_text s resp = if ltb 19 (length s) then none else some (push_back s resp)

unfoldable pub add_int64 : ℕ → Response → Option Response
unfolding print_int
add_int64 s resp = push_text (print_int (signed64 s)) resp

unfoldable pub add_int : ℤ → Response → Option Response
unfolding add_int64
add_int s resp = add_int64 (int64_of_int s) resp

unfoldable pub add_uint64 : ℕ → Response → Option Response
unfolding decimal
add_uint64 s resp = push_text (decimal s) resp

abbrev pub push_message : Option Octets → Response → Response
push_message none resp = resp
push_message (some errmsg) resp = push_back errmsg resp

unfoldable pub reply_status : ℤ → Option Octets → Response → Response
reply_status status errmsg resp =
    if is_minus_one status
    then push_message errmsg (push_back (codes "error") resp)
    else push_back (codes "ok") resp

unfoldable pub reply_bool : ℤ → Option Octets → Response → Response
reply_bool status errmsg resp =
    if is_minus_one status
    then push_message errmsg (push_back (codes "error") resp)
    else if int_eq status (pos 0)
    then push_back (codes "0") (push_back (codes "ok") resp)
    else push_back (codes "1") (push_back (codes "ok") resp)

unfoldable pub reply_int : ℤ → ℕ → Response → Option Response
unfolding add_int64
reply_int status val resp =
    if is_minus_one status
    then some (push_back (codes "error") resp)
    else add_int64 val (push_back (codes "ok") resp)

unfoldable pub reply_get : ℤ → Option Octets → Option Octets → Response → Response
reply_get status val errmsg resp =
    if is_minus_one status
    then push_message errmsg (push_back (codes "error") resp)
    else if int_eq status (pos 0)
    then push_message errmsg (push_back (codes "not_found") resp)
    else push_message val (push_back (codes "ok") resp)

unfoldable pub reply_list : ℤ → List Octets → Response → Response
reply_list status list resp =
    if is_minus_one status
    then push_back (codes "error") resp
    else push_back (codes "ok") resp ++ list
