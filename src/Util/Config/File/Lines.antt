-- ===== src/Util/Config/File/Lines.antt =====
-- What `load` reads in a line that `save` prints.
use geminidb.Prelude.{
  ℕ, zero, suc, ◌≡◌, refl, ap, true, false, some, [], ◌∷◌, ◌++◌, append_assoc, Octets, codes, drop,
  ◌==◌, replicate, arith, All,
}
use geminidb.Util.Number.{is_space, skip_spaces}
use geminidb.Util.Config.{new_config}
use geminidb.Util.Config.File.{
  is_kv_seperator, Open, Loading, indent_of, split_kv, parent_for, load_key, drop_last, load_line,
  line_for,
}
use geminidb.Util.Text.{is_empty_str, trim}

-- A key and a value that a line can hold: the key begins with a byte that is no space and no `#`, and has
-- no separator, and neither has spaces at its ends or a newline.
pub record PlainFrom (c : ℕ) (k v : Octets) : Type 0 where
  pub shown : is_space c ≡ false
  pub no_hash : (c == b'#') ≡ false
  pub unsplit : All (λ d. is_kv_seperator d ≡ false) (c ∷ k)
  pub key_trimmed : trim (c ∷ k) ≡ c ∷ k
  pub val_trimmed : trim v ≡ v
  pub one_line : All (λ d. (d == b'\n') ≡ false) (c ∷ (k ++ v))

abbrev pub IsPlain : Octets → Octets → Type 0
IsPlain [] v = false ≡ true
IsPlain (c ∷ k) v = PlainFrom c k v

abbrev tabs : ℕ → Octets
tabs d = replicate d b'\t'

drop_last-append : (s : Octets) (c : ℕ) → drop_last (s ++ c ∷ []) ≡ s
unfolding drop_last
drop_last-append [] c = refl
drop_last-append (d ∷ []) c = refl
drop_last-append (d ∷ e ∷ s) c = ap (λ x. d ∷ x) (drop_last-append (e ∷ s) c)

is_empty_str-tabs :
    (d c : ℕ) (s : Octets) → is_space c ≡ false → is_empty_str (tabs d ++ c ∷ s) ≡ false
unfolding is_empty_str
is_empty_str-tabs zero c s h = rw h refl
is_empty_str-tabs (suc d) c s h = is_empty_str-tabs d c s h

indent_of-tabs : (d c : ℕ) (s : Octets) → is_space c ≡ false → indent_of (tabs d ++ c ∷ s) ≡ d
unfolding indent_of
indent_of-tabs zero c s h = ground arith
indent_of-tabs (suc d) c s h = ap suc (indent_of-tabs d c s h)

drop-tabs : (d : ℕ) (s : Octets) → drop d (tabs d ++ s) ≡ s
drop-tabs zero s = refl
drop-tabs (suc d) s = drop-tabs d s

split_kv-append :
    (k s : Octets) → All (λ c. is_kv_seperator c ≡ false) k → split_kv (k ++ b':' ∷ s) ≡ some (k, s)
unfolding split_kv
split_kv-append [] s h = refl
split_kv-append (c ∷ k) s (h, hs) = rw (h, split_kv-append k s hs) refl

trim-blank : (v : Octets) → trim (b' ' ∷ v) ≡ trim v
unfolding trim skip_spaces
trim-blank v = refl

-- The line between the tabs and the newline.
line_body :
    (d c : ℕ) (k v : Octets)
    → (c == b'#') ≡ false
    → drop_last (line_for d (c ∷ k) v) ≡ tabs d ++ c ∷ (k ++ b':' ∷ b' ' ∷ v)
unfolding line_for
line_body d c k v h =
    rw (h, append_assoc k (codes ": ") v)
      (drop_last-append (tabs d ++ c ∷ (k ++ b':' ∷ b' ' ∷ v)) b'\n')

load_key-plain :
    (d c : ℕ) (k v : Octets) (st : Loading) (parent : Open)
    → PlainFrom c k v
    → parent_for d st ≡ some parent
    → load_key d (c ∷ (k ++ b':' ∷ b' ' ∷ v)) st
      ≡ some (record { at = (new_config (c ∷ k) v, parent.0 ∷ parent.1); last_indent = d })
unfolding load_key
load_key-plain d c k v st parent p e =
    rw
      (
        p.no_hash,
        e,
        p.shown,
        split_kv-append (c ∷ k) (b' ' ∷ v) p.unsplit,
        trim-blank v,
        p.key_trimmed,
        p.val_trimmed,
      )
      refl

pub load_line-line_for :
    (d c : ℕ) (k v : Octets) (st : Loading) (parent : Open)
    → PlainFrom c k v
    → parent_for d st ≡ some parent
    → load_line (line_for d (c ∷ k) v) st
      ≡ some (record { at = (new_config (c ∷ k) v, parent.0 ∷ parent.1); last_indent = d })
unfolding load_line
load_line-line_for d c k v st parent p e =
    let s = k ++ b':' ∷ b' ' ∷ v in
    rw
      (
        line_body d c k v p.no_hash,
        is_empty_str-tabs d c s p.shown,
        indent_of-tabs d c s p.shown,
        drop-tabs d (c ∷ s),
      )
      (load_key-plain d c k v st parent p e)
