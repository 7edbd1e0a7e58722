-- ===== src/Util/Config/File/Split.antt =====
-- The lines that `save` prints are those that `load` reads.
use geminidb.Prelude.{
  ℕ, zero, suc, ◌-◌, ◌<◌, leb, length, length-append, ◌≡◌, refl, sym, ap, subst, ◌∙◌, false, List,
  [], ◌∷◌, ◌++◌, Octets, codes, ◌==◌, replicate, arith, All, All-append,
}
use geminidb.Util.Config.{Children, node, nil, more}
use geminidb.Util.Config.File.{
  config_max_line, first_byte, lines_of, line_for, save_children, flatten,
}
use geminidb.Util.Config.File.Lines.{IsPlain, PlainFrom}

-- Every node has a key and a value that a line can hold.
abbrev pub ArePlain : Children → Type 0
ArePlain nil = Unit
ArePlain (more (node k v ds) cs) = IsPlain k v × ArePlain ds × ArePlain cs

-- Every line that `save` prints for the children of a node at a depth fits into the buffer of `load`,
-- with its newline and the terminator.
abbrev pub Fit : ℕ → Children → Type 0
Fit d nil = Unit
Fit d (more (node k v ds) cs) =
    (length (line_for d k v) < config_max_line) × Fit (suc d) ds × Fit d cs

abbrev InLine : Octets → Type 0
InLine = All (λ c. (c == b'\n') ≡ false)

-- Bytes without a newline, and one newline, which the buffer holds.
record OneLine (line : Octets) : Type 0 where
  body : Octets
  is : line ≡ body ++ b'\n' ∷ []
  unbroken : InLine body
  fits : length body < config_max_line - 1

lines_of-append :
    (room : ℕ) (b s : Octets)
    → InLine b
    → length b < room
    → lines_of room ((b ++ b'\n' ∷ []) ++ s) ≡ (b ++ b'\n' ∷ []) ∷ lines_of (config_max_line - 1) s
unfolding lines_of first_byte
lines_of-append room [] s h fits = refl
lines_of-append room (c ∷ b) s (h, hs) fits =
    let wide : leb room 1 ≡ false = ground (arith, fits) in
    rw (h, wide, lines_of-append (room - 1) b s hs (omega (arith, fits))) refl

lines_of-flatten :
    (lines : List Octets)
    → All OneLine lines
    → lines_of (config_max_line - 1) (flatten lines) ≡ lines
unfolding lines_of
lines_of-flatten [] h = refl
lines_of-flatten (line ∷ lines) (o, os) =
    subst (λ l. lines_of (config_max_line - 1) (l ++ flatten lines) ≡ l ∷ lines) (sym o.is)
      (lines_of-append (config_max_line - 1) o.body (flatten lines) o.unbroken o.fits
        ∙ ap (λ ls. (o.body ++ b'\n' ∷ []) ∷ ls) (lines_of-flatten lines os))

tabs-InLine : (d : ℕ) → InLine (replicate d b'\t')
tabs-InLine zero = tt
tabs-InLine (suc d) = (refl, tabs-InLine d)

-- A part of bytes without a newline.
InLine-front : (s t : Octets) → InLine (s ++ t) → InLine s
InLine-front [] t h = tt
InLine-front (c ∷ s) t (h, hs) = (h, InLine-front s t hs)

InLine-back : (s t : Octets) → InLine (s ++ t) → InLine t
InLine-back [] t h = h
InLine-back (c ∷ s) t (h, hs) = InLine-back s t hs

line_for-OneLine :
    (d c : ℕ) (k v : Octets)
    → PlainFrom c k v
    → length (line_for d (c ∷ k) v) < config_max_line
    → OneLine (line_for d (c ∷ k) v)
unfolding line_for
line_for-OneLine d c k v p fits =
    let whole = All-append (λ e. (e == b'\n') ≡ false) in
    let body : Octets = replicate d b'\t' ++ ((c ∷ k) ++ codes ": " ++ v) in
    let is : line_for d (c ∷ k) v ≡ body ++ b'\n' ∷ [] = rw p.no_hash refl in
    record {
      body = body;
      is = is;
      fits = omega (arith, fits, ap length is, length-append body (b'\n' ∷ []));
      unbroken = whole (replicate d b'\t') ((c ∷ k) ++ codes ": " ++ v) (tabs-InLine d) (
          whole ((c ∷ k) ++ codes ": ") v
            (whole (c ∷ k) (codes ": ") (InLine-front (c ∷ k) v p.one_line) (refl, (refl, tt)))
            (InLine-back (c ∷ k) v p.one_line));
    }

save_children-OneLine :
    (d : ℕ) (cs : Children) → ArePlain cs → Fit d cs → All OneLine (save_children d cs)
unfolding save_children
save_children-OneLine d nil h f = tt
save_children-OneLine d (more (node [] v ds) cs) h f = absurd (ground (arith, h.0))
save_children-OneLine d (more (node (c ∷ k) v ds) cs) (p, hd, hc) (f, fd, fc) = (
  line_for-OneLine d c k v p f,
  All-append OneLine (save_children (suc d) ds) (save_children d cs)
      (save_children-OneLine (suc d) ds hd fd) (save_children-OneLine d cs hc fc),
)

pub lines_of-save :
    (d : ℕ) (cs : Children)
    → ArePlain cs
    → Fit d cs
    → lines_of (config_max_line - 1) (flatten (save_children d cs)) ≡ save_children d cs
lines_of-save d cs h f = lines_of-flatten (save_children d cs) (save_children-OneLine d cs h f)
