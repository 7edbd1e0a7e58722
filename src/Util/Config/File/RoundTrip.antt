-- ===== src/Util/Config/File/RoundTrip.antt =====
-- `load` reads back what `save` has written.
use geminidb.Prelude.{
  ℕ, zero, suc, ◌+◌, ◌-◌, ◌≤◌, ◌≡◌, refl, sym, ap, ◌∙◌, ◌⊎◌, inl, inr, true, false, Bool-cases,
  some, List, [], ◌∷◌, ◌++◌, append_assoc, append-nil, Octets, codes, length, leb, ltb, arith,
}
use geminidb.Util.Config.{Config, Children, node, nil, more, new_config, add_child}
use geminidb.Util.Config.File.{
  Open, Loading, with_last_child, to_parent, up, to_root, parent_for, load_lines, load, save,
  save_children,
}
use geminidb.Util.Config.File.Lines.{load_line-line_for}
use geminidb.Util.Config.File.Split.{ArePlain, Fit, lines_of-save}

-- The node at a depth on the way from the root to the current node.
level : ℕ → Open → Open
level d at = up (length at.1 - d) at

length-to_parent : (at : Open) → length (to_parent at).1 ≡ length at.1 - 1
unfolding to_parent
length-to_parent (cfg, []) = refl
length-to_parent (cfg, p ∷ ps) = omega arith

length-up : (n : ℕ) (at : Open) → length (up n at).1 ≡ length at.1 - n
unfolding up
length-up zero at = omega arith
length-up (suc n) at = omega (arith, length-to_parent (up n at), length-up n at)

up-to_parent : (n : ℕ) (at : Open) → up n (to_parent at) ≡ to_parent (up n at)
unfolding up
up-to_parent zero at = refl
up-to_parent (suc n) at = ap to_parent (up-to_parent n at)

length-level : (d : ℕ) (at : Open) → d ≤ length at.1 → length (level d at).1 ≡ d
unfolding level
length-level d at h = omega (arith, length-up (length at.1 - d) at, h)

level-step : (d : ℕ) (at : Open) → suc d ≤ length at.1 → level d at ≡ to_parent (level (suc d) at)
unfolding level up
level-step d at h =
    let one_less : length at.1 - d ≡ suc (length at.1 - suc d) = omega (arith, h) in
    rw one_less refl

level-up : (d n : ℕ) (at : Open) → length at.1 - d ≡ n → level d at ≡ up n at
unfolding level
level-up d n at h = ap (λ m. up m at) h

level_self : (d : ℕ) (at : Open) → length at.1 ≡ d → level d at ≡ at
unfolding up
level_self d at h = level-up d 0 at (omega (arith, h))

to_parent-root : (at : Open) → length at.1 ≡ 0 → to_parent at ≡ at
unfolding to_parent
to_parent-root (cfg, []) h = refl
to_parent-root (cfg, p ∷ ps) h = absurd (omega arith)

to_root-level : (cfg : Config) (ps : List Config) → to_root cfg ps ≡ (level 0 (cfg, ps)).0
unfolding level up to_root to_parent
to_root-level cfg [] = refl
to_root-level cfg (p ∷ ps) =
    to_root-level (with_last_child p cfg) ps
    ∙ ap (λ at. at.0)
        (level-up 0 (length ps) (with_last_child p cfg, ps) (omega arith)
          ∙ up-to_parent (length ps) (cfg, p ∷ ps)
          ∙ sym (level-up 0 (suc (length ps)) (cfg, p ∷ ps) (omega arith)))

-- The depth of the current node is one more than the indent of the last line, but before the first line.
abbrev IsSane : Loading → Type 0
IsSane st = (length st.at.1 ≡ suc st.last_indent) ⊎ ((length st.at.1 ≡ 0) × (st.last_indent ≡ 0))

parent_for-level :
    (d : ℕ) (st : Loading) → IsSane st → d ≤ length st.at.1 → parent_for d st ≡ some (level d st.at)
unfolding parent_for level up
parent_for-level d st (inl h) le = elim (Bool-cases (leb d st.last_indent)) [
  | inl e ↦
      rw e (ap some (sym (level-up d (suc (st.last_indent - d)) st.at (ground (arith, h, e)))))
  | inr e ↦
      let last : ltb (st.last_indent + 1) d ≡ false = ground (arith, h, e, le) in
      rw (e, last) (ap some (sym (level_self d st.at (ground (arith, h, e, le)))))
]
parent_for-level d st (inr (h, e)) le =
    let first : leb d st.last_indent ≡ true = ground (arith, h, le) in
    let none_up : st.last_indent - d ≡ 0 = omega (arith, e) in
    rw (first, none_up)
      (ap some (to_parent-root st.at h ∙ sym (level_self d st.at (omega (arith, h, le)))))

add_all : Children → Children → Children
add_all nil cs = cs
add_all (more c ds) cs = more c (add_all ds cs)

add_all-nil : (cs : Children) → add_all cs nil ≡ cs
unfolding add_all
add_all-nil nil = refl
add_all-nil (more c cs) = ap (λ x. more c x) (add_all-nil cs)

add_all-add_child :
    (c : Config) (ds cs : Children) → add_all (add_child c ds) cs ≡ add_all ds (more c cs)
unfolding add_all add_child
add_all-add_child c nil cs = refl
add_all-add_child c (more d ds) cs = ap (λ x. more d x) (add_all-add_child c ds cs)

grown : Open → Children → Open
grown (node k v ds, ps) cs = (node k v (add_all ds cs), ps)

grown-nil : (at : Open) → grown at nil ≡ at
unfolding grown
grown-nil (node k v ds, ps) = ap (λ x. (node k v x, ps)) (add_all-nil ds)

grown-more :
    (c : Config) (at : Open) (cs : Children)
    → grown (with_last_child at.0 c, at.1) cs ≡ grown at (more c cs)
unfolding grown
grown-more c (node k v ds, ps) cs = ap (λ x. (node k v x, ps)) (add_all-add_child c ds cs)

-- The state behind the lines of some children of the node at a depth.
record Loaded (d : ℕ) (cs : Children) (rest : List Octets) (st : Loading) : Type 0 where
  behind : Loading
  sane : IsSane behind
  deep : d ≤ length behind.at.1
  same : level d behind.at ≡ grown (level d st.at) cs
  run : load_lines (save_children d cs ++ rest) st ≡ load_lines rest behind

-- The parent behind the lines of a child and of its children.
level-child :
    (d : ℕ) (at at' parent : Open) (k v : Octets) (ds : Children)
    → suc d ≤ length at.1
    → at' ≡ (new_config k v, parent.0 ∷ parent.1)
    → length at'.1 ≡ suc d
    → level (suc d) at ≡ grown (level (suc d) at') ds
    → level d at ≡ (with_last_child parent.0 (node k v ds), parent.1)
unfolding grown add_all to_parent
level-child d at at' parent k v ds deep is tall same =
    level-step d at deep
    ∙ ap to_parent (same ∙ ap (λ x. grown x ds) (level_self (suc d) at' tall ∙ is))

load_children :
    (d : ℕ) (cs : Children) (rest : List Octets) (st : Loading)
    → ArePlain cs
    → IsSane st
    → d ≤ length st.at.1
    → Loaded d cs rest st
unfolding save_children load_lines
load_children d nil rest st plain sane deep = record {
  behind = st;
  sane = sane;
  deep = deep;
  same = sym (grown-nil (level d st.at));
  run = refl;
}
load_children d (more (node [] v ds) cs) rest st plain sane deep = absurd (ground (arith, plain.0))
load_children d (more (node (c ∷ k) v ds) cs) rest st (plain, below, others) sane deep =
    let parent : Open = level d st.at in
    let st' : Loading = record {
      at = (new_config (c ∷ k) v, parent.0 ∷ parent.1);
      last_indent = d;
    } in
    let tall : length st'.at.1 ≡ suc d = ap suc (length-level d st.at deep) in
    let l : Loaded (suc d) ds (save_children d cs ++ rest) st' =
      load_children (suc d) ds (save_children d cs ++ rest) st' below (inl tall)
        (omega (arith, tall)) in
    let l' : Loaded d cs rest l.behind =
      load_children d cs rest l.behind others l.sane (omega (arith, l.deep)) in
    record {
      behind = l'.behind;
      sane = l'.sane;
      deep = l'.deep;
      same =
          l'.same
          ∙ ap (λ x. grown x cs)
              (level-child d l.behind.at st'.at parent (c ∷ k) v ds l.deep refl tall l.same)
          ∙ grown-more (node (c ∷ k) v ds) parent cs;
      run =
          rw
            (
              append_assoc (save_children (suc d) ds) (save_children d cs) rest,
              load_line-line_for d c k v st parent plain (parent_for-level d st sane deep),
            )
            (l.run ∙ l'.run);
    }

-- `load` reads the tree back that `save` wrote, but for the value of the root, if every key is not
-- empty, has no separator, does not begin with `#` and has no space at its ends, no value has a
-- space at its ends, neither has a newline, and every line that `save` writes is shorter than the
-- buffer of `load`.
pub load-save :
    (v : Octets) (cs : Children)
    → ArePlain cs
    → Fit 0 cs
    → load (save (node (codes "root") v cs)) ≡ some (node (codes "root") [] cs)
unfolding load save grown add_all load_lines
load-save v cs plain fit =
    let st : Loading = record { at = (new_config (codes "root") [], []); last_indent = 0 } in
    let l : Loaded 0 cs [] st = load_children 0 cs [] st plain (inr (refl, refl)) (omega arith) in
    let read : load_lines (save_children 0 cs) st ≡ some l.behind =
      ap (λ x. load_lines x st) (sym (append-nil (save_children 0 cs))) ∙ l.run in
    rw (lines_of-save 0 cs plain fit, read)
      (ap some (
        to_root-level l.behind.at.0 l.behind.at.1
        ∙ ap (λ at. at.0) (l.same ∙ ap (λ x. grown x cs) (level_self 0 st.at refl))))
