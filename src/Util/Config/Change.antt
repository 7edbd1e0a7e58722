-- ===== src/Util/Config/Change.antt =====
-- One child of a node that is changed or added, and the others.
use geminidb.Prelude.{
  ◌≡◌, refl, sym, subst, ◌∙◌, ◌⊎◌, inl, inr, true, false, Bool-cases, Option, none, some,
  Option-cases, [], Octets, octets_eq, octets_eq_refl, octets_eq_iff,
}
use geminidb.Util.Config.{
  Config, node, Children, nil, more, key, children, new_config, add_child, find_child, change_child,
  with_child,
}

-- Where a child is changed, the search finds the changed one; where none is, it found none.
record Found (f : Octets) (g : Config → Config) (cs : Children) : Type 0 where
  child : Config
  changed : Children
  before : find_child f cs ≡ some child
  change : change_child f g cs ≡ some changed
  after : find_child f changed ≡ some (g child)
  others : (f' : Octets) → octets_eq f f' ≡ false → find_child f' changed ≡ find_child f' cs

record Missing (f : Octets) (g : Config → Config) (cs : Children) : Type 0 where
  before : find_child f cs ≡ none
  change : change_child f g cs ≡ none

first_skipped :
    (f : Octets) (c : Config) (cs : Children)
    → octets_eq (key c) f ≡ false
    → find_child f (more c cs) ≡ find_child f cs
unfolding find_child
first_skipped f c cs e = elim (Option-cases (find_child f cs)) [
  | inl h ↦ rw (h, e) refl
  | inr (d, h) ↦ rw h refl
]

change_child_lem :
    (f : Octets) (g : Config → Config) (cs : Children)
    → ((c : Config) → key (g c) ≡ key c)
    → Found f g cs ⊎ Missing f g cs
unfolding find_child change_child
change_child_lem f g nil keeps = inr (record { before = refl; change = refl })
change_child_lem f g (more c cs) keeps = elim (change_child_lem f g cs keeps) [
  | inl r ↦ inl (record {
    child = r.child;
    changed = more c r.changed;
    before = rw r.before refl;
    change = rw r.change refl;
    after = rw r.after refl;
    others = λ f' ne. rw (r.others f' ne) refl;
  })
  | inr r ↦ elim (Bool-cases (octets_eq (key c) f)) [
    | inl e ↦ inl (record {
      child = c;
      changed = more (g c) cs;
      before = rw (r.before, e) refl;
      change = rw (r.change, e) refl;
      after = rw (r.before, keeps c, e) refl;
      others = λ f' ne.
          let ne' : octets_eq (key c) f' ≡ false =
            subst (λ k. octets_eq k f' ≡ false) (sym ((octets_eq_iff (key c) f).0 e)) ne in
          first_skipped f' (g c) cs (rw (keeps c) ne') ∙ sym (first_skipped f' c cs ne');
    })
    | inr e ↦ inr (record { before = rw (r.before, e) refl; change = rw (r.change, e) refl })
  ]
]

find_child-add_child :
    (f : Octets) (c : Config) (cs : Children)
    → octets_eq (key c) f ≡ true
    → find_child f (add_child c cs) ≡ some c
unfolding find_child add_child
find_child-add_child f c nil e = rw e refl
find_child-add_child f c (more d cs) e = rw (find_child-add_child f c cs e) refl

-- The child that a path goes to.
unfoldable pub or_new : Octets → Option Config → Config
or_new f none = new_config f []
or_new f (some c) = c

pub find_child-with_child :
    (f : Octets) (g : Config → Config) (conf : Config)
    → ((c : Config) → key (g c) ≡ key c)
    → find_child f (children (with_child f g conf))
      ≡ some (g (or_new f (find_child f (children conf))))
unfolding with_child or_new
find_child-with_child f g (node k v cs) keeps = elim (change_child_lem f g cs keeps) [
  | inl r ↦ rw (r.change, r.before) r.after
  | inr r ↦
      rw (r.change, r.before)
        (find_child-add_child f (g (new_config f [])) cs
          (rw (keeps (new_config f [])) (octets_eq_refl f)))
]

find_child-add_child_other :
    (f : Octets) (c : Config) (cs : Children)
    → octets_eq (key c) f ≡ false
    → find_child f (add_child c cs) ≡ find_child f cs
unfolding find_child add_child
find_child-add_child_other f c nil e = rw e refl
find_child-add_child_other f c (more d cs) e = rw (find_child-add_child_other f c cs e) refl

pub find_child-with_child_other :
    (f f' : Octets) (g : Config → Config) (conf : Config)
    → ((c : Config) → key (g c) ≡ key c)
    → octets_eq f f' ≡ false
    → find_child f' (children (with_child f g conf)) ≡ find_child f' (children conf)
unfolding with_child
find_child-with_child_other f f' g (node k v cs) keeps ne = elim (change_child_lem f g cs keeps) [
  | inl r ↦ rw r.change (r.others f' ne)
  | inr r ↦
      rw r.change
        (find_child-add_child_other f' (g (new_config f [])) cs (rw (keeps (new_config f [])) ne))
]
