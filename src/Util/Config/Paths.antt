-- ===== src/Util/Config/Paths.antt =====
-- Reads behind writes of a tree of settings, at one path and at two.
use geminidb.Prelude.{
  ◌>>=◌, ◌≡◌, ◌≢◌, ◌↔◌, ◌&&◌, refl, sym, ap, subst, ◌∙◌, inl, inr, Bool, true, false, Bool-cases,
  Option, none, some, List, [], ◌∷◌, ◌++◌, Octets, octets_eq, octets_eq_iff, take, if◌then◌else◌,
  arith,
}
use mathlib.Core.Path.{fun_ext, ap₂}
use geminidb.Util.Config.Change.{or_new, find_child-with_child, find_child-with_child_other}
use geminidb.Util.Config.{
  Config, node, key, val, children, new_config, find_child, is_separator, get_loop, get, with_child,
  build_loop, with_val, set, get_str,
}

-- The fields of a path.
unfoldable pub fields_from : Octets → Octets → List Octets
fields_from f [] = f ∷ []
fields_from f (c ∷ fs) =
    let below = fields_from [] fs in
    let rest = fields_from (f ++ c ∷ []) fs in if is_separator c then f ∷ below else rest

unfoldable pub fields : Octets → List Octets
unfolding fields_from
fields path = fields_from [] (take 4095 path)

get_fields : List Octets → Config → Option Config
get_fields [] conf = some conf
get_fields (f ∷ fs) conf = find_child f (children conf) >>= get_fields fs

build_fields : List Octets → (Config → Config) → Config → Config
build_fields [] g conf = g conf
build_fields (f ∷ fs) g conf = with_child f (build_fields fs g) conf

bind_some : (o : Option Config) → o ≡ (o >>= some)
bind_some none = refl
bind_some (some c) = refl

bind_ext :
    (o : Option Config) (k k' : Config → Option Config)
    → ((c : Config) → k c ≡ k' c)
    → (o >>= k) ≡ (o >>= k')
bind_ext none k k' h = refl
bind_ext (some c) k k' h = h c

get_loop_lem :
    (f path : Octets) (conf : Config) → get_loop f path conf ≡ get_fields (fields_from f path) conf
unfolding get_loop fields_from get_fields
get_loop_lem f [] conf = bind_some (find_child f (children conf))
get_loop_lem f (c ∷ path) conf = elim (Bool-cases (is_separator c)) [
  | inl e ↦ rw e (
      bind_ext (find_child f (children conf)) (get_loop [] path) (get_fields (fields_from [] path))
        (get_loop_lem [] path))
  | inr e ↦ rw e (get_loop_lem (f ++ c ∷ []) path conf)
]

build_loop_lem :
    (f path : Octets) (g : Config → Config) (conf : Config)
    → build_loop f path g conf ≡ build_fields (fields_from f path) g conf
unfolding build_loop fields_from build_fields
build_loop_lem f [] g conf = refl
build_loop_lem f (c ∷ path) g conf = elim (Bool-cases (is_separator c)) [
  | inl e ↦ rw e (ap (λ h. with_child f h conf) (fun_ext (build_loop_lem [] path g)))
  | inr e ↦ rw e (build_loop_lem (f ++ c ∷ []) path g conf)
]

text_of : Option Config → Octets
text_of none = []
text_of (some c) = val c

text_of-get_fields_new :
    (f : Octets) (fs : List Octets) → text_of (get_fields fs (new_config f [])) ≡ []
unfolding text_of get_fields find_child
text_of-get_fields_new f [] = refl
text_of-get_fields_new f (x ∷ fs) = refl

build_fields-key :
    (fs : List Octets) (g : Config → Config)
    → ((c : Config) → key (g c) ≡ key c)
    → (c : Config) → key (build_fields fs g c) ≡ key c
unfolding build_fields with_child
build_fields-key [] g keeps c = keeps c
build_fields-key (f ∷ fs) g keeps (node k v cs) = refl

with_val-key : (v : Octets) (c : Config) → key (with_val v c) ≡ key c
with_val-key v (node k old cs) = refl

val-with_val : (v : Octets) (c : Config) → val (with_val v c) ≡ v
val-with_val v (node k old cs) = refl

children-with_val : (v : Octets) (c : Config) → children (with_val v c) ≡ children c
children-with_val v (node k old cs) = refl

val-with_child : (f : Octets) (g : Config → Config) (c : Config) → val (with_child f g c) ≡ val c
unfolding with_child
val-with_child f g (node k v cs) = refl

-- A read of the fields behind a write at them.
same_fields :
    (fs : List Octets) (v : Octets) (conf : Config)
    → text_of (get_fields fs (build_fields fs (with_val v) conf)) ≡ v
unfolding get_fields build_fields text_of
same_fields [] v conf = val-with_val v conf
same_fields (f ∷ fs) v conf =
    rw
      (find_child-with_child f (build_fields fs (with_val v)) conf
        (build_fields-key fs (with_val v) (with_val-key v)))
      (same_fields fs v (or_new f (find_child f (children conf))))

text_of-or_new :
    (f : Octets) (fs : List Octets) (o : Option Config)
    → text_of (get_fields fs (or_new f o)) ≡ text_of (o >>= get_fields fs)
unfolding or_new text_of
text_of-or_new f fs none = text_of-get_fields_new f fs
text_of-or_new f fs (some c) = refl

-- A read of other fields.
other_fields :
    (fs ds : List Octets) (v : Octets) (conf : Config)
    → fs ≢ ds
    → text_of (get_fields ds (build_fields fs (with_val v) conf)) ≡ text_of (get_fields ds conf)
unfolding get_fields build_fields text_of
other_fields [] [] v conf ne = absurd (ne refl)
other_fields [] (d ∷ ds) v conf ne = rw (children-with_val v conf) refl
other_fields (f ∷ fs) [] v conf ne = val-with_child f (build_fields fs (with_val v)) conf
other_fields (f ∷ fs) (d ∷ ds) v conf ne =
    let keeps = build_fields-key fs (with_val v) (with_val-key v) in
    elim (Bool-cases (octets_eq f d)) [
      | inr e ↦
          rw (find_child-with_child_other f d (build_fields fs (with_val v)) conf keeps e) refl
      | inl e ↦
          let same : f ≡ d = (octets_eq_iff f d).0 e in
          let found : Option Config = find_child f (children conf) in
          subst
            (λ x.
              text_of (
                find_child x (children (with_child f (build_fields fs (with_val v)) conf))
                >>= get_fields ds)
              ≡ text_of (find_child x (children conf) >>= get_fields ds))
            same
            (rw (find_child-with_child f (build_fields fs (with_val v)) conf keeps) (
              other_fields fs ds v (or_new f found) (λ q. ne (ap₂ (λ x xs. x ∷ xs) same q))
              ∙ text_of-or_new f ds found))
    ]

get_str_lem :
    (path : Octets) (conf : Config) → get_str path conf ≡ text_of (get_fields (fields path) conf)
unfolding get_str text_of fields
get_str_lem path conf = rw (sym (get_loop_lem [] (take 4095 path) conf)) (shown (get path conf))
  where
    shown : (o : Option Config) → elim o [ none ↦ [] | some c ↦ val c ] ≡ text_of o
    shown none = refl
    shown (some c) = refl

set_lem :
    (path v : Octets) (conf : Config)
    → set path v conf ≡ build_fields (fields path) (with_val v) conf
unfolding set fields
set_lem path v conf = build_loop_lem [] (take 4095 path) (with_val v) conf

fields_eq : List Octets → List Octets → Bool
fields_eq [] [] = true
fields_eq [] (d ∷ ds) = false
fields_eq (f ∷ fs) [] = false
fields_eq (f ∷ fs) (d ∷ ds) = octets_eq f d && fields_eq fs ds

fields_eq_iff : (fs ds : List Octets) → (fields_eq fs ds ≡ true) ↔ (fs ≡ ds)
unfolding fields_eq
fields_eq_iff [] [] = (λ _. refl, λ _. refl)
fields_eq_iff [] (d ∷ ds) = ground arith
fields_eq_iff (f ∷ fs) [] = ground arith
fields_eq_iff (f ∷ fs) (d ∷ ds) = ground (arith, octets_eq_iff f d, fields_eq_iff fs ds)

-- Whether two paths have the same fields.
unfoldable pub same_path : Octets → Octets → Bool
unfolding fields_eq
same_path path other = fields_eq (fields path) (fields other)

get_str-set_lem :
    (path other v : Octets) (conf : Config)
    → get_str other (set path v conf)
      ≡ text_of (get_fields (fields other) (build_fields (fields path) (with_val v) conf))
get_str-set_lem path other v conf =
    get_str_lem other (set path v conf)
    ∙ ap (λ c. text_of (get_fields (fields other) c)) (set_lem path v conf)

-- `get_str` behind `set` gives the new value at every path with the same fields, and at any other
-- path what it gave before.
pub get_str-set :
    (path other v : Octets) (conf : Config)
    → get_str other (set path v conf) ≡ (if same_path path other then v else get_str other conf)
unfolding same_path
get_str-set path other v conf = elim (Bool-cases (same_path path other)) [
  | inl e ↦
      let same : fields path ≡ fields other = (fields_eq_iff (fields path) (fields other)).0 e in
      rw e (
        get_str-set_lem path other v conf
        ∙ subst (λ ds. text_of (get_fields ds (build_fields (fields path) (with_val v) conf)) ≡ v)
            same (same_fields (fields path) v conf))
  | inr e ↦ rw e (
      get_str-set_lem path other v conf
      ∙ other_fields (fields path) (fields other) v conf
          (λ q. ground (arith, e, (fields_eq_iff (fields path) (fields other)).1 q))
      ∙ sym (get_str_lem other conf))
]
