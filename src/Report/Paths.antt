-- ===== src/Report/Paths.antt =====
-- `getIn` after `setIn`, and when `setIn` succeeds.
use streamlit.Prelude.{
  List, Option, String, [], ap, arith, inl, inr, none, refl, some, suc, sym, zero, ℕ, ◌<◌, ◌↔◌, ◌∙◌,
  ◌∷◌, ◌≡◌, ◌≢◌, ◌≤◌, ◌⊎◌,
}
use streamlit.Prelude.Result.{Result, err, ok}
use streamlit.Report.Proto.{BlockProto, Error}
use streamlit.Report.Node.{
  Nodes, ReportNode, block_node, child, children_length, cons, element_node, get_in, nil, put,
  set_in,
}

-- Two paths that part at some index.
abbrev pub Diverge : List ℕ → List ℕ → Type 0
Diverge (i ∷ p) (j ∷ q) = (i ≢ j) ⊎ ((i ≡ j) × Diverge p q)
Diverge p q = ⊥

module _ {L : Type 0} where
  child-put_self :
      (i : ℕ) (n : ReportNode L) (ns : Nodes L)
      → i ≤ children_length ns
      → child (put i n ns) i ≡ some n
  child-put_self zero n nil h = refl
  child-put_self (suc i) n nil h = absurd (omega arith)
  child-put_self zero n (cons m ns) h = refl
  child-put_self (suc i) n (cons m ns) h = child-put_self i n ns (omega arith)

  child-put_ne :
      (i j : ℕ) (n : ReportNode L) (ns : Nodes L)
      → i ≤ children_length ns
      → i ≢ j
      → child (put i n ns) j ≡ child ns j
  child-put_ne zero zero n ns h ne = absurd (ne refl)
  child-put_ne zero (suc j) n nil h ne = refl
  child-put_ne (suc i) j n nil h ne = absurd (omega arith)
  child-put_ne zero (suc j) n (cons m ns) h ne = refl
  child-put_ne (suc i) zero n (cons m ns) h ne = refl
  child-put_ne (suc i) (suc j) n (cons m ns) h ne =
      child-put_ne i j n ns (omega arith) (λ e. ne (ap suc e))

  pub child-lt_length :
      (i : ℕ) (ns : Nodes L) {n : ReportNode L} → child ns i ≡ some n → i < children_length ns
  child-lt_length i nil e = cc
  child-lt_length zero (cons m ns) e = omega arith
  child-lt_length (suc i) (cons m ns) e = omega (arith, child-lt_length i ns e)

  -- A path at which `setIn` can set a node: each index but the last names a child, and the last
  -- one a child or the place behind the children.
  abbrev pub IsSettable : ReportNode L → List ℕ → Type 0
  IsSettable (element_node l id) path = ⊥
  IsSettable (block_node ns proto id) [] = ⊥
  IsSettable (block_node ns proto id) (i ∷ []) = i ≤ children_length ns
  IsSettable (block_node ns proto id) (i ∷ j ∷ path) =
      (n : ReportNode L) × (child ns i ≡ some n) × IsSettable n (j ∷ path)

  -- `setIn` succeeds at every settable path.
  pub set_in-ok :
      (r : ReportNode L) (path : List ℕ) (n : ReportNode L) (id : String)
      → IsSettable r path
      → (r' : ReportNode L) × (set_in r path n id ≡ ok r')
  unfolding set_in
  set_in-ok (element_node l id') path n id h = absurd h
  set_in-ok (block_node ns proto id') [] n id h = absurd h
  set_in-ok (block_node ns proto id') (i ∷ []) n id h =
      (block_node (put i n ns) proto id, ground arith)
  set_in-ok (block_node ns proto id') (i ∷ j ∷ path) n id (m, e, h) =
      let (m', done) = set_in-ok m (j ∷ path) n id h in
      (block_node (put i m' ns) proto id, ground (arith, child-lt_length i ns e))

  -- The shape of a successful `setIn`.
  pub set_in-block_one :
      (ns : Nodes L) (proto : BlockProto) (id' : String) (i : ℕ) (n : ReportNode L) (id : String)
      {r' : ReportNode L}
      → set_in (block_node ns proto id') (i ∷ []) n id ≡ ok r'
      → (i ≤ children_length ns) × (r' ≡ block_node (put i n ns) proto id)
  unfolding set_in
  set_in-block_one ns proto id' i n id e = ground arith

  pub set_in-block_deep :
      (ns : Nodes L) (proto : BlockProto) (id' : String) (i j : ℕ) (path : List ℕ)
      (n : ReportNode L) (id : String) {r' : ReportNode L}
      → set_in (block_node ns proto id') (i ∷ j ∷ path) n id ≡ ok r'
      → (m : ReportNode L) × (m' : ReportNode L) × (child ns i ≡ some m)
        × (set_in m (j ∷ path) n id ≡ ok m')
        × (r' ≡ block_node (put i m' ns) proto id)
  unfolding set_in
  set_in-block_deep ns proto id' i j path n id {r'} e = go (child ns i) refl
    where
      found :
          (m : ReportNode L) (inner : Result Error (ReportNode L))
          → child ns i ≡ some m
          → set_in m (j ∷ path) n id ≡ inner
          → (m : ReportNode L) × (m' : ReportNode L) × (child ns i ≡ some m)
            × (set_in m (j ∷ path) n id ≡ ok m')
            × (r' ≡ block_node (put i m' ns) proto id)
      found m (ok m') c s = (m, m', c, s, ground arith)
      found m (err x) c s = absurd (ground arith)

      go :
          (o : Option (ReportNode L))
          → child ns i ≡ o
          → (m : ReportNode L) × (m' : ReportNode L) × (child ns i ≡ some m)
            × (set_in m (j ∷ path) n id ≡ ok m')
            × (r' ≡ block_node (put i m' ns) proto id)
      go none c = absurd (ground arith)
      go (some m) c = found m (set_in m (j ∷ path) n id) c refl

  -- `setIn` succeeds at no other path.
  set_in-IsSettable :
      (r : ReportNode L) (path : List ℕ) (n : ReportNode L) (id : String) {r' : ReportNode L}
      → set_in r path n id ≡ ok r'
      → IsSettable r path
  unfolding set_in
  set_in-IsSettable (element_node l id') path n id e = cc
  set_in-IsSettable (block_node ns proto id') [] n id e = cc
  set_in-IsSettable (block_node ns proto id') (i ∷ []) n id e =
      (set_in-block_one ns proto id' i n id e).0
  set_in-IsSettable (block_node ns proto id') (i ∷ j ∷ path) n id e =
      let (m, m', c, s, _) = set_in-block_deep ns proto id' i j path n id e in
      (m, c, set_in-IsSettable m (j ∷ path) n id s)

  -- `setIn` returns a tree exactly at the settable paths, and throws at all others.
  pub set_in-ok_iff :
      (r : ReportNode L) (path : List ℕ) (n : ReportNode L) (id : String)
      → ((r' : ReportNode L) × (set_in r path n id ≡ ok r')) ↔ IsSettable r path
  set_in-ok_iff r path n id = ((λ (r', e). set_in-IsSettable r path n id e), set_in-ok r path n id)

  -- After `setIn`, `getIn` finds the node at its path.
  pub get_in-set_in_self :
      (r : ReportNode L) (path : List ℕ) (n : ReportNode L) (id : String) {r' : ReportNode L}
      → set_in r path n id ≡ ok r'
      → get_in r' path ≡ some n
  unfolding get_in
  get_in-set_in_self (element_node l id') path n id e = unfold set_in in cc e
  get_in-set_in_self (block_node ns proto id') [] n id e = unfold set_in in cc e
  get_in-set_in_self (block_node ns proto id') (i ∷ []) n id e =
      let (h, shape) = set_in-block_one ns proto id' i n id e in rw shape (child-put_self i n ns h)
  get_in-set_in_self (block_node ns proto id') (i ∷ j ∷ path) n id e =
      let (m, m', c, s, shape) = set_in-block_deep ns proto id' i j path n id e in
      let there = child-put_self i m' ns (omega (arith, child-lt_length i ns c)) in
      rw (shape, get_in, there) (get_in-set_in_self m (j ∷ path) n id s)

  -- What `getIn` does with the child that it has found.
  continue_in : Option (ReportNode L) → List ℕ → Option (ReportNode L)
  continue_in o [] = o
  continue_in o (k ∷ q) = elim o [ none ↦ none | some n ↦ get_in n (k ∷ q) ]

  get_in-eq-continue_in :
      (ns : Nodes L) (proto : BlockProto) (id : String) (j : ℕ) (q : List ℕ)
      → get_in (block_node ns proto id) (j ∷ q) ≡ continue_in (child ns j) q
  unfolding get_in continue_in
  get_in-eq-continue_in ns proto id j [] = refl
  get_in-eq-continue_in ns proto id j (k ∷ q) = refl

  get_in-same_child :
      (j : ℕ) (q : List ℕ) (ns ms : Nodes L) (proto : BlockProto) (id id' : String)
      → child ns j ≡ child ms j
      → get_in (block_node ns proto id) (j ∷ q) ≡ get_in (block_node ms proto id') (j ∷ q)
  get_in-same_child j q ns ms proto id id' e =
      get_in-eq-continue_in ns proto id j q
      ∙ ap (λ o. continue_in o q) e
      ∙ sym (get_in-eq-continue_in ms proto id' j q)

  -- `setIn` leaves every node alone whose path parts from its own.
  pub get_in-set_in_ne :
      (r : ReportNode L) (p q : List ℕ) (n : ReportNode L) (id : String) {r' : ReportNode L}
      → set_in r p n id ≡ ok r'
      → Diverge p q
      → get_in r' q ≡ get_in r q
  unfolding get_in
  get_in-set_in_ne r [] q n id e d = absurd d
  get_in-set_in_ne r (i ∷ p) [] n id e d = absurd d
  get_in-set_in_ne (element_node l id') (i ∷ p) (j ∷ q) n id e d = unfold set_in in cc e
  get_in-set_in_ne (block_node ns proto id') (i ∷ []) (j ∷ q) n id e (inl ne) =
      let (h, shape) = set_in-block_one ns proto id' i n id e in
      rw shape (get_in-same_child j q (put i n ns) ns proto id id' (child-put_ne i j n ns h ne))
  get_in-set_in_ne (block_node ns proto id') (i ∷ []) (j ∷ q) n id e (inr (same, d)) = absurd d
  get_in-set_in_ne (block_node ns proto id') (i ∷ k ∷ p) (j ∷ q) n id e (inl ne) =
      let (m, m', c, s, shape) = set_in-block_deep ns proto id' i k p n id e in
      let h = child-lt_length i ns c in
      rw shape (
        get_in-same_child j q (put i m' ns) ns proto id id'
          (child-put_ne i j m' ns (omega arith) ne))
  get_in-set_in_ne (block_node ns proto id') (i ∷ k ∷ p) (j ∷ []) n id e (inr (same, d)) = absurd d
  get_in-set_in_ne (block_node ns proto id') (i ∷ k ∷ p) (j ∷ l ∷ q) n id e (inr (same, d)) =
      let (m, m', c, s, shape) = set_in-block_deep ns proto id' i k p n id e in
      let h = child-lt_length i ns c in
      rw (shape, ← same, get_in, child-put_self i m' ns (omega arith), c)
        (get_in-set_in_ne m (k ∷ p) (l ∷ q) n id s d)
