-- ===== src/Report/Current.antt =====
-- What `setIn` puts into a tree belongs to the report that puts it there, with its blocks.
use streamlit.Prelude.{
  Bool, List, String, [], ap, append-nil, append_assoc, eq_refl, false, if◌then◌else◌, refl, str_eq,
  suc, sym, true, zero, ℕ, ◌++◌, ◌∙◌, ◌∷◌, ◌≡◌,
}
use streamlit.Prelude.Result.{ok}
use streamlit.Report.Proto.{BlockProto}
use streamlit.Report.Node.{Nodes, ReportNode, block_node, cons, element_node, nil, put, set_in}
use streamlit.Report.Paths.{set_in-block_deep, set_in-block_one}
use streamlit.Report.Stale.{live_children_elements, live_elements}

-- The parts of a list, one of them in the middle.
abbrev pub IsPart : {A : Type 0} → List A → List A → Type 0
IsPart {A} part whole = (before after : List A) × (whole ≡ before ++ (part ++ after))

module _ {L : Type 0} where
  live-put :
      (current : String) (i : ℕ) (n : ReportNode L) (ns : Nodes L)
      → IsPart (live_elements current n) (live_children_elements current (put i n ns))
  unfolding live_elements
  live-put current i n nil = ([], [], refl)
  live-put current zero n (cons m ns) = ([], live_children_elements current ns, refl)
  live-put current (suc i) n (cons m ns) =
      let (before, after, e) = live-put current i n ns in
      (
        live_elements current m ++ before,
        after,
        rw e (
            sym (append_assoc (live_elements current m) before (live_elements current n ++ after))),
      )

  IsPart-trans : (a b c : List L) → IsPart a b → IsPart b c → IsPart a c
  IsPart-trans a b c (x, y, e) (x', y', e') = (x' ++ x, y ++ y', e' ∙ rw e there)
    where
      there : x' ++ (x ++ (a ++ y) ++ y') ≡ x' ++ x ++ (a ++ (y ++ y'))
      there =
          ap (λ t. x' ++ t) (append_assoc x (a ++ y) y' ∙ ap (λ t. x ++ t) (append_assoc a y y'))
          ∙ sym (append_assoc x' x (a ++ (y ++ y')))

  live-block :
      (current : String) (ns : Nodes L) (proto : BlockProto)
      → live_elements current (block_node ns proto current) ≡ live_children_elements current ns
  unfolding live_elements
  live-block current ns proto = rw (eq_refl current) refl

  -- After `setIn`, the elements of its report that the node has are among those of the tree.
  pub live-set_in :
      (current : String) (r : ReportNode L) (path : List ℕ) (n : ReportNode L) {r' : ReportNode L}
      → set_in r path n current ≡ ok r'
      → IsPart (live_elements current n) (live_elements current r')
  live-set_in current (element_node l id) path n e = unfold set_in in cc e
  live-set_in current (block_node ns proto id) [] n e = unfold set_in in cc e
  live-set_in current (block_node ns proto id) (i ∷ []) n e =
      let (h, shape) = set_in-block_one ns proto id i n current e in
      rw (shape, live-block current (put i n ns) proto) (live-put current i n ns)
  live-set_in current (block_node ns proto id) (i ∷ j ∷ path) n e =
      let (m, m', c, s, shape) = set_in-block_deep ns proto id i j path n current e in
      rw (shape, live-block current (put i m' ns) proto)
        (IsPart-trans _ _ _ (live-set_in current m (j ∷ path) n s) (live-put current i m' ns))

  not_in_nothing : (l : L) (before after : List L) → ¬ ([] ≡ before ++ (l ∷ after))
  not_in_nothing l [] after e = cc e
  not_in_nothing l (x ∷ before) after e = cc e

  in_two :
      (l : L) (b : Bool) (xs ys : List L)
      → IsPart (l ∷ []) (if b then xs ++ (ys ++ []) else [])
      → IsPart (l ∷ []) (xs ++ ys)
  in_two l true xs ys (before, after, e) =
      (before, after, ap (λ t. xs ++ t) (sym (append-nil ys)) ∙ e)
  in_two l false xs ys (before, after, e) = absurd (not_in_nothing l before after e)

  -- A part of a root's live elements is one of its sections'.
  pub live-two :
      (current : String) (l : L) (m s : ReportNode L) (proto : BlockProto) (id : String)
      → IsPart (l ∷ []) (live_elements current (block_node (cons m (cons s nil)) proto id))
      → IsPart (l ∷ []) (live_elements current m ++ live_elements current s)
  unfolding live_elements
  live-two current l m s proto id h = in_two l (str_eq id current) _ _ h
