-- ===== src/Tables/Grown.antt =====
-- What a delta with rows makes of a table in the report tree.
use streamlit.Prelude.{
  All, Bool, Bool-cases, String, ap, false, inl, inr, not, refl, some, true, ℕ, ◌&&◌, ◌+◌, ◌<◌,
  ◌||◌, ◌∙◌, ◌≡◌, ◌⊎◌,
}
use streamlit.Prelude.Result.{err, ok, ◌>>=◌}
use streamlit.Report.Proto.{
  ArrowNamedDataSet, Element, ForwardMsgMetadata, arrow_add_rows, arrow_data_frame, arrow_table,
  make_element_with_error_text, thrown,
}
use streamlit.Report.Frames.{Frames}
use streamlit.Report.Node.{element_node, get_in}
use streamlit.Report.ElementNode.{
  ElementNode, new_element_node, node_arrow_add_rows, quiver_add_rows_helper, quiver_element,
}
use streamlit.Report.Root.{
  Root, add_element, apply_arrow_add_rows, apply_delta, dispatch_delta, on_element,
}
use streamlit.Report.Paths.{get_in-set_in_self}
use streamlit.Report.Sections.{IsReportRoot}
use streamlit.Report.Present.{section_present, set_in-root}
use streamlit.Report.Deltas.{apply_delta-dispatch, new_root_after}
use streamlit.Quiver.{Quiver, QuiverError, styler_unsupported}
use streamlit.Quiver.Parse.{ArrowElement, new_quiver_of}
use streamlit.Quiver.Concat.{index_types_error, same_data_types, same_index_types}
use streamlit.Quiver.AddRows.{add_rows_to_quiver, data_types_error, has_styler}
use streamlit.Quiver.Aligned.{IsAligned, IsExact}
use streamlit.Quiver.Continued.{GoOn}
use streamlit.Quiver.Accepted.{IsAdded, IsJoined, add_rows_to_frame-IsAdded}
use streamlit.Metrics.{MetricsManager}
use streamlit.Tables.{Runtime, as_thrown, quiver_frames}

module _ (R : Runtime) where
  open R use {arrow, parse_labels, missing}

  abbrev pub frames : Frames
  frames = quiver_frames R

  -- A quiver has grids that fit: `iw` levels of the index, and `h` rows and `w` columns of data.
  abbrev pub IsTable : ℕ → ℕ → ℕ → Quiver arrow → Type 0
  IsTable iw h w q = IsAligned arrow q.frame iw h w

  -- Neither has a styler, the types of the indexes are the same, and those of the columns of `q` are
  -- the first ones of `other`.
  abbrev pub takes : Quiver arrow → Quiver arrow → Bool
  takes q other =
      not (has_styler arrow q || has_styler arrow other)
      && same_index_types q.frame.types.index other.frame.types.index
      && same_data_types q.frame.types.columns other.frame.types.columns

  -- A table of Arrow, or an interactive one.
  abbrev pub HasQuiver : Element (ArrowElement arrow) → Type 0
  HasQuiver e = (p : ArrowElement arrow) × ((e ≡ arrow_table p) ⊎ (e ≡ arrow_data_frame p))

  -- The quiver has the rows of `q` and behind them those of `other`.
  abbrev pub IsLonger : ℕ → ℕ → ℕ → Quiver arrow → Quiver arrow → Quiver arrow → Type 0
  IsLonger iw h w q other q' = IsJoined arrow q.frame other.frame iw h w q'.frame

  -- Where `q` takes the rows of `other`, the path holds a node with the longer quiver, and
  -- otherwise the text of an error.
  abbrev pub IsGrownAt :
      ℕ → ℕ → ℕ → Quiver arrow → Quiver arrow → ForwardMsgMetadata → String → Root frames → Type 0
  IsGrownAt iw h w q other metadata id r' =
      ((takes q other ≡ true)
        × (node : ElementNode frames) × (get_in r'.root metadata.delta_path
            ≡ some (element_node node id))
        × (q' : Quiver arrow) × (quiver_element frames node ≡ ok q')
        × IsLonger iw h w q other q')
      ⊎ ((takes q other ≡ false)
          × (text : String) × (get_in r'.root metadata.delta_path
              ≡ some (
                  element_node
                    (new_element_node frames (make_element_with_error_text text) metadata) id)))

  module _ (q other : Quiver arrow) (iw h w iw' h' w' : ℕ) (fits : IsTable iw h w q)
      (some_levels : 0 < iw) (exact : All (IsExact arrow h') q.frame.types.index)
      (fits' : IsTable iw' h' w' other)
      (go_on : GoOn arrow q.frame.types.index other.frame.types.index) where
    -- What `addRows` makes of the quiver.
    Taken : Type 0
    Taken =
        ((takes q other ≡ true)
          × (q' : Quiver arrow) × (add_rows_to_quiver arrow q other ≡ ok q')
          × IsLonger iw (h + h') w q other q')
        ⊎ ((takes q other ≡ false)
            × (error : QuiverError) × (add_rows_to_quiver arrow q other ≡ err error))

    plainly_taken :
        (has_styler arrow q || has_styler arrow other) ≡ false
        → IsAdded arrow q.frame other.frame iw (h + h') w
        → Taken
    unfolding Taken add_rows_to_quiver
    plainly_taken plain (inl (differ, refused)) = inr (
      rw (plain, differ) refl,
      index_types_error arrow q.frame.types.index other.frame.types.index,
      rw (plain, refused) refl,
    )
    plainly_taken plain (inr (inl (same, differ, refused))) = inr (
      rw (plain, same, differ) refl,
      data_types_error arrow q.frame.types.columns other.frame.types.columns,
      rw (plain, refused) refl,
    )
    plainly_taken plain (inr (inr (joined, same, same', added, longer))) =
        inl (
          rw (plain, same, same') refl,
          record q { frame = joined },
          rw (plain, added) refl,
          longer,
        )

    taken : Taken
    unfolding Taken add_rows_to_quiver
    taken = elim (Bool-cases (has_styler arrow q || has_styler arrow other)) [
      | inl styled ↦ inr (rw styled refl, styler_unsupported, rw styled refl)
      | inr plain ↦ plainly_taken plain (
          add_rows_to_frame-IsAdded arrow q.frame other.frame iw h w iw' h' w' fits some_levels
            exact fits' go_on)
    ]

    module _ (l : ElementNode frames) (set : ArrowNamedDataSet (ArrowElement arrow))
        (has_quiver : HasQuiver l.element) (shown : quiver_element frames l ≡ ok q)
        (unnamed : set.has_name ≡ false)
        (parsed : new_quiver_of arrow parse_labels missing set.rows ≡ ok other) where
      -- Both types go the same way.
      node_arrow_add_rows-helper : node_arrow_add_rows frames l set ≡ (
          quiver_element frames l >>= λ q. quiver_add_rows_helper frames q set >>= λ q'.
          ok (record (new_element_node frames l.element l.metadata) {
            lazy_quiver_element = some q';
          }))
      unfolding node_arrow_add_rows
      node_arrow_add_rows-helper =
          let (p, either) = has_quiver in elim either [ inl e ↦ rw e refl | inr e ↦ rw e refl ]

      helped :
          quiver_add_rows_helper frames q set
          ≡ as_thrown R.quiver_message (add_rows_to_quiver arrow q other)
      unfolding quiver_add_rows_helper
      helped = rw (unnamed, parsed) refl

      node_arrow_add_rows-quiver : node_arrow_add_rows frames l set ≡ (
          as_thrown R.quiver_message (add_rows_to_quiver arrow q other) >>= λ q'.
          ok (record (new_element_node frames l.element l.metadata) {
            lazy_quiver_element = some q';
          }))
      node_arrow_add_rows-quiver = node_arrow_add_rows-helper ∙ rw (shown, helped) refl

      module _ (old id : String) (metadata : ForwardMsgMetadata) (r : Root frames)
          (root : IsReportRoot r)
          (here : get_in r.root metadata.delta_path ≡ some (element_node l old)) where
        -- The switch over the delta's type, by what comes of the rows.
        switched :
            Taken
            → (r' : Root frames) × (elim (apply_arrow_add_rows frames metadata.delta_path set id
                  r) [
                    | ok done ↦ ok done
                    | err error ↦
                        add_element frames metadata.delta_path id
                          (make_element_with_error_text (R.error_message error))
                          metadata
                          r
                  ]
                ≡ ok r')
              × IsGrownAt iw (h + h') w q other metadata id r'
        unfolding Taken apply_arrow_add_rows on_element quiver_element add_element new_element_node
        switched (inl (takes_it, q', added, longer)) =
            let node : ElementNode frames = record (new_element_node frames l.element l.metadata) {
              lazy_quiver_element = some q';
            } in
            let node_grown : node_arrow_add_rows frames l set ≡ ok node =
              node_arrow_add_rows-quiver ∙ rw added refl in
            let (r', done) =
              set_in-root r metadata.delta_path (element_node node id) id root here in
            let (set_there, two) = new_root_after _ done in
            (
              r',
              rw (here, node_grown, done) refl,
              inl (
                takes_it,
                node,
                get_in-set_in_self r.root metadata.delta_path (element_node node id) id set_there,
                q',
                refl,
                longer,
              ),
            )
        switched (inr (refused, error, thrown_there)) =
            let text = R.error_message (thrown (R.quiver_message error)) in
            let node : ElementNode frames =
              new_element_node frames (make_element_with_error_text text) metadata in
            let node_refused : node_arrow_add_rows frames l set
                ≡ err (thrown (R.quiver_message error)) =
              node_arrow_add_rows-quiver ∙ rw thrown_there refl in
            let (r', done) =
              set_in-root r metadata.delta_path (element_node node id) id root here in
            let (set_there, two) = new_root_after _ done in
            (
              r',
              rw (here, node_refused) done,
              inr (
                refused,
                text,
                get_in-set_in_self r.root metadata.delta_path (element_node node id) id set_there,
              ),
            )

        -- Where the path of a delta holds a table whose quiver is aligned, and the unnamed rows of
        -- the delta make an aligned quiver, with ranges that go on and count exactly: the delta does
        -- not throw. Where stylers and types allow it, the path then holds a node with an aligned
        -- quiver with the cells of the table, behind them the new ones without extra columns, an
        -- index that goes on, and the columns of the table; where they do not, the text of an error.
        pub apply_delta-grown :
            {D : Type 0} (m : MetricsManager D)
            → (r' : Root frames) × ((apply_delta frames id (arrow_add_rows set) metadata r m).0
                ≡ ok r')
              × IsGrownAt iw (h + h') w q other metadata id r'
        unfolding dispatch_delta
        apply_delta-grown m =
            let (name, section) = section_present r metadata.delta_path root here in
            let (r', done, grown) = switched taken in
            (
              r',
              ap (λ x. x.0)
                    (apply_delta-dispatch frames id (arrow_add_rows set) metadata r m section)
                  ∙ done,
              grown,
            )
