-- ===== src/Quiver/Tests.antt =====
-- Small frames, with natural numbers.
use streamlit.Prelude.{[], arith, inr, length, none, refl, some, ℕ, ◌∷◌, ◌≡◌}
use streamlit.Prelude.Result.{err, ok}
use streamlit.Quiver.{Frame, RangeIndex, dimensions_misaligned, get_type_name, is_empty, range_meta}
use streamlit.Quiver.Cells.{at, data_cell_at, dimensions, frame_cell, part_cell}
use streamlit.Quiver.Concat.{
  concat_data_types, concat_index_types, concat_indexes, concat_types, continued_index,
  extended_type, extended_types, join_indexes, range_of, range_of_meta, same_data_types,
  same_index_types,
}
use streamlit.Quiver.AddRows.{add_rows_to_frame, concat_data, concat_frames}
use streamlit.Quiver.Aligned.{IsAligned}
use streamlit.Quiver.Accepted.{IsAdded, add_rows_to_frame-IsAdded}
use streamlit.Quiver.Misaligned.{add_rows_to_frame-misaligned}
use streamlit.Quiver.Grid.{content_of, grid_at, whole_grid}
use streamlit.Quiver.CellContent.{frame_cell-whole_grid}
use streamlit.Quiver.Samples.{
  int_type, naturals, number, one_column, one_label, range_index_type, rows_of-wide, text, two_rows,
  two_rows_parsed,
}
use streamlit.Quiver.Parse.{
  data_columns_of, index_type, is_index_column, labels_of, parse_frame, parse_index_type,
}
use streamlit.Quiver.Constructed.{parse_frame-IsAligned}

-- Index 0, columns a and b.
abbrev two_columns : Frame naturals
two_columns = record {
  index = (number 0 ∷ []) ∷ [];
  columns = ("a" ∷ "b" ∷ []) ∷ [];
  cells = (number 5 ∷ number 6 ∷ []) ∷ [];
  types = record { index = range_index_type ∷ []; columns = int_type ∷ int_type ∷ [] };
}

abbrev three_columns : Frame naturals
three_columns = record {
  index = (number 0 ∷ []) ∷ [];
  columns = ("a" ∷ "b" ∷ "c" ∷ []) ∷ [];
  cells = (number 7 ∷ number 8 ∷ number 9 ∷ []) ∷ [];
  types = record { index = range_index_type ∷ []; columns = int_type ∷ int_type ∷ int_type ∷ [] };
}

-- Columns a and b, and no rows.
abbrev no_rows : Frame naturals
no_rows = record {
  index = [];
  columns = ("a" ∷ "b" ∷ []) ∷ [];
  cells = [];
  types = record { index = range_index_type ∷ []; columns = [] };
}

two_columns-IsAligned : IsAligned naturals two_columns 1 1 2
two_columns-IsAligned = record {
  some_rows = omega arith;
  some_columns = omega arith;
  some_levels = omega arith;
  index_height = refl;
  index_wide = (refl, tt);
  cells_height = refl;
  cells_wide = (refl, tt);
  columns_wide = (refl, tt);
  index_types = refl;
  column_types = refl;
  range_alone = inr refl;
}

three_columns-IsAligned : IsAligned naturals three_columns 1 1 3
three_columns-IsAligned = record {
  some_rows = omega arith;
  some_columns = omega arith;
  some_levels = omega arith;
  index_height = refl;
  index_wide = (refl, tt);
  cells_height = refl;
  cells_wide = (refl, tt);
  columns_wide = (refl, tt);
  index_types = refl;
  column_types = refl;
  range_alone = inr refl;
}

frame_cell-whole_grid_example :
    content_of naturals (frame_cell naturals two_columns none 1 2)
    ≡ grid_at naturals (whole_grid naturals two_columns 1) 1 2
frame_cell-whole_grid_example =
    frame_cell-whole_grid naturals two_columns none 1 1 2 two_columns-IsAligned 1 2

cell_b : content_of naturals (frame_cell naturals two_columns none 1 2) ≡ ok (some (number 6))
unfolding content_of frame_cell part_cell data_cell_at dimensions at
cell_b = refl

abbrev three_rows : Frame naturals
three_rows = record {
  index = (number 0 ∷ []) ∷ (number 1 ∷ []) ∷ [];
  columns = ("a" ∷ "b" ∷ []) ∷ [];
  cells = (number 5 ∷ number 6 ∷ []) ∷ (number 7 ∷ number 8 ∷ []) ∷ [];
  types = record {
    index =
        record range_index_type {
          meta = some (range_meta (record { name = none; start = 0; step = 1; stop = 2 }));
        }
        ∷ [];
    columns = int_type ∷ int_type ∷ [];
  };
}

two_rows_added : add_rows_to_frame naturals two_columns three_columns ≡ ok three_rows
unfolding add_rows_to_frame is_empty concat_frames concat_indexes join_indexes same_index_types
    get_type_name continued_index range_of range_of_meta concat_data same_data_types dimensions
    concat_types concat_index_types extended_types extended_type concat_data_types
two_rows_added = refl

abbrev range_of_one : RangeIndex ℕ
range_of_one = record { name = none; start = 0; step = 1; stop = 1 }

add_rows_to_frame-IsAdded_example : IsAdded naturals two_columns three_columns 1 2 2
add_rows_to_frame-IsAdded_example =
    add_rows_to_frame-IsAdded naturals two_columns three_columns 1 1 2 1 1 3 two_columns-IsAligned
      (omega arith) (refl, tt) three_columns-IsAligned
      (inr ((range_of_one, refl), (range_of_one, refl)), tt)

types_added :
    concat_types naturals no_rows.types three_columns.types
    ≡ ok (record {
      index =
          record range_index_type {
            meta = some (range_meta (record { name = none; start = 0; step = 1; stop = 2 }));
          }
          ∷ [];
      columns = int_type ∷ int_type ∷ int_type ∷ [];
    })
unfolding concat_types concat_index_types same_index_types get_type_name extended_types
    extended_type range_of range_of_meta concat_data_types
types_added = refl

add_rows_to_frame-misaligned_example :
    (add_rows_to_frame naturals no_rows three_columns
      ≡ ok (record three_columns {
        columns = ("a" ∷ "b" ∷ []) ∷ [];
        types = record {
          index =
              record range_index_type {
                meta = some (range_meta (record { name = none; start = 0; step = 1; stop = 2 }));
              }
              ∷ [];
          columns = int_type ∷ int_type ∷ int_type ∷ [];
        };
      }))
    × (dimensions naturals (record three_columns {
      columns = ("a" ∷ "b" ∷ []) ∷ [];
      types = record {
        index =
            record range_index_type {
              meta = some (range_meta (record { name = none; start = 0; step = 1; stop = 2 }));
            }
            ∷ [];
        columns = int_type ∷ int_type ∷ int_type ∷ [];
      };
    })
        ≡ err (dimensions_misaligned 1 1 3 2))
add_rows_to_frame-misaligned_example =
    add_rows_to_frame-misaligned naturals no_rows three_columns ("a" ∷ "b" ∷ []) [] _ 1 1 3 refl
      refl refl three_columns-IsAligned (λ e. absurd (omega (arith, e))) types_added

two_rows_typed : parse_index_type one_column ≡ ok two_rows_parsed.types.index
unfolding parse_index_type index_type
two_rows_typed = refl

parse_frame-IsAligned_example :
    (f : Frame naturals) × (parse_frame naturals one_label (text "") two_rows ≡ ok f)
    × IsAligned naturals f 1 2 1
    × (length f.columns ≡ 1)
unfolding data_columns_of is_index_column labels_of
parse_frame-IsAligned_example =
    parse_frame-IsAligned naturals one_label (λ T n grid. rows_of-wide {T = T} n grid) (text "")
      two_rows one_column 1 two_rows_parsed.types.index refl (omega arith) (omega arith) (refl, tt)
      (omega arith) (omega arith) (refl, tt) two_rows_typed (inr refl)
