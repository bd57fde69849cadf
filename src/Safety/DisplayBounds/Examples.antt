-- ===== src/Safety/DisplayBounds/Examples.antt =====
-- Of 22 rows the last two are omitted.
use observ_me.Prelude.{ℕ, ◌≡◌, List, [], ◌∷◌, ◌++◌, length, drop}
use observ_me.Safety.DisplayBounds.{select_command_rows}
use observ_me.Safety.DisplayBounds.Rows.{select_command_rows_lem}

abbrev many_rows : List ℕ
many_rows =
    1 ∷ 2 ∷ 3 ∷ 4 ∷ 5 ∷ 6 ∷ 7 ∷ 8 ∷ 9 ∷ 10 ∷ 11 ∷ 12 ∷ 13 ∷ 14 ∷ 15 ∷ 16 ∷ 17 ∷ 18 ∷ 19 ∷ 20 ∷ 21
    ∷ 22 ∷ []

select_command_rows_lem_example :
    ((select_command_rows many_rows).rows ++ drop 20 many_rows ≡ many_rows)
    × (length (select_command_rows many_rows).rows ≡ 20)
    × ((select_command_rows many_rows).omitted_count ≡ 2)
select_command_rows_lem_example = select_command_rows_lem many_rows
