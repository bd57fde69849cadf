-- ===== src/Safety/DisplayBounds/Rows.antt =====
-- The rows that are shown are the first ones, and the others are counted.
use Prim.Native.Nat.{zero, suc}
use observ_me.Prelude.{
  ℕ, ◌≡◌, ◌≤◌, refl, ap, List, [], ◌∷◌, ◌++◌, leb, leb→le, length, take, drop, arith, Bool-cases,
  inl, inr, min, length-drop, sym,
}
use observ_me.Safety.DisplayBounds.{select_command_rows, command_render_row_limit}

length-take-min {ℓ} : {T : Type ℓ} (n : ℕ) (xs : List T) → length (take n xs) ≡ min n (length xs)
length-take-min zero xs = omega arith
length-take-min (suc n) [] = omega arith
length-take-min (suc n) (x ∷ xs) = omega (arith, length-take-min n xs)

append-take-drop {ℓ} : {T : Type ℓ} (n : ℕ) (xs : List T) → take n xs ++ drop n xs ≡ xs
append-take-drop zero xs = refl
append-take-drop (suc n) [] = refl
append-take-drop (suc n) (x ∷ xs) = rw (append-take-drop n xs) refl

append-drop_all {ℓ} : {T : Type ℓ} (n : ℕ) (xs : List T) → length xs ≤ n → xs ++ drop n xs ≡ xs
append-drop_all zero [] h = refl
append-drop_all zero (x ∷ xs) h = absurd (omega arith)
append-drop_all (suc n) [] h = refl
append-drop_all (suc n) (x ∷ xs) h = ap (λ l. x ∷ l) (append-drop_all n xs (omega arith))

-- The rows that are shown are the first of all rows, in their order: with the rows from the 21st on
-- they are all of them. As many are shown as there are, up to 20, and those that are not are counted
-- as omitted.
pub select_command_rows_lem {ℓ} :
    {T : Type ℓ} (rows : List T)
    → ((select_command_rows rows).rows ++ drop 20 rows ≡ rows)
      × (length (select_command_rows rows).rows ≡ min 20 (length rows))
      × ((select_command_rows rows).omitted_count ≡ length (drop 20 rows))
unfolding select_command_rows
select_command_rows_lem rows = elim (Bool-cases (leb (length rows) command_render_row_limit)) [
  | inl few ↦
      let short = leb→le (length rows) 20 few in
      rw few (
        append-drop_all 20 rows short,
        omega (arith, short),
        omega (arith, short, length-drop 20 rows),
      )
  | inr many ↦
      rw many (append-take-drop 20 rows, length-take-min 20 rows, sym (length-drop 20 rows))
]
