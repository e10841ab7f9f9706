-- ===== src/Filestore/Rows/Laws.antt =====
-- Which result sets the row loop accepts.
use be_auction_lot.Prelude.{
  List, [], ◌∷◌, ◌++◌, ◌≡◌, refl, ◌∙◌, ap, sym, map, ◌↔◌, append_assoc, append-nil,
}
use be_auction_lot.AppError.{GoError, nil}
use be_auction_lot.Outcome.{ok, err, ok-injective}
use be_auction_lot.Filestore.Rows.{
  Scan, row, scan_error, ResultSet, end_of_rows, collect_from, collect_rows,
}

module _ {A : Type 0} where
  end_of_rows-eq-ok :
      (acc items : List A) (e : GoError) → end_of_rows acc e ≡ ok items → (acc ≡ items) × (e ≡ nil)
  end_of_rows-eq-ok acc items nil h = (ok-injective acc items h, refl)
  end_of_rows-eq-ok acc items _ h = absurd (err-ne-ok _ items h)
    where
      err-ne-ok : (e : GoError) (xs : List A) → err e ≡ ok xs → ⊥
      err-ne-ok e xs p = cc

  collect_from-eq-ok :
      (acc : List A) (scans : List (Scan A)) (e : GoError) (items : List A)
      → collect_from acc scans e ≡ ok items
      → (more : List A) × (acc ++ more ≡ items) × (scans ≡ map row more) × (e ≡ nil)
  unfolding collect_from
  collect_from-eq-ok acc [] e items h =
      let (same, no_error) = end_of_rows-eq-ok acc items e h in
      ([], append-nil acc ∙ same, refl, no_error)
  collect_from-eq-ok acc (row i ∷ scans) e items h =
      let (more, same, all, no_error) = collect_from-eq-ok (acc ++ (i ∷ [])) scans e items h in
      (i ∷ more, sym (append_assoc acc (i ∷ []) more) ∙ same, ap (λ l. row i ∷ l) all, no_error)
  collect_from-eq-ok acc (scan_error e' ∷ scans) e items h = cc

  collect_from-map : (acc items : List A) → collect_from acc (map row items) nil ≡ ok (acc ++ items)
  unfolding collect_from
  collect_from-map acc [] = ap ok (sym (append-nil acc))
  collect_from-map acc (i ∷ items) =
      collect_from-map (acc ++ (i ∷ [])) items ∙ ap ok (append_assoc acc (i ∷ []) items)

  -- The row loop returns a list exactly if every scan gave a row, these are the list in order, and
  -- the result set ended without an error.
  pub collect_rows_iff :
      (rows : ResultSet A) (items : List A)
      → (collect_rows rows ≡ ok items) ↔ ((rows.scans ≡ map row items) × (rows.rows_err ≡ nil))
  unfolding collect_rows
  collect_rows_iff rows items = (
    λ h.
        let (more, same, all, no_error) = collect_from-eq-ok [] rows.scans rows.rows_err items h in
        (all ∙ ap (map row) same, no_error),
    λ h. rw (h.0, h.1) (collect_from-map [] items),
  )
