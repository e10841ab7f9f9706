-- ===== src/Tests/InsertionSort.antt =====
-- A sort in place of package slices: insertion sort with a comparison that can panic, and the proof
-- that it does what is assumed of `slices.SortFunc`.
use mathlib.Core.List.{Perm}
use mathlib.Core.List.Perm
use be_auction_lot.Prelude.{
  true, false, List, [], ◌∷◌, Option, none, some, if◌then◌else◌, ◌≡◌, refl, Bool-cases, inl, inr,
  All, All-weaken, arith,
}
use be_auction_lot.Prelude.Int.{ℤ, pos, negsuc, ◌-ℤ◌, ◌≤ℤ◌, leb_ℤ}
use be_auction_lot.Outcome.{Outcome, ok, ◌>>=◌}
use be_auction_lot.ImageStore.Types.{CompletedPart}
use be_auction_lot.ImageStore.Complete.Laws.{Ascending}

abbrev pub Comparison : Type 0
Comparison = CompletedPart → CompletedPart → Outcome ℤ

unfoldable pub insert_by :
    Comparison → CompletedPart → List CompletedPart → Outcome (List CompletedPart)
unfolding leb_ℤ
insert_by cmp x [] = ok (x ∷ [])
insert_by cmp x (y ∷ ys) =
    let more = insert_by cmp x ys >>= λ zs. ok (y ∷ zs) in
    cmp x y >>= λ d. if leb_ℤ d (pos 0) then ok (x ∷ (y ∷ ys)) else more

unfoldable pub sort_by : Comparison → List CompletedPart → Outcome (List CompletedPart)
unfolding insert_by
sort_by cmp [] = ok []
sort_by cmp (x ∷ xs) = sort_by cmp xs >>= insert_by cmp x

difference_sign :
    (a b : ℤ)
    → ((leb_ℤ (a -ℤ b) (pos 0) ≡ true) → a ≤ℤ b) × ((leb_ℤ (a -ℤ b) (pos 0) ≡ false) → b ≤ℤ a)
unfolding ◌-ℤ◌ leb_ℤ
difference_sign (pos a) (pos b) = ground arith
difference_sign (pos a) (negsuc b) = ground arith
difference_sign (negsuc a) (pos b) = ground arith
difference_sign (negsuc a) (negsuc b) = ground arith

module _ (cmp : Comparison) (key : CompletedPart → ℤ) where
  -- The bound is below a key.
  abbrev Bounds : Option ℤ → ℤ → Type 0
  Bounds none n = Unit
  Bounds (some m) n = m ≤ℤ n

  abbrev From : Option ℤ → List CompletedPart → Type 0
  From k [] = Unit
  From k (p ∷ ps) = Bounds k (key p) × From (some (key p)) ps

  From-Ascending : (k : Option ℤ) (ps : List CompletedPart) → From k ps → Ascending key ps
  From-Ascending k [] h = tt
  From-Ascending k (p ∷ []) h = tt
  From-Ascending k (p ∷ (q ∷ ps)) (_, (le, h)) =
      (le, From-Ascending (some (key p)) (q ∷ ps) (le, h))

  -- The insertion of an element between its bound and the rest.
  abbrev Inserted : Option ℤ → CompletedPart → List CompletedPart → Type 1
  Inserted k x ys =
      (zs : List CompletedPart) × (insert_by cmp x ys ≡ ok zs)
      × From k zs
      × Perm zs (x ∷ ys)
      × ((P : CompletedPart → Type 0) → All P (x ∷ ys) → All P zs)

  insert_by-Inserted :
      (k : Option ℤ) (x : CompletedPart) (ys : List CompletedPart)
      → Bounds k (key x)
      → From k ys
      → All (λ y. cmp x y ≡ ok (key x -ℤ key y)) ys
      → Inserted k x ys
  unfolding insert_by
  insert_by-Inserted k x [] b h es = (x ∷ [], refl, (b, tt), Perm.refl _, (λ P a. a))
  insert_by-Inserted k x (y ∷ ys) b (b', h) (e, es) =
      elim (Bool-cases (leb_ℤ (key x -ℤ key y) (pos 0))) [
        | inl le ↦ (
          x ∷ (y ∷ ys),
          rw e (rw le refl),
          (b, ((difference_sign (key x) (key y)).0 le, h)),
          Perm.refl _,
          (λ P a. a),
        )
        | inr gt ↦
            let (zs, done, from, perm, all) =
              insert_by-Inserted (some (key y)) x ys ((difference_sign (key x) (key y)).1 gt) h
                es in
            (
              y ∷ zs,
              rw e (rw gt (rw done refl)),
              (b', from),
              Perm.trans (Perm.cons y perm) (Perm.swap x y ys),
              (λ P a. (a.1.0, all P (a.0, a.1.1))),
            )
      ]

  abbrev Sorted : List CompletedPart → Type 1
  Sorted ps =
      (qs : List CompletedPart) × (sort_by cmp ps ≡ ok qs)
      × From none qs
      × Perm qs ps
      × ((P : CompletedPart → Type 0) → All P ps → All P qs)

  sort_by-Sorted :
      (ps : List CompletedPart)
      → All (λ p. All (λ q. cmp p q ≡ ok (key p -ℤ key q)) ps) ps
      → Sorted ps
  unfolding sort_by
  sort_by-Sorted [] h = ([], refl, tt, Perm.refl _, (λ P a. a))
  sort_by-Sorted (p ∷ ps) (h, hs) =
      let (qs, done, from, perm, all) = sort_by-Sorted ps (
        All-weaken (λ r. All (λ q. cmp r q ≡ ok (key r -ℤ key q)) (p ∷ ps))
          (λ r. All (λ q. cmp r q ≡ ok (key r -ℤ key q)) ps) (λ r a. a.1) ps hs) in
      let (zs, done', from', perm', all') =
        insert_by-Inserted none p qs tt from (all (λ q. cmp p q ≡ ok (key p -ℤ key q)) h.1) in
      (
        zs,
        rw done done',
        from',
        Perm.trans perm' (Perm.cons p perm),
        (λ P a. all' P (a.0, all P a.1)),
      )

  pub sort_by-sorts :
      (ps : List CompletedPart)
      → All (λ p. All (λ q. cmp p q ≡ ok (key p -ℤ key q)) ps) ps
      → (qs : List CompletedPart) × (sort_by cmp ps ≡ ok qs) × Ascending key qs × Perm qs ps
  sort_by-sorts ps h =
      let (qs, done, from, perm, _) = sort_by-Sorted ps h in
      (qs, done, From-Ascending none qs from, perm)
