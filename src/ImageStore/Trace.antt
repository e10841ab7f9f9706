-- ===== src/ImageStore/Trace.antt =====
-- Which calls an action makes: the calls that it appends to the log all have a property, however
-- it ends. The rules by which such statements compose.
use be_auction_lot.Prelude.{
  List, [], ◌∷◌, ◌++◌, ◌≡◌, refl, sym, ap, ◌∙◌, All, All-append, append-nil, append_assoc,
}
use be_auction_lot.AppError.{GoError}
use be_auction_lot.Outcome.{Outcome, ok, err, panic}
use be_auction_lot.Action.{continue_with, ◌>>=◌, lift, return, or_fail, for_each}
use be_auction_lot.ImageStore.Types.{bucket_name}
use be_auction_lot.ImageStore.Host.{
  Host, State, Run, Call, begun, committed, rolled_back, inserted_identical, inserted_single,
  inserted_multi, read_item, created_multipart, listed_parts, completed_multipart, presigned_put,
  presigned_part, drew_random,
}

module _ (H : Host) where
  -- What a call does to the world.
  unfoldable pub effect : Call → H.World → H.World
  effect begun w = (H.begin w).1
  effect committed w = (H.commit w).1
  effect rolled_back w = (H.rollback w).1
  effect (inserted_identical db arg) w = (H.query_insert_identical db arg w).1
  effect (inserted_single db arg) w = (H.query_insert_single db arg w).1
  effect (inserted_multi db arg) w = (H.query_insert_multi db arg w).1
  effect (read_item db id) w = (H.query_row_item db id w).1
  effect (created_multipart key) w = (H.create_multipart_upload bucket_name key w).1
  effect (listed_parts bucket key id) w = (H.list_parts bucket key id w).1
  effect (completed_multipart bucket key id parts) w =
      (H.complete_multipart_upload bucket key id parts w).1
  effect (presigned_put key checksum) w = (H.presign_put_object bucket_name key checksum w).1
  effect (presigned_part key part id) w = (H.presign_upload_part bucket_name key part id w).1
  effect drew_random w = (H.new_random w).1

  -- The world after the calls of a log.
  abbrev pub replay : List Call → H.World → H.World
  replay [] w = w
  replay (c ∷ cs) w = replay cs (effect c w)

  pub replay-append :
      (cs ds : List Call) (w : H.World) → replay (cs ++ ds) w ≡ replay ds (replay cs w)
  replay-append [] ds w = refl
  replay-append (c ∷ cs) ds w = replay-append cs ds (effect c w)

module _ {H : Host} where
  abbrev pub Adds : {A : Type 0} → (Call → Type 0) → Run H A → Type 0
  Adds P m =
      (s : State H)
      → (cs : List Call) × ((m s).1.log ≡ s.log ++ cs)
        × ((m s).1.world ≡ replay H cs s.world)
        × All P cs

module _ (H : Host) (P : Call → Type 0) where
  pub Adds-nothing : {A : Type 0} (r : State H → Outcome A) → Adds {H = H} P (λ s. (r s, s))
  Adds-nothing r s = ([], sym (append-nil s.log), refl, tt)

  pub Adds-lift : {A : Type 0} (r : Outcome A) → Adds {H = H} P (lift r)
  Adds-lift r s = ([], sym (append-nil s.log), refl, tt)

  pub Adds-return : {A : Type 0} (a : A) → Adds {H = H} P (return a)
  Adds-return a s = ([], sym (append-nil s.log), refl, tt)

  pub Adds-or_fail :
      {A : Type 0} (m : Run H A) (g : GoError → GoError)
      → Adds {H = H} P m
      → Adds {H = H} P (or_fail m g)
  Adds-or_fail m g h s = h s

  Adds-continue_with :
      {A B : Type 0} (f : A → Run H B)
      → ((a : A) → Adds {H = H} P (f a))
      → (r : Outcome A) (s : State H)
      → (cs : List Call) × ((continue_with f r s).1.log ≡ s.log ++ cs)
        × ((continue_with f r s).1.world ≡ replay H cs s.world)
        × All P cs
  Adds-continue_with f k (ok a) s = k a s
  Adds-continue_with f k (err e) s = ([], sym (append-nil s.log), refl, tt)
  Adds-continue_with f k panic s = ([], sym (append-nil s.log), refl, tt)

  pub Adds->>= :
      {A B : Type 0} (m : Run H A) (f : A → Run H B)
      → Adds {H = H} P m
      → ((a : A) → Adds {H = H} P (f a))
      → Adds {H = H} P (m >>= f)
  Adds->>= m f h k s =
      let (cs, e, w, p) = h s in
      let (ds, e', w', q) = Adds-continue_with f k (m s).0 (m s).1 in
      (
        cs ++ ds,
        e' ∙ (ap (λ l. l ++ ds) e ∙ append_assoc s.log cs ds),
        w' ∙ (ap (replay H ds) w ∙ sym (replay-append H cs ds s.world)),
        All-append P cs ds p q,
      )

  pub Adds-for_each :
      {A B : Type 0} (f : A → Run H B)
      → ((x : A) → Adds {H = H} P (f x))
      → (xs : List A) → Adds {H = H} P (for_each f xs)
  unfolding for_each
  Adds-for_each {B = B} f h [] = Adds-return {A = List B} []
  Adds-for_each f h (x ∷ xs) =
      Adds->>= (f x) _ (h x)
        λ y. Adds->>= (for_each f xs) _ (Adds-for_each f h xs) λ ys. Adds-return (y ∷ ys)
