-- ===== src/Postgres/Index.antt =====
-- The unique index of image_blob_upload_attempts on the hash and the lot of pending rows: look-up
-- behind an insert or an update, and the order of the table.
use be_auction_lot.Prelude.{
  String, Bool, true, false, ◌&&◌, none, some, List, [], ◌∷◌, ◌++◌, ◌≡◌, ◌↔◌, inl, inr, refl, sym,
  ◌∙◌, str_eq, if◌then◌else◌, arith, eq_iff, Bool-cases,
}
use be_auction_lot.Filestore.{Uuid, uuid, uuid_eqb}
use be_auction_lot.Postgres.{AttemptState, pending, committed, ImageBlobUploadAttempt}
use be_auction_lot.Postgres.Attempts.{is_pending_for, find_pending, replace_pending}

abbrev pub same_key : String → Uuid → String → Uuid → Bool
same_key h l h' l' = str_eq h h' && uuid_eqb l l'

-- The row is pending for a hash and a lot.
abbrev pub IsPending : String → Uuid → ImageBlobUploadAttempt → Type 0
IsPending h l a = (a.upload_state ≡ pending) × (a.sha256 ≡ h) × (a.lot_id ≡ l)

uuid_eqb_iff : (a b : Uuid) → (uuid_eqb a b ≡ true) ↔ (a ≡ b)
uuid_eqb_iff (uuid a) (uuid b) = ground arith

on_state_iff :
    (s : AttemptState) (b : Bool)
    → (elim s [ pending ↦ b | committed ↦ false ] ≡ true) ↔ ((s ≡ pending) × (b ≡ true))
on_state_iff pending b = ground arith
on_state_iff committed b = ground arith

pub is_pending_for_iff :
    (h : String) (l : Uuid) (a : ImageBlobUploadAttempt)
    → (is_pending_for h l a ≡ true) ↔ IsPending h l a
unfolding is_pending_for
is_pending_for_iff h l a = ground (
  arith,
  on_state_iff a.upload_state (str_eq a.sha256 h && uuid_eqb a.lot_id l),
  eq_iff a.sha256 h,
  uuid_eqb_iff a.lot_id l,
)

pub same_key_iff :
    (h : String) (l : Uuid) (h' : String) (l' : Uuid)
    → (same_key h l h' l' ≡ true) ↔ ((h ≡ h') × (l ≡ l'))
same_key_iff h l h' l' = ground (arith, eq_iff h h', uuid_eqb_iff l l')

-- Two rows pending for the same key are found by the same look-ups.
is_pending_for-eq :
    (h : String) (l : Uuid) (a : ImageBlobUploadAttempt) (h' : String) (l' : Uuid)
    → IsPending h l a
    → is_pending_for h' l' a ≡ same_key h l h' l'
unfolding is_pending_for
is_pending_for-eq h l a h' l' (s, e, k) = rw s (rw e (rw k refl))

-- A row that is found by one key and not by another: the keys differ.
keys_differ :
    (h : String) (l : Uuid) (h' : String) (l' : Uuid) (x : ImageBlobUploadAttempt)
    → is_pending_for h l x ≡ false
    → is_pending_for h' l' x ≡ true
    → same_key h l h' l' ≡ false
keys_differ h l h' l' x miss hit =
    ground (arith, same_key_iff h l h' l', is_pending_for_iff h l x, is_pending_for_iff h' l' x)

find_pending-none :
    (h : String) (l : Uuid) (x : ImageBlobUploadAttempt) (xs : List ImageBlobUploadAttempt)
    → find_pending h l (x ∷ xs) ≡ none
    → (is_pending_for h l x ≡ false) × (find_pending h l xs ≡ none)
unfolding find_pending
find_pending-none h l x xs e = ground arith

pub find_pending-add :
    (xs : List ImageBlobUploadAttempt) (h : String) (l : Uuid) (a : ImageBlobUploadAttempt)
    (h' : String) (l' : Uuid)
    → IsPending h l a
    → find_pending h l xs ≡ none
    → find_pending h' l' (xs ++ (a ∷ []))
      ≡ (if same_key h l h' l' then some a else find_pending h' l' xs)
unfolding find_pending
find_pending-add [] h l a h' l' p e = rw (is_pending_for-eq h l a h' l' p) refl
find_pending-add (x ∷ xs) h l a h' l' p e =
    let (miss, later) = find_pending-none h l x xs e in
    elim (Bool-cases (is_pending_for h' l' x)) [
      | inl hit ↦ rw hit (rw (keys_differ h l h' l' x miss hit) refl)
      | inr other ↦ rw other (find_pending-add xs h l a h' l' p later)
    ]

-- A look-up behind an update that keeps the key of the row.
pub find_pending-replace :
    (xs : List ImageBlobUploadAttempt) (h : String) (l : Uuid) (new : ImageBlobUploadAttempt)
    (old : ImageBlobUploadAttempt) (h' : String) (l' : Uuid)
    → IsPending h l new
    → find_pending h l xs ≡ some old
    → find_pending h' l' (replace_pending h l new xs)
      ≡ (if same_key h l h' l' then some new else find_pending h' l' xs)
unfolding find_pending replace_pending
find_pending-replace [] h l new old h' l' p e = cc
find_pending-replace (x ∷ xs) h l new old h' l' p e = elim (Bool-cases (is_pending_for h l x)) [
  | inl hit ↦ rw hit (
      ground (
        arith,
        is_pending_for-eq h l new h' l' p,
        is_pending_for-eq h l x h' l' ((is_pending_for_iff h l x).0 hit),
      ))
  | inr miss ↦ elim (Bool-cases (is_pending_for h' l' x)) [
    | inl hit ↦ rw miss (rw hit (rw (keys_differ h l h' l' x miss hit) refl))
    | inr other ↦ rw miss (rw other (find_pending-replace xs h l new old h' l' p (ground arith)))
  ]
]

-- No two pending rows have the same hash and the same lot.
abbrev pub IsIndexed : List ImageBlobUploadAttempt → Type 0
IsIndexed [] = Unit
IsIndexed (a ∷ rest) =
    (a.upload_state ≡ pending → find_pending a.sha256 a.lot_id rest ≡ none) × IsIndexed rest

pub IsIndexed-add :
    (xs : List ImageBlobUploadAttempt) (h : String) (l : Uuid) (a : ImageBlobUploadAttempt)
    → IsPending h l a
    → find_pending h l xs ≡ none
    → IsIndexed xs
    → IsIndexed (xs ++ (a ∷ []))
unfolding find_pending
IsIndexed-add [] h l a p e i = (λ _. refl, tt)
IsIndexed-add (x ∷ xs) h l a p e (first, rest) =
    let (miss, later) = find_pending-none h l x xs e in
    (
      λ s. rw (find_pending-add xs h l a x.sha256 x.lot_id p later) (
          rw
            (keys_differ h l x.sha256 x.lot_id x miss
              ((is_pending_for_iff x.sha256 x.lot_id x).1 (s, refl, refl)))
            (first s)),
      IsIndexed-add xs h l a p later rest,
    )

pub IsIndexed-replace :
    (xs : List ImageBlobUploadAttempt) (h : String) (l : Uuid) (new : ImageBlobUploadAttempt)
    (old : ImageBlobUploadAttempt)
    → IsPending h l new
    → find_pending h l xs ≡ some old
    → IsIndexed xs
    → IsIndexed (replace_pending h l new xs)
unfolding find_pending replace_pending
IsIndexed-replace [] h l new old p e i = tt
IsIndexed-replace (x ∷ xs) h l new old p e (first, rest) =
    elim (Bool-cases (is_pending_for h l x)) [
      | inl hit ↦ rw hit (
        λ s.
            let (x_state, x_hash, x_lot) = (is_pending_for_iff h l x).0 hit in
            rw (p.1 ∙ sym x_hash) (rw (p.2 ∙ sym x_lot) (first x_state)),
        rest,
      )
      | inr miss ↦ rw miss (
        λ s. rw (find_pending-replace xs h l new old x.sha256 x.lot_id p (ground arith)) (
            rw
              (keys_differ h l x.sha256 x.lot_id x miss
                ((is_pending_for_iff x.sha256 x.lot_id x).1 (s, refl, refl)))
              (first s)),
        IsIndexed-replace xs h l new old p (ground arith) rest,
      )
    ]
