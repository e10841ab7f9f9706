-- ===== src/ImageStore/Batch/Laws.antt =====
-- What `intentBatchUpload` does with a batch.
use mathlib.Core.List.{Perm, perm_middle}
use mathlib.Core.List.Perm
use be_auction_lot.Prelude.{
  String, Bool, true, false, List, [], ◌∷◌, ◌++◌, if◌then◌else◌, ◌≡◌, ◌≢◌, ◌⊎◌, inl, inr, arith,
  Bool-cases, eq_iff, All, All-weaken, str_eq,
}
use be_auction_lot.Prelude.GoMap.{GoMap, insert, get_or, lookup, lookup-insert}
use be_auction_lot.ImageStore.Types.{UploadFile}
use be_auction_lot.ImageStore.Batch.{intent_batch_from, intent_batch_upload}

-- A file with the given hash is in the list.
abbrev pub HasHash : String → List UploadFile → Type 0
HasHash h [] = ⊥
HasHash h (f ∷ fs) = (f.sha256 ≡ h) ⊎ HasHash h fs

abbrev pub DistinctHashes : List UploadFile → Type 0
DistinctHashes [] = Unit
DistinctHashes (f ∷ fs) = All (λ g. g.sha256 ≢ f.sha256) fs × DistinctHashes fs

intent_batch_from-perm :
    (seen : GoMap Bool) (vs : List UploadFile)
    → Perm ((intent_batch_from seen vs).0 ++ (intent_batch_from seen vs).1) vs
unfolding intent_batch_from
intent_batch_from-perm seen [] = Perm.refl []
intent_batch_from-perm seen (v ∷ vs) =
    let ih = intent_batch_from-perm (insert v.sha256 true seen) vs in
    elim (Bool-cases (get_or false v.sha256 seen)) [
      | inl old ↦ rw old (Perm.trans (perm_middle _ _) (Perm.cons v ih))
      | inr new ↦ rw new (Perm.cons v ih)
    ]

-- What is seen stays seen, and the files chosen later have hashes not seen before.
abbrev Unseen : GoMap Bool → UploadFile → Type 0
Unseen seen f = get_or false f.sha256 seen ≡ false

get_or-insert :
    (k j : String) (m : GoMap Bool)
    → get_or false j (insert k true m) ≡ (if str_eq k j then true else get_or false j m)
get_or-insert k j m = ground (arith, lookup-insert k j true m)

Unseen-insert :
    (seen : GoMap Bool) (v f : UploadFile) → Unseen (insert v.sha256 true seen) f → Unseen seen f
Unseen-insert seen v f h = ground (arith, get_or-insert v.sha256 f.sha256 seen)

Unseen-insert_ne :
    (seen : GoMap Bool) (v f : UploadFile)
    → Unseen (insert v.sha256 true seen) f
    → f.sha256 ≢ v.sha256
Unseen-insert_ne seen v f h =
    λ e. ground (arith, get_or-insert v.sha256 f.sha256 seen, eq_iff v.sha256 f.sha256)

intent_batch_from-Unseen :
    (seen : GoMap Bool) (vs : List UploadFile) → All (Unseen seen) (intent_batch_from seen vs).0
unfolding intent_batch_from
intent_batch_from-Unseen seen [] = tt
intent_batch_from-Unseen seen (v ∷ vs) =
    let later =
      All-weaken (Unseen (insert v.sha256 true seen)) (Unseen seen) (Unseen-insert seen v)
        (intent_batch_from (insert v.sha256 true seen) vs).0
        (intent_batch_from-Unseen (insert v.sha256 true seen) vs) in
    elim (Bool-cases (get_or false v.sha256 seen)) [
      | inl old ↦ rw old later
      | inr new ↦ rw new (new, later)
    ]

intent_batch_from-DistinctHashes :
    (seen : GoMap Bool) (vs : List UploadFile) → DistinctHashes (intent_batch_from seen vs).0
unfolding intent_batch_from
intent_batch_from-DistinctHashes seen [] = tt
intent_batch_from-DistinctHashes seen (v ∷ vs) =
    let ih = intent_batch_from-DistinctHashes (insert v.sha256 true seen) vs in
    let others =
      All-weaken (Unseen (insert v.sha256 true seen)) (λ g. g.sha256 ≢ v.sha256)
        (Unseen-insert_ne seen v) (intent_batch_from (insert v.sha256 true seen) vs).0
        (intent_batch_from-Unseen (insert v.sha256 true seen) vs) in
    elim (Bool-cases (get_or false v.sha256 seen)) [
      | inl old ↦ rw old ih
      | inr new ↦ rw new (others, ih)
    ]

-- The hash of a duplicate was seen before, or belongs to a file that was chosen.
abbrev Known : GoMap Bool → List UploadFile → UploadFile → Type 0
Known seen files d = (get_or false d.sha256 seen ≡ true) ⊎ HasHash d.sha256 files

Known-old :
    (seen : GoMap Bool) (v : UploadFile) (files : List UploadFile)
    → get_or false v.sha256 seen ≡ true
    → (d : UploadFile) → Known (insert v.sha256 true seen) files d
    → Known seen files d
Known-old seen v files old d (inl h) =
    inl (ground (arith, get_or-insert v.sha256 d.sha256 seen, eq_iff v.sha256 d.sha256))
Known-old seen v files old d (inr h) = inr h

Known-new :
    (seen : GoMap Bool) (v : UploadFile) (files : List UploadFile) (d : UploadFile)
    → Known (insert v.sha256 true seen) files d
    → Known seen (v ∷ files) d
Known-new seen v files d (inl h) = elim (Bool-cases (str_eq v.sha256 d.sha256)) [
  | inl same ↦ inr (inl ((eq_iff v.sha256 d.sha256).0 same))
  | inr other ↦ inl (ground (arith, get_or-insert v.sha256 d.sha256 seen))
]
Known-new seen v files d (inr h) = inr (inr h)

intent_batch_from-Known :
    (seen : GoMap Bool) (vs : List UploadFile)
    → All (Known seen (intent_batch_from seen vs).0) (intent_batch_from seen vs).1
unfolding intent_batch_from
intent_batch_from-Known seen [] = tt
intent_batch_from-Known seen (v ∷ vs) =
    let seen' = insert v.sha256 true seen in
    let (files, duplicates) = intent_batch_from seen' vs in
    let ih = intent_batch_from-Known seen' vs in
    elim (Bool-cases (get_or false v.sha256 seen)) [
      | inl old ↦ rw old (
        inl old,
        All-weaken (Known seen' files) (Known seen files) (Known-old seen v files old) duplicates
            ih,
      )
      | inr new ↦ rw new (
          All-weaken (Known seen' files) (Known seen (v ∷ files)) (Known-new seen v files)
            duplicates ih)
    ]

Known-empty : (files : List UploadFile) (d : UploadFile) → Known [] files d → HasHash d.sha256 files
unfolding lookup
Known-empty files d (inl h) = cc
Known-empty files d (inr h) = h

-- A batch is split without loss: the chosen files and the duplicates together are the batch, the
-- chosen files have pairwise distinct hashes, and the hash of each duplicate is that of a chosen
-- file.
pub intent_batch_upload-partition :
    (batch : List UploadFile)
    → Perm ((intent_batch_upload batch).0 ++ (intent_batch_upload batch).1) batch
      × DistinctHashes (intent_batch_upload batch).0
      × All (λ d. HasHash d.sha256 (intent_batch_upload batch).0) (intent_batch_upload batch).1
unfolding intent_batch_upload
intent_batch_upload-partition batch = (
  intent_batch_from-perm [] batch,
  intent_batch_from-DistinctHashes [] batch,
  All-weaken (Known [] (intent_batch_from [] batch).0)
      (λ d. HasHash d.sha256 (intent_batch_from [] batch).0)
      (Known-empty (intent_batch_from [] batch).0) (intent_batch_from [] batch).1
      (intent_batch_from-Known [] batch),
)
