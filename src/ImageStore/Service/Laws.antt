-- ===== src/ImageStore/Service/Laws.antt =====
-- What the handler of GeneratePresignedUrl does with a request that lacks a field.
use be_auction_lot.Prelude.{Option, none, some, ◌≡◌, refl, ◌≢◌, All, inl, inr, String, List}
use be_auction_lot.Outcome.{panic}
use be_auction_lot.ImageStore.Host.{Host, State}
use be_auction_lot.ImageStore.Wire.{GeneratePresignedUrlRequest, ImageFile}
use be_auction_lot.ImageStore.Wire.Laws.{HasFields, convert_to_upload_files_cases}
use be_auction_lot.ImageStore.Service.{generate_presigned_url}

-- Every pointer that the handler reads is set.
abbrev pub IsReadable : GeneratePresignedUrlRequest → Type 0
IsReadable request = All HasFields request.lot_images × (request.lot_id ≢ none)

module _ (H : Host) (s : State H) where
  -- Without a lot id nothing runs either.
  no_lot :
      (images : List ImageFile) (lot_id : Option String)
      → All HasFields images
      → (All HasFields images × (lot_id ≢ none) → ⊥)
      → generate_presigned_url H (record { lot_images = images; lot_id = lot_id }) s ≡ (panic, s)
  unfolding generate_presigned_url
  no_lot images none all lacks = elim (convert_to_upload_files_cases images) [
    | inl (_, (us, e)) ↦ rw e refl
    | inr (_, e) ↦ rw e refl
  ]
  no_lot images (some l) all lacks = absurd (lacks (all, (λ e. cc)))

  -- A request that lacks the lot id, or an image of which lacks the checksum, the name, the client
  -- id or the size, ends in a nil pointer panic; nothing was stored or called before it.
  pub generate_presigned_url_unreadable :
      (request : GeneratePresignedUrlRequest)
      → (IsReadable request → ⊥)
      → generate_presigned_url H request s ≡ (panic, s)
  unfolding generate_presigned_url
  generate_presigned_url_unreadable request lacks =
      elim (convert_to_upload_files_cases request.lot_images) [
        | inl (all, _) ↦ no_lot request.lot_images request.lot_id all lacks
        | inr (_, e) ↦ rw e refl
      ]
