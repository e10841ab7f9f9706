-- ===== src/Tests/Uploads.antt =====
-- Witnesses for the theorems about internal/imagestore.
use mathlib.Core.List.{Perm}
use be_auction_lot.Prelude.{
  ◌<◌, true, false, not, none, some, List, [], ◌∷◌, ◌++◌, map, keep, All, ◌≡◌, refl, ◌↔◌, ◌⊎◌,
  length, arith,
}
use be_auction_lot.Prelude.Int.{ℤ, pos, negsuc, two_31}
use be_auction_lot.Prelude.GoMap.{lookup}
use be_auction_lot.Action.Ensures.{Each}
use be_auction_lot.Outcome.{ok, err, panic, ◌>>=◌}
use be_auction_lot.AppError.{plain}
use be_auction_lot.Filestore.{uuid, GetMultiPartUploadItemRow, InsertAndValidateMultiPartUploadRow}
use be_auction_lot.ImageStore.Types.{
  PresignedFileUrl, zero_multi, zero_single, ExtractFile, S3Part, CompletedPart, UploadFile,
  MultiPresignedRequest,
}
use be_auction_lot.ImageStore.Host.{Call, read_item, listed_parts, completed_multipart}
use be_auction_lot.ImageStore.Batch.{
  intent_batch_upload, separate_uploaded_and_need_to_be_uploaded_files,
  segregate_multi_upload_files,
}
use be_auction_lot.ImageStore.Batch.Laws.{HasHash, DistinctHashes, intent_batch_upload-partition}
use be_auction_lot.ImageStore.Batch.Split.{
  upload_of, is_resumable, separate-eq-keep, segregate_multi_upload_files-split,
}
use be_auction_lot.ImageStore.Extract.{extract_file_data}
use be_auction_lot.ImageStore.Extract.Laws.{
  is_large, IsExtract, extract_file_data-IsExtract, extract_file_data-sizes_iff,
}
use be_auction_lot.ImageStore.Extract.Total.{IsReady, extract_file_data_total}
use be_auction_lot.ImageStore.Parts.{generate_new_multi_part_upload_urls}
use be_auction_lot.ImageStore.Parts.Laws.{IsFor, generate_new_multi_part_upload_urls-parts}
use be_auction_lot.ImageStore.Trace.{replay}
use be_auction_lot.ImageStore.Upload.{initiate_upload}
use be_auction_lot.ImageStore.Upload.Laws.{IsSession, initiate_upload-IsSession}
use be_auction_lot.ImageStore.Complete.{complete_multi_part_upload, parts_missing, compare_parts}
use be_auction_lot.ImageStore.Complete.Laws.{
  Ascending, number_of, complete_multi_part_upload-drops, complete_multi_part_upload-incomplete,
  complete_multi_part_upload-panics, complete_multi_part_upload-done, Sorts,
}
use be_auction_lot.ImageStore.Wire.{
  ImageFile, convert_to_upload_files, convert_to_image_files, convert_to_uploaded_etags,
  convert_to_completed_parts, GeneratePresignedUrlRequest,
}
use be_auction_lot.ImageStore.Wire.Laws.{
  HasFields, completed_of, convert_to_image_files-convert_to_upload_files,
  convert_to_upload_files_cases, convert_to_completed_parts-convert_to_uploaded_etags,
}
use be_auction_lot.ImageStore.Service.{generate_presigned_url}
use be_auction_lot.ImageStore.Service.Laws.{generate_presigned_url_unreadable}
use be_auction_lot.Tests.InsertionSort.{sort_by, sort_by-sorts}
use be_auction_lot.Tests.World.{
  fixed_host, fresh, queries, three_files, small_file, large_file, extracted, two_parts, two_sorted,
  two_listed, two_etags, identity, upload_row, item_of, signed_url,
}

initiate_upload-IsSession_example :
    let x = initiate_upload fixed_host queries three_files "lot" fresh in
    (calls : List Call) × (x.1.log ≡ [] ++ calls)
    × (x.1.world ≡ replay fixed_host calls tt)
    × IsSession fixed_host tt x.0 calls
initiate_upload-IsSession_example =
    initiate_upload-IsSession fixed_host queries three_files "lot" fresh

intent_batch_upload-partition_example :
    Perm ((intent_batch_upload three_files).0 ++ (intent_batch_upload three_files).1) three_files
    × DistinctHashes (intent_batch_upload three_files).0
    × All
        (λ d. HasHash d.sha256 (intent_batch_upload three_files).0)
        (intent_batch_upload three_files).1
intent_batch_upload-partition_example = intent_batch_upload-partition three_files

extracts_three : (extract_file_data fixed_host three_files fresh).0 ≡ ok extracted
unfolding extract_file_data
extracts_three = refl

extract_file_data-IsExtract_example : IsExtract three_files extracted
extract_file_data-IsExtract_example =
    extract_file_data-IsExtract fixed_host three_files fresh extracted extracts_three

-- The file of 3 GiB is not recorded with its size.
extract_file_data-sizes_iff_example :
    (extracted.multipart_file.multipart_file_sizes
      ≡ map (λ f. pos f.file_size) (keep is_large three_files))
    ↔ All (λ f. f.file_size < two_31) (keep is_large three_files)
extract_file_data-sizes_iff_example =
    extract_file_data-sizes_iff fixed_host three_files fresh extracted extracts_three

-- One request for part 3; the parts 1 and 2 are listed.
abbrev third : List MultiPresignedRequest
third = record { request = signed_url; part = pos 3 } ∷ []

abbrev three_numbers : List ℤ
three_numbers = pos 1 ∷ (pos 2 ∷ (pos 3 ∷ []))

opened : (generate_new_multi_part_upload_urls fixed_host identity (pos 3 ∷ []) fresh).0 ≡ ok third
unfolding generate_new_multi_part_upload_urls
opened = refl

generate_new_multi_part_upload_urls-parts_example :
    Each (IsFor fixed_host identity) (pos 3 ∷ []) third
generate_new_multi_part_upload_urls-parts_example =
    generate_new_multi_part_upload_urls-parts fixed_host identity (pos 3 ∷ []) fresh third
      (omega arith, tt) opened

-- Two files, of which the second one is known by its hash.
separate-eq-keep_example :
    separate_uploaded_and_need_to_be_uploaded_files
      (("aa", small_file) ∷ (("bb", large_file) ∷ []))
      ((
        "bb",
        record { lot_image_id = pos 1; file_name = "c"; image_blob_id = pos 2; sha256 = "bb" },
      )
        ∷ [])
    ≡ (small_file ∷ [], large_file ∷ [])
unfolding keep lookup
separate-eq-keep_example = separate-eq-keep (("aa", small_file) ∷ (("bb", large_file) ∷ [])) (
    ("bb", record { lot_image_id = pos 1; file_name = "c"; image_blob_id = pos 2; sha256 = "bb" })
    ∷ [])

abbrev new_and_resumed : List InsertAndValidateMultiPartUploadRow
new_and_resumed = upload_row true ∷ (upload_row false ∷ [])

segregate_multi_upload_files-split_example :
    segregate_multi_upload_files (λ _. "key") new_and_resumed
    ≡ ok (
      map (upload_of (λ _. "key")) (keep (λ r. not (is_resumable r)) new_and_resumed),
      map (upload_of (λ _. "key")) (keep is_resumable new_and_resumed),
    )
segregate_multi_upload_files-split_example =
    segregate_multi_upload_files-split (λ _. "key") new_and_resumed
      (((λ e. cc), (λ e. cc)), (((λ e. cc), (λ e. cc)), tt))

sorts_two : sort_by compare_parts two_parts ≡ ok two_sorted
unfolding sort_by compare_parts
sorts_two = refl

-- S3 refuses, and the call returns without an error.
complete_multi_part_upload-drops_example :
    (complete_multi_part_upload fixed_host queries (pos 2) "bucket" two_parts fresh).0 ≡ ok tt
complete_multi_part_upload-drops_example =
    complete_multi_part_upload-drops fixed_host queries (pos 2) "bucket" two_parts fresh
      (item_of (pos 2)) two_sorted two_listed refl sorts_two refl (plain "InvalidPart") refl refl

complete_multi_part_upload-incomplete_example :
    ((complete_multi_part_upload fixed_host queries (pos 3) "bucket" two_parts fresh).0
      ≡ err (parts_missing (pos 3)))
    × ((complete_multi_part_upload fixed_host queries (pos 3) "bucket" two_parts fresh).1.log
        ≡ [] ++ (read_item queries.db (pos 3) ∷ (listed_parts "bucket" "key" (some "upload") ∷ [])))
complete_multi_part_upload-incomplete_example =
    complete_multi_part_upload-incomplete fixed_host queries (pos 3) "bucket" two_parts fresh
      (item_of (pos 3)) two_sorted two_listed refl sorts_two refl (pos 3) refl (λ e. cc)

-- The attempt of a small file has no part count.
complete_multi_part_upload-panics_example :
    (complete_multi_part_upload fixed_host queries (pos 0) "bucket" two_parts fresh).0 ≡ panic
complete_multi_part_upload-panics_example =
    complete_multi_part_upload-panics fixed_host queries (pos 0) "bucket" two_parts fresh
      (item_of (pos 0)) two_sorted two_listed refl sorts_two refl refl

fixed_host-Sorts : Sorts fixed_host
fixed_host-Sorts cmp key ps h = sort_by-sorts cmp key ps h

completes :
    (complete_multi_part_upload fixed_host queries (pos 2) "bucket" two_parts fresh).0 ≡ ok tt
unfolding complete_multi_part_upload sort_by
completes = refl

complete_multi_part_upload-done_example :
    let x = complete_multi_part_upload fixed_host queries (pos 2) "bucket" two_parts fresh in
    (item : GetMultiPartUploadItemRow) × (listed : List S3Part) × (sorted : List CompletedPart)
    × ((fixed_host.query_row_item queries.db (pos 2) tt).0 ≡ ok item)
    × ((fixed_host.list_parts "bucket" "key" item.upload_id tt).0 ≡ ok listed)
    × (item.part_count ≡ some (pos (length listed)))
    × Ascending number_of sorted
    × Perm sorted two_parts
    × (x.1.log
        ≡ ([] ++ (read_item queries.db (pos 2) ∷ (listed_parts "bucket" "key" item.upload_id ∷ [])))
          ++ (completed_multipart "bucket" "key" item.upload_id sorted ∷ []))
complete_multi_part_upload-done_example =
    complete_multi_part_upload-done fixed_host queries (pos 2) "bucket" two_parts fixed_host-Sorts
      ((λ e. cc), ((λ e. cc), tt)) fresh completes

abbrev image : ImageFile
image = record {
  sha256 = some "aa";
  file_name = some "a.jpg";
  client_file_id = some (negsuc 41);
  file_size = some 1000;
}

-- An image without its checksum.
abbrev bare_image : ImageFile
bare_image = record {
  sha256 = none;
  file_name = some "a.jpg";
  client_file_id = some (pos 1);
  file_size = some 1000;
}

convert_to_image_files-convert_to_upload_files_example :
    (convert_to_upload_files (image ∷ []) >>= convert_to_image_files) ≡ ok (image ∷ [])
convert_to_image_files-convert_to_upload_files_example =
    convert_to_image_files-convert_to_upload_files (image ∷ [])
      (((λ e. cc), (λ e. cc), (λ e. cc), (negsuc 41, refl, omega arith)), tt)

convert_to_upload_files_cases_example :
    (All HasFields (image ∷ (bare_image ∷ []))
      × ((us : List UploadFile) × (convert_to_upload_files (image ∷ (bare_image ∷ [])) ≡ ok us)))
    ⊎ ((All HasFields (image ∷ (bare_image ∷ [])) → ⊥)
        × (convert_to_upload_files (image ∷ (bare_image ∷ [])) ≡ panic))
convert_to_upload_files_cases_example = convert_to_upload_files_cases (image ∷ (bare_image ∷ []))

convert_to_completed_parts-convert_to_uploaded_etags_example :
    convert_to_completed_parts (convert_to_uploaded_etags two_etags)
    ≡ ok (map completed_of two_etags)
convert_to_completed_parts-convert_to_uploaded_etags_example =
    convert_to_completed_parts-convert_to_uploaded_etags two_etags (omega arith, (omega arith, tt))

abbrev bare_request : GeneratePresignedUrlRequest
bare_request = record { lot_images = image ∷ (bare_image ∷ []); lot_id = some "lot" }

generate_presigned_url_unreadable_example :
    generate_presigned_url fixed_host bare_request fresh ≡ (panic, fresh)
generate_presigned_url_unreadable_example =
    generate_presigned_url_unreadable fixed_host fresh bare_request (λ h. h.0.1.0.0 refl)

fixed_host-IsReady : IsReady fixed_host
fixed_host-IsReady = record { draws = λ w. (uuid 5, refl, refl); opens = λ key w. ("upload", refl) }

extract_file_data_total_example :
    (d : ExtractFile) × ((extract_file_data fixed_host three_files fresh).0 ≡ ok d)
extract_file_data_total_example =
    extract_file_data_total fixed_host fixed_host-IsReady three_files fresh

-- The url of the small file, and those of the two parts of the large one.
abbrev two_urls : List PresignedFileUrl
two_urls =
    record {
      upload_file = small_file;
      presigned_upload_url = record {
        single = record { request = some signed_url };
        multi = zero_multi;
      };
    }
    ∷ (record {
      upload_file = large_file;
      presigned_upload_url = record {
        single = zero_single;
        multi = record {
          requests =
              record { request = signed_url; part = pos 1 }
              ∷ (record { request = signed_url; part = pos 2 } ∷ []);
          multipart_attempt_id = pos 1;
          part_size = pos 10485760;
          image_etags = [];
        };
      };
    }
        ∷ [])

abbrev two_files : List UploadFile
two_files = small_file ∷ (large_file ∷ [])
