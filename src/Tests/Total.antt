-- ===== src/Tests/Total.antt =====
-- The host of World answers every call of an upload.
use mathlib.Core.List.{map-map}
use mathlib.Core.List.Perm
use be_auction_lot.Prelude.{String, List, [], ◌∷◌, map, All, ◌≡◌, refl, sym, ap}
use be_auction_lot.AppError.{nil}
use be_auction_lot.Outcome.{ok}
use be_auction_lot.Encoding.{hex_to_base64, decode_string}
use be_auction_lot.Filestore.{uuid}
use be_auction_lot.Filestore.Rows.{row}
use be_auction_lot.ImageStore.Types.{UploadFileRequestResult}
use be_auction_lot.ImageStore.Batch.Split.{HasPointers}
use be_auction_lot.ImageStore.Urls.Serves.{Serves}
use be_auction_lot.ImageStore.Upload.{initiate_upload}
use be_auction_lot.ImageStore.Upload.Total.{Answers, initiate_upload_total}
use be_auction_lot.Tests.World.{
  fixed_host, queries, three_files, fresh, row_for, two_listed, signed_url,
}

rows-HasPointers : (hashes : List String) → All HasPointers (map row_for hashes)
rows-HasPointers [] = tt
rows-HasPointers (h ∷ hs) = ((λ e. cc, λ e. cc), rows-HasPointers hs)

fixed_host-Serves : Serves fixed_host
fixed_host-Serves = record {
  ready = record { draws = λ w. (uuid 5, refl, refl); opens = λ key w. ("upload", refl) };
  single = λ db arg w. ([], refl);
  multi = λ db arg w. (
    map row_for arg.sha256s,
    ap (λ l. ok (record { scans = l; rows_err = nil })) (sym (map-map row row_for arg.sha256s)),
    rows-HasPointers arg.sha256s,
  );
  puts = λ key checksum w. (signed_url, refl);
  presigns = λ key n id w. (signed_url, refl);
  lists = λ key id w. (two_listed, refl, (("e1", _, refl, refl), (("e2", _, refl, refl), tt)));
}

fixed_host-Answers : Answers fixed_host
fixed_host-Answers = record {
  urls = fixed_host-Serves;
  begins = λ w. refl;
  commits = λ w. refl;
  identical = λ db arg w. ([], refl);
  ranges = λ w m. Perm.refl m;
}

initiate_upload_total_example :
    (r : UploadFileRequestResult) × ((initiate_upload fixed_host queries three_files "lot" fresh).0
      ≡ ok r)
unfolding hex_to_base64 decode_string
initiate_upload_total_example =
    initiate_upload_total fixed_host fixed_host-Answers queries three_files "lot" (uuid 5) fresh
      refl (refl, (refl, (refl, tt)))
