-- ===== src/ImageStore/Batch/Hashes.antt =====
-- Files with pairwise distinct hashes, and the maps from hashes to files that image_upload.go builds
-- of them.
use mathlib.Core.List.{
  Perm, Mem, not-mem-nil, mem-cons_self, mem-cons_of_mem, forall_mem-cons, Pairwise,
}
use mathlib.Core.List.Perm
use mathlib.Core.HLevel.{¬_prop}
use be_auction_lot.Prelude.{
  String, Bool, true, none, some, List, [], ◌∷◌, ◌++◌, ◌≡◌, ◌≢◌, refl, sym, ap, ap₂, ◌∙◌, map, keep,
  All, arith, eq_iff, Bool-cases, inl, inr, append-nil, append_assoc,
}
use be_auction_lot.Prelude.GoMap.{GoMap, insert, get_or, lookup, lookup-insert}
use be_auction_lot.ImageStore.Types.{UploadFile, zero_upload_file}
use be_auction_lot.ImageStore.Batch.Laws.{DistinctHashes}
use be_auction_lot.ImageStore.Batch.Split.{file_of}
use be_auction_lot.ImageStore.Upload.{file_map}
use be_auction_lot.ImageStore.Extract.Laws.{by_hash}

abbrev Differ : UploadFile → UploadFile → Type 0
Differ f g = f.sha256 ≢ g.sha256

All-Mem :
    {A : Type 0} (P : A → Type 0)
    → ((a : A) → IsProp (P a))
    → (xs : List A) → All P xs
    → (a : A) → Mem a xs
    → P a
All-Mem P prop [] h a m = absurd (not-mem-nil m)
All-Mem P prop (x ∷ xs) (p, h) a m = (forall_mem-cons prop).1 (p, All-Mem P prop xs h) a m

Mem-All : {A : Type 0} (P : A → Type 0) (xs : List A) → ((a : A) → Mem a xs → P a) → All P xs
Mem-All P [] h = tt
Mem-All P (x ∷ xs) h = (h x mem-cons_self, Mem-All P xs (λ a m. h a (mem-cons_of_mem x m)))

DistinctHashes-Pairwise : (fs : List UploadFile) → DistinctHashes fs → Pairwise Differ fs
DistinctHashes-Pairwise [] d = Pairwise.nil
DistinctHashes-Pairwise (f ∷ fs) (others, d) =
    Pairwise.cons (λ g m e. All-Mem (λ g. g.sha256 ≢ f.sha256) (λ _. ¬_prop) fs others g m (sym e))
      (DistinctHashes-Pairwise fs d)

Pairwise-DistinctHashes : (fs : List UploadFile) → Pairwise Differ fs → DistinctHashes fs
Pairwise-DistinctHashes [] d = tt
Pairwise-DistinctHashes (f ∷ fs) (Pairwise.cons h d) =
    (Mem-All (λ g. g.sha256 ≢ f.sha256) fs (λ g m e. h g m (sym e)), Pairwise-DistinctHashes fs d)

-- The order does not matter.
pub DistinctHashes-perm :
    (fs gs : List UploadFile) → Perm fs gs → DistinctHashes fs → DistinctHashes gs
DistinctHashes-perm fs gs p d = Pairwise-DistinctHashes gs (
    Perm.pairwise {R = Differ} (λ a b. ¬_prop) (λ f g n e. n (sym e)) p
      (DistinctHashes-Pairwise fs d))

All-keep_of :
    {A : Type 0} (P : A → Type 0) (p : A → Bool) (xs : List A) → All P xs → All P (keep p xs)
unfolding keep
All-keep_of P p [] h = tt
All-keep_of P p (x ∷ xs) (q, h) = elim (Bool-cases (p x)) [
  | inl e ↦ rw e (q, All-keep_of P p xs h)
  | inr e ↦ rw e (All-keep_of P p xs h)
]

-- The hashes of the files pass a test.
abbrev pub AllPass : (String → Bool) → List UploadFile → Type 0
AllPass test = All (λ f. test f.sha256 ≡ true)

pub AllPass-perm :
    (test : String → Bool) (fs gs : List UploadFile)
    → Perm fs gs
    → AllPass test fs
    → AllPass test gs
AllPass-perm test fs gs p h =
    Mem-All (λ f. test f.sha256 ≡ true) gs
      (λ g m. All-Mem (λ f. test f.sha256 ≡ true) (λ f. hlevel) fs h g ((Perm.mem_iff p).1 m))

pub AllPass-keep :
    (test : String → Bool) (p : UploadFile → Bool) (fs : List UploadFile)
    → AllPass test fs
    → AllPass test (keep p fs)
AllPass-keep test p fs h = All-keep_of (λ f. test f.sha256 ≡ true) p fs h

pub AllPass-prefix :
    (test : String → Bool) (fs gs : List UploadFile) → AllPass test (fs ++ gs) → AllPass test fs
AllPass-prefix test [] gs h = tt
AllPass-prefix test (f ∷ fs) gs (e, h) = (e, AllPass-prefix test fs gs h)

pub AllPass-hashes :
    (test : String → Bool) (fs : List UploadFile)
    → AllPass test fs
    → All (λ h. test h ≡ true) (map (λ f. f.sha256) fs)
AllPass-hashes test [] h = tt
AllPass-hashes test (f ∷ fs) (e, h) = (e, AllPass-hashes test fs h)

pub DistinctHashes-keep :
    (p : UploadFile → Bool) (fs : List UploadFile) → DistinctHashes fs → DistinctHashes (keep p fs)
unfolding keep
DistinctHashes-keep p [] d = tt
DistinctHashes-keep p (f ∷ fs) (others, d) = elim (Bool-cases (p f)) [
  | inl e ↦ rw e (All-keep_of (λ g. g.sha256 ≢ f.sha256) p fs others, DistinctHashes-keep p fs d)
  | inr e ↦ rw e (DistinctHashes-keep p fs d)
]

-- Files of other hashes do not change a look-up.
by_hash-other :
    (k : String) (fs : List UploadFile) (m : GoMap UploadFile)
    → All (λ g. g.sha256 ≢ k) fs
    → lookup k (by_hash m fs) ≡ lookup k m
unfolding by_hash
by_hash-other k [] m h = refl
by_hash-other k (f ∷ fs) m (n, h) =
    by_hash-other k fs (insert f.sha256 f m) h
    ∙ ground (arith, lookup-insert f.sha256 k f m, eq_iff f.sha256 k)

-- Each file is found under its hash.
pub by_hash-finds :
    (fs : List UploadFile) (m : GoMap UploadFile)
    → DistinctHashes fs
    → map (λ h. get_or zero_upload_file h (by_hash m fs)) (map (λ f. f.sha256) fs) ≡ fs
unfolding by_hash
by_hash-finds [] m d = refl
by_hash-finds (f ∷ fs) m (others, d) =
    let found : lookup f.sha256 (by_hash (insert f.sha256 f m) fs) ≡ some f =
      by_hash-other f.sha256 fs (insert f.sha256 f m) others
      ∙ ground (arith, lookup-insert f.sha256 f.sha256 f m, eq_iff f.sha256 f.sha256) in
    ap₂ ◌∷◌ (rw (found, get_or) refl) (by_hash-finds fs (insert f.sha256 f m) d)

abbrev entry : UploadFile → String × UploadFile
entry f = (f.sha256, f)

insert-new :
    (k : String) (f : UploadFile) (m : GoMap UploadFile)
    → lookup k m ≡ none
    → insert k f m ≡ m ++ ((k, f) ∷ [])
unfolding insert lookup
insert-new k f [] e = refl
insert-new k f ((held, old) ∷ rest) e = ground (arith, insert-new k f rest)

abbrev Absent : GoMap UploadFile → UploadFile → Type 0
Absent m g = lookup g.sha256 m ≡ none

All-Absent :
    (f : UploadFile) (m : GoMap UploadFile) (fs : List UploadFile)
    → All (λ g. g.sha256 ≢ f.sha256) fs
    → All (Absent m) fs
    → All (Absent (insert f.sha256 f m)) fs
All-Absent f m [] n h = tt
All-Absent f m (g ∷ gs) (n, ns) (h, hs) = (
  ground (arith, lookup-insert f.sha256 g.sha256 f m, eq_iff f.sha256 g.sha256),
  All-Absent f m gs ns hs,
)

file_map-eq :
    (fs : List UploadFile) (m : GoMap UploadFile)
    → DistinctHashes fs
    → All (Absent m) fs
    → file_map fs m ≡ m ++ map entry fs
unfolding file_map
file_map-eq [] m d h = sym (append-nil m)
file_map-eq (f ∷ fs) m (others, d) (a, h) =
    file_map-eq fs (insert f.sha256 f m) d (All-Absent f m fs others h)
    ∙ (ap (λ l. l ++ map entry fs) (insert-new f.sha256 f m a)
        ∙ append_assoc m (entry f ∷ []) (map entry fs))

All-none : (fs : List UploadFile) → All (Absent []) fs
unfolding lookup
All-none [] = tt
All-none (f ∷ fs) = (refl, All-none fs)

map-file_of : (fs : List UploadFile) → map file_of (map entry fs) ≡ fs
map-file_of [] = refl
map-file_of (f ∷ fs) = ap (λ gs. f ∷ gs) (map-file_of fs)

-- The map of a batch holds its files, in order.
pub file_map-files : (fs : List UploadFile) → DistinctHashes fs → map file_of (file_map fs []) ≡ fs
file_map-files fs d = ap (map file_of) (file_map-eq fs [] d (All-none fs)) ∙ map-file_of fs
