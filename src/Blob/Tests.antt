-- ===== src/Blob/Tests.antt =====
-- A download that is cut and resumed, and the theorems on it.
use xfce_linux.Base.{
  int_text, ℕ, ◌≡◌, refl, ap, ◌∙◌, sym, true, false, some, List, [], ◌∷◌, ◌++◌, Text, codes, length,
  length-take, length-drop, take, drop, take-append-drop, ◌==◌, arith, if◌then◌else◌,
}
use xfce_linux.Blob.Ref.{parse_ref, blob_url}
use xfce_linux.Blob.Download.{
  Bytes, Read, answer, Registry, returned, stream_blob, attempt_loop, attempt_once, read_body,
  finish,
}
use xfce_linux.Blob.Reading.{WritesWell}
use xfce_linux.Blob.Verified.{NoBrokenWrite, Serves, stream_blob-faithful}
use xfce_linux.Blob.Command.{Web, registry_of, blob_main, IsVerified, bearer, blob_main-IsVerified}
use xfce_linux.Blob.Completion.{Delivers, stream_blob-completes}
use xfce_linux.Blob.BrokenWrite.{stream_blob-broken_write}

abbrev blob : Bytes
blob = 10 ∷ 20 ∷ 30 ∷ 40 ∷ []

-- A stand-in for the hash.
abbrev sum_hash : Bytes → Text
sum_hash [] = codes "x"
sum_hash (b ∷ bs) = b ∷ sum_hash bs

abbrev digest : Text
digest = codes "sha256:" ++ sum_hash blob

-- Every answer has two bytes and is then cut.
abbrev two_bytes : Registry
two_bytes = record {
  reply = λ n q. answer (if q.offset == 0 then 200 else 206) (take 2 (drop q.offset blob)) [] true;
  bearer = λ n. some (codes "t");
}

run : ℕ
unfolding stream_blob attempt_loop attempt_once read_body finish
run = length (stream_blob sum_hash two_bytes 4 digest).progress.out

run_length : run ≡ 4
unfolding run
run_length = refl

run_exit : (stream_blob sum_hash two_bytes 4 digest).exit ≡ returned 0
unfolding stream_blob attempt_loop attempt_once read_body finish
run_exit = refl

two_bytes-NoBrokenWrite : NoBrokenWrite two_bytes
two_bytes-NoBrokenWrite = record {
  well = λ n q status body reads is_cut e. writes reads (ground arith);
}
  where
    writes : (reads : List Read) → reads ≡ [] → WritesWell reads
    writes [] e = tt
    writes (r ∷ reads) e = absurd (cc)

-- The web that answers so, and gives a token to whoever asks.
abbrev web : Web
web = record {
  token = λ n url header. some (codes "t");
  blob = λ n url q. two_bytes.reply n q;
  auth_files = [];
}

web-NoBrokenWrite : (ref d : Text) → NoBrokenWrite (registry_of web ref d)
web-NoBrokenWrite ref d = record {
  well =
      λ n q status body reads is_cut e. two_bytes-NoBrokenWrite.well n q status body reads is_cut e;
}

abbrev argv : List Text
argv = codes "stream" ∷ codes "ghcr.io/a/b:1" ∷ digest ∷ codes "4" ∷ []

main_exit : (blob_main sum_hash web argv).exit ≡ returned 0
unfolding blob_main int_text bearer stream_blob attempt_loop attempt_once read_body finish
main_exit = refl

blob_main-IsVerified_example :
    IsVerified sum_hash web argv (blob_main sum_hash web argv).progress.out
blob_main-IsVerified_example = blob_main-IsVerified sum_hash web web-NoBrokenWrite argv main_exit

usage_exit : (blob_main sum_hash web (codes "stream" ∷ [])).exit ≡ returned 2
unfolding blob_main
usage_exit = refl

two_bytes-Serves : Serves two_bytes blob
two_bytes-Serves = record {
  front = λ n q status body reads is_cut e ok.
      let same : take 2 (drop q.offset blob) ≡ body = ground arith in
      (
        drop 2 (drop q.offset blob),
        sym (take-append-drop 2 (drop q.offset blob))
            ∙ ap (λ t. t ++ drop 2 (drop q.offset blob)) same,
      );
}

stream_blob-faithful_example :
    ((rest : Bytes) × (blob ≡ (stream_blob sum_hash two_bytes 4 digest).progress.out ++ rest))
    × ((stream_blob sum_hash two_bytes 4 digest).exit ≡ returned 0
        → (stream_blob sum_hash two_bytes 4 digest).progress.out ≡ blob)
stream_blob-faithful_example =
    stream_blob-faithful sum_hash two_bytes 4 digest blob two_bytes-NoBrokenWrite two_bytes-Serves
      refl

two_bytes-Delivers : Delivers two_bytes 4 1
two_bytes-Delivers = record {
  answers = λ n q h. (
    _,
    _,
    _,
    _,
    refl,
    ground arith,
    omega (arith, length-take 2 (drop q.offset blob), length-drop q.offset blob),
  );
}

stream_blob-completes_example :
    let o = stream_blob sum_hash two_bytes 4 digest in
    (o.exit ≡ returned 0) × (o.progress.out ≡ blob)
stream_blob-completes_example =
    stream_blob-completes sum_hash two_bytes blob (codes "t") 1 two_bytes-NoBrokenWrite
      two_bytes-Serves refl two_bytes-Delivers (omega arith)

-- The first write breaks after three bytes.
abbrev breaks : Registry
breaks = record {
  reply = λ n q.
      answer 200 blob (if n == 1 then record { more = 100; broken_write = some 3 } ∷ [] else [])
        false;
  bearer = λ n. some (codes "t");
}

stream_blob-broken_write_example :
    ((stream_blob sum_hash breaks 4 digest).exit ≡ returned 0)
    × ((stream_blob sum_hash breaks 4 digest).progress.out ≡ take 3 blob ++ blob)
stream_blob-broken_write_example =
    stream_blob-broken_write sum_hash breaks blob (codes "t") 100 3 (omega arith) (omega arith)
      (omega arith) refl refl refl

url :
    blob_url (codes "ghcr.io/o/c:latest") (codes "sha256:0a")
    ≡ codes "https://ghcr.io/v2/o/c/blobs/sha256:0a"
unfolding blob_url parse_ref
url = refl
