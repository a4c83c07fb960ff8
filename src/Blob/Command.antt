-- ===== src/Blob/Command.antt =====
-- scripts/ghcr-blob-stream.py: `main` from the arguments on, and `bearer`. The web and the files of
-- credentials are arguments.
use xfce_linux.Base.{
  ℕ, ◌≡◌, ◌≢◌, refl, ap, sym, arith, Option, none, some, List, [], ◌∷◌, ◌++◌, Text, codes, ℤ, pos,
  negsuc, length, int_text,
}
use xfce_linux.Blob.Ref.{Ref, parse_ref, blob_url, AuthFile, basic_auth}
use xfce_linux.Blob.Download.{
  Bytes, Reply, Request, Registry, Outcome, returned, raised, stop, stream_blob, no_progress,
}
use xfce_linux.Blob.Verified.{NoBrokenWrite, stream_blob-verified}

-- The answers of the web: the token at a URL, with the header `Authorization` if there is one, by
-- the number of the attempt, unless an exception is raised; and the blob at a URL.
pub record Web : Type 0 where
  pub token : ℕ → Text → Option Text → Option Text
  pub blob : ℕ → Text → Request → Reply
  pub auth_files : List AuthFile

abbrev pub token_url : Ref → Text
token_url r =
    codes "https://"
    ++ r.registry
    ++ codes "/token?service="
    ++ r.registry
    ++ codes "&scope=repository:"
    ++ r.repo
    ++ codes ":pull"

abbrev pub basic_header : Option Text → Option Text
basic_header none = none
basic_header (some auth) = some (codes "Basic " ++ auth)

-- `bearer`
unfoldable pub bearer : Web → Ref → ℕ → Option Text
bearer web r n = web.token n (token_url r) (basic_header (basic_auth r.registry web.auth_files))

-- The registry of a reference and a digest.
abbrev pub registry_of : Web → Text → Text → Registry
registry_of web ref digest = record {
  reply = λ n q. web.blob n (blob_url ref digest) q;
  bearer = λ n. bearer web (parse_ref ref) n;
}

module _ (sha256 : Bytes → Text) (web : Web) where
  abbrev of_nothing : Option Text → Outcome
  of_nothing none = stop raised 0 0 no_progress
  of_nothing (some token) = stop (returned 1) 0 0 no_progress

  -- A size below 0 is passed by the offset at once, and differs from it.
  abbrev pub with_size : Text → Text → Option ℤ → Outcome
  with_size ref digest none = stop raised 0 0 no_progress
  with_size ref digest (some (pos size)) =
      stream_blob sha256 (registry_of web ref digest) size digest
  with_size ref digest (some (negsuc n)) = of_nothing (bearer web (parse_ref ref) 0)

  -- `main`, of `sys.argv`
  unfoldable pub blob_main : List Text → Outcome
  blob_main (name ∷ ref ∷ digest ∷ size ∷ []) = with_size ref digest (int_text size)
  blob_main (name ∷ ref ∷ digest ∷ size ∷ arg ∷ more) = stop (returned 2) 0 0 no_progress
  blob_main (name ∷ ref ∷ digest ∷ []) = stop (returned 2) 0 0 no_progress
  blob_main (name ∷ ref ∷ []) = stop (returned 2) 0 0 no_progress
  blob_main (name ∷ []) = stop (returned 2) 0 0 no_progress
  blob_main [] = stop (returned 2) 0 0 no_progress

  -- What status 0 says of the arguments and of standard output.
  abbrev pub IsVerified : List Text → Bytes → Type 0
  IsVerified argv out =
      (name : Text) × (ref : Text) × (digest : Text) × (size : Text) × (argv
        ≡ name ∷ ref ∷ digest ∷ size ∷ [])
      × (int_text size ≡ some (pos (length out)))
      × (codes "sha256:" ++ sha256 out ≡ digest)

  of_nothing_fails : (t : Option Text) → (of_nothing t).exit ≢ returned 0
  of_nothing_fails none = λ e. cc
  of_nothing_fails (some token) = λ e. absurd (ground arith)

  module _ (writes : (ref digest : Text) → NoBrokenWrite (registry_of web ref digest)) where
    with_size-IsVerified :
        (ref digest : Text) (o : Option ℤ)
        → (with_size ref digest o).exit ≡ returned 0
        → (o ≡ some (pos (length (with_size ref digest o).progress.out)))
          × (codes "sha256:" ++ sha256 (with_size ref digest o).progress.out ≡ digest)
    with_size-IsVerified ref digest none h = absurd (cc)
    with_size-IsVerified ref digest (some (negsuc n)) h =
        absurd (of_nothing_fails (bearer web (parse_ref ref) 0) h)
    with_size-IsVerified ref digest (some (pos size)) h =
        let (n, d) =
          stream_blob-verified sha256 (registry_of web ref digest) size digest (writes ref digest)
            h in
        (ap (λ k. some (pos k)) (sym n), d)

    -- Status 0, with writes that go well: there were three arguments, the third is the number of the
    -- bytes on standard output, and the second is their digest.
    pub blob_main-IsVerified :
        (argv : List Text)
        → (blob_main argv).exit ≡ returned 0
        → IsVerified argv (blob_main argv).progress.out
    unfolding blob_main
    blob_main-IsVerified (name ∷ ref ∷ digest ∷ size ∷ []) h =
        let (n, d) = with_size-IsVerified ref digest (int_text size) h in
        (name, ref, digest, size, refl, n, d)
    blob_main-IsVerified (name ∷ ref ∷ digest ∷ size ∷ arg ∷ more) h = absurd (ground arith)
    blob_main-IsVerified (name ∷ ref ∷ digest ∷ []) h = absurd (ground arith)
    blob_main-IsVerified (name ∷ ref ∷ []) h = absurd (ground arith)
    blob_main-IsVerified (name ∷ []) h = absurd (ground arith)
    blob_main-IsVerified [] h = absurd (ground arith)
