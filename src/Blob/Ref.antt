-- ===== src/Blob/Ref.antt =====
-- scripts/ghcr-blob-stream.py: the registry and the repository of a reference, the URL of a blob,
-- and the credentials.
use xfce_linux.Base.{
  ℕ, ◌≡◌, refl, ap, true, false, ◌||◌, Option, none, some, List, [], ◌∷◌, ◌++◌, Text, codes,
  has_char, before_first, after_first, before_last, after_last, text_eq, is_empty, ◌==◌, ==_self,
  arith, if◌then◌else◌,
}

pub record Ref : Type 0 where
  pub registry : Text
  pub repo : Text

abbrev without_tag : Text → Text
without_tag repo = if has_char b':' (after_last b'/' repo) then before_last b':' repo else repo

unfoldable pub parse_ref : Text → Ref
parse_ref ref = record {
  registry = before_first b'/' ref;
  repo = without_tag (before_last b'@' (after_first b'/' ref));
}

unfoldable pub blob_url : Text → Text → Text
blob_url ref digest =
    let r = parse_ref ref in
    codes "https://" ++ (r.registry ++ (codes "/v2/" ++ (r.repo ++ (codes "/blobs/" ++ digest))))

-- A file of credentials: not there, not readable as JSON, or the `auth` of each registry.
pub data AuthFile : Type 0 where
  missing unreadable : AuthFile
  auths : List (Text × Text) → AuthFile

unfoldable pub find_auth : Text → List (Text × Text) → Option Text
find_auth key [] = none
find_auth key ((k, auth) ∷ l) =
    if text_eq k key then (if is_empty auth then none else some auth) else find_auth key l

abbrev pub or_else {ℓ} : {A : Type ℓ} → Option A → Option A → Option A
or_else none b = b
or_else (some a) b = some a

-- `basic_auth`, over the files in the order in which it tries them.
unfoldable pub basic_auth : Text → List AuthFile → Option Text
basic_auth registry [] = none
basic_auth registry (missing ∷ fs) = basic_auth registry fs
basic_auth registry (unreadable ∷ fs) = basic_auth registry fs
basic_auth registry (auths l ∷ fs) =
    or_else (find_auth registry l)
      (or_else (find_auth (codes "https://" ++ registry) l) (basic_auth registry fs))

module _ (c : ℕ) where
  before_first-append : (a b : Text) → has_char c a ≡ false → before_first c (a ++ c ∷ b) ≡ a
  before_first-append [] b h = rw ==_self refl
  before_first-append (x ∷ a) b h = ground (arith, before_first-append a b)

  after_first-append : (a b : Text) → has_char c a ≡ false → after_first c (a ++ c ∷ b) ≡ b
  after_first-append [] b h = rw ==_self refl
  after_first-append (x ∷ a) b h = ground (arith, after_first-append a b)

  has_char-append_self : (a b : Text) → has_char c (a ++ c ∷ b) ≡ true
  has_char-append_self [] b = rw ==_self refl
  has_char-append_self (x ∷ a) b = ground (arith, has_char-append_self a b)

  has_char-append : (a b : Text) → has_char c (a ++ b) ≡ (has_char c a || has_char c b)
  has_char-append [] b = refl
  has_char-append (x ∷ a) b = ground (arith, has_char-append a b)

  before_last-append : (a b : Text) → has_char c b ≡ false → before_last c (a ++ c ∷ b) ≡ a
  before_last-append [] b h = rw (==_self, h) refl
  before_last-append (x ∷ a) b h = ground (arith, has_char-append_self a b, before_last-append a b)

  before_last-none : (a : Text) → has_char c a ≡ false → before_last c a ≡ a
  before_last-none [] h = refl
  before_last-none (x ∷ a) h = ground (arith, before_last-none a)

-- Behind the last slash there is still the colon of a tag without slashes.
has_char-after_last :
    (c d : ℕ) (a b : Text)
    → has_char d b ≡ false
    → (c == d) ≡ false
    → has_char c (after_last d (a ++ c ∷ b)) ≡ true
has_char-after_last c d [] b h e = rw (h, e) (rw ==_self refl)
has_char-after_last c d (x ∷ a) b h e =
    ground (arith, has_char-append_self c a b, has_char-after_last c d a b)

-- The parts of a reference with a tag, as the registry writes it.
pub record IsTagged (host path tag : Text) : Type 0 where
  pub host_slash : has_char b'/' host ≡ false
  pub path_at : has_char b'@' path ≡ false
  pub tag_at : has_char b'@' tag ≡ false
  pub tag_slash : has_char b'/' tag ≡ false
  pub tag_colon : has_char b':' tag ≡ false

-- A reference with a tag, and one with a digest behind the tag, have the registry before the first
-- slash and the repository with neither tag nor digest, also where a component of the repository
-- or the registry has a colon.
pub parse_ref-tagged :
    (registry repo tag digest : Text)
    → IsTagged registry repo tag
    → has_char b'@' digest ≡ false
    → (parse_ref (registry ++ b'/' ∷ (repo ++ b':' ∷ tag))
        ≡ record { registry = registry; repo = repo })
      × (parse_ref (registry ++ b'/' ∷ ((repo ++ b':' ∷ tag) ++ b'@' ∷ digest))
          ≡ record { registry = registry; repo = repo })
unfolding parse_ref
parse_ref-tagged registry repo tag digest h d =
    let named = repo ++ b':' ∷ tag in
    let no_at : has_char b'@' named ≡ false =
      rw (has_char-append b'@' repo (b':' ∷ tag), h.path_at, h.tag_at) refl in
    let untagged : without_tag named ≡ repo =
      rw (has_char-after_last b':' b'/' repo tag h.tag_slash refl)
        (before_last-append b':' repo tag h.tag_colon) in
    (
      rw
          (
            before_first-append b'/' registry named h.host_slash,
            after_first-append b'/' registry named h.host_slash,
            before_last-none b'@' named no_at,
          )
          (ap (λ r. record { registry = registry; repo = r }) untagged),
      rw
          (
            before_first-append b'/' registry (named ++ b'@' ∷ digest) h.host_slash,
            after_first-append b'/' registry (named ++ b'@' ∷ digest) h.host_slash,
            before_last-append b'@' named digest d,
          )
          (ap (λ r. record { registry = registry; repo = r }) untagged),
    )
