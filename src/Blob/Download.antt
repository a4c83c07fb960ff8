-- ===== src/Blob/Download.antt =====
-- scripts/ghcr-blob-stream.py: the loop of `main` over the attempts, with the reads of one response.
-- The registry, its tokens, the hash and the fate of each write are arguments.
use xfce_linux.Base.{
  ℕ, zero, suc, ◌+◌, ◌-◌, ◌*◌, min, Bool, true, false, ◌&&◌, not, Option, none, some, List, [], ◌∷◌,
  ◌++◌, Text, codes, length, take, drop, text_eq, ◌==◌, ltb, if◌then◌else◌,
}

abbrev pub Bytes : Type 0
Bytes = List ℕ

-- `CHUNK` and `MAX_ATTEMPTS`
abbrev pub chunk_size : ℕ
chunk_size = 4 * 1024 * 1024

abbrev pub max_attempts : ℕ
max_attempts = 40

-- One call of `resp.read` and the `out.write` after it: how many bytes beyond the first are at
-- hand, and, if the write raises an `OSError`, how many bytes it wrote before.
pub record Read : Type 0 where
  pub more : ℕ
  pub broken_write : Option ℕ

-- What `urlopen` does: it raises an `HTTPError` or another exception that the code catches, or it
-- answers with a status and a body. The reads of a body end by an empty read or by an exception.
pub data Reply : Type 0 where
  http_error : ℕ → Reply
  refused : Reply
  answer : ℕ → Bytes → List Read → Bool → Reply

-- The offset of the `Range` header, 0 without one, and the token.
pub record Request : Type 0 where
  pub offset : ℕ
  pub token : Text

-- The registry, by the number of the attempt; `bearer` fails by an exception that nothing catches.
pub record Registry : Type 0 where
  pub reply : ℕ → Request → Reply
  pub bearer : ℕ → Option Text

-- `offset`, the bytes that standard output has, and those that the hash has.
pub record Progress : Type 0 where
  pub offset : ℕ
  pub out : Bytes
  pub hashed : Bytes

pub data Fate : Type 0 where
  ended cut : Fate

abbrev pub put_bytes : Progress → Bytes → Progress
put_bytes s buf = record {
  offset = s.offset + length buf;
  out = s.out ++ buf;
  hashed = s.hashed ++ buf;
}

-- The reads at hand; after those that are listed a read gives all that it asks for.
abbrev pub next_read : List Read → Read
next_read [] = record { more = chunk_size; broken_write = none }
next_read (r ∷ rs) = r

abbrev pub later_reads : List Read → List Read
later_reads [] = []
later_reads (r ∷ rs) = rs

-- `resp.read(min(CHUNK, size - offset))`: at least one byte while the body has any.
abbrev pub read_size : ℕ → ℕ → Read → ℕ
read_size size offset r = min (min chunk_size (size - offset)) (suc r.more)

-- The loop `while offset < size` over one body. The first number is fuel: each round takes a byte.
unfoldable pub read_body : ℕ → ℕ → Bytes → List Read → Bool → Progress → Progress × Fate
read_body zero size body reads is_cut s = (s, ended)
read_body (suc f) size [] reads is_cut s =
    if ltb s.offset size then (s, if is_cut then cut else ended) else (s, ended)
read_body (suc f) size (b ∷ body) reads is_cut s =
    let r = next_read reads in
    let n = read_size size s.offset r in
    let buf = take n (b ∷ body) in
    let rest = read_body f size (drop n (b ∷ body)) (later_reads reads) is_cut (put_bytes s buf) in
    if ltb s.offset size
    then elim r.broken_write [
      | none ↦ rest
      | some j ↦ (record s { out = s.out ++ take j buf }, cut)
    ]
    else (s, ended)

-- How one attempt ends: the loop goes on, after a pause if an exception was caught, or `main`
-- returns 1, or an exception leaves `main`.
pub data Attempt : Type 0 where
  again : Bool → Text → Progress → Attempt
  cannot_resume : Progress → Attempt
  no_token : Progress → Attempt

abbrev pub after_body : Text → Progress × Fate → Attempt
after_body token (s, ended) = again false token s
after_body token (s, cut) = again true token s

abbrev pub refreshed : Option Text → Progress → Attempt
refreshed none s = no_token s
refreshed (some token) s = again true token s

unfoldable pub attempt_once : Registry → ℕ → ℕ → Text → Progress → Attempt
attempt_once g size n token s = elim (g.reply n (record { offset = s.offset; token = token })) [
  | http_error code ↦ if code == 401 then refreshed (g.bearer n) s else again true token s
  | refused ↦ again true token s
  | answer status body reads is_cut ↦
      if not (s.offset == 0) && not (status == 206)
      then cannot_resume s
      else after_body token (read_body (suc (length body)) size body reads is_cut s)
]

-- What `main` returns, what it wrote, and the seconds that it slept.
pub data Exit : Type 0 where
  returned : ℕ → Exit
  raised : Exit

pub record Outcome : Type 0 where
  pub exit : Exit
  pub progress : Progress
  pub attempts : ℕ
  pub slept : ℕ

-- `time.sleep(min(30, 2 * attempt))`
abbrev pub pause : ℕ → ℕ
pause n = min 30 (2 * n)

-- The code after the loop.
unfoldable pub finish : (Bytes → Text) → ℕ → Text → Progress → ℕ
finish sha256 size digest s =
    if not (s.offset == size)
    then 1
    else if not (text_eq (codes "sha256:" ++ sha256 s.hashed) digest)
    then 1
    else 0

abbrev pub stop : Exit → ℕ → ℕ → Progress → Outcome
stop e n slept s = record { exit = e; progress = s; attempts = n; slept = slept }

-- The end of an attempt, and how the loop goes on from there.
abbrev pub after_attempt : (ℕ → Text → Progress → Outcome) → ℕ → ℕ → Attempt → Outcome
after_attempt go n slept (again paused token s) =
    go (if paused then slept + pause n else slept) token s
after_attempt go n slept (cannot_resume s) = stop (returned 1) n slept s
after_attempt go n slept (no_token s) = stop raised n slept s

abbrev pub no_progress : Progress
no_progress = record { offset = 0; out = []; hashed = [] }

module _ (sha256 : Bytes → Text) (g : Registry) (size : ℕ) (digest : Text) where
  -- The loop, by the number of attempts that are left; `n` were made, and `slept` seconds slept.
  unfoldable pub attempt_loop : ℕ → ℕ → ℕ → Text → Progress → Outcome
  attempt_loop zero n slept token s =
      if ltb s.offset size
      then stop (returned 1) n slept s
      else stop (returned (finish sha256 size digest s)) n slept s
  attempt_loop (suc left) n slept token s =
      if ltb s.offset size
      then after_attempt (attempt_loop left (suc n)) (suc n) slept
          (attempt_once g size (suc n) token s)
      else stop (returned (finish sha256 size digest s)) n slept s

  -- `main` from the first token on.
  unfoldable pub stream_blob : Outcome
  stream_blob = elim (g.bearer 0) [
    | none ↦ stop raised 0 0 no_progress
    | some token ↦ attempt_loop max_attempts 0 0 token no_progress
  ]
