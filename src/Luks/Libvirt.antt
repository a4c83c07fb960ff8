-- ===== src/Luks/Libvirt.antt =====
-- xfce-linux/src/luks-unlock.py: `virsh_screenshot_size`, `virsh_dhcp_ip` and `run_libvirt`.
use xfce_linux.Base.{
  ℕ, zero, suc, ◌+◌, Bytes, decode_strict, length, take, Bool, false, ◌&&◌, ◌||◌, not, Option, none,
  some, List, [], ◌∷◌, Text, is_empty, contains_text, split_words, split_lines, before_first,
  has_char, lower, ltb, leb, ◌==◌, if◌then◌else◌,
}
use xfce_linux.Luks.Serial.{universal_newlines}
use xfce_linux.Luks.Keys.{virsh_send_passphrase}
use xfce_linux.Luks.Exits.{
  Exit, exited, raised, out_of_fuel, Outcome, seconds, poll_interval, plymouth_wait,
  prompt_deadline, boot_deadline, prompt_rounds, boot_rounds,
}

-- `virsh screenshot`, by its return code, or nothing if it cannot be run, and the size of the file,
-- if it has one.
abbrev pub virsh_screenshot_size : Option ℕ → Option ℕ → Option ℕ
virsh_screenshot_size none size = none
virsh_screenshot_size (some code) none = some 0
virsh_screenshot_size (some code) (some size) = if not (code == 0) then some 0 else some size

-- The loops of `virsh_dhcp_ip`; the empty text if no line with the address has one.
abbrev pub ip_in : List Text → Option Text
ip_in [] = none
ip_in (part ∷ parts) =
    if has_char b'/' part && has_char b'.' part then some (before_first b'/' part) else ip_in parts

abbrev pub or_else : Option Text → Text → Text
or_else none t = t
or_else (some s) t = s

abbrev pub ip_in_lines : Text → List Text → Text
ip_in_lines mac [] = []
ip_in_lines mac (line ∷ lines) =
    let rest = ip_in_lines mac lines in
    if contains_text (lower line) (lower mac) then or_else (ip_in (split_words line)) rest else rest

abbrev pub ip_in_text : Text → Option Text → Option Text
ip_in_text mac none = none
ip_in_text mac (some text) = some (ip_in_lines mac (split_lines (universal_newlines text)))

-- `virsh_dhcp_ip` of the bytes that `virsh` prints; `none` is the exception if `virsh` cannot be run
-- or the bytes are no UTF-8.
unfoldable pub virsh_dhcp_ip : Text → Option Bytes → Option Text
unfolding decode_strict
virsh_dhcp_ip mac none = none
virsh_dhcp_ip mac (some bytes) = ip_in_text mac (decode_strict bytes)

-- One round: the screenshot before the passphrase, the leases after it, and the milliseconds that
-- the call takes.
pub record Look : Type 0 where
  pub code : Option ℕ
  pub size : Option ℕ
  pub leases : Option Bytes
  pub takes : ℕ

-- The rounds before and after the passphrase, the time that the keys take, and the call of `virsh
-- send-key` that raises, if one does.
pub record Guest : Type 0 where
  pub before : ℕ → Look
  pub after : ℕ → Look
  pub typing : ℕ
  pub stuck_key : Option ℕ

pub data Takeover : Type 0 where
  taken : ℕ → ℕ → Takeover
  not_taken takeover_raised takeover_fuel : Takeover

abbrev pub look_size : Look → Option ℕ
look_size l = virsh_screenshot_size l.code l.size

-- One round of the first loop: its size and `seen_content`, and what follows.
abbrev pub by_size : Option ℕ → Bool → ℕ → ℕ → (Bool → Takeover) → Takeover
by_size none seen n later go = takeover_raised
by_size (some size) seen n later go =
    let seen' = seen || ltb 4096 size in
    if seen' && leb size 4096 then taken n (later + plymouth_wait) else go seen'

-- One round of the second.
abbrev pub by_lease : Option Text → Exit → Exit
by_lease none rest = raised
by_lease (some ip) rest = if not (is_empty ip) then exited 0 else rest

module _ (g : Guest) (mac : Text) where
  -- The first loop: fuel, round, time, deadline and `seen_content`.
  unfoldable pub takeover_loop : ℕ → ℕ → ℕ → ℕ → Bool → Takeover
  takeover_loop zero n now deadline seen = if ltb now deadline then takeover_fuel else not_taken
  takeover_loop (suc fuel) n now deadline seen =
      let later = now + (g.before n).takes in
      if ltb now deadline
      then by_size (look_size (g.before n)) seen n later
          (λ seen'. takeover_loop fuel (suc n) (later + poll_interval) deadline seen')
      else not_taken

  -- The second loop.
  unfoldable pub lease_loop : ℕ → ℕ → ℕ → ℕ → Exit
  lease_loop zero n now deadline = if ltb now deadline then out_of_fuel else exited 2
  lease_loop (suc fuel) n now deadline =
      let rest = lease_loop fuel (suc n) (now + (g.after n).takes + seconds 5) deadline in
      if ltb now deadline then by_lease (virsh_dhcp_ip mac (g.after n).leases) rest else exited 2

  -- The keys, and the loop after them.
  abbrev pub send_and_wait : Text → ℕ → Option ℕ → Outcome
  send_and_wait s now none = record {
    exit = lease_loop boot_rounds 0 (now + g.typing) (now + g.typing + boot_deadline);
    sent = virsh_send_passphrase s;
  }
  send_and_wait s now (some k) =
      if ltb k (length (virsh_send_passphrase s))
      then record { exit = raised; sent = take k (virsh_send_passphrase s) }
      else record {
        exit = lease_loop boot_rounds 0 (now + g.typing) (now + g.typing + boot_deadline);
        sent = virsh_send_passphrase s;
      }

  abbrev pub after_takeover : Text → Takeover → Outcome
  after_takeover s (taken n now) = send_and_wait s now g.stuck_key
  after_takeover s not_taken = record { exit = exited 1; sent = [] }
  after_takeover s takeover_raised = record { exit = raised; sent = [] }
  after_takeover s takeover_fuel = record { exit = out_of_fuel; sent = [] }

  -- `run_libvirt`, begun at this time.
  unfoldable pub run_libvirt : Text → ℕ → Outcome
  run_libvirt s start =
      after_takeover s (takeover_loop prompt_rounds 0 start (start + prompt_deadline) false)
