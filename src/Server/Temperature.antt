-- ===== src/Server/Temperature.antt =====
-- tools/bst-dashboard.py: `_get_cpu_temp`, of what the directories and the files of /sys have.
use xfce_linux.Base.{
  ◌≡◌, refl, Bool, true, false, ◌&&◌, Option, none, some, List, [], ◌∷◌, ◌++◌, Text, codes, text_eq,
  any, contains_text, starts_with, ends_with, lower, if◌then◌else◌, ℤ, All, Bool-cases, inl, inr,
}
use xfce_linux.Filemap.Sort.{sort}

-- A sensor: the name of its file, its label if it can be read, and its value in thousandths.
pub record Sensor : Type 0 where
  pub fname : Text
  pub label : Option Text
  pub value : Option ℤ

-- A directory of /sys/class/hwmon: its name, the text of `name`, and its files if it can be listed.
pub record Chip : Type 0 where
  pub dir : Text
  pub name : Option Text
  pub sensors : Option (List Sensor)

-- A directory of /sys/class/thermal.
pub record Zone : Type 0 where
  pub dir : Text
  pub kind : Option Text
  pub temp : Option ℤ

abbrev pub chip_names : List Text
chip_names = codes "coretemp" ∷ codes "k10temp" ∷ codes "zenpower" ∷ codes "cpu_thermal" ∷ []

abbrev pub is_input : Sensor → Bool
is_input s = starts_with s.fname (codes "temp") && ends_with s.fname (codes "_input")

abbrev pub label_of : Option Text → Text
label_of none = []
label_of (some l) = l

abbrev pub is_package : Sensor → Bool
is_package s =
    any (contains_text (label_of s.label)) (codes "Package" ∷ codes "Tdie" ∷ codes "Tccd" ∷ [])

abbrev pub first_of : Option ℤ → ℤ → Option ℤ
first_of none v = some v
first_of (some b) v = some b

-- How the loop over the sensors goes on after one: the value, the best so far, and the rest.
abbrev pub sensor_step : Bool → Option ℤ → Option ℤ → (Option ℤ → Option ℤ) → Option ℤ
sensor_step preferred none best go = go best
sensor_step true (some v) best go = some v
sensor_step false (some v) best go = go (first_of best v)

-- The loop over the sensors of one chip, with `best`.
unfoldable pub pick_sensor : List Sensor → Option ℤ → Option ℤ
pick_sensor [] best = best
pick_sensor (s ∷ ss) best =
    if is_input s
    then sensor_step (is_package s) s.value best (λ b. pick_sensor ss b)
    else pick_sensor ss best

abbrev by_fname : Sensor → Text
by_fname s = s.fname

abbrev by_chip : Chip → Text
by_chip c = c.dir

abbrev by_zone : Zone → Text
by_zone z = z.dir

abbrev pub or_next : Option ℤ → Option ℤ → Option ℤ
or_next none next = next
or_next (some v) next = some v

-- The value of a chip of a known name; an exception of `listdir` ends the search.
abbrev pub chip_temp : Option (List Sensor) → Option ℤ → Option ℤ
chip_temp none next = none
chip_temp (some ss) next = or_next (pick_sensor (sort by_fname ss) none) next

abbrev pub is_known : Option Text → Bool
is_known none = false
is_known (some n) = any (text_eq n) chip_names

unfoldable pub hwmon_temp : List Chip → Option ℤ
hwmon_temp [] = none
hwmon_temp (c ∷ cs) =
    let rest = hwmon_temp cs in if is_known c.name then chip_temp c.sensors rest else rest

abbrev pub is_cpu_zone : Option Text → Bool
is_cpu_zone none = false
is_cpu_zone (some t) =
    any (contains_text (lower t)) (codes "cpu" ∷ codes "x86" ∷ codes "acpitz" ∷ [])

unfoldable pub zone_temp : List Zone → Option ℤ
zone_temp [] = none
zone_temp (z ∷ zs) =
    let rest = zone_temp zs in
    if starts_with z.dir (codes "thermal_zone") && is_cpu_zone z.kind
    then or_next z.temp rest
    else rest

abbrev pub listed : {A : Type 0} → (List A → Option ℤ) → Option (List A) → Option ℤ
listed f none = none
listed f (some l) = f l

-- `_get_cpu_temp`, where a directory may not be there.
unfoldable pub get_cpu_temp : Option (List Chip) → Option (List Zone) → Option ℤ
get_cpu_temp chips zones =
    or_next (listed (λ cs. hwmon_temp (sort by_chip cs)) chips)
      (listed (λ zs. zone_temp (sort by_zone zs)) zones)

-- A sensor that is labelled as the package and that can be read.
abbrev pub IsBest : Sensor → ℤ → Type 0
IsBest s v = (is_input s ≡ true) × (is_package s ≡ true) × (s.value ≡ some v)

abbrev pub NotBest : Sensor → Type 0
NotBest s = (is_input s && is_package s) ≡ false

step_over :
    (s : Sensor) (r best : Option ℤ) (v : ℤ) (go : Option ℤ → Option ℤ)
    → ((b : Option ℤ) → go b ≡ some v)
    → sensor_step false r best go ≡ some v
step_over s none best v go h = h best
step_over s (some w) best v go h = h (first_of best w)

-- Of the sensors of a chip the first that is labelled as the package is taken, if it can be read,
-- whatever the sensors before it and after it are.
pub pick_sensor-IsBest :
    (before after : List Sensor) (s : Sensor) (v : ℤ) (best : Option ℤ)
    → All NotBest before
    → IsBest s v
    → pick_sensor (before ++ s ∷ after) best ≡ some v
unfolding pick_sensor
pick_sensor-IsBest [] after s v best n (i, p, e) = rw (i, p, e) refl
pick_sensor-IsBest (x ∷ before) after s v best (n, ns) h =
    let go = λ (b : Option ℤ). pick_sensor-IsBest before after s v b ns h in
    elim (Bool-cases (is_input x)) [
      | inr i ↦ rw i (go best)
      | inl i ↦
          let p : is_package x ≡ false = rw i at n in
          rw (i, p) (step_over x x.value best v (λ b. pick_sensor (before ++ s ∷ after) b) go)
    ]
