-- ===== src/Perception/Tof.antt =====
-- The distance sensors: firmware/components/perception/tof.c. The bus and the pins are the
-- platform's: what a read answers is an input, and levels and writes are recorded. The directions
-- of the pins and the delays are not.
use companion_robot.Base.{
  ℕ, ◌+◌, ◌*◌, ◌/◌, ◌%◌, Bool, true, false, ◌||◌, Option, none, some, List, [], ◌∷◌, ◌++◌, ◌==◌,
  if◌then◌else◌,
}
use companion_robot.Motion.Obstacle.{TofReading}

abbrev pub vl53l0x_addr : ℕ
vl53l0x_addr = 0x29

abbrev pub vl53l0x_id_val : ℕ
vl53l0x_id_val = 0xEE

abbrev pub reg_sysrange_start : ℕ
reg_sysrange_start = 0x00

abbrev pub reg_device_address : ℕ
reg_device_address = 0x8A

abbrev pub reg_vhv_config : ℕ
reg_vhv_config = 0x89

-- `TOF_ADDRS`.
abbrev pub tof_addr : ℕ → ℕ
tof_addr i = 0x30 + i

-- `gpio_set_level` of the shutdown pin of a sensor, and `vl53l0x_write`.
pub data TofAct : Type 0 where
  set_level : (pin : ℕ) (level : Bool) → TofAct
  write : (addr reg val : ℕ) → TofAct

-- What the bus answers while a sensor is set up: the model, if it can be read, and whether the new
-- address is acknowledged.
pub record InitAnswers : Type 0 where
  pub model_id : Option ℕ
  pub addressed : Bool

-- What the bus answers to the two reads of `read_range`.
pub record RangeAnswers : Type 0 where
  pub status : Option ℕ
  pub range_buf : Option (ℕ × ℕ)

-- From the new address on.
unfoldable pub set_address : (new_addr : ℕ) → (addressed : Bool) → Bool × List TofAct
set_address new_addr addressed =
    let assign = write vl53l0x_addr reg_device_address (new_addr % 128) in
    if addressed
    then (
      true,
      assign ∷ (write new_addr reg_vhv_config 0x01 ∷ (write new_addr reg_sysrange_start 0x02 ∷ [])),
    )
    else (false, assign ∷ [])

unfoldable pub check_model : Option ℕ → (new_addr : ℕ) → (addressed : Bool) → Bool × List TofAct
check_model none new_addr addressed = (false, [])
check_model (some id) new_addr addressed =
    if id == vl53l0x_id_val then set_address new_addr addressed else (false, [])

unfoldable pub init_single_sensor : (index new_addr : ℕ) → InitAnswers → Bool × List TofAct
init_single_sensor index new_addr a =
    let (ok, acts) = check_model a.model_id new_addr a.addressed in
    (ok, set_level index true ∷ acts)

-- A turn of the loop of `tof_init`.
unfoldable pub init_turn : ℕ → InitAnswers → Bool × List TofAct
init_turn i a =
    let (ok, acts) = init_single_sensor i (tof_addr i) a in
    (ok, set_level 0 (0 == i) ∷ (set_level 1 (1 == i) ∷ (set_level 2 (2 == i) ∷ acts)))

abbrev pub all_levels : Bool → List TofAct
all_levels b = set_level 0 b ∷ (set_level 1 b ∷ (set_level 2 b ∷ []))

-- `tof_init`: `g_tof_init_ok` of the three sensors, and what is done.
unfoldable pub tof_init : (a0 a1 a2 : InitAnswers) → (Bool × Bool × Bool) × List TofAct
tof_init a0 a1 a2 =
    let (ok0, acts0) = init_turn 0 a0 in
    let (ok1, acts1) = init_turn 1 a1 in
    let (ok2, acts2) = init_turn 2 a2 in
    ((ok0, ok1, ok2), all_levels false ++ (acts0 ++ (acts1 ++ (acts2 ++ all_levels true))))

-- The range for a status: an unread range leaves the variable of the caller as it was.
unfoldable pub range_for : (before status : ℕ) → Option (ℕ × ℕ) → ℕ
range_for before status none = if ((status / 16) % 16) == 0 then before else 0
range_for before status (some (hi, lo)) = if ((status / 16) % 16) == 0 then hi * 256 + lo else 0

-- `none` where it returns false; `before` is what the caller's variable holds.
unfoldable pub read_range : (before : ℕ) → (status : Option ℕ) → Option (ℕ × ℕ) → Option ℕ
read_range before none buf = none
read_range before (some status) buf =
    if (status % 2) == 0 then none else some (range_for before status buf)

-- A turn of the loop of `tof_read_all`: the distance, if the sensor counts as answering.
unfoldable pub read_turn : (before : ℕ) → (init_ok : Bool) → RangeAnswers → Option ℕ
read_turn before init_ok a = if init_ok then read_range before a.status a.range_buf else none

abbrev pub or_0 : Option ℕ → ℕ
or_0 none = 0
or_0 (some mm) = mm

abbrev pub is_some : Option ℕ → Bool
is_some none = false
is_some (some mm) = true

-- `tof_read_all`, `none` where it returns false. `before` is what the uninitialised `range` of each
-- turn holds.
unfoldable pub tof_read_all :
    (before : ℕ → ℕ) → Bool × Bool × Bool → (r0 r1 r2 : RangeAnswers) → Option TofReading
tof_read_all before ok r0 r1 r2 =
    let d0 = read_turn (before 0) ok.0 r0 in
    let d1 = read_turn (before 1) ok.1 r1 in
    let d2 = read_turn (before 2) ok.2 r2 in
    if is_some d0 || (is_some d1 || is_some d2)
    then some (record { mm0 = or_0 d0; mm1 = or_0 d1; mm2 = or_0 d2 })
    else none
