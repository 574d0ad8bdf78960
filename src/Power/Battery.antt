-- ===== src/Power/Battery.antt =====
-- The fuel gauge: firmware/components/power/battery.c. The I2C reads are inputs, `none` where the
-- bus reports an error. Voltage and current are floats computed from the registers kept here.
use companion_robot.Base.{
  ◌⊎◌, ◌≢◌, none, ℕ, ◌+◌, ◌*◌, ◌/◌, ◌≡◌, Bool, true, false, Option, some, ltb, if◌then◌else◌, arith,
}

abbrev pub battery_low_pct : ℕ
battery_low_pct = 20

abbrev pub battery_critical_pct : ℕ
battery_critical_pct = 10

-- `g_battery` and `g_fuel_gauge_ok`.
pub record Battery : Type 0 where
  pub gauge_ok : Bool
  pub vcell : ℕ
  pub crate : ℕ
  pub soc_pct : ℕ
  pub low : Bool
  pub critical : Bool
  pub timestamp_ms : ℕ

-- The two bytes of each register that a poll reads.
pub record GaugeReads : Type 0 where
  pub vcell_buf : Option (ℕ × ℕ)
  pub soc_buf : Option (ℕ × ℕ)
  pub crate_buf : Option (ℕ × ℕ)

word_or : Option (ℕ × ℕ) → ℕ → ℕ
word_or none old = old
word_or (some (hi, lo)) old = hi * 256 + lo

-- `soc >> 8` of the register read.
percent_or : Option (ℕ × ℕ) → ℕ → ℕ
percent_or none old = old
percent_or (some (hi, lo)) old = (hi * 256 + lo) / 256

-- Without the chip: a fixed 85 percent.
-- 3.85 V is the fixed voltage, of no register; 49280 is the VCELL value of that voltage.
unfoldable pub battery_absent : Battery
battery_absent = record {
  gauge_ok = false;
  vcell = 49280;
  crate = 0;
  soc_pct = 85;
  low = false;
  critical = false;
  timestamp_ms = 0;
}

unfoldable pub battery_get_status : Battery → GaugeReads → ℕ → Battery
unfolding word_or percent_or
battery_get_status b r now =
    let soc = percent_or r.soc_buf b.soc_pct in
    if b.gauge_ok
    then record b {
      vcell = word_or r.vcell_buf b.vcell;
      crate = word_or r.crate_buf b.crate;
      soc_pct = soc;
      low = ltb soc battery_low_pct;
      critical = ltb soc battery_critical_pct;
      timestamp_ms = now;
    }
    else record b { timestamp_ms = now }

-- `battery_init`: whether the chip answers, and the first reading, at `now`; the globals are zero.
unfoldable pub battery_init : Bool → GaugeReads → ℕ → Battery
battery_init false r now = battery_absent
battery_init true r now =
    battery_get_status
      (record {
        gauge_ok = true;
        vcell = 0;
        crate = 0;
        soc_pct = 0;
        low = false;
        critical = false;
        timestamp_ms = 0;
      })
      r now

-- The flags say what the percentage says.
pub record FlagsAgree (b : Battery) : Type 0 where
  pub low_agrees : b.low ≡ ltb b.soc_pct 20
  pub critical_agrees : b.critical ≡ ltb b.soc_pct 10

pub battery_absent-FlagsAgree : FlagsAgree battery_absent
unfolding battery_absent
battery_absent-FlagsAgree = ground arith

-- Whatever the bus returns, errors included, a poll from flags that agree with the percentage
-- leaves the low flag set exactly below 20 percent and the critical flag exactly below 10, keeps
-- the percentage where its read fails, and stamps the time.
battery_get_status-FlagsAgree :
    (b : Battery) (r : GaugeReads) (now : ℕ)
    → FlagsAgree b
    → let b' = battery_get_status b r now in
      FlagsAgree b' × ((r.soc_buf ≢ none) ⊎ (b'.soc_pct ≡ b.soc_pct)) × (b'.timestamp_ms ≡ now)
unfolding battery_get_status
battery_get_status-FlagsAgree b r now h = ground arith

-- A critical battery is a low one.
pub critical_low : (b : Battery) → FlagsAgree b → b.critical ≡ true → b.low ≡ true
critical_low b h c = ground arith

-- The flags agree from the start, though nothing was read yet if the first read fails.
pub battery_init-FlagsAgree :
    (chip : Bool) (r : GaugeReads) (now : ℕ) → FlagsAgree (battery_init chip r now)
unfolding battery_init battery_get_status
battery_init-FlagsAgree false r now = battery_absent-FlagsAgree
battery_init-FlagsAgree true r now = ground arith
