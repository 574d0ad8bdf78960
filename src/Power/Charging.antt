-- ===== src/Power/Charging.antt =====
-- The robot's side of the charging dock: firmware/components/power/charging.c. The level of the
-- dock-detect pin and what the station answers on the UART are inputs.
use companion_robot.Base.{
  ◌⊎◌, ◌≢◌, none, ℕ, ◌≡◌, Bool, true, false, ◌&&◌, Option, some, ◌==◌, if◌then◌else◌, arith,
}

pub data ChargeState : Type 0 where
  not_connected docked_idle cc cv trickle charge_fault : ChargeState

pub record Charger : Type 0 where
  pub state : ChargeState
  pub uart_ok : Bool

-- What the peripherals answer during a call: the pin, and the byte of a handshake if one came.
pub record DockInputs : Type 0 where
  pub level : ℕ
  pub response : Option ℕ

response_ok : Option ℕ → Bool
response_ok none = false
response_ok (some byte) = byte == 0xaa

unfoldable pub charging_handshake : Charger → Option ℕ → Bool
unfolding response_ok
charging_handshake c answer = c.uart_ok && response_ok answer

-- `charging_init` once the UART driver calls have returned; `uart_ok` tells whether all succeeded.
unfoldable pub charging_init : Bool → DockInputs → Charger
unfolding charging_handshake
charging_init uart_ok i =
    let c : Charger = record { state = not_connected; uart_ok = uart_ok } in
    if uart_ok
    then (if i.level == 0
        then record c { state = if charging_handshake c i.response then cc else docked_idle }
        else c)
    else c

get_state_from : ChargeState → Charger → DockInputs → Charger
unfolding charging_handshake
get_state_from not_connected c i = record c {
  state = if charging_handshake c i.response then cc else docked_idle;
}
get_state_from _ c i = c

unfoldable pub charging_get_state : Charger → DockInputs → Charger
unfolding get_state_from
charging_get_state c i =
    if i.level == 0 then get_state_from c.state c i else record c { state = not_connected }

abbrev pub is_connected : ChargeState → Bool
is_connected not_connected = false
is_connected _ = true

-- The charger after the call, and the answer.
unfoldable pub charging_is_docked : Charger → DockInputs → Charger × Bool
unfolding charging_get_state
charging_is_docked c i = let c' = charging_get_state c i in (c', is_connected c'.state)

-- `charging_is_docked` answers yes exactly at a low pin level; constant-current charging begins
-- only at the transition from undocked, on a handshake byte 0xAA over a working UART.
charging_is_docked_lem :
    (c : Charger) (i : DockInputs)
    → let r = charging_is_docked c i in
      (r.1 ≡ (i.level == 0))
      × (r.0.uart_ok ≡ c.uart_ok)
      × ((r.0.state ≢ cc)
          ⊎ (c.state ≡ cc)
          ⊎ (c.state ≡ not_connected) × (c.uart_ok ≡ true) × (i.response ≡ some 0xaa))
unfolding charging_is_docked
charging_is_docked_lem c i = ground arith

-- The states that the code assigns.
abbrev pub is_assigned : ChargeState → Bool
is_assigned not_connected = true
is_assigned docked_idle = true
is_assigned cc = true
is_assigned _ = false

-- The driver never reports the constant-voltage, trickle or fault state: `charging_init` starts
-- outside them and `charging_get_state` stays outside them.
pub charging-is_assigned :
    (uart_ok : Bool) (c : Charger) (i : DockInputs)
    → is_assigned c.state ≡ true
    → (is_assigned (charging_init uart_ok i).state ≡ true)
      × (is_assigned (charging_get_state c i).state ≡ true)
unfolding charging_init charging_get_state
charging-is_assigned uart_ok c i h = ground arith
