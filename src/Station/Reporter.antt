-- ===== src/Station/Reporter.antt =====
-- The reporter of the charging station:
-- firmware/charging-station/components/wifi_reporter/wifi_reporter.c. Sockets are the platform's:
-- whether they connect and send is an input. The text of a report is not modelled: what is sent is
-- the event that it is made from.
use companion_robot.Base.{
  ℕ, Bool, true, false, ◌&&◌, Option, none, some, List, [], ◌∷◌, ◌++◌, length, ltb, if◌then◌else◌,
}
use companion_robot.Station.Loop.{WifiState, wifi_disconnected, wifi_link_up, wifi_joined, Report}

abbrev pub queue_depth : ℕ
queue_depth = 8

-- `wifi_reporter_t`, without its settings, with the queue and the variable `ev` of the task, which
-- is `none` until it is written; `started` once the loop that waits for WiFi has ended.
pub record Reporter : Type 0 where
  pub wifi_state : WifiState
  pub sock_open : Bool
  pub report_enabled : Bool
  pub queue : List Report
  pub started : Bool
  pub ev : Option Report

-- The events of `wifi_event_handler`.
pub data WifiEvent : Type 0 where
  sta_start sta_disconnected got_ip other_event : WifiEvent

-- The handler, with whether it calls `esp_wifi_connect`.
unfoldable pub wifi_event_handler : WifiEvent → Reporter → Reporter × Bool
wifi_event_handler sta_start r = (record r { wifi_state = wifi_link_up }, true)
wifi_event_handler sta_disconnected r = (record r { wifi_state = wifi_disconnected }, true)
wifi_event_handler got_ip r = (record r { wifi_state = wifi_joined }, false)
wifi_event_handler other_event r = (r, false)

-- `wifi_reporter_init` and `wifi_reporter_start`.
abbrev pub reporter_start : Reporter
reporter_start = record {
  wifi_state = wifi_disconnected;
  sock_open = false;
  report_enabled = false;
  queue = [];
  started = false;
  ev = none;
}

unfoldable pub wifi_reporter_report : Report → Reporter → Reporter × Bool
wifi_reporter_report e r =
    if ltb (length r.queue) queue_depth
    then (record r { queue = r.queue ++ (e ∷ []) }, true)
    else (r, false)

-- What a round of the task meets: whether the gateway accepts a connection, and whether the send
-- succeeds.
pub record Link : Type 0 where
  pub connects : Bool
  pub sends : Bool

-- "Connect to gateway if needed".
unfoldable pub connect_if_needed : (connects : Bool) → Reporter → Reporter
connect_if_needed connects r =
    if r.sock_open
    then r
    else if connects
    then record r { sock_open = true; report_enabled = true }
    else r

-- "Wait for event with timeout".
unfoldable pub take_event : List Report → Reporter → Reporter
take_event [] r = r
take_event (e ∷ es) r = record r { queue = es; ev = some e }

-- "Send report": the events sent, `none` for one that was never written.
unfoldable pub send_report : (sends : Bool) → Reporter → Reporter × List (Option Report)
send_report sends r =
    if r.report_enabled && r.sock_open
    then if sends
      then (r, r.ev ∷ [])
      else (record r { sock_open = false; report_enabled = false }, [])
    else (r, [])

abbrev pub is_connected : WifiState → Bool
is_connected wifi_disconnected = false
is_connected wifi_link_up = false
is_connected wifi_joined = true

-- A round of `reporter_task`: a wait for WiFi, or a turn of its loop.
unfoldable pub reporter_round : Link → Reporter → Reporter × List (Option Report)
reporter_round l r =
    let c = connect_if_needed l.connects r in
    if r.started
    then send_report l.sends (take_event c.queue c)
    else (record r { started = is_connected r.wifi_state }, [])

-- Rounds in turn, with the events sent.
unfoldable pub run_reporter : List Link → Reporter → Reporter × List (Option Report)
run_reporter [] r = (r, [])
run_reporter (l ∷ ls) r =
    let (r', now) = reporter_round l r in
    let (end, later) = run_reporter ls r' in (end, now ++ later)
