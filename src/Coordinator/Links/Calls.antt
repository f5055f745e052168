-- ===== src/Coordinator/Links/Calls.antt =====
-- The calls that change the links of src/custom_components/bluetooth_mesh/coordinator.py, in any
-- order.
use ha_bluetooth_mesh.Prelude.{ℕ, Bool, false, none, List, [], ◌∷◌}
use ha_bluetooth_mesh.NetworkModel.{Text}
use ha_bluetooth_mesh.Coordinator.Cursor.{Cursor}
use ha_bluetooth_mesh.Coordinator.Health.{Issue, health}
use ha_bluetooth_mesh.Coordinator.Links.{
  Links, Radio, Ended, run_connected, async_probe, on_client_disconnected, async_reconnect,
  idle_callback, async_stop,
}
use ha_bluetooth_mesh.Coordinator.Links.Late.{async_join_late, on_link_dropped}

-- The part of `__init__`, with the options of the entry
unfoldable pub links : ℕ → Bool → Cursor → List Issue → Links
unfolding health
links idle_timeout all_proxies cursor registry = record {
  client = none;
  controller = none;
  extra_clients = [];
  has_fanout = false;
  link_by_bearer = [];
  proxy_address = none;
  proxy_addresses = [];
  link_ended_at = none;
  stopped = false;
  idle_timeout = idle_timeout;
  idle_armed = false;
  all_proxies = all_proxies;
  cursor = cursor;
  health = health registry;
  slots = [];
}

pub data Call : Type 0 where
  command : Radio → Ended → Call
  probe : Radio → Call
  disconnected : ℕ → ℕ → Bool → Call
  reconnect : ℕ → Radio → Call
  idle : Radio → Call
  join_late : ℕ → Text → Bool → Bool → ℕ → Call
  link_dropped : ℕ → Call
  stop : Radio → Call

unfoldable pub step : Call → Links → Links
unfolding run_connected async_probe on_client_disconnected async_reconnect idle_callback async_stop
    async_join_late on_link_dropped
step (command r e) l = run_connected r e l
step (probe r) l = async_probe r l
step (disconnected c now is_running) l = (on_client_disconnected c now is_running l).0
step (reconnect c r) l = async_reconnect c r l
step (idle r) l = idle_callback r l
step (join_late client address same_fanout added seq) l =
    async_join_late client address same_fanout added seq l
step (link_dropped c) l = on_link_dropped c l
step (stop r) l = async_stop r l

unfoldable pub run : List Call → Links → Links
unfolding step
run [] l = l
run (c ∷ cs) l = run cs (step c l)
