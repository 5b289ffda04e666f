-- ===== src/Echo/Start.antt =====
-- How `echo` of src/main.rs starts: the network comes up, then the server runs.
use embassy_sandbox.Prelude.{
  ℕ, zero, suc, Option, none, some, Outcome, done, starved, ◌>>=◌, List, [], ◌∷◌,
}
use embassy_sandbox.Echo.Server.{Listener, server}

pub data Ipv4Cidr : Type 0 where
  cidr : List ℕ → ℕ → Ipv4Cidr

-- embassy_net's `StaticConfigV4`.
pub record StaticConfigV4 : Type 0 where
  pub address : Ipv4Cidr
  pub gateway : Option (List ℕ)
  pub dns_servers : List (List ℕ)

abbrev pub net_cfg : StaticConfigV4
net_cfg = record {
  address = Ipv4Cidr.cidr (192 ∷ 168 ∷ 2 ∷ 43 ∷ []) 24;
  gateway = none;
  dns_servers = [];
}

-- The cells `PACKET_QUEUE` and `RESOURCES`, which can be taken once, the peripheral, the network
-- stack and its task, the signal `DHCP_UP` and the socket that the server is made with.
pub record Stack (World : Type 0) : Type 1 where
  pub Config : Type 0
  pub take_packet_queue : World → Outcome World
  pub take_resources : World → Outcome World
  pub new_ethernet : List ℕ → World → World
  pub new : StaticConfigV4 → ℕ → World → World
  pub must_spawn_net_task : World → Outcome World
  pub wait_config_up : World → World
  pub config_v4 : World → Option Config
  pub yield_now : World → World
  pub signal_dhcp_up : World → World
  pub new_socket : World → World
  -- In seconds.
  pub set_timeout : ℕ → World → World

abbrev pub timeout : ℕ
timeout = 120

module _ (listener : Listener) (stack : Stack listener.socket.World) where
  open listener use {socket}
  open socket use {World, read}
  open stack use {
    Config, take_packet_queue, take_resources, new_ethernet, new, must_spawn_net_task,
    wait_config_up, config_v4, yield_now, signal_dhcp_up, new_socket, set_timeout,
  }

  -- The network stack is made, and its task spawned. Only the first seed is used.
  unfoldable pub spawned : List ℕ → ℕ × ℕ → World → Outcome World
  spawned mac_addr seeds w = do
    queued ← take_packet_queue w
    resourced ← take_resources queued
    must_spawn_net_task (new net_cfg seeds.0 (new_ethernet mac_addr resourced))

  abbrev pub or_yield : (World → Outcome World) → World → Option Config → Outcome World
  or_yield go w none = go (yield_now w)
  or_yield go w (some config) = done w

  -- The loop that waits for a configuration, for at most that many tests. The configuration is not
  -- used further.
  unfoldable pub configured : ℕ → World → Outcome World
  configured zero w = starved
  configured (suc polls) w = or_yield (configured polls) w (config_v4 w)

  unfoldable pub echo : List ℕ → ℕ × ℕ → ℕ → ℕ → ℕ → World → Outcome World
  echo mac_addr seeds polls n chunks w = do
    up ← spawned mac_addr seeds w
    w' ← configured polls (wait_config_up up)
    server listener n chunks (set_timeout timeout (new_socket (signal_dhcp_up w')))
