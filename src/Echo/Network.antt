-- ===== src/Echo/Network.antt =====
-- What `echo` of src/main.rs has made of the microcontroller when its server starts.
use embassy_sandbox.Prelude.{
  ℕ, zero, suc, ◌<◌, ◌≡◌, refl, ◌∙◌, ap, arith, Bool, true, false, Option, none, some, Outcome,
  done, List,
}
use embassy_sandbox.Echo.{buf_length}
use embassy_sandbox.Echo.Laws.{Short}
use embassy_sandbox.Echo.Server.{Listener, server, Endless, server-Endless}
use embassy_sandbox.Echo.Start.{
  StaticConfigV4, net_cfg, Stack, timeout, spawned, or_yield, configured, echo,
}

-- A network stack: the address of its device, its configuration and its seed.
abbrev pub Network : Type 0
Network = List ℕ × StaticConfigV4 × ℕ

-- What can be told of the microcontroller: which cells are taken, the address of the Ethernet
-- peripheral, the stack that was made on it, the one whose task runs, whether `DHCP_UP` was signalled
-- and the timeout of the socket.
pub record Status : Type 0 where
  pub queue_taken : Bool
  pub resources_taken : Bool
  pub ethernet : Option (List ℕ)
  pub network : Option Network
  pub running : Option Network
  pub dhcp_up : Bool
  pub socket_timeout : Option ℕ

-- A stack is made on the peripheral, if there is one.
abbrev pub on_ethernet : StaticConfigV4 → ℕ → Option (List ℕ) → Option Network
on_ethernet config seed none = none
on_ethernet config seed (some mac_addr) = some (mac_addr, config, seed)

-- The calls that `echo` makes of other crates do what their documentation says: a cell that is free
-- can be taken, the task of the network can be spawned when none runs, and runs the stack that was
-- made, a new socket has no timeout, and waiting changes nothing. While a network's task runs, each
-- yield brings its configuration nearer, which is less than so many yields away once `wait_config_up`
-- returns.
pub record Documented (listener : Listener) (stack : Stack listener.socket.World) (polls : ℕ)
    : Type 0 where
  pub seen : listener.socket.World → Status
  pub away : listener.socket.World → ℕ
  pub takes_queue :
      (w : listener.socket.World)
      → (seen w).queue_taken ≡ false
      → (w' : listener.socket.World) × (stack.take_packet_queue w ≡ done w')
        × (seen w' ≡ record (seen w) { queue_taken = true })
  pub takes_resources :
      (w : listener.socket.World)
      → (seen w).resources_taken ≡ false
      → (w' : listener.socket.World) × (stack.take_resources w ≡ done w')
        × (seen w' ≡ record (seen w) { resources_taken = true })
  pub makes_ethernet :
      (mac_addr : List ℕ) (w : listener.socket.World)
      → seen (stack.new_ethernet mac_addr w) ≡ record (seen w) { ethernet = some mac_addr }
  pub makes_network :
      (config : StaticConfigV4) (seed : ℕ) (w : listener.socket.World)
      → seen (stack.new config seed w)
        ≡ record (seen w) { network = on_ethernet config seed (seen w).ethernet }
  pub spawns :
      (w : listener.socket.World)
      → (seen w).running ≡ none
      → (w' : listener.socket.World) × (stack.must_spawn_net_task w ≡ done w')
        × (seen w' ≡ record (seen w) { running = (seen w).network })
  pub waits : (w : listener.socket.World) → seen (stack.wait_config_up w) ≡ seen w
  pub soon :
      (w : listener.socket.World) (network : Network)
      → (seen w).running ≡ some network
      → away (stack.wait_config_up w) < polls
  pub yields : (w : listener.socket.World) → seen (stack.yield_now w) ≡ seen w
  pub nearer :
      (w : listener.socket.World) (network : Network)
      → (seen w).running ≡ some network
      → stack.config_v4 w ≡ none
      → away (stack.yield_now w) < away w
  pub signals :
      (w : listener.socket.World)
      → (seen (stack.signal_dhcp_up w) ≡ record (seen w) { dhcp_up = true })
        × (stack.config_v4 (stack.signal_dhcp_up w) ≡ stack.config_v4 w)
  pub makes_socket :
      (w : listener.socket.World)
      → (seen (stack.new_socket w) ≡ record (seen w) { socket_timeout = none })
        × (stack.config_v4 (stack.new_socket w) ≡ stack.config_v4 w)
  pub sets_timeout :
      (n : ℕ) (w : listener.socket.World)
      → (seen (stack.set_timeout n w) ≡ record (seen w) { socket_timeout = some n })
        × (stack.config_v4 (stack.set_timeout n w) ≡ stack.config_v4 w)

-- The status in which the server starts.
abbrev pub served : List ℕ → ℕ → Status
served mac_addr seed = record {
  queue_taken = true;
  resources_taken = true;
  ethernet = some mac_addr;
  network = some (mac_addr, net_cfg, seed);
  running = some (mac_addr, net_cfg, seed);
  dhcp_up = true;
  socket_timeout = some timeout;
}

module _ (listener : Listener) (stack : Stack listener.socket.World) (polls : ℕ)
    (documented : Documented listener stack polls) where
  open listener use {socket}
  open socket use {World, read}
  open stack use {config_v4, wait_config_up, yield_now, signal_dhcp_up, new_socket, set_timeout}
  open documented use {seen, away}

  -- There is a configuration after these tests, and nothing else has changed.
  abbrev Configures : World → Outcome World → Type 0
  Configures w o =
      (w' : World) × (config : stack.Config) × (o ≡ done w')
      × (seen w' ≡ seen w)
      × (config_v4 w' ≡ some config)

  configured-Configures :
      (k : ℕ) (w : World) (network : Network)
      → (seen w).running ≡ some network
      → away w < k
      → Configures w (configured listener stack k w)
  unfolding configured
  configured-Configures zero w network runs h = absurd (omega (arith, h))
  configured-Configures (suc k) w network runs h = tested (config_v4 w) refl (λ e.
      configured-Configures k (yield_now w) network
        (ap (λ s. s.running) (documented.yields w) ∙ runs)
        (omega (arith, documented.nearer w network runs e, h)))
    where
      tested :
          (c : Option stack.Config)
          → config_v4 w ≡ c
          → (config_v4 w ≡ none
              → Configures (yield_now w) (configured listener stack k (yield_now w)))
          → Configures w (or_yield listener stack (configured listener stack k) w c)
      tested (some config) e ih = (w, config, refl, refl, e)
      tested none e ih =
          let (w', config, goes, same, there) = ih e in
          (w', config, goes, same ∙ documented.yields w, there)

  -- The network's task runs the stack that was made with the address, the static configuration and
  -- the first seed.
  spawned-seen :
      (mac_addr : List ℕ) (seeds : ℕ × ℕ) (w : World)
      → (seen w).queue_taken ≡ false
      → (seen w).resources_taken ≡ false
      → (seen w).running ≡ none
      → (w' : World) × (spawned listener stack mac_addr seeds w ≡ done w')
        × (seen w' ≡ record (served mac_addr seeds.0) {
          dhcp_up = (seen w).dhcp_up;
          socket_timeout = (seen w).socket_timeout;
        })
  unfolding spawned
  spawned-seen mac_addr seeds w queue resources idle =
      let (w1, queued, s1) = documented.takes_queue w queue in
      let (w2, resourced, s2) =
        documented.takes_resources w1 (ap (λ s. s.resources_taken) s1 ∙ resources) in
      let s3 = documented.makes_ethernet mac_addr w2 in
      let w3 = stack.new_ethernet mac_addr w2 in
      let s4 = documented.makes_network net_cfg seeds.0 w3 in
      let (w', goes, s5) =
        documented.spawns (stack.new net_cfg seeds.0 w3) (rw (s4, s3, s2, s1) idle) in
      (w', rw (queued, resourced) goes, rw (s5, s4, s3, s2, s1) refl)

  -- With peripherals, a network and a spawner that do what their documentation says, where the
  -- configuration is fewer yields away, once the task runs and `wait_config_up` has returned, than
  -- there are tests: if `PACKET_QUEUE` and `RESOURCES` are free and no task of a network runs,
  -- `echo` comes to the server in a status in which both are taken, the task runs the stack that
  -- was made on the peripheral of that address with the static configuration and the first seed,
  -- there is a configuration, `DHCP_UP` was signalled and the socket has the timeout; and if a read
  -- gives no more bytes than there is room for, it then neither returns nor panics.
  pub echo-served :
      (mac_addr : List ℕ) (seeds : ℕ × ℕ) (n chunks : ℕ) (w : World)
      → (seen w).queue_taken ≡ false
      → (seen w).resources_taken ≡ false
      → (seen w).running ≡ none
      → ((w : World) → Short socket (read buf_length w))
      → (w' : World) × (config : stack.Config) × (echo listener stack mac_addr seeds polls n chunks
            w
          ≡ server listener n chunks w')
        × (seen w' ≡ served mac_addr seeds.0)
        × (config_v4 w' ≡ some config)
        × Endless listener (echo listener stack mac_addr seeds polls n chunks w)
  unfolding echo
  echo-served mac_addr seeds n chunks w queue resources idle short =
      let (up, made, s1) = spawned-seen mac_addr seeds w queue resources idle in
      let network : Network = (mac_addr, net_cfg, seeds.0) in
      let runs : (seen up).running ≡ some network = ap (λ s. s.running) s1 in
      let (w1, config, found, s2, there) =
        configured-Configures polls (wait_config_up up) network
          (ap (λ s. s.running) (documented.waits up) ∙ runs) (documented.soon up network runs) in
      let (s3, c3) = documented.signals w1 in
      let (s4, c4) = documented.makes_socket (signal_dhcp_up w1) in
      let (s5, c5) = documented.sets_timeout timeout (new_socket (signal_dhcp_up w1)) in
      (
        set_timeout timeout (new_socket (signal_dhcp_up w1)),
        config,
        rw (made, found) refl,
        rw (s5, s4, s3, s2, documented.waits up, s1) refl,
        c5 ∙ c4 ∙ c3 ∙ there,
        rw (made, found) (server-Endless listener chunks short n _),
      )
