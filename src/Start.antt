-- ===== src/Start.antt =====
-- rpc_core.cpp: start with initRPC and getExecutableName, connectToProcess, and the thread pool's
-- part of it, over the configuration (Config), the sockets (Socket) and the driver (Driver), whose
-- callback state is the core (Core).
pub mod Laws
pub mod Units
use y_rpc.Common.{
  ℕ, suc, ◌+◌, ◌-◌, ◌*◌, ◌/◌, ◌%◌, ◌^◌, Bool, true, false, not, ◌&&◌, ◌||◌, List, [], ◌∷◌, length,
  ltb, ◌==◌, Option, none, some, ℤ, pos, negsuc, is_zero, is_negative, Run, done, fault, ◌>>=◌, ◌⊎◌,
  inl, inr, bytes_of, if◌then◌else◌,
}
use y_rpc.Head.{TimeVal}
use y_rpc.Core.{Core}
use y_rpc.Config.{
  Config, ProcessConfig, set_config_profile, get_process_config, get_process_net_config,
}
use y_rpc.Config.Ini.{IniFile}
use y_rpc.Config.Check.{self_check_validity}
use y_rpc.Config.Units.{contains}
use y_rpc.Driver.{Driver, set_timeout}
use y_rpc.Driver.Lifetime.{Answers, create, destroy}
use y_rpc.Socket.{SockaddrUn, SockaddrIn, init_sockaddr_un, init_sockaddr_in}

-- The calls of ThreadPool
pub data PoolCall : Type 0 where
  pool_create : ℤ → ℤ → ℤ → PoolCall
  pool_destroy : PoolCall

-- The static members that start writes; the core is the callback's
-- state in the driver. `bound` is the address that the driver listens on.
pub record Process (File L : Type 0) : Type 0 where
  pub driver : Driver (Core L)
  pub config : Config File
  pub process_conf : ProcessConfig
  pub conn_tv : TimeVal
  pub comm_tv : TimeVal
  pub pool : List PoolCall
  pub bound : Option (SockaddrUn ⊎ SockaddrIn)

-- What the surroundings answer to start: the text of readlink, the two environment variables, the
-- size of `sun_path`, inet_aton, the driver's objects and threads, whether there is a thread pool,
-- and the results of its create and of the pthread_create of the core thread.
pub record Host : Type 0 where
  pub executable : Option (List ℕ)
  pub config_path : Option (List ℕ)
  pub self_check : Option (List ℕ)
  pub sun_path_room : ℕ
  pub inet_aton : List ℕ → Option ℕ
  pub answers : Answers
  pub has_pool : Bool
  pub pool_created : ℤ
  pub core_thread : ℤ

-- `strrchr(text, '/') + 1`
abbrev pub after_slash : List ℕ → Option (List ℕ)
after_slash [] = none
after_slash (c ∷ cs) = elim (after_slash cs) [
  | some name ↦ some name
  | none ↦ if c == b'/' then some cs else none
]

-- readlink fills at most 1024 bytes, and no NUL is behind them if it fills them all.
unfoldable pub get_executable_name : Option (List ℕ) → Run (Option (List ℕ))
get_executable_name none = done none
get_executable_name (some []) = done none
get_executable_name (some (c ∷ cs)) =
    if ltb (length (c ∷ cs)) 1024 then done (after_slash (c ∷ cs)) else fault

abbrev pub with_core : {File L : Type 0} → (Core L → Core L) → Process File L → Process File L
with_core change p = record p { driver = record p.driver { client = change p.driver.client } }

-- A `time_t` that may be negative, as its bit pattern
abbrev long_of : ℕ → ℕ
long_of n = (2 ^ 64 - n) % 2 ^ 64

-- A timeout of the configuration, or the default for 0
unfoldable pub timeout_of : ℤ → TimeVal
timeout_of (pos ms) =
    if ms == 0
    then record { tv_sec = 3; tv_usec = 100 * 1000 }
    else record { tv_sec = ms / 1000; tv_usec = ms % 1000 }
timeout_of (negsuc n) = record {
  tv_sec = long_of ((n + 1) / 1000);
  tv_usec = long_of ((n + 1) % 1000);
}

abbrev pub or_default : ℤ → ℕ → ℤ
or_default n default = if is_zero n then pos default else n

-- The internet address that start listens on: any address of the machine, unless the configuration
-- names the loopback. The result of initSockaddr is not looked at.
unfoldable pub listen_inet : Host → ProcessConfig → SockaddrIn
listen_inet host c =
    let loopback =
      contains (bytes_of "INADDR_ANY") c.ip_address
      || contains (bytes_of "127.0.0.1") c.ip_address in
    let ip = (if loopback then c.ip_address else bytes_of "INADDR_ANY") in
    (init_sockaddr_in host.inet_aton (some ip) c.listen_port
      (record { sin_port = 0; s_addr = 0 })).1

unfoldable pub local_address : Host → ProcessConfig → Run (SockaddrUn ⊎ SockaddrIn)
local_address host c =
    init_sockaddr_un host.sun_path_room (some c.ip_address) (record { sun_path = [] }) >>= λ local.
    done (inl local.1)

unfoldable pub listen_address : Host → ProcessConfig → Run (SockaddrUn ⊎ SockaddrIn)
unfolding local_address listen_inet
listen_address host c =
    if c.listen_port == 0 then local_address host c else done (inr (listen_inet host c))

module _ {File L : Type 0} where
  -- The core thread, behind the thread pool
  unfoldable pub start_core : Host → Process File L → ℤ × Process File L
  start_core host p =
      if is_zero host.core_thread
      then (pos 0, with_core (λ st. record st { run_state = true }) p)
      else (
        negsuc 0,
        record (with_core (λ st. record st { run_state = false }) p) {
          pool = pool_destroy ∷ p.pool;
          driver =
              destroy (record p.driver { client = record p.driver.client { run_state = false } });
        },
      )

  -- "4.create threadpool"
  unfoldable pub start_pool : Host → Process File L → ℤ × Process File L
  start_pool host p =
      let c = p.process_conf in
      let called = record p {
        pool =
            pool_create (or_default c.fix_threads 3) (or_default c.dyn_threads 5)
              (or_default c.max_workqueue 150)
            ∷ p.pool;
      } in
      if host.has_pool
      then (if is_zero host.pool_created
          then start_core host called
          else (negsuc 0, record called { driver = destroy p.driver }))
      else (negsuc 0, record p { driver = destroy p.driver })

  -- Behind the driver's create
  unfoldable pub created_driver : Host → Process File L → ℤ × Driver (Core L) → ℤ × Process File L
  created_driver host p (result, d) =
      if is_zero result
      then start_pool host (record p { driver = d })
      else (result, record p { driver = d })

  -- "2.set communicate timeout"
  unfoldable pub set_times : Process File L → Process File L
  set_times p =
      let comm_tv = timeout_of p.process_conf.interactive_timeout in
      record p {
        conn_tv = timeout_of p.process_conf.connect_timeout;
        comm_tv = comm_tv;
        driver = set_timeout comm_tv p.driver;
      }

  -- "3.create socket base thread"
  unfoldable pub start_driver : Host → Process File L → Run (ℤ × Process File L)
  start_driver host p =
      let timed = set_times p in
      listen_address host timed.process_conf >>= λ address. done (
        created_driver host (record timed { bound = some address })
          (create host.answers timed.driver))

module _ {File L : Type 0} (ini : IniFile File) where
  -- selfCheckValidity, if the variable is set
  unfoldable pub check_config : Option (List ℕ) → Process File L → ℤ × Process File L
  check_config none p = (pos 0, p)
  check_config (some value) p =
      let checked = self_check_validity ini value p.config in
      (if is_negative checked.0 then negsuc 0 else pos 0, record p { config = checked.1 })

  unfoldable pub load_config : Host → Process File L → ℤ × Process File L
  unfolding check_config
  load_config host p = elim host.config_path [
    | none ↦ (negsuc 0, p)
    | some path ↦
        let loaded = set_config_profile ini path p.config in
        if is_zero loaded.0
        then check_config host.self_check (record p { config = loaded.1 })
        else (negsuc 0, record p { config = loaded.1 })
  ]

  unfoldable pub init_rpc : Host → Process File L → Run (ℤ × Process File L)
  unfolding load_config
  init_rpc host p = get_executable_name host.executable >>= λ name. elim name [
    | none ↦ done (negsuc 0, p)
    | some process_name ↦
        done (load_config host (with_core (λ st. record st { process_name = process_name }) p))
  ]

  -- Behind initRPC
  unfoldable pub start_configured : Host → ℤ × Process File L → Run (ℤ × Process File L)
  start_configured host (result, p) =
      let got = get_process_config ini p.driver.client.process_name p.process_conf p.config in
      let configured = record p { process_conf = got.1; config = got.2 } in
      if is_negative result
      then done (negsuc 0, p)
      else (if is_zero got.0 then start_driver host configured else done (negsuc 0, configured))

  unfoldable pub start : Host → Process File L → Run (ℤ × Process File L)
  start host p =
      if p.driver.client.run_state
      then done (pos 0, p)
      else (init_rpc host p >>= start_configured host)

  -- connectToProcess up to the connect: what its connect gets. The result of getProcessNetConfig is
  -- not looked at; `unset` is what the local configuration holds before.
  unfoldable pub connect_address :
      Host → List ℕ → ProcessConfig → Process File L → Run (SockaddrUn ⊎ SockaddrIn)
  connect_address host process unset p =
      let c = (get_process_net_config ini process unset p.config).1 in
      if c.listen_port == 0
      then local_address host c
      else done (
          inr
            (init_sockaddr_in host.inet_aton (some c.ip_address) c.listen_port
              (record { sin_port = 0; s_addr = 0 })).1)
