-- ===== src/Examples/Driving.antt =====
-- Runs of the driver and of start.
use y_rpc.Common.{
  ◌⊎◌, suc, negsuc, ℕ, ◌+◌, ◌≡◌, refl, true, false, List, [], ◌∷◌, ◌++◌, none, some, ℤ, pos, Run,
  done, ◌>>=◌, ◌==◌, if◌then◌else◌, bytes_of, string_eq, arith,
}
use mathlib.Core.Option
use y_rpc.Container.Order.{string_key}
use y_rpc.Head.{TimeVal}
use y_rpc.Message.{Message}
use y_rpc.Observer.Laws.{observes}
use y_rpc.PointerList
use y_rpc.PointerList.{PointerList, disconnect_connections}
use y_rpc.PointerList.Laws.{IsValid, count}
use y_rpc.Core.{Core}
use y_rpc.Config.{
  new_config, set_config_profile, load_profile, get_process_config, keep_config,
  get_process_net_config, general_config, need_default_configuration, read_default_configuration,
}
use y_rpc.Driver.{
  calling, bufferevent_new, Driver, new_driver, comm_read_handler, comm_event_handler, set_timeouts,
  bufferevent_free, connect_begin, connect_end, connects, bev_event_connected, has_flag,
}
use y_rpc.Driver.Read.{pieces, flatten, sum, deliver, comm_read_handler-deliver}
use y_rpc.Driver.Peer.{core_callback, comm_event_handler-lost, connect_end-comm_event_handler}
use y_rpc.Driver.Lifetime.{Answers, create}
use y_rpc.Driver.Lifetime.Held.{Tracks, IsOrderly, held, names, runs}
use y_rpc.Driver.Lifetime.Laws.{IsPlausible, IsClosed}
use y_rpc.Driver.Lifetime.Outcome.{Outcome}
use y_rpc.Driver.Lifetime.Create.{create-Outcome}
use y_rpc.Start.{Process, Host, start, set_times, load_config, check_config}
use y_rpc.Start.Laws.{AddressFits, configured, Started, start-Started}
use y_rpc.Stop.{disconnect_processes}
use y_rpc.Stop.Refine.{closed_all, disconnect_processes-disconnect_connections}
use y_rpc.Start.Units.{Shortens, set_times-Shortens}
use y_rpc.Examples.Wire.{user_bytes, call_message}
use y_rpc.Examples.Process.{send_list, env, process}
use y_rpc.Examples.Settings.{IniText, text_file, fresh, no_config}

-- The second thread does not start, but its ID was written.
abbrev answers : Answers
answers = record {
  main_base = 100;
  accept_base = 200;
  cycle_event = 300;
  listener = 400;
  assigned = pos 0;
  added = pos 0;
  main_thread = (pos 0, 7);
  accept_thread = (pos 11, 9);
}

answers-IsPlausible : IsPlausible answers
answers-IsPlausible = record {
  two_bases = λ e. absurd (omega arith);
  two_threads = λ started ok. omega arith;
  main_started = λ e. omega arith;
  accept_started = λ e. cc;
}

module _ {S : Type 0} (client : S) where
  new_driver-IsClosed : IsClosed (new_driver client)
  unfolding new_driver
  new_driver-IsClosed = record {
    no_main = refl;
    no_accept = refl;
    no_event = refl;
    no_listener = refl;
    no_main_thread = refl;
    no_accept_thread = refl;
  }

  new_driver-Tracks : Tracks 0 (new_driver client)
  unfolding new_driver held names runs
  new_driver-Tracks = record {
    bases = λ a. ground arith;
    events = λ a. ground arith;
    listeners = λ a. ground arith;
    timers = λ a. ground arith;
    threads = λ a. ground arith;
    loops = λ a. ground arith;
    two_bases = λ e. refl;
    two_threads = λ e. refl;
    main_runs = λ h. h;
    accept_runs = λ h. h;
  }

-- A new driver, over a number
abbrev idle_driver : Driver ℕ
idle_driver = new_driver 0

create-Outcome_example : Outcome answers (create answers idle_driver)
unfolding new_driver IsOrderly
create-Outcome_example =
    create-Outcome answers idle_driver answers-IsPlausible (new_driver-IsClosed 0)
      (new_driver-Tracks 0) tt

-- Both threads start.
abbrev good_answers : Answers
good_answers = record answers { accept_thread = (pos 0, 8) }

-- The callback counts the bytes that it gets.
abbrev counting : ℕ → ℕ → List ℕ → ℕ → ℕ → Run ℕ
counting type fdp bytes len n = done (n + len)

abbrev counting_driver : Driver ℕ
counting_driver = record idle_driver { has_handler = true }

comm_read_handler-deliver_example :
    (comm_read_handler counting 40 ((2 ∷ 1 ∷ []) ++ []) user_bytes counting_driver ≡ (
      deliver counting 40 (pieces (2 ∷ 1 ∷ []) user_bytes) 0 >>= λ client'.
      done (record counting_driver { client = client' })))
    × (flatten (pieces (2 ∷ 1 ∷ []) user_bytes) ≡ user_bytes)
unfolding new_driver sum
comm_read_handler-deliver_example =
    comm_read_handler-deliver counting 40 2 (1 ∷ []) [] user_bytes counting_driver refl
      (omega arith, (omega arith, tt)) refl (omega arith)

-- The driver of a process whose one connection is 40
abbrev connected : Driver (Core (List Message))
connected = record (new_driver process) { has_handler = true }

comm_event_handler-lost_example :
    (d' : Driver (Core (List Message))) × (comm_event_handler
        (core_callback send_list env)
        40
        0x10
        0
        0
        connected
      ≡ done d')
    × (d'.calls ≡ bufferevent_free 40 ∷ set_timeouts 40 none ∷ connected.calls)
    × ((key : List ℕ) (fd : ℕ)
        → observes key fd d'.client.observer_connect_hash ≡ (
            if fd == 40
            then Option.map (λ n. 0) (observes key fd connected.client.observer_connect_hash)
            else observes key fd connected.client.observer_connect_hash))
    × (d'.client.process_connect_list ≡ connected.client.process_connect_list)
    × ((l : PointerList) × (disconnect_connections d'.client.process_connect_list
          ≡ done (40 ∷ [], l)))
unfolding new_driver
comm_event_handler-lost_example =
    comm_event_handler-lost send_list env 40 0x10 0 0 connected (omega arith) refl refl refl

abbrev no_time : TimeVal
no_time = record { tv_sec = 0; tv_usec = 0 }

connected-IsValid : IsValid connected.client.process_connect_list
unfolding new_driver
connected-IsValid = omega arith

connect_end-comm_event_handler_example :
    (let begun = connect_begin 41 false no_time connected in
      (d' : Driver (Core (List Message))) × (begun.0 ≡ connects 41)
      × (comm_event_handler (core_callback send_list env) 41 0x80 41 0 begun.2 ≡ done d')
      × (((has_flag bev_event_connected 0x80 ≡ true)
            × (connect_end 41 (pos 0) d' ≡ (pos 0, some 41))
            × ((fd : ℕ)
                → count fd d'.client.process_connect_list.nodes ≡ (
                    if 41 == fd
                    then suc (count fd connected.client.process_connect_list.nodes)
                    else count fd connected.client.process_connect_list.nodes)))
          ⊎ ((has_flag bev_event_connected 0x80 ≡ false)
              × (connect_end 41 (pos 0) d' ≡ (negsuc 0, none))
              × (d'.client ≡ connected.client)
              × (d'.calls ≡ bufferevent_free 41 ∷ set_timeouts 41 none ∷ begun.2.calls))))
unfolding new_driver
connect_end-comm_event_handler_example =
    connect_end-comm_event_handler send_list env 41 0x80 0 no_time connected (omega arith) refl
      connected-IsValid

abbrev host : Host
host = record {
  executable = some (bytes_of "/bin/pa");
  config_path = some (bytes_of "a.ini");
  self_check = none;
  sun_path_room = 108;
  inet_aton = λ ip. none;
  answers = answers;
  has_pool = true;
  pool_created = pos 0;
  core_thread = pos 0;
}

-- The process behind its constructors, which reads its configuration in start
abbrev stopped : Process IniText (List Message)
stopped = record {
  driver = new_driver (record process { run_state = false });
  config = fresh;
  process_conf = no_config;
  conn_tv = no_time;
  comm_tv = no_time;
  pool = [];
  bound = none;
}

stopped-AddressFits : AddressFits host (configured text_file host (bytes_of "pa") stopped)
unfolding load_config check_config new_driver new_config set_config_profile load_profile
    get_process_config string_eq keep_config get_process_net_config general_config
    need_default_configuration read_default_configuration
stopped-AddressFits = omega arith

start-Started_example :
    (r : ℤ × Process IniText (List Message)) × (start text_file host stopped ≡ done r) × Started r
unfolding new_driver IsOrderly
start-Started_example =
    start-Started text_file host b'/' (bytes_of "bin/pa") (bytes_of "pa") stopped refl
      (new_driver-IsClosed (record process { run_state = false }))
      (new_driver-Tracks (record process { run_state = false })) tt answers-IsPlausible refl
      (omega arith) refl stopped-AddressFits

-- Timeouts of 300 ms and of 2 s
abbrev timed : Process IniText (List Message)
timed = record stopped {
  process_conf = record no_config { connect_timeout = pos 300; interactive_timeout = pos 2000 };
}

set_times-Shortens_example :
    Shortens 300 (set_times timed).conn_tv × Shortens 2000 (set_times timed).comm_tv
set_times-Shortens_example = set_times-Shortens 300 2000 timed refl refl (omega arith) (omega arith)

-- A process with one message in its list and the connection 40, and its driver, which is up
abbrev loaded_core : Core (List Message)
loaded_core = record process { send_head = call_message ∷ [] }

abbrev running : Process IniText (List Message)
running = record stopped {
  driver = calling (bufferevent_new 40) (create good_answers (new_driver loaded_core)).1;
}

-- Two connections, behind which the loop ends after the first
abbrev two_connected : Driver (Core (List Message))
two_connected = record connected {
  client = record process {
    process_connect_list = record {
      nodes = (0, 40) ∷ (1, 41) ∷ [];
      next_node = 2;
      it = PointerList.end;
    };
  };
}

disconnect_processes-disconnect_connections_example :
    disconnect_processes send_list env 2 0 two_connected ≡ (
      disconnect_connections two_connected.client.process_connect_list >>= λ r.
      done (closed_all r.0 r.1 two_connected))
unfolding PointerList.size
disconnect_processes-disconnect_connections_example =
    disconnect_processes-disconnect_connections send_list env two_connected refl
      (omega arith, (omega arith, tt))
