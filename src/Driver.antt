-- ===== src/Driver.antt =====
-- libevent/comm_driver.h and comm_driver.cpp: the static variables of the driver, its event
-- handlers and COMMDriver. What it calls of libevent, pthread and the sockets is added to the list
-- `calls` of the state; what these calls answer are arguments. The callback
-- `comm_event_handler_ptr` is `handler`, over a state of its own. The macros USING_COMM_TIMEOUT and
-- USING_WRITE_HANDLER are off.
pub mod Lifetime
pub mod Read
pub mod Peer
use y_rpc.Common.{
  ℕ, suc, ◌-◌, ◌+◌, ◌*◌, ◌/◌, ◌%◌, ◌^◌, Bool, true, false, not, ◌&&◌, ◌||◌, List, [], ◌∷◌, length,
  take, drop, ltb, ◌==◌, Option, none, some, ℤ, pos, negsuc, is_zero, is_negative, Run, done,
  out_of_fuel, ◌>>=◌, if◌then◌else◌,
}
use y_rpc.Head.{TimeVal}

-- A call of code outside of the repository. Addresses are those of the objects that it got or gave.
pub data Call : Type 0 where
  base_new base_free event_malloc event_free timer_add timer_del listener_free : ℕ → Call
  listener_new : ℕ → ℕ → Call
  thread_create : ℕ → ℕ → Call
  loop_exit thread_join : ℕ → Call
  bufferevent_new bufferevent_free : ℕ → Call
  set_timeouts : ℕ → Option TimeVal → Call
  set_callbacks : ℕ → ℕ → Call
  enable : ℕ → ℕ → Call
  socket_connect : ℕ → Call
  write : ℕ → List ℕ → Call

-- NULL and the thread ID 0 are 0. `has_handler` tells whether comm_event_handler_ptr is set.
pub record Driver (S : Type 0) : Type 0 where
  pub connect_flag : Bool
  pub cycle_check_flag : Bool
  pub cycle_check_event : ℕ
  pub event_main_base : ℕ
  pub event_accept_base : ℕ
  pub evcon_listener : ℕ
  pub cycle_check_tv : TimeVal
  pub comm_timeout_tv : TimeVal
  pub has_handler : Bool
  pub comm_main_thread_id : ℕ
  pub comm_accept_thread_id : ℕ
  pub client : S
  pub calls : List Call

abbrev pub default_check_cycle : ℕ
default_check_cycle = 15

abbrev pub default_comm_timeout : ℕ
default_comm_timeout = 200

abbrev pub default_connect_timeout : ℕ
default_connect_timeout = 300

-- The initial values of the static variables, and the constructor
unfoldable pub new_driver : {S : Type 0} → S → Driver S
new_driver client = record {
  connect_flag = false;
  cycle_check_flag = false;
  cycle_check_event = 0;
  event_main_base = 0;
  event_accept_base = 0;
  evcon_listener = 0;
  cycle_check_tv = record { tv_sec = default_check_cycle; tv_usec = 0 };
  comm_timeout_tv = record { tv_sec = 0; tv_usec = default_comm_timeout * 1000 };
  has_handler = false;
  comm_main_thread_id = 0;
  comm_accept_thread_id = 0;
  client = client;
  calls = [];
}

-- The COMMEvent constants
abbrev pub comm_event_recv : ℕ
comm_event_recv = 0x01

abbrev pub comm_event_connect : ℕ
comm_event_connect = 0x04

abbrev pub comm_event_disconnect : ℕ
comm_event_disconnect = 0x08

abbrev pub comm_event_check : ℕ
comm_event_check = 0x10

abbrev pub comm_event_rtimeout : ℕ
comm_event_rtimeout = 0x20

abbrev pub comm_event_stimeout : ℕ
comm_event_stimeout = 0x40

-- The flags of event2/bufferevent.h and event2/event.h that the driver uses
abbrev pub bev_event_reading : ℕ
bev_event_reading = 0x01

abbrev pub bev_event_writing : ℕ
bev_event_writing = 0x02

abbrev pub bev_event_timeout : ℕ
bev_event_timeout = 0x40

abbrev pub bev_event_connected : ℕ
bev_event_connected = 0x80

abbrev pub bev_opt_threadsafe : ℕ
bev_opt_threadsafe = 0x02

abbrev pub ev_read : ℕ
ev_read = 0x02

abbrev pub ev_write : ℕ
ev_write = 0x04

-- `events & flag`, for a flag of one bit
abbrev pub has_flag : ℕ → ℕ → Bool
has_flag flag events = (events / flag) % 2 == 1

abbrev pub calling : {S : Type 0} → Call → Driver S → Driver S
calling c d = record d { calls = c ∷ d.calls }

abbrev is_unset : TimeVal → Bool
is_unset tv = tv.tv_sec == 0 && tv.tv_usec == 0

unfoldable pub set_timeout : {S : Type 0} → TimeVal → Driver S → Driver S
set_timeout tv d = record d {
  comm_timeout_tv =
      if is_unset tv then record { tv_sec = 0; tv_usec = default_comm_timeout * 1000 } else tv;
}

unfoldable pub set_cyclecheck : {S : Type 0} → TimeVal → Driver S → Driver S
set_cyclecheck tv d = record d {
  cycle_check_tv = if is_unset tv then record { tv_sec = default_check_cycle; tv_usec = 0 } else tv;
}

unfoldable pub cyclecheck_en : {S : Type 0} → Bool → Driver S → Driver S
cyclecheck_en flag d = record d { cycle_check_flag = flag }

-- The end of comm_event_handler
unfoldable pub close_bufferevent : {S : Type 0} → ℕ → Driver S → Driver S
close_bufferevent bev d =
    if bev == 0 then d else calling (bufferevent_free bev) (calling (set_timeouts bev none) d)

module _ {S : Type 0} (handler : ℕ → ℕ → List ℕ → ℕ → S → Run S) where
  -- `if(comm_event_handler_ptr) comm_event_handler_ptr(...)`, whose result is not looked at
  abbrev pub raise : ℕ → ℕ → List ℕ → ℕ → Driver S → Run (Driver S)
  raise type bev bytes len d =
      if d.has_handler
      then (handler type bev bytes len d.client >>= λ client'. done (record d { client = client' }))
      else done d

  unfoldable pub cycle_check_handler : ℕ → Driver S → Run (Driver S)
  cycle_check_handler arg d =
      let added = calling (timer_add arg) d in
      if arg == 0
      then done d
      else (if d.cycle_check_flag then raise comm_event_check 0 [] 0 added else done added)

  -- The loop over bufferevent_read: `sizes` are the lengths that the successive reads return, of
  -- what is left of `input`; `message_len` is a size_t. The loop has as many rounds as it has
  -- reads.
  unfoldable pub read_chunks : ℕ → List ℕ → ℕ → List ℕ → Driver S → Run (Driver S)
  read_chunks bev [] message_len input d = out_of_fuel
  read_chunks bev (read_len ∷ sizes) message_len input d =
      let left = (message_len + 2 ^ 64 - read_len) % 2 ^ 64 in
      (if ltb 0 read_len
        then raise comm_event_recv bev (take read_len input) read_len d
        else done d)
      >>= λ d'.
          let rest = read_chunks bev sizes left (drop read_len input) d' in
          if left == 0 then done d' else rest

  -- A malloc that fails is tried again, so the one that succeeds is modelled.
  unfoldable pub comm_read_handler : ℕ → List ℕ → List ℕ → Driver S → Run (Driver S)
  unfolding read_chunks
  comm_read_handler bev sizes input d =
      if length input == 0 then done d else read_chunks bev sizes (length input) input d

  unfoldable pub connected_event : ℕ → Driver S → Run (Driver S)
  connected_event bev d = raise comm_event_connect bev [] 1 (
      calling (enable bev (ev_read + ev_write)) (
        calling (set_callbacks bev 0)
          (calling (set_timeouts bev none) (record d { connect_flag = true }))))

  -- A timeout in use: `enabled` is what bufferevent_get_enabled returns.
  unfoldable pub timeout_event : ℕ → ℕ → ℕ → Driver S → Run (Driver S)
  timeout_event bev events enabled d =
      if has_flag bev_event_reading events
      then (raise comm_event_rtimeout bev [] 0 d >>= λ d'.
          done (if has_flag ev_read enabled then d' else calling (enable bev ev_read) d'))
      else (if has_flag bev_event_writing events
          then (raise comm_event_stimeout bev [] 0 d >>= λ d'.
              done (if has_flag ev_write enabled then d' else calling (enable bev ev_write) d'))
          else done d)

  unfoldable pub comm_event_handler : ℕ → ℕ → ℕ → ℕ → Driver S → Run (Driver S)
  unfolding connected_event timeout_event close_bufferevent
  comm_event_handler bev events user_data enabled d =
      if bev == user_data
      then (if has_flag bev_event_connected events
          then connected_event bev d
          else done (close_bufferevent bev (record d { connect_flag = false })))
      else (if has_flag bev_event_timeout events
          then timeout_event bev events enabled d
          else (raise comm_event_disconnect bev [] 0 d >>= λ d'. done (close_bufferevent bev d')))

  -- `bev` is what bufferevent_socket_new returns, `enabled` the result of bufferevent_enable.
  unfoldable pub comm_listener_handler : ℕ → ℤ → Driver S → Run (Driver S)
  comm_listener_handler bev enabled d =
      let made =
        calling (enable bev bev_opt_threadsafe)
          (calling (set_timeouts bev none) (calling (bufferevent_new bev) d)) in
      if bev == 0
      then done d
      else (if is_negative enabled
          then done (calling (bufferevent_free bev) made)
          else raise comm_event_connect bev [] 0
              (calling (enable bev (ev_read + ev_write)) (calling (set_callbacks bev 0) made)))

  unfoldable pub disconnect : ℕ → Driver S → Run (Driver S)
  disconnect fdptr d =
      if fdptr == 0
      then done d
      else (raise comm_event_disconnect fdptr [] 1 d >>= λ d'.
          done (calling (bufferevent_free fdptr) (calling (set_timeouts fdptr none) d')))

-- What the socket of a connection answers: its number, and the result and errno of recv
pub record Peek : Type 0 where
  pub sockfd : ℤ
  pub err : ℤ
  pub errno_zero : Bool
  pub errno_eagain : Bool

unfoldable pub comm_socket_check : Peek → ℤ
comm_socket_check p =
    if is_negative p.sockfd
    then negsuc 0
    else (if is_negative p.err && not p.errno_eagain
        then negsuc 0
        else (if is_zero p.err && not p.errno_zero then negsuc 0 else pos 0))

-- `written` is the result of bufferevent_write.
unfoldable pub send : {S : Type 0} → Peek → ℤ → ℕ → List ℕ → Driver S → ℤ × Driver S
unfolding comm_socket_check
send peek written fdptr bytes d =
    if fdptr == 0
    then (negsuc 1, d)
    else (if is_negative (comm_socket_check peek)
        then (negsuc 1, d)
        else (if is_negative written
            then (negsuc 0, calling (write fdptr bytes) d)
            else (pos 0, calling (write fdptr bytes) d)))

-- Where `connect` stands after its first step: it returned -1, or it waits for this connection.
pub data ConnectWait : Type 0 where
  refused : ConnectWait
  connects : ℕ → ConnectWait

abbrev connect_timeout : TimeVal → TimeVal
connect_timeout tv =
    if is_unset tv then record tv { tv_usec = default_connect_timeout * 1000 } else tv

-- `connect` up to pthread_cond_wait: `bev` is what bufferevent_socket_new returns, and `refuses`
-- tells whether bufferevent_socket_connect returns -1. The caller's timeval is written.
unfoldable pub connect_begin :
    {S : Type 0} → ℕ → Bool → TimeVal → Driver S → ConnectWait × TimeVal × Driver S
connect_begin bev refuses tv d =
    let started = calling (socket_connect bev) (
      calling (set_callbacks bev bev) (
        calling (enable bev bev_opt_threadsafe) (
          calling (set_timeouts bev (some (connect_timeout tv)))
            (calling (bufferevent_new bev) (record d { connect_flag = false }))))) in
    if bev == 0
    then (refused, tv, d)
    else (if refuses then refused else connects bev, connect_timeout tv, started)

-- `connect` from the result of the wait on: the result, and what is written to `*fdptr`
unfoldable pub connect_end : {S : Type 0} → ℕ → ℤ → Driver S → ℤ × Option ℕ
connect_end bev result d =
    if not (is_zero result) || not d.connect_flag then (negsuc 0, none) else (pos 0, some bev)
