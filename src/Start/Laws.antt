-- ===== src/Start/Laws.antt =====
-- How start ends.
use y_rpc.Common.{
  ℕ, suc, ◌<◌, ◌≡◌, refl, ap, ◌∙◌, true, false, List, ◌∷◌, length, ltb, ◌==◌, inl, inr, ◌⊎◌, some,
  ℤ, pos, negsuc, is_zero, is_negative, Run, done, by_if, Bool-cases, arith,
}
use y_rpc.Core.{Core}
use y_rpc.Head.{TimeVal}
use y_rpc.Config.{ProcessConfig, get_process_config}
use y_rpc.Config.Ini.{IniFile}
use y_rpc.Driver.{Driver, set_timeout}
use y_rpc.Driver.Lifetime.{Answers, create}
use y_rpc.Driver.Lifetime.Held.{Tracks, IsOrderly}
use y_rpc.Driver.Lifetime.Laws.{IsPlausible, IsClosed, destroy-IsClosed}
use y_rpc.Driver.Lifetime.Outcome.{IsOpen, Outcome}
use y_rpc.Driver.Lifetime.Create.{create-Outcome}
use y_rpc.Driver.Lifetime.Client.{client-create, client-destroy}
use y_rpc.Socket.{SockaddrUn, SockaddrIn, c_string, init_sockaddr_un}
use y_rpc.Start.{
  Process, Host, get_executable_name, after_slash, with_core, load_config, check_config, init_rpc,
  listen_address, local_address, listen_inet, created_driver, set_times, set_times, start_core,
  start_pool, start_driver, start_configured, start, timeout_of,
}

module _ {S : Type 0} where
  Tracks-client : {n : ℕ} (d : Driver S) (c : S) → Tracks n d → Tracks n (record d { client = c })
  Tracks-client d c t = record {
    bases = t.bases;
    events = t.events;
    listeners = t.listeners;
    timers = t.timers;
    threads = t.threads;
    loops = t.loops;
    two_bases = t.two_bases;
    two_threads = t.two_threads;
    main_runs = t.main_runs;
    accept_runs = t.accept_runs;
  }

  set_timeout-Tracks :
      {n : ℕ} (tv : TimeVal) (d : Driver S) → Tracks n d → Tracks n (set_timeout tv d)
  unfolding set_timeout
  set_timeout-Tracks tv d t = record {
    bases = t.bases;
    events = t.events;
    listeners = t.listeners;
    timers = t.timers;
    threads = t.threads;
    loops = t.loops;
    two_bases = t.two_bases;
    two_threads = t.two_threads;
    main_runs = t.main_runs;
    accept_runs = t.accept_runs;
  }

  set_timeout-IsOrderly :
      (tv : TimeVal) (d : Driver S) → IsOrderly d.calls → IsOrderly (set_timeout tv d).calls
  unfolding set_timeout
  set_timeout-IsOrderly tv d o = o

  client-set_timeout : (tv : TimeVal) (d : Driver S) → (set_timeout tv d).client ≡ d.client
  unfolding set_timeout
  client-set_timeout tv d = refl

  up_or_down :
      (a : Answers) (r : ℤ × Driver S)
      → Outcome a r
      → ((r.0 ≡ pos 0) × IsOpen r.1) ⊎ ((r.0 ≡ negsuc 0) × IsClosed r.1)
  up_or_down a r (inl up) = inl up
  up_or_down a r (inr (inl undone)) = inr (undone.code, undone.closed)
  up_or_down a r (inr (inr dangling)) = inr (dangling.code, dangling.closed)

  set_timeout-IsClosed : (tv : TimeVal) (d : Driver S) → IsClosed d → IsClosed (set_timeout tv d)
  unfolding set_timeout
  set_timeout-IsClosed tv d c = record {
    no_main = c.no_main;
    no_accept = c.no_accept;
    no_event = c.no_event;
    no_listener = c.no_listener;
    no_main_thread = c.no_main_thread;
    no_accept_thread = c.no_accept_thread;
  }

  client-IsClosed : (d : Driver S) (c : S) → IsClosed d → IsClosed (record d { client = c })
  client-IsClosed d c h = record {
    no_main = h.no_main;
    no_accept = h.no_accept;
    no_event = h.no_event;
    no_listener = h.no_listener;
    no_main_thread = h.no_main_thread;
    no_accept_thread = h.no_accept_thread;
  }

  IsOpen-client : (d : Driver S) (c : S) → IsOpen d → IsOpen (record d { client = c })
  IsOpen-client d c o = record {
    main_there = o.main_there;
    accept_there = o.accept_there;
    event_there = o.event_there;
    listener_there = o.listener_there;
    main_runs = o.main_runs;
    accept_runs = o.accept_runs;
    handled = o.handled;
    tracked = Tracks-client d c o.tracked;
    orderly = o.orderly;
  }

-- The address is stored without an overflow.
abbrev pub AddressFits : Host → ProcessConfig → Type 0
AddressFits host c = length (c_string c.ip_address) < host.sun_path_room

local_address-done :
    (host : Host) (c : ProcessConfig)
    → AddressFits host c
    → local_address host c ≡ done (inl (record { sun_path = c_string c.ip_address }))
unfolding local_address init_sockaddr_un
local_address-done host c fits =
    let test : ltb (length (c_string c.ip_address)) host.sun_path_room ≡ true = ground arith in
    rw test refl

listen_address-done :
    (host : Host) (c : ProcessConfig)
    → AddressFits host c
    → (address : SockaddrUn ⊎ SockaddrIn) × (listen_address host c ≡ done address)
unfolding listen_address
listen_address-done host c fits = elim (Bool-cases (c.listen_port == 0)) [
  | inl local ↦
      (inl (record { sun_path = c_string c.ip_address }), rw local (local_address-done host c fits))
  | inr inet ↦ (inr (listen_inet host c), rw inet refl)
]

module _ {File L : Type 0} where
  -- It runs and its driver is up, or it does not and the driver's variables are NULL.
  abbrev pub Started : ℤ × Process File L → Type 0
  Started r =
      ((r.0 ≡ pos 0) × (r.1.driver.client.run_state ≡ true) × IsOpen r.1.driver)
      ⊎ ((r.0 ≡ negsuc 0) × (r.1.driver.client.run_state ≡ false) × IsClosed r.1.driver)

  start_core-Started :
      (host : Host) (p : Process File L) → IsOpen p.driver → Started (start_core host p)
  unfolding start_core
  start_core-Started host p o =
      by_if Started (is_zero host.core_thread) (λ ok. inl (refl, refl, IsOpen-client p.driver _ o))
        (λ failed.
          inr (refl, ap (λ (st : Core L). st.run_state) (client-destroy _), destroy-IsClosed _))

  start_pool-Started :
      (host : Host) (p : Process File L)
      → p.driver.client.run_state ≡ false
      → IsOpen p.driver
      → Started (start_pool host p)
  unfolding start_pool
  start_pool-Started host p stopped o =
      let undone = ap (λ (st : Core L). st.run_state) (client-destroy p.driver) ∙ stopped in
      by_if Started host.has_pool
        (λ there.
          by_if Started (is_zero host.pool_created) (λ ok. start_core-Started host _ o)
            (λ failed. inr (refl, undone, destroy-IsClosed p.driver)))
        (λ none_there. inr (refl, undone, destroy-IsClosed p.driver))

  created_driver-Started :
      (host : Host) (p : Process File L) (created : ℤ × Driver (Core L))
      → created.1.client.run_state ≡ false
      → ((created.0 ≡ pos 0) × IsOpen created.1) ⊎ ((created.0 ≡ negsuc 0) × IsClosed created.1)
      → Started (created_driver host p created)
  unfolding created_driver
  created_driver-Started host p created stopped (inl (code, up)) =
      rw code (start_pool-Started host (record p { driver = created.1 }) stopped up)
  created_driver-Started host p created stopped (inr (code, down)) =
      rw code (inr (refl, stopped, down))

  start_driver-Started :
      (host : Host) (p : Process File L)
      → IsPlausible host.answers
      → p.driver.client.run_state ≡ false
      → IsClosed p.driver
      → Tracks 0 p.driver
      → IsOrderly p.driver.calls
      → AddressFits host p.process_conf
      → (r : ℤ × Process File L) × (start_driver host p ≡ done r) × Started r
  unfolding start_driver set_times
  start_driver-Started host p h stopped c t o fits =
      let tv = timeout_of p.process_conf.interactive_timeout in
      let d = (set_times p).driver in
      let (address, e) = listen_address-done host p.process_conf fits in
      let outcome =
        create-Outcome host.answers d h (set_timeout-IsClosed tv p.driver c)
          (set_timeout-Tracks tv p.driver t) (set_timeout-IsOrderly tv p.driver o) in
      let still =
        ap (λ (st : Core L). st.run_state)
          (client-create host.answers d ∙ client-set_timeout tv p.driver)
        ∙ stopped in
      let bound = record (set_times p) { bound = some address } in
      (
        created_driver host bound (create host.answers d),
        rw e refl,
        created_driver-Started host bound (create host.answers d) still
            (up_or_down host.answers (create host.answers d) outcome),
      )

module _ {File L : Type 0} (ini : IniFile File) where
  -- The process behind getExecutableName, and what its configuration says
  abbrev pub named : List ℕ → Process File L → Process File L
  named process_name p = with_core (λ st. record st { process_name = process_name }) p

  abbrev pub configured : Host → List ℕ → Process File L → ProcessConfig
  configured host process_name p =
      let loaded = (load_config ini host (named process_name p)).1 in
      (get_process_config ini process_name loaded.process_conf loaded.config).1

  -- load_config leaves everything but the configuration
  driver-load_config :
      (host : Host) (p : Process File L) → (load_config ini host p).1.driver ≡ p.driver
  unfolding load_config check_config
  driver-load_config host p = ground arith

  init_rpc-named :
      (host : Host) (c : ℕ) (cs process_name : List ℕ) (p : Process File L)
      → host.executable ≡ some (c ∷ cs)
      → length (c ∷ cs) < 1024
      → after_slash (c ∷ cs) ≡ some process_name
      → init_rpc ini host p ≡ done (load_config ini host (named process_name p))
  unfolding init_rpc get_executable_name
  init_rpc-named host c cs process_name p path short slash =
      let test : ltb (suc (length cs)) 1024 ≡ true = ground arith in
      rw (path, get_executable_name) (rw (test, slash) refl)

  start-named :
      (host : Host) (c : ℕ) (cs process_name : List ℕ) (p : Process File L)
      → p.driver.client.run_state ≡ false
      → host.executable ≡ some (c ∷ cs)
      → length (c ∷ cs) < 1024
      → after_slash (c ∷ cs) ≡ some process_name
      → start ini host p ≡ start_configured ini host (load_config ini host (named process_name p))
  unfolding start
  start-named host c cs process_name p stopped path short slash =
      simp (stopped, init_rpc-named host c cs process_name p path short slash)

  start_configured-Started :
      (host : Host) (result : ℤ) (p : Process File L)
      → IsPlausible host.answers
      → p.driver.client.run_state ≡ false
      → IsClosed p.driver
      → Tracks 0 p.driver
      → IsOrderly p.driver.calls
      → AddressFits host
          (get_process_config ini p.driver.client.process_name p.process_conf p.config).1
      → (r : ℤ × Process File L) × (start_configured ini host (result, p) ≡ done r) × Started r
  unfolding start_configured
  start_configured-Started host result p h stopped c t o fits =
      let got = get_process_config ini p.driver.client.process_name p.process_conf p.config in
      let known = record p { process_conf = got.1; config = got.2 } in
      let Ends : Run (ℤ × Process File L) → Type 0 =
        λ m. (r : ℤ × Process File L) × (m ≡ done r) × Started r in
      by_if Ends (is_negative result) (λ failed. ((negsuc 0, p), refl, inr (refl, stopped, c)))
        (λ ok.
          by_if Ends (is_zero got.0) (λ ok'. start_driver-Started host known h stopped c t o fits)
            (λ unknown. ((negsuc 0, known), refl, inr (refl, stopped, c))))

  -- A process that does not run, with a driver that holds nothing, whose executable has a path
  -- below 1024 bytes with a name behind its last slash, whose configured address fits the room of a
  -- local socket, and whose surroundings are plausible: start returns. Either the result is 0, the
  -- process runs and its driver is up, or it is -1, the process does not run and the variables of
  -- the driver are NULL.
  pub start-Started :
      (host : Host) (c : ℕ) (cs process_name : List ℕ) (p : Process File L)
      → p.driver.client.run_state ≡ false
      → IsClosed p.driver
      → Tracks 0 p.driver
      → IsOrderly p.driver.calls
      → IsPlausible host.answers
      → host.executable ≡ some (c ∷ cs)
      → length (c ∷ cs) < 1024
      → after_slash (c ∷ cs) ≡ some process_name
      → AddressFits host (configured host process_name p)
      → (r : ℤ × Process File L) × (start ini host p ≡ done r) × Started r
  start-Started host c cs process_name p stopped closed tracked orderly plausible path short slash
        fits =
      let loaded = load_config ini host (named process_name p) in
      let same = driver-load_config host (named process_name p) in
      let (r, e, ends) =
        start_configured-Started host loaded.0 loaded.1 plausible
          (ap (λ (d : Driver (Core L)). d.client.run_state) same ∙ stopped)
          (rw same (client-IsClosed p.driver _ closed)) (rw same (Tracks-client p.driver _ tracked))
          (rw same orderly) (rw same fits) in
      (r, start-named host c cs process_name p stopped path short slash ∙ e, ends)
