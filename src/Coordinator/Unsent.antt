-- ===== src/Coordinator/Unsent.antt =====
-- coordinator.py, tcp_client.py: the clock sync over TCP where no connection is made, and where one is.
use hass_dobiss_sx_evolution.Prelude.{
  Bool, Exn, List, Option, Result, ok, raised, refl, some, true, ℕ, ◌∷◌, ◌≡◌,
}
use hass_dobiss_sx_evolution.Coordinator.{Coordinator, sync_clock}
use hass_dobiss_sx_evolution.Protocol.Eeprom.{DateTime, build_clock_set_packets}
use hass_dobiss_sx_evolution.SerialClient.{PortEffect, port_closed, port_opened, wrote}
use hass_dobiss_sx_evolution.TcpClient.{
  TcpHost, clock_command, is_os_error, send_command, tcp_sync_clock,
}

-- `tcp_client.sync_clock`, after what has happened on the host so far
abbrev pub tcp_sync : TcpHost → List PortEffect → Option (DateTime → Result (Unit {0}))
tcp_sync host trace = some (λ dt. (tcp_sync_clock host dt trace).0)

refused :
    (host : TcpHost) (trace : List PortEffect) (e : Exn) (intro output : List ℕ)
    → host.connects trace ≡ raised e
    → is_os_error e ≡ true
    → send_command host intro (some output) trace ≡ (ok tt, trace)
unfolding send_command
refused host trace e intro output h os = simp (h, os) refl

clock_refused :
    (host : TcpHost) (trace : List PortEffect) (e : Exn) (packets : List ℕ × List ℕ)
    → host.connects trace ≡ raised e
    → is_os_error e ≡ true
    → clock_command host (ok packets) trace ≡ (ok tt, trace)
clock_refused host trace e (intro, output) h os = refused host trace e intro output h os

-- Where the connection is refused with an OSError, a clock sync over TCP sends nothing, and the
-- coordinator records that it succeeded, whoever calls it. The packets of the time can be built.
pub sync_clock-unsent :
    (host : TcpHost) (trace : List PortEffect) (e : Exn)
    (serial_client : Option (DateTime → Result (Unit {0}))) (now : DateTime) (timer : Bool)
    (co : Coordinator) (packets : List ℕ × List ℕ)
    → host.connects trace ≡ raised e
    → is_os_error e ≡ true
    → build_clock_set_packets now ≡ ok packets
    → ((tcp_sync_clock host now trace).1 ≡ trace)
      × ((sync_clock (tcp_sync host trace) serial_client now timer co).1.last_clock_sync_ok
          ≡ some true)
unfolding sync_clock tcp_sync_clock
sync_clock-unsent host trace e serial_client now timer co packets h os built =
    let refusal = clock_refused host trace e packets h os in rw (built, refusal) (refl, refl)

-- Over a connection that is made, takes what is sent and ends, a clock sync sends the intro and then
-- the output in one connection, which is closed at the end, and the attempt is recorded as a success.
pub sync_clock-sent :
    (host : TcpHost) (trace : List PortEffect)
    (serial_client : Option (DateTime → Result (Unit {0}))) (now : DateTime) (timer : Bool)
    (co : Coordinator) (intro output : List ℕ)
    → host.connects trace ≡ ok tt
    → host.drains (wrote output ∷ wrote intro ∷ port_opened ∷ trace) ≡ ok tt
    → host.waits_closed (port_closed ∷ wrote output ∷ wrote intro ∷ port_opened ∷ trace) ≡ ok tt
    → build_clock_set_packets now ≡ ok (intro, output)
    → ((tcp_sync_clock host now trace).1
        ≡ port_closed ∷ wrote output ∷ wrote intro ∷ port_opened ∷ trace)
      × ((sync_clock (tcp_sync host trace) serial_client now timer co).1.last_clock_sync_ok
          ≡ some true)
unfolding sync_clock tcp_sync_clock send_command
sync_clock-sent host trace serial_client now timer co intro output h d w built =
    simp (built, h, d, w) (refl, refl)
