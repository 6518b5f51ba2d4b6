-- ===== src/TcpClient.antt =====
-- tcp_client.py: the exchanges with the Max200 over TCP. What the connection does is a parameter;
-- what happens on it is kept in the trace, the latest first, as for the serial client.
-- asyncio's connections to one host: what opening one, draining it, reading n bytes of it within the
-- timeout and waiting for its end give, after what has happened so far.
pub mod Closes
pub mod Names
pub mod Tests
use hass_dobiss_sx_evolution.Prelude.{
  Bool, Dict, Exn, List, Option, Result, Text, [], connection_error, false, if◌then◌else◌, none, ok,
  os_error, raised, serial_error, some, suc, timeout_error, true, zero, ℕ, ◌+◌, ◌∷◌,
}
use hass_dobiss_sx_evolution.Protocol.Eeprom.{
  DateTime, build_clock_set_packets, build_config_download_intro, build_mood_name_intro,
  build_output_name_intro, config_response_size, mood_name_response_size, output_name_response_size,
}
use hass_dobiss_sx_evolution.Protocol.Responses.{parse_config_response, parse_output_name}
use hass_dobiss_sx_evolution.SerialClient.{
  PortEffect, Session, and_then, got_bytes, noted, parsed, port_closed, port_opened, wrote,
}

pub record TcpHost : Type 0 where
  pub connects : List PortEffect → Result (Unit {0})
  pub drains : List PortEffect → Result (Unit {0})
  pub reads_exactly : List PortEffect → ℕ → Result (List ℕ)
  pub waits_closed : List PortEffect → Result (Unit {0})

-- except (TimeoutError, OSError): TimeoutError is an OSError
abbrev pub is_os_error : Exn → Bool
is_os_error os_error = true
is_os_error timeout_error = true
is_os_error connection_error = true
is_os_error serial_error = true
is_os_error e = false

abbrev pub caught : Result (Unit {0}) → Result (Unit {0})
caught (ok u) = ok u
caught (raised e) = if is_os_error e then ok tt else raised e

abbrev pub connection_of : List PortEffect → Result (Unit {0}) → Result (Unit {0}) × List PortEffect
connection_of trace (ok u) = (ok u, port_opened ∷ trace)
connection_of trace (raised e) = (raised e, trace)

-- await asyncio.wait_for(asyncio.open_connection(…), timeout=CONNECT_TIMEOUT_S)
abbrev pub connect : TcpHost → Session (Unit {0})
connect host trace = connection_of trace (host.connects trace)

-- if output is not None: writer.write(output)
abbrev pub write_output : Option (List ℕ) → List PortEffect → List PortEffect
write_output none trace = trace
write_output (some output) trace = wrote output ∷ trace

-- writer.write(intro), the output, await writer.drain()
abbrev pub send_bytes : TcpHost → List ℕ → Option (List ℕ) → Session (Unit {0})
send_bytes host intro output trace = (
  host.drains (write_output output (wrote intro ∷ trace)),
  write_output output (wrote intro ∷ trace),
)

-- What the `finally` block raises takes the place of what the body gave.
abbrev pub unless_raised : {A : Type 0} → Result A → Result (Unit {0}) → Result A
unless_raised r (ok u) = r
unless_raised r (raised e) = raised e

-- finally: writer.close(), await writer.wait_closed()
abbrev pub close_writer :
    {A : Type 0} → TcpHost → Result A × List PortEffect → Result A × List PortEffect
close_writer host (r, trace) =
    (unless_raised r (host.waits_closed (port_closed ∷ trace)), port_closed ∷ trace)

-- except OSError: a warning, and no more
abbrev pub caught_send : Result (Unit {0}) × List PortEffect → Result (Unit {0}) × List PortEffect
caught_send (r, trace) = (caught r, trace)

-- A connection that fails ends `send_command` with a warning.
abbrev pub after_connect :
    TcpHost
    → List ℕ
    → Option (List ℕ)
    → Result (Unit {0}) × List PortEffect
    → Result (Unit {0}) × List PortEffect
after_connect host intro output (ok u, trace) =
    close_writer host (caught_send (send_bytes host intro output trace))
after_connect host intro output (raised e, trace) = (caught (raised e), trace)

-- `send_command`
unfoldable pub send_command : TcpHost → List ℕ → Option (List ℕ) → Session (Unit {0})
send_command host intro output trace = after_connect host intro output (connect host trace)

abbrev pub read_exactly : TcpHost → ℕ → Session (List ℕ)
read_exactly host n trace = got_bytes trace (host.reads_exactly trace n)

-- The body of the `try` of `send_and_receive`.
abbrev pub exchange : TcpHost → List ℕ → Option (List ℕ) → ℕ → Session (List ℕ)
exchange host intro output size trace =
    and_then (λ u t. read_exactly host size t) (send_bytes host intro output trace)

-- `send_and_receive`
unfoldable pub send_and_receive : TcpHost → List ℕ → Option (List ℕ) → ℕ → Session (List ℕ)
send_and_receive host intro output size trace =
    and_then (λ u t. close_writer host (exchange host intro output size t)) (connect host trace)

abbrev pub clock_command : TcpHost → Result (List ℕ × List ℕ) → Session (Unit {0})
clock_command host (ok (intro, output)) trace = send_command host intro (some output) trace
clock_command host (raised e) trace = (raised e, trace)

-- `sync_clock`
unfoldable pub tcp_sync_clock : TcpHost → DateTime → Session (Unit {0})
unfolding send_command build_clock_set_packets
tcp_sync_clock host dt trace = clock_command host (build_clock_set_packets dt) trace

-- `download_config`
unfoldable pub tcp_download_config : TcpHost → Session (List (Text × ℕ))
unfolding send_and_receive build_config_download_intro parse_config_response
tcp_download_config host trace =
    parsed parse_config_response
      (send_and_receive host build_config_download_intro none config_response_size trace)

-- What `download_output_name` and `download_mood_name` do once the intro is built.
abbrev pub download_name : TcpHost → ℕ → Result (List ℕ) → Session (Option Text)
download_name host size (ok intro) trace =
    parsed parse_output_name (send_and_receive host intro none size trace)
download_name host size (raised e) trace = (raised e, trace)

-- `download_output_name`
unfoldable pub download_output_name : TcpHost → ℕ → ℕ → Session (Option Text)
unfolding send_and_receive build_output_name_intro parse_output_name
download_output_name host module_index output_index trace =
    download_name host output_name_response_size (build_output_name_intro module_index output_index)
      trace

-- `download_mood_name`
unfoldable pub download_mood_name : TcpHost → ℕ → Session (Option Text)
unfolding send_and_receive build_mood_name_intro parse_output_name
download_mood_name host mood_number trace =
    download_name host mood_name_response_size (build_mood_name_intro mood_number) trace

-- for … in range(count), over the indices that are left, from `index` on
unfoldable pub collect_names :
    (ℕ → Session (Option Text)) → ℕ → ℕ → Dict ℕ Text → Session (Dict ℕ Text)
collect_names download zero index names trace = (ok names, trace)
collect_names download (suc remaining) index names trace =
    and_then (λ name t. collect_names download remaining (index + 1) (noted index name names) t)
      (download index trace)

-- `download_module_output_names`
unfoldable pub tcp_download_output_names : TcpHost → ℕ → ℕ → Session (Dict ℕ Text)
unfolding collect_names download_output_name
tcp_download_output_names host module_index count trace =
    collect_names (download_output_name host module_index) count 0 [] trace

-- `download_mood_names`
unfoldable pub tcp_download_mood_names : TcpHost → ℕ → Session (Dict ℕ Text)
unfolding collect_names download_mood_name
tcp_download_mood_names host count trace = collect_names (download_mood_name host) count 0 [] trace
