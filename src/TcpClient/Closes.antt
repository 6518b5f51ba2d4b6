-- ===== src/TcpClient/Closes.antt =====
-- tcp_client.py: every exchange closes the connection that it opened, whatever happens on it.
use hass_dobiss_sx_evolution.Prelude.{
  Dict, List, Option, Result, Text, [], arith, none, ok, raised, refl, some, suc, zero, ℕ, ◌+◌, ◌∷◌,
}
use hass_dobiss_sx_evolution.Protocol.Eeprom.{
  build_clock_set_packets, build_config_download_intro, build_mood_name_intro,
  build_output_name_intro, config_response_size, mood_name_response_size, output_name_response_size,
}
use hass_dobiss_sx_evolution.Protocol.Responses.{parse_config_response, parse_output_name}
use hass_dobiss_sx_evolution.SerialClient.{
  PortEffect, SerialPort, Session, and_then, noted, parsed, port_closed, port_opened, wrote,
}
use hass_dobiss_sx_evolution.SerialClient.Closes.{
  Balanced, SerialCall, after_serial_call, after_serial_call-Balanced, clock_call, config_call,
  mood_names_call, output_names_call,
}
use hass_dobiss_sx_evolution.SerialClient.Steady.{
  IsSteady, Steady, and_then-IsSteady, got_bytes-Steady,
}
use hass_dobiss_sx_evolution.TcpClient.{
  TcpHost, after_connect, clock_command, close_writer, collect_names, connection_of,
  download_mood_name, download_name, download_output_name, exchange, read_exactly, send_and_receive,
  send_bytes, send_command, tcp_download_config, tcp_download_mood_names, tcp_download_output_names,
  tcp_sync_clock, write_output,
}

-- A body that closes the connection as often as it opens it.
abbrev pub IsBalanced : {A : Type 0} → Session A → Type 0
IsBalanced {A = A} body = (trace : List PortEffect) → Balanced trace (body trace).1

unmoved : (trace : List PortEffect) → Balanced trace trace
unmoved trace = omega arith

Balanced-trans : (a b c : List PortEffect) → Balanced a b → Balanced b c → Balanced a c
Balanced-trans a b c p q = omega arith

and_then-Balanced :
    {A B : Type 0}
    → (f : A → Session B) (before : List PortEffect) (r : Result A × List PortEffect)
    → ((a : A) → IsBalanced (f a))
    → Balanced before r.1
    → Balanced before (and_then f r).1
and_then-Balanced f before (ok a, trace) h b =
    Balanced-trans before trace (f a trace).1 b (h a trace)
and_then-Balanced f before (raised e, trace) h b = b

parsed-Balanced :
    {A : Type 0}
    → (f : List ℕ → A) (before : List PortEffect) (r : Result (List ℕ) × List PortEffect)
    → Balanced before r.1
    → Balanced before (parsed f r).1
parsed-Balanced f before (ok bytes, trace) b = b
parsed-Balanced f before (raised e, trace) b = b

written-Steady :
    (output : Option (List ℕ)) (trace : List PortEffect) → Steady trace (write_output output trace)
written-Steady none trace = (refl, refl)
written-Steady (some output) trace = (refl, refl)

send_bytes-IsSteady :
    (host : TcpHost) (intro : List ℕ) (output : Option (List ℕ))
    → IsSteady (send_bytes host intro output)
send_bytes-IsSteady host intro output trace = written-Steady output (wrote intro ∷ trace)

exchange-IsSteady :
    (host : TcpHost) (intro : List ℕ) (output : Option (List ℕ)) (size : ℕ)
    → IsSteady (exchange host intro output size)
exchange-IsSteady host intro output size trace =
    and_then-IsSteady (λ u t. read_exactly host size t) trace (send_bytes host intro output trace)
      (λ u t. got_bytes-Steady t (host.reads_exactly t size))
      (send_bytes-IsSteady host intro output trace)

-- An opened connection that a steady body is followed by closing.
closed-Balanced :
    (before after : List PortEffect)
    → Steady (port_opened ∷ before) after
    → Balanced before (port_closed ∷ after)
closed-Balanced before after s = omega (arith, s.0, s.1)

after_connect-Balanced :
    (host : TcpHost) (intro : List ℕ) (output : Option (List ℕ)) (trace : List PortEffect)
    (r : Result (Unit {0}))
    → Balanced trace (after_connect host intro output (connection_of trace r)).1
after_connect-Balanced host intro output trace (ok u) =
    closed-Balanced trace (send_bytes host intro output (port_opened ∷ trace)).1
      (send_bytes-IsSteady host intro output (port_opened ∷ trace))
after_connect-Balanced host intro output trace (raised e) = unmoved trace

send_command-IsBalanced :
    (host : TcpHost) (intro : List ℕ) (output : Option (List ℕ))
    → IsBalanced (send_command host intro output)
unfolding send_command
send_command-IsBalanced host intro output trace =
    after_connect-Balanced host intro output trace (host.connects trace)

received-Balanced :
    (host : TcpHost) (intro : List ℕ) (output : Option (List ℕ)) (size : ℕ)
    (trace : List PortEffect) (r : Result (Unit {0}))
    → Balanced trace
        (and_then
          (λ u t. close_writer host (exchange host intro output size t))
          (connection_of trace r)).1
received-Balanced host intro output size trace (ok u) =
    closed-Balanced trace (exchange host intro output size (port_opened ∷ trace)).1
      (exchange-IsSteady host intro output size (port_opened ∷ trace))
received-Balanced host intro output size trace (raised e) = unmoved trace

send_and_receive-IsBalanced :
    (host : TcpHost) (intro : List ℕ) (output : Option (List ℕ)) (size : ℕ)
    → IsBalanced (send_and_receive host intro output size)
unfolding send_and_receive
send_and_receive-IsBalanced host intro output size trace =
    received-Balanced host intro output size trace (host.connects trace)

clock_command-Balanced :
    (host : TcpHost) (r : Result (List ℕ × List ℕ)) → IsBalanced (clock_command host r)
clock_command-Balanced host (ok (intro, output)) trace =
    send_command-IsBalanced host intro (some output) trace
clock_command-Balanced host (raised e) trace = unmoved trace

download_name-IsBalanced :
    (host : TcpHost) (size : ℕ) (r : Result (List ℕ)) → IsBalanced (download_name host size r)
download_name-IsBalanced host size (ok intro) trace =
    parsed-Balanced parse_output_name trace (send_and_receive host intro none size trace)
      (send_and_receive-IsBalanced host intro none size trace)
download_name-IsBalanced host size (raised e) trace = unmoved trace

collect_names-IsBalanced :
    (download : ℕ → Session (Option Text)) (remaining index : ℕ) (names : Dict ℕ Text)
    → ((i : ℕ) → IsBalanced (download i))
    → IsBalanced (collect_names download remaining index names)
unfolding collect_names
collect_names-IsBalanced download zero index names h trace = unmoved trace
collect_names-IsBalanced download (suc remaining) index names h trace =
    and_then-Balanced
      (λ name t. collect_names download remaining (index + 1) (noted index name names) t) trace
      (download index trace)
      (λ name. collect_names-IsBalanced download remaining (index + 1) (noted index name names) h)
      (h index trace)

-- The calls of the client.
abbrev pub after_tcp_call : TcpHost → SerialCall → List PortEffect → List PortEffect
after_tcp_call host (clock_call dt) trace = (tcp_sync_clock host dt trace).1
after_tcp_call host config_call trace = (tcp_download_config host trace).1
after_tcp_call host (output_names_call module_index count) trace =
    (tcp_download_output_names host module_index count trace).1
after_tcp_call host (mood_names_call count) trace = (tcp_download_mood_names host count trace).1

after_tcp_call-Balanced :
    (host : TcpHost) (call : SerialCall) (trace : List PortEffect)
    → Balanced trace (after_tcp_call host call trace)
unfolding tcp_sync_clock tcp_download_config tcp_download_output_names tcp_download_mood_names
    download_output_name download_mood_name
after_tcp_call-Balanced host (clock_call dt) trace =
    clock_command-Balanced host (build_clock_set_packets dt) trace
after_tcp_call-Balanced host config_call trace =
    parsed-Balanced parse_config_response trace
      (send_and_receive host build_config_download_intro none config_response_size trace)
      (send_and_receive-IsBalanced host build_config_download_intro none config_response_size trace)
after_tcp_call-Balanced host (output_names_call module_index count) trace =
    collect_names-IsBalanced (download_output_name host module_index) count 0 []
      (λ i.
        download_name-IsBalanced host output_name_response_size
          (build_output_name_intro module_index i))
      trace
after_tcp_call-Balanced host (mood_names_call count) trace =
    collect_names-IsBalanced (download_mood_name host) count 0 []
      (λ i. download_name-IsBalanced host mood_name_response_size (build_mood_name_intro i)) trace

-- Every call of either client closes the port or the connections as often as it opens them, however
-- the other side answers and on every way out: a refused connection, a failed handshake, a send, a
-- read or a wait for the end that raises.
pub link_calls-Balanced :
    (host : TcpHost) (port : SerialPort) (call : SerialCall) (trace : List PortEffect)
    → Balanced trace (after_tcp_call host call trace)
      × Balanced trace (after_serial_call port call trace)
link_calls-Balanced host port call trace =
    (after_tcp_call-Balanced host call trace, after_serial_call-Balanced port call trace)
