-- ===== src/TcpClient/Tests.antt =====
-- Runs of the theorems on the two clients of the Max200 at concrete inputs.
use hass_dobiss_sx_evolution.Prelude.{
  List, Option, Result, Text, [], arith, bool_eq, codes, false, int_eq, nat_eq, none, ok, option_eq,
  pair_eq, pos, raised, refl, replicate, some, text_eq, timeout_error, true, ℕ, ◌%◌, ◌*◌, ◌+◌, ◌/◌,
  ◌∷◌, ◌≡◌,
}
use hass_dobiss_sx_evolution.ConfigFlow.Imports.Lights.{HasLights, imported-HasLights}
use hass_dobiss_sx_evolution.ConfigFlow.Imports.Links.{serial_downloads, tcp_downloads}
use hass_dobiss_sx_evolution.Controller.Connection.{socketcand}
use hass_dobiss_sx_evolution.Controller.State.{new_controller}
use hass_dobiss_sx_evolution.Coordinator.{Coordinator, sync_clock}
use hass_dobiss_sx_evolution.Coordinator.Unsent.{sync_clock-unsent, tcp_sync}
use hass_dobiss_sx_evolution.Protocol.Eeprom.{
  DateTime, build_clock_set_packets, output_name_eeprom_addr,
}
use hass_dobiss_sx_evolution.Protocol.Responses.{parse_output_name}
use hass_dobiss_sx_evolution.SerialClient.{PortEffect, SerialPort, wrote}
use hass_dobiss_sx_evolution.SerialClient.Closes.{Balanced, after_serial_call, output_names_call}
use hass_dobiss_sx_evolution.SerialClient.Names.{AnswersSerial, Delivers}
use hass_dobiss_sx_evolution.TcpClient.{TcpHost, tcp_download_mood_names, tcp_sync_clock}
use hass_dobiss_sx_evolution.TcpClient.Closes.{after_tcp_call, link_calls-Balanced}
use hass_dobiss_sx_evolution.TcpClient.Names.{
  AnswersTcp, mood_names, names-Delivers, output_names, record_addr, serial_names, tcp_names,
}

-- Every record reads "A" and a character of its address.
abbrev a_memory : ℕ → List ℕ
a_memory addr = b'A' ∷ (b'A' + addr / 32 % 16) ∷ replicate 30 0

abbrev host_answer : List PortEffect → Result (List ℕ)
host_answer (wrote (a ∷ b ∷ c ∷ d ∷ hi ∷ lo ∷ pad) ∷ trace) = ok (a_memory (hi * 256 + lo))
host_answer trace = ok []

abbrev an_answering_host : TcpHost
an_answering_host = record {
  connects = λ trace. ok tt;
  drains = λ trace. ok tt;
  reads_exactly = λ trace n. host_answer trace;
  waits_closed = λ trace. ok tt;
}

abbrev port_answer : List PortEffect → Result (List ℕ)
port_answer (wrote (c ∷ d ∷ []) ∷ trace) = ok (c ∷ [])
port_answer (wrote (hi ∷ lo ∷ size ∷ direction ∷ []) ∷ trace) = ok (a_memory (hi * 256 + lo))
port_answer trace = ok []

abbrev an_answering_port : SerialPort
an_answering_port = record {
  opens_port = true;
  reads = λ trace n. port_answer trace;
  write_raises = λ trace bytes. false;
}

host-Answers : AnswersTcp a_memory an_answering_host
host-Answers = record {
  takes_connection = λ trace. refl;
  takes_bytes = λ trace. refl;
  ends_connection = λ trace. refl;
  answers_output = λ hi lo trace. refl;
  answers_mood = λ hi lo trace. refl;
}

port-Answers : AnswersSerial a_memory an_answering_port
port-Answers = record {
  opens = refl;
  takes = λ trace bytes. refl;
  ready = λ trace. [];
  is_ready = λ trace. refl;
  echoes = λ c d trace. refl;
  answers = λ hi lo trace. refl;
}

names-Delivers_example :
    Delivers
      (λ i. parse_output_name (a_memory (record_addr (output_names 1) i)))
      2
      (tcp_names an_answering_host (output_names 1) 2 []).0
    × Delivers
        (λ i. parse_output_name (a_memory (record_addr (output_names 1) i)))
        2
        (serial_names an_answering_port (output_names 1) 2 []).0
unfolding output_name_eeprom_addr
names-Delivers_example =
    names-Delivers a_memory an_answering_host an_answering_port (output_names 1) 2 [] host-Answers
      port-Answers (omega arith)

-- What is delivered is not empty.
delivered_names :
    (tcp_names an_answering_host mood_names 2 []).0 ≡ ok ((0, codes "AA") ∷ (1, codes "AB") ∷ [])
unfolding tcp_download_mood_names
delivered_names = refl

link_calls-Balanced_example :
    Balanced [] (after_tcp_call an_answering_host (output_names_call 0 2) [])
    × Balanced [] (after_serial_call an_answering_port (output_names_call 0 2) [])
link_calls-Balanced_example =
    link_calls-Balanced an_answering_host an_answering_port (output_names_call 0 2) []

abbrev a_refusing_host : TcpHost
a_refusing_host = record an_answering_host { connects = λ trace. raised timeout_error }

abbrev noon : DateTime
noon = record { second = 0; minute = 0; hour = 12; isoweekday = 1; day = 1; month = 1; year = 2024 }

abbrev idle : Coordinator
idle = record {
  controller = new_controller (socketcand [] (pos 1) []) [] [] [] [];
  snapshot = [];
  debounce = false;
  last_clock_sync_ok = none;
  last_clock_sync = none;
}

sync_clock-unsent_example :
    ((tcp_sync_clock a_refusing_host noon []).1 ≡ [])
    × ((sync_clock (tcp_sync a_refusing_host []) none noon false idle).1.last_clock_sync_ok
        ≡ some true)
unfolding build_clock_set_packets
sync_clock-unsent_example =
    sync_clock-unsent a_refusing_host [] timeout_error none noon false idle
      (0xED ∷ 0x4B ∷ 0x30 ∷ replicate 13 0, 0 ∷ 0 ∷ 0x12 ∷ 2 ∷ 1 ∷ 1 ∷ 0x24 ∷ []) refl refl refl

imported-HasLights_example :
    let record_name : ℕ → Option Text =
      λ i. parse_output_name (a_memory (output_name_eeprom_addr 1 i)) in
    HasLights record_name 12 ((tcp_downloads an_answering_host []).names_of_module 1)
    × HasLights record_name 12 ((serial_downloads an_answering_port []).names_of_module 1)
unfolding output_name_eeprom_addr
imported-HasLights_example =
    imported-HasLights a_memory an_answering_host an_answering_port 1 [] host-Answers port-Answers
      (omega arith)
