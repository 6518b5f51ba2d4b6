-- ===== src/TcpClient/Names.antt =====
-- tcp_client.py, serial_client.py: both clients give the names that the records in the Max200's
-- memory hold.
use hass_dobiss_sx_evolution.Prelude.{
  Dict, List, Option, Text, [], ap, arith, none, ok, refl, replicate, suc, zero, ℕ, ◌%◌, ◌*◌, ◌+◌,
  ◌/◌, ◌<◌, ◌∙◌, ◌∷◌, ◌≡◌, ◌≤◌,
}
use hass_dobiss_sx_evolution.Protocol.Eeprom.{
  build_mood_name_intro, build_output_name_intro, byte, eeprom_base_byte, mood_name_eeprom_addr,
  mood_name_response_size, output_name_eeprom_addr, output_name_response_size,
}
use hass_dobiss_sx_evolution.Protocol.Responses.{parse_output_name}
use hass_dobiss_sx_evolution.SerialClient.{
  PortEffect, SerialPort, Session, got, noted, port_closed, port_opened, serial_download_mood_names,
  serial_download_output_names, wrote,
}
use hass_dobiss_sx_evolution.SerialClient.Names.{
  AnswersSerial, Delivers, Holds, and_then-ok, noted-Holds, parsed-ok, serial_mood_names-Delivers,
  serial_output_names-Delivers,
}
use hass_dobiss_sx_evolution.TcpClient.{
  TcpHost, collect_names, download_mood_name, download_output_name, send_and_receive,
  tcp_download_mood_names, tcp_download_output_names,
}
use mathlib.Core.Path.{subst}

-- What the Max200 does over TCP: it takes a connection and what is sent on it, and answers the intro
-- of a download of names by the record at its address.
pub record AnswersTcp (memory : ℕ → List ℕ) (host : TcpHost) : Type 0 where
  pub takes_connection : (trace : List PortEffect) → host.connects trace ≡ ok tt
  pub takes_bytes : (trace : List PortEffect) → host.drains trace ≡ ok tt
  pub ends_connection : (trace : List PortEffect) → host.waits_closed trace ≡ ok tt
  pub answers_output :
      (hi lo : ℕ) (trace : List PortEffect)
      → host.reads_exactly
          (wrote (0xED ∷ 0x75 ∷ 0x31 ∷ eeprom_base_byte ∷ hi ∷ lo ∷ replicate 10 0) ∷ trace)
          output_name_response_size
        ≡ ok (memory (hi * 256 + lo))
  pub answers_mood :
      (hi lo : ℕ) (trace : List PortEffect)
      → host.reads_exactly
          (wrote (0xED ∷ 0x6E ∷ 0x30 ∷ eeprom_base_byte ∷ hi ∷ lo ∷ replicate 10 0) ∷ trace)
          mood_name_response_size
        ≡ ok (memory (hi * 256 + lo))

pub collect_names-Delivers :
    (record_name : ℕ → Option Text) (download : ℕ → Session (Option Text))
    (count remaining index : ℕ) (names : Dict ℕ Text) (trace : List PortEffect)
    → ((i : ℕ) (t : List PortEffect) → i < count → (download i t).0 ≡ ok (record_name i))
    → index + remaining ≡ count
    → Holds record_name index names
    → Delivers record_name count (collect_names download remaining index names trace).0
unfolding collect_names
collect_names-Delivers record_name download count zero index names trace gives e holds =
    subst (λ n. Holds record_name n names) (omega arith) holds
collect_names-Delivers record_name download count (suc remaining) index names trace gives e holds =
    rw
      (and_then-ok
        (λ name t. collect_names download remaining (index + 1) (noted index name names) t)
        (record_name index) (download index trace) (gives index trace (omega arith)))
      (collect_names-Delivers record_name download count remaining (index + 1)
        (noted index (record_name index) names) (download index trace).1 gives (omega arith)
        (noted-Holds record_name index names holds))

byte_ok : (addr : ℕ) → addr < 65536 → byte (addr / 256) ≡ ok (addr / 256)
byte_ok addr lt = ground arith

-- The intro of a download of the record at an address.
abbrev pub name_intro : ℕ → ℕ → ℕ → List ℕ
name_intro command variant addr =
    0xED ∷ command ∷ variant ∷ eeprom_base_byte ∷ (addr / 256) ∷ (addr % 256) ∷ replicate 10 0

output_intro :
    (module_index output_index : ℕ)
    → output_name_eeprom_addr module_index output_index < 65536
    → build_output_name_intro module_index output_index
      ≡ ok (name_intro 0x75 0x31 (output_name_eeprom_addr module_index output_index))
unfolding build_output_name_intro
output_intro module_index output_index lt = rw (byte_ok _ lt) refl

mood_intro :
    (mood_number : ℕ)
    → mood_name_eeprom_addr mood_number < 65536
    → build_mood_name_intro mood_number
      ≡ ok (name_intro 0x6E 0x30 (mood_name_eeprom_addr mood_number))
unfolding build_mood_name_intro
mood_intro mood_number lt = rw (byte_ok _ lt) refl

two_bytes : (addr : ℕ) → addr / 256 * 256 + addr % 256 ≡ addr
two_bytes addr = omega arith

module _ (memory : ℕ → List ℕ) (host : TcpHost) (h : AnswersTcp memory host) where
  -- An intro that is answered by the record at its address.
  receives :
      (intro : List ℕ) (size : ℕ) (bytes : List ℕ) (trace : List PortEffect)
      → ((t : List PortEffect) → host.reads_exactly (wrote intro ∷ t) size ≡ ok bytes)
      → (send_and_receive host intro none size trace).0 ≡ ok bytes
  unfolding send_and_receive
  receives intro size bytes trace answer =
      simp
        (
          h.takes_connection trace,
          h.takes_bytes (wrote intro ∷ port_opened ∷ trace),
          answer (port_opened ∷ trace),
          h.ends_connection (port_closed ∷ got bytes ∷ wrote intro ∷ port_opened ∷ trace),
        )
        refl

  pub download_output_name_ok :
      (module_index output_index : ℕ) (trace : List PortEffect)
      → output_name_eeprom_addr module_index output_index < 65536
      → (download_output_name host module_index output_index trace).0
        ≡ ok (parse_output_name (memory (output_name_eeprom_addr module_index output_index)))
  unfolding download_output_name
  download_output_name_ok module_index output_index trace lt =
      rw (output_intro module_index output_index lt) (
        parsed-ok parse_output_name (memory (output_name_eeprom_addr module_index output_index))
          (send_and_receive host
            (name_intro 0x75 0x31 (output_name_eeprom_addr module_index output_index)) none
            output_name_response_size trace)
          (receives (name_intro 0x75 0x31 (output_name_eeprom_addr module_index output_index))
            output_name_response_size (memory (output_name_eeprom_addr module_index output_index))
            trace
            (λ t.
              h.answers_output (output_name_eeprom_addr module_index output_index / 256)
                (output_name_eeprom_addr module_index output_index % 256) t
              ∙ ap (λ a. ok (memory a))
                  (two_bytes (output_name_eeprom_addr module_index output_index)))))

  pub download_mood_name_ok :
      (mood_number : ℕ) (trace : List PortEffect)
      → mood_name_eeprom_addr mood_number < 65536
      → (download_mood_name host mood_number trace).0
        ≡ ok (parse_output_name (memory (mood_name_eeprom_addr mood_number)))
  unfolding download_mood_name
  download_mood_name_ok mood_number trace lt = rw (mood_intro mood_number lt) (
      parsed-ok parse_output_name (memory (mood_name_eeprom_addr mood_number))
        (send_and_receive host (name_intro 0x6E 0x30 (mood_name_eeprom_addr mood_number)) none
          mood_name_response_size trace)
        (receives (name_intro 0x6E 0x30 (mood_name_eeprom_addr mood_number)) mood_name_response_size
          (memory (mood_name_eeprom_addr mood_number)) trace
          (λ t.
            h.answers_mood (mood_name_eeprom_addr mood_number / 256)
              (mood_name_eeprom_addr mood_number % 256) t
            ∙ ap (λ a. ok (memory a)) (two_bytes (mood_name_eeprom_addr mood_number)))))

-- The two downloads of names, by the Max200's number of the module.
pub data NameCall : Type 0 where
  output_names : ℕ → NameCall
  mood_names : NameCall

abbrev pub record_addr : NameCall → ℕ → ℕ
record_addr (output_names module_index) i = output_name_eeprom_addr module_index i
record_addr mood_names i = mood_name_eeprom_addr i

abbrev pub tcp_names : TcpHost → NameCall → ℕ → Session (Dict ℕ Text)
tcp_names host (output_names module_index) count = tcp_download_output_names host module_index count
tcp_names host mood_names count = tcp_download_mood_names host count

abbrev pub serial_names : SerialPort → NameCall → ℕ → Session (Dict ℕ Text)
serial_names port (output_names module_index) count =
    serial_download_output_names port module_index count
serial_names port mood_names count = serial_download_mood_names port count

fits_below :
    (call : NameCall) (count : ℕ)
    → record_addr call count ≤ 65536
    → (i : ℕ) → i < count
    → record_addr call i < 65536
unfolding output_name_eeprom_addr mood_name_eeprom_addr
fits_below (output_names module_index) count h i lt = omega arith
fits_below mood_names count h i lt = omega arith

-- From a Max200 that answers, over TCP with one connection for each record and over the serial port
-- in one session, both clients return without an exception, and both have under every index the same
-- name: that of the record, if it is one of the first `count` and its bytes parse to a name, and none
-- otherwise. The records' addresses have two bytes.
pub names-Delivers :
    (memory : ℕ → List ℕ) (host : TcpHost) (port : SerialPort) (call : NameCall) (count : ℕ)
    (trace : List PortEffect)
    → AnswersTcp memory host
    → AnswersSerial memory port
    → record_addr call count ≤ 65536
    → Delivers
        (λ i. parse_output_name (memory (record_addr call i)))
        count
        (tcp_names host call count trace).0
      × Delivers
          (λ i. parse_output_name (memory (record_addr call i)))
          count
          (serial_names port call count trace).0
unfolding tcp_download_output_names tcp_download_mood_names
names-Delivers memory host port (output_names module_index) count trace tcp serial fits = (
  collect_names-Delivers (λ i. parse_output_name (memory (output_name_eeprom_addr module_index i)))
      (download_output_name host module_index) count count 0 [] trace
      (λ i t lt.
        download_output_name_ok memory host tcp module_index i t
          (fits_below (output_names module_index) count fits i lt))
      (omega arith) (λ i. ground arith),
  serial_output_names-Delivers memory port serial module_index count trace
      (fits_below (output_names module_index) count fits),
)
names-Delivers memory host port mood_names count trace tcp serial fits = (
  collect_names-Delivers (λ i. parse_output_name (memory (mood_name_eeprom_addr i)))
      (download_mood_name host) count count 0 [] trace
      (λ i t lt. download_mood_name_ok memory host tcp i t (fits_below mood_names count fits i lt))
      (omega arith) (λ i. ground arith),
  serial_mood_names-Delivers memory port serial count trace (fits_below mood_names count fits),
)
