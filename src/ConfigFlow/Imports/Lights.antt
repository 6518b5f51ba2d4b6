-- ===== src/ConfigFlow/Imports/Lights.antt =====
-- config_flow.py, tcp_client.py, serial_client.py: the outputs of an imported module, against the
-- records in the Max200's memory.
use hass_dobiss_sx_evolution.Prelude.{
  ==_iff, Bool, Bool-cases, Dict, List, Option, Result, Text, [], ap, arith, codes, false, get,
  get-put, if◌then◌else◌, inl, inr, int_eq, ltb, nat_eq, none, ok, pair_eq, pos, put, raised, refl,
  some, suc, text_eq, true, zero, ℕ, ◌+◌, ◌==◌, ◌∙◌, ◌∷◌, ◌≡◌, ◌≤◌,
}
use hass_dobiss_sx_evolution.ConfigFlow.Imports.{imported_outputs}
use hass_dobiss_sx_evolution.ConfigFlow.Imports.Links.{serial_downloads, tcp_downloads}
use hass_dobiss_sx_evolution.ConfigFlow.Outputs.{OutputConfig, Outputs, light}
use hass_dobiss_sx_evolution.Protocol.Eeprom.{output_name_eeprom_addr, output_name_response_size}
use hass_dobiss_sx_evolution.Protocol.Responses.{parse_output_name}
use hass_dobiss_sx_evolution.SerialClient.{
  PortEffect, SerialPort, Session, and_then, handshake, noted, port_opened, read_names, read_record,
  serial_download_output_names,
}
use hass_dobiss_sx_evolution.SerialClient.Names.{AnswersSerial, Delivers}
use hass_dobiss_sx_evolution.TcpClient.{
  TcpHost, collect_names, download_output_name, tcp_download_output_names,
}
use hass_dobiss_sx_evolution.TcpClient.Names.{AnswersTcp, names-Delivers, output_names}

-- No index twice, as in a dict.
abbrev pub NoRepeat : Dict ℕ Text → Type 0
NoRepeat [] = Unit
NoRepeat ((i, name) ∷ names) = (get i names ≡ none) × NoRepeat names

put-NoRepeat :
    (i : ℕ) (name : Text) (names : Dict ℕ Text) → NoRepeat names → NoRepeat (put i name names)
put-NoRepeat i name [] h = (refl, tt)
put-NoRepeat i name ((j, s) ∷ names) h = elim (Bool-cases (i == j)) [
  | inl e ↦ rw (e, NoRepeat) h
  | inr e ↦
      rw (e, NoRepeat)
        (
          get-put j i name names ∙ ground (arith, ==_iff i j, ==_iff j i, h.0),
          put-NoRepeat i name names h.1,
        )
]

noted-NoRepeat :
    (i : ℕ) (o : Option Text) (names : Dict ℕ Text) → NoRepeat names → NoRepeat (noted i o names)
noted-NoRepeat i none names h = h
noted-NoRepeat i (some name) names h = put-NoRepeat i name names h

-- What is returned is a dict.
abbrev pub ReturnsDict : Result (Dict ℕ Text) → Type 0
ReturnsDict (ok names) = NoRepeat names
ReturnsDict (raised e) = Unit

and_then-ReturnsDict :
    {A : Type 0}
    → (f : A → Session (Dict ℕ Text)) (r : Result A × List PortEffect)
    → ((a : A) (t : List PortEffect) → ReturnsDict (f a t).0)
    → ReturnsDict (and_then f r).0
and_then-ReturnsDict f (ok a, trace) h = h a trace
and_then-ReturnsDict f (raised e, trace) h = tt

collect_names-ReturnsDict :
    (download : ℕ → Session (Option Text)) (remaining index : ℕ) (names : Dict ℕ Text)
    (trace : List PortEffect)
    → NoRepeat names
    → ReturnsDict (collect_names download remaining index names trace).0
unfolding collect_names
collect_names-ReturnsDict download zero index names trace h = h
collect_names-ReturnsDict download (suc remaining) index names trace h =
    and_then-ReturnsDict
      (λ name t. collect_names download remaining (index + 1) (noted index name names) t)
      (download index trace)
      (λ name t.
        collect_names-ReturnsDict download remaining (index + 1) (noted index name names) t
          (noted-NoRepeat index name names h))

read_names-ReturnsDict :
    (port : SerialPort) (address : ℕ → ℕ) (size remaining index : ℕ) (names : Dict ℕ Text)
    (trace : List PortEffect)
    → NoRepeat names
    → ReturnsDict (read_names port address size remaining index names trace).0
unfolding read_names
read_names-ReturnsDict port address size zero index names trace h = h
read_names-ReturnsDict port address size (suc remaining) index names trace h =
    and_then-ReturnsDict
      (λ bytes t.
        read_names port address size remaining (index + 1)
          (noted index (parse_output_name bytes) names) t)
      (read_record port (address index) size trace)
      (λ bytes t.
        read_names-ReturnsDict port address size remaining (index + 1)
          (noted index (parse_output_name bytes) names) t
          (noted-NoRepeat index (parse_output_name bytes) names h))

serial-ReturnsDict :
    (port : SerialPort) (index count : ℕ) (trace : List PortEffect)
    → ReturnsDict (serial_download_output_names port index count trace).0
unfolding serial_download_output_names
serial-ReturnsDict port index count trace = elim (Bool-cases port.opens_port) [
  | inl e ↦ simp e (
      and_then-ReturnsDict
        (λ u t.
          read_names port (output_name_eeprom_addr index) output_name_response_size count 0 [] t)
        (handshake port (codes "u1") (port_opened ∷ trace))
        (λ u t.
          read_names-ReturnsDict port (output_name_eeprom_addr index) output_name_response_size
            count 0 [] t tt))
  | inr e ↦ simp e tt
]

-- The light of a name.
abbrev pub light_of : Option Text → Option OutputConfig
light_of none = none
light_of (some name) = some (light name)

abbrev or_config : Option OutputConfig → Option OutputConfig → Option OutputConfig
or_config none other = other
or_config (some cfg) other = some cfg

next_number : (i j : ℕ) → (pos (i + 1) == pos (j + 1)) ≡ (i == j)
next_number i j = ground (arith, ==_iff i j, ==_iff (pos (i + 1)) (pos (j + 1)))

get-imported_onto :
    (i : ℕ) (names : Dict ℕ Text) (outputs : Outputs)
    → NoRepeat names
    → get (pos (i + 1)) (imported_outputs names outputs)
      ≡ or_config (light_of (get i names)) (get (pos (i + 1)) outputs)
unfolding imported_outputs
get-imported_onto i [] outputs h = refl
get-imported_onto i ((j, name) ∷ names) outputs h =
    get-imported_onto i names (put (pos (j + 1)) (light name) outputs) h.1
    ∙ rw (get-put (pos (i + 1)) (pos (j + 1)) (light name) outputs, next_number i j)
        (elim (Bool-cases (i == j)) [
          | inl e ↦ rw e (ap (λ o. or_config (light_of o) (some (light name))) (absent e))
          | inr e ↦ rw e refl
        ])
  where
    absent : (i == j) ≡ true → get i names ≡ none
    absent e = rw ((==_iff i j).0 e) h.0

get-imported_outputs :
    (i : ℕ) (names : Dict ℕ Text)
    → NoRepeat names
    → get (pos (i + 1)) (imported_outputs names []) ≡ light_of (get i names)
get-imported_outputs i names h =
    get-imported_onto i names [] h ∙ or_none_config (light_of (get i names))
  where
    or_none_config : (o : Option OutputConfig) → or_config o none ≡ o
    or_none_config none = refl
    or_none_config (some cfg) = refl

-- The outputs that an import makes of a download: output i + 1 is a light of the name of record i,
-- where it has one, and the outputs above the count are not there.
abbrev pub HasLights : (ℕ → Option Text) → ℕ → Result (Dict ℕ Text) → Type 0
HasLights record_name count (ok names) =
    (i : ℕ)
    → get (pos (i + 1)) (imported_outputs names [])
      ≡ (if ltb i count then light_of (record_name i) else none)
HasLights record_name count (raised e) = ⊥

light_if :
    (b : Bool) (o : Option Text)
    → light_of (if b then o else none) ≡ (if b then light_of o else none)
light_if true o = refl
light_if false o = refl

delivered-HasLights :
    (record_name : ℕ → Option Text) (count : ℕ) (r : Result (Dict ℕ Text))
    → ReturnsDict r
    → Delivers record_name count r
    → HasLights record_name count r
delivered-HasLights record_name count (ok names) dict h = λ i.
    get-imported_outputs i names dict ∙ ap light_of (h i) ∙ light_if (ltb i count) (record_name i)
delivered-HasLights record_name count (raised e) dict h = h

-- Imported from a Max200 that answers, over TCP or over its serial port, a module of it has as output
-- i + 1 a light of the name in the Max200's record of output i, for each of the first twelve records
-- whose bytes parse to a name, and no other output from 1 on. The records' addresses have two bytes.
pub imported-HasLights :
    (memory : ℕ → List ℕ) (host : TcpHost) (port : SerialPort) (module_index : ℕ)
    (trace : List PortEffect)
    → AnswersTcp memory host
    → AnswersSerial memory port
    → output_name_eeprom_addr module_index 12 ≤ 65536
    → let record_name : ℕ → Option Text =
        λ i. parse_output_name (memory (output_name_eeprom_addr module_index i)) in
      HasLights record_name 12 ((tcp_downloads host trace).names_of_module module_index)
      × HasLights record_name 12 ((serial_downloads port trace).names_of_module module_index)
unfolding tcp_download_output_names
imported-HasLights memory host port module_index trace tcp serial fits =
    let delivered =
      names-Delivers memory host port (output_names module_index) 12 trace tcp serial fits in
    let record_name : ℕ → Option Text =
      λ i. parse_output_name (memory (output_name_eeprom_addr module_index i)) in
    (
      delivered-HasLights record_name 12 (tcp_download_output_names host module_index 12 trace).0
          (collect_names-ReturnsDict (download_output_name host module_index) 12 0 [] trace tt)
          delivered.0,
      delivered-HasLights record_name 12 (serial_download_output_names port module_index 12 trace).0
          (serial-ReturnsDict port module_index 12 trace) delivered.1,
    )
