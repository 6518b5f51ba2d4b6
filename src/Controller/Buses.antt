-- ===== src/Controller/Buses.antt =====
-- controller.py, `make_bus`: the bus of a connection, and the probe of it in config_flow.py. How
-- python-can and the sockets answer is a parameter.
use hass_dobiss_sx_evolution.Prelude.{
  List, Result, Text, [], cancelled_error, codes, if◌then◌else◌, int_eq, nat_eq, ok, pair_eq,
  raised, text_eq, ℕ, ℤ, ◌++◌, ◌==◌, ◌∷◌,
}
use hass_dobiss_sx_evolution.Controller.Connection.{ConnectionConfig, socketcand, usb}

-- The arguments of `can.Bus`, with the one that holds a USB adapter's baud rate
pub data BaudArgument : Type 0 where
  with_tty_baudrate with_baudrate : ℕ → BaudArgument

pub data BusArguments : Type 0 where
  -- interface "socketcand": channel, host, port
  socketcand_bus : Text → Text → ℤ → BusArguments
  -- interface, channel
  adapter_bus : Text → Text → BaudArgument → BusArguments

-- What making and probing a bus does outside, in order.
pub data BusCall : Type 0 where
  tcp_connect : Text → ℤ → BusCall
  call_can_bus : BusArguments → BusCall
  bus_shutdown : BusCall

abbrev pub baud_argument : Text → ℕ → BaudArgument
baud_argument can_interface rate =
    if can_interface == codes "slcan" then with_tty_baudrate rate else with_baudrate rate

abbrev pub bus_arguments : ConnectionConfig → BusArguments
bus_arguments (socketcand host port interface) = socketcand_bus interface host port
bus_arguments (usb device rate can_interface) =
    adapter_bus can_interface device (baud_argument can_interface rate)

-- Calls in a row, up to the first that raises
abbrev pub and_call :
    List BusCall × Result (Unit {0})
    → List BusCall × Result (Unit {0})
    → List BusCall × Result (Unit {0})
and_call (done, raised e) more = (done, raised e)
and_call (done, ok u) (done', r) = (done ++ done', r)

-- How each call ends is `answer`.
module _ (answer : BusCall → Result (Unit {0})) where
  abbrev pub call_out : BusCall → List BusCall × Result (Unit {0})
  call_out call = (call ∷ [], answer call)

  -- `make_bus` of either connection, with the done it makes
  unfoldable pub make_can_bus : ConnectionConfig → List BusCall × Result (Unit {0})
  make_can_bus (socketcand host port interface) =
      and_call (call_out (tcp_connect host port))
        (call_out (call_can_bus (bus_arguments (socketcand host port interface))))
  make_can_bus (usb device rate can_interface) =
      call_out (call_can_bus (bus_arguments (usb device rate can_interface)))

  -- contextlib.suppress(Exception)
  abbrev pub suppressed : Result (Unit {0}) → Result (Unit {0})
  suppressed (ok u) = ok u
  suppressed (raised cancelled_error) = raised cancelled_error
  suppressed (raised e) = ok tt

  -- `_probe_bus_sync`
  unfoldable pub probe_bus_sync : ConnectionConfig → List BusCall × Result (Unit {0})
  unfolding make_can_bus
  probe_bus_sync connection =
      and_call (make_can_bus connection) (bus_shutdown ∷ [], suppressed (answer bus_shutdown))
