-- ===== src/Uart.antt =====
-- src/uart/simple_uart.c: an output port for single bytes. `printed` is what was written to the
-- standard output, in order.
pub mod Protocol
use gran.Prelude.{
  ℕ, Bool, true, false, not, Option, none, some, List, [], ◌∷◌, ◌++◌, ◌==◌, if◌then◌else◌, ◌>>=◌,
  ◌>>◌,
}
use gran.Packet.{
  Packet, empty_packet, response, set_flags, packet_error, packet_done, packet_convsize,
  packet_convu8,
}
use gran.Component.{Stat, ok, ebusy, is_ebusy, Ptr, Env, send}

pub record SimpleUart : Type 0 where
  pub reply_to : Ptr
  pub pkt : Packet
  pub busy : Bool
  pub printed : List ℕ

unfoldable pub create_simple_uart : SimpleUart
create_simple_uart = record { reply_to = none; pkt = empty_packet; busy = false; printed = [] }

unfoldable pub simple_uart_receive : SimpleUart → ℕ → Packet → Option (Stat × SimpleUart)
simple_uart_receive uart from pkt = if uart.busy then some (ebusy, uart) else (do
  let taken : SimpleUart = record uart { busy = true; reply_to = some from; pkt = response pkt }
  size ← packet_convsize pkt
  if not (size == 1)
      then some (ok, record taken { pkt = set_flags taken.pkt packet_error })
      else (do
        byte ← packet_convu8 pkt
        some (
          ok,
          record taken {
            printed = uart.printed ++ byte ∷ [];
            pkt = set_flags taken.pkt packet_done;
          },
        )))

module _ (e : Env) where
  open e use {Rest}

  unfoldable pub simple_uart_clock : ℕ → SimpleUart → Rest → Option (Stat × SimpleUart × Rest)
  simple_uart_clock self uart rest = if not uart.busy then some (ok, uart, rest) else (do
    (r, rest') ← send e self uart.reply_to uart.pkt rest
    some (ok, record uart { busy = is_ebusy r }, rest'))
