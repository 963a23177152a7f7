-- ===== src/Uart/Protocol.antt =====
-- What the port prints, and what it answers.
use gran.Prelude.{
  ℕ, ◌≡◌, ◌+◌, ◌%◌, ◌^◌, ◌≤◌, ◌<◌, true, false, some, [], ◌∷◌, ◌++◌, arith, ◌==◌, if◌then◌else◌,
}
use gran.Packet.{
  Packet, response, set_flags, packet_write, packet_error, packet_done, create_packet, store_le,
  packet_convsize, packet_conv, packet_convu8,
}
use gran.Packet.Mask.{offset_in}
use gran.Packet.Create.{IsWidth, byte, half, word, double, create_packet-conv}
use gran.Component.{Stat, ok, is_ebusy, Env, send}
use gran.Uart.{SimpleUart, simple_uart_receive, simple_uart_clock}

-- The answer to a store of `size` bytes whose low byte is `v`.
abbrev pub answered : SimpleUart → ℕ → Packet → ℕ → ℕ → SimpleUart
answered uart from pkt size v =
    if size == 1
    then record uart {
      busy = true;
      reply_to = some from;
      pkt = set_flags (response pkt) packet_done;
      printed = uart.printed ++ v ∷ [];
    }
    else record uart {
      busy = true;
      reply_to = some from;
      pkt = set_flags (response pkt) packet_error;
    }

receive-answered :
    (uart : SimpleUart) (from : ℕ) (pkt : Packet) (size v : ℕ)
    → IsWidth size
    → uart.busy ≡ false
    → packet_convsize pkt ≡ some size
    → packet_conv size pkt ≡ some v
    → simple_uart_receive uart from pkt ≡ some (ok, answered uart from pkt size v)
unfolding simple_uart_receive packet_convu8
receive-answered uart from pkt size v byte free sized value = rw (free, sized, value)
receive-answered uart from pkt size v half free sized value = rw (free, sized)
receive-answered uart from pkt size v word free sized value = rw (free, sized)
receive-answered uart from pkt size v double free sized value = rw (free, sized)

-- A store to a free port from an aligned source address, of a width of 1, 2, 4 or 8 bytes that stay
-- inside one 64-byte block: one byte is appended to what was printed and is acknowledged; a wider
-- store prints nothing and is answered with the error flag.
pub simple_uart_receive-answered :
    (uart : SimpleUart) (client from to size v : ℕ)
    → uart.busy ≡ false
    → IsWidth size
    → from % 64 ≡ 0
    → to < 2 ^ 64
    → offset_in to + size ≤ 64
    → v < 256 ^ size
    → (p : Packet) × (create_packet from to size (store_le size v) packet_write ≡ some p)
      × (simple_uart_receive uart client p ≡ some (ok, answered uart client p size v))
simple_uart_receive-answered uart client from to size v free width h small fits range =
    let (p, made, _, _, sized, value) =
      create_packet-conv from to size v width h small fits range in
    (p, made, receive-answered uart client p size v width free sized value)

module _ (e : Env) where
  open e use {Rest}

  -- While its answer is refused with `EBUSY` the port stays busy with the same answer; any other reply
  -- frees it. Nothing is printed, and a free port sends nothing.
  pub simple_uart_clock-send :
      (self : ℕ) (uart : SimpleUart) (rest rest' : Rest) (r : Stat)
      → send e self uart.reply_to uart.pkt rest ≡ some (r, rest')
      → simple_uart_clock e self uart rest ≡ (
          if uart.busy
          then some (ok, (if is_ebusy r then uart else record uart { busy = false }), rest')
          else some (ok, uart, rest))
  unfolding simple_uart_clock
  simple_uart_clock-send self uart rest rest' r sent = ground arith
