-- ===== src/Tests/Memories.antt =====
-- Packets, the memory and the serial port at concrete inputs.
use gran.Prelude.{ℕ, ◌≡◌, some, List, [], ◌∷◌, arith, refl}
use gran.Packet.{
  Packet, create_packet, store_le, packet_write, packet_read, packet_error, is_set, packet_align,
  packet_convto, packet_convsize, packet_conv,
}
use gran.Packet.Copy.{IsCopied}
use gran.Packet.Create.{create_packet-conv, byte, word}
use gran.Component.{ok, send}
use gran.Mem.{SimpleMem, simple_mem_receive}
use gran.Mem.Access.{
  IsRequest, offset_of, served, simple_mem_receive-read, simple_mem_receive-write,
}
use gran.Mem.RoundTrip.{store_load, store_load_lem}
use gran.Mem.Protocol.{simple_mem_receive-is_set}
use gran.Uart.{create_simple_uart, simple_uart_receive}
use gran.Uart.Protocol.{answered, simple_uart_receive-answered}
use gran.Tests.Setup.{mailbox, letter, small_mem, small_mem-IsMem}

abbrev a_store : Packet
a_store = letter 64

abbrev a_load : Packet
a_load = record (letter 64) { flags = packet_read }

a_store-IsRequest : IsRequest a_store
a_store-IsRequest = record { aligned = refl; full = refl }

a_load-IsRequest : IsRequest a_load
a_load-IsRequest = record { aligned = refl; full = refl }

create_packet-conv_example :
    (p : Packet) × (create_packet 64 260 4 (store_le 4 1000) packet_write ≡ some p)
    × (p.to ≡ packet_align 260)
    × (packet_convto p ≡ 260)
    × (packet_convsize p ≡ some 4)
    × (packet_conv 4 p ≡ some 1000)
create_packet-conv_example =
    create_packet-conv 64 260 4 1000 word refl (omega arith) (omega arith) (omega arith)

store_load_example : store_load mailbox 9 small_mem [] 64 260 4 1000 ≡ some 1000
unfolding send
store_load_example =
    store_load_lem mailbox 9 small_mem [] 64 260 4 1000 small_mem-IsMem refl word refl (omega arith)
      (omega arith) (λ pkt. (pkt ∷ [], refl))

simple_mem_receive-read_example :
    (out : List ℕ) × (simple_mem_receive small_mem 3 a_load
      ≡ some (ok, served small_mem 3 (record a_load { payload = out }) small_mem.buf))
    × IsCopied a_load.mask 0 64 (offset_of small_mem a_load) 0 small_mem.buf a_load.payload out
unfolding is_set
simple_mem_receive-read_example =
    simple_mem_receive-read small_mem 3 a_load small_mem-IsMem a_load-IsRequest refl refl

simple_mem_receive-write_example :
    (buf : List ℕ) × (simple_mem_receive small_mem 3 a_store
      ≡ some (ok, served small_mem 3 a_store buf))
    × IsCopied a_store.mask 0 64 0 (offset_of small_mem a_store) a_store.payload small_mem.buf buf
unfolding is_set
simple_mem_receive-write_example =
    simple_mem_receive-write small_mem 3 a_store small_mem-IsMem a_store-IsRequest refl refl refl

-- A request past the end of the memory.
abbrev outside : Packet
outside = record (letter 256) { flags = packet_read }

outside-IsRequest : IsRequest outside
outside-IsRequest = record { aligned = refl; full = refl }

outside_read :
    (out : List ℕ) × (simple_mem_receive small_mem 3 outside
      ≡ some (ok, served small_mem 3 (record outside { payload = out }) small_mem.buf))
    × IsCopied outside.mask 0 64 (offset_of small_mem outside) 0 small_mem.buf outside.payload out
unfolding is_set
outside_read =
    simple_mem_receive-read small_mem 3 outside small_mem-IsMem outside-IsRequest refl refl

abbrev after_outside : SimpleMem
after_outside = served small_mem 3 (record outside { payload = outside_read.0 }) small_mem.buf

simple_mem_receive-is_set_example :
    is_set after_outside.pkt packet_error ≡ is_set outside packet_error
simple_mem_receive-is_set_example =
    simple_mem_receive-is_set small_mem 3 outside (ok, after_outside) refl outside_read.1

simple_uart_receive-answered_example :
    (p : Packet) × (create_packet 64 128 1 (store_le 1 65) packet_write ≡ some p)
    × (simple_uart_receive create_simple_uart 2 p ≡ some (ok, answered create_simple_uart 2 p 1 65))
unfolding create_simple_uart
simple_uart_receive-answered_example =
    simple_uart_receive-answered create_simple_uart 2 64 128 1 65 refl byte refl (omega arith)
      (omega arith) (omega arith)
