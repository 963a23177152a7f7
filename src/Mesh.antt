-- ===== src/Mesh.antt =====
-- src/mesh: the routers of one, two and three dimensions, and what they share. A router of `sides`
-- directions has `elems` ports for its elements, and after them one port for each direction.
pub mod Line
pub mod Plane
pub mod Space
pub mod Send
pub mod Route
pub mod Hops
pub mod Clock
pub mod Receive
use gran.Prelude.{
  ℕ, zero, suc, ◌+◌, Bool, true, false, not, ◌&&◌, Option, none, some, List, [], ◌∷◌, ltb, ◌==◌,
  if◌then◌else◌, ◌>>=◌, ◌>>◌, assert, get_elem?, set,
}
use gran.Packet.{Packet}
use gran.Component.{Stat, ok, eexists, enosuch, is_ebusy, Ptr, Env, send}
use gran.Reg.{Reg, Pick, place_reg, propagate}

abbrev pub is_null : Ptr → Bool
is_null none = true
is_null (some p) = false

-- `from == port`
abbrev pub is_port : ℕ → Ptr → Bool
is_port from none = false
is_port from (some p) = from == p

-- One round of the loop that selects the oldest packet to process.
unfoldable pub older : ℕ → Reg → Pick → Pick
older i r none = if r.busy then some (i, r) else none
older i r (some (j, s)) =
    if r.busy && ltb r.pkt.timestamp s.pkt.timestamp then some (i, r) else some (j, s)

unfoldable pub oldest_in : List Reg → ℕ → ℕ → Pick → Option Pick
oldest_in ins zero i best = some best
oldest_in ins (suc left) i best = do
  r ← get_elem? ins i
  oldest_in ins left (i + 1) (older i r best)

-- The selected register as a pointer into the input registers.
unfoldable pub pointer : Pick → Option ℕ
pointer none = none
pointer (some (i, r)) = some i

-- A call `propagate(&out[place], …, froms, wants, …)`.
pub record Call : Type 0 where
  pub place : ℕ
  pub froms : List (Option ℕ)
  pub wants : Reg → Bool

-- The input and the output registers.
abbrev pub Banks : Type 0
Banks = List Reg × List Reg

unfoldable pub run_call : Call → Banks → Option Banks
run_call c (ins, outs) = do
  out ← get_elem? outs c.place
  (out', ins') ← propagate out ins c.froms c.wants
  some (ins', set outs c.place out')

-- Calls of `propagate`, one after the other.
unfoldable pub run_calls : List Call → Banks → Option Banks
run_calls [] banks = some banks
run_calls (c ∷ cs) banks = do banks' ← run_call c banks; run_calls cs banks'

-- The calls of the loop over the elements, with `left` elements to go.
unfoldable pub elem_calls : List (Option ℕ) → (ℕ → Reg → Bool) → ℕ → ℕ → List Call
elem_calls froms wants zero i = []
elem_calls froms wants (suc left) i =
    record { place = i; froms = froms; wants = wants i } ∷ elem_calls froms wants left (i + 1)

-- `connect` of an element, and of a direction.
unfoldable pub connect_port : List Ptr → ℕ → ℕ → Option (Stat × List Ptr)
connect_port ports place component = do
  old ← get_elem? ports place
  some (if is_null old then (ok, set ports place (some component)) else (eexists, ports))

-- `place_reg(&in[i], pkt)`
unfoldable pub place_in : List Reg → ℕ → Packet → Option (Stat × List Reg)
place_in ins i pkt = do
  r ← get_elem? ins i
  let (ret, r') = place_reg r pkt
  some (ret, set ins i r')

-- The loop of `receive` of the two- and three-dimensional routers: a packet of an element is
-- stamped. No port from which it could come is `abort`.
unfoldable pub receive_at :
    (timestamp elems from : ℕ)
    → List Ptr
    → (left i : ℕ) → List Reg
    → Packet
    → Option (Stat × List Reg)
receive_at timestamp elems from ports zero i ins pkt = none
receive_at timestamp elems from ports (suc left) i ins pkt = do
  port ← get_elem? ports i
  let rest = receive_at timestamp elems from ports left (i + 1) ins pkt
  if is_port from port
      then place_in ins i (if ltb i elems then record pkt { timestamp = timestamp } else pkt)
      else rest

module _ (e : Env) where
  open e use {Rest}

  -- One round of the loop of `clock_outputs`.
  unfoldable pub offer : ℕ → Ptr → Reg → Rest → Option (Reg × Rest)
  offer self port o rest = if not o.busy then some (o, rest) else (do
    (ret, rest') ← send e self port o.pkt rest
    some (if is_ebusy ret then (o, rest') else (record o { busy = false }, rest')))

  -- `clock_outputs`, with `left` rounds to go.
  unfoldable pub clock_outputs : ℕ → List Ptr → ℕ → ℕ → List Reg → Rest → Option (List Reg × Rest)
  clock_outputs self ports zero i outs rest = some (outs, rest)
  clock_outputs self ports (suc left) i outs rest = do
    o ← get_elem? outs i
    port ← get_elem? ports i
    (o', rest') ← offer self port o rest
    clock_outputs self ports left (i + 1) (set outs i o') rest'

  -- What `clock` of a router does to its registers: it sends the outputs, selects the oldest packet of
  -- its elements, and makes the calls of `propagate` that go with it.
  unfoldable pub clock_registers :
      ℕ
      → (elems places : ℕ) → (Option ℕ → List Call)
      → List Ptr
      → Banks
      → Rest
      → Option (Banks × Rest)
  clock_registers self elems places calls ports (ins, outs) rest = do
    (outs', rest') ← clock_outputs self ports places 0 outs rest
    best ← oldest_in ins elems 0 none
    banks ← run_calls (calls (pointer best)) (ins, outs')
    some (banks, rest')
