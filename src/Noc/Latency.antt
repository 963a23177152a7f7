-- ===== src/Noc/Latency.antt =====
-- src/ideal_noc.c: the count of cycles of a network, over a run of calls.
use native.Mathlib.Nat.{mod-eq_of_lt}
use gran.Prelude.{
  ℕ, ◌≡◌, ◌+◌, ◌%◌, ◌≤◌, true, not, Option, some, List, [], ◌∷◌, arith, refl, ap, sym, ◌∙◌, ◌==◌,
  if◌then◌else◌, u64, ◌>>=◌, >>=-eq-some, some_inj, subst,
}
use gran.Packet.{Packet}
use gran.Component.{Stat, ok, Env}
use gran.Noc.{Noc, create_ideal_noc, ideal_noc_connect, ideal_noc_receive, ideal_noc_clock}

-- What is done to the network from outside.
pub data Event : Type 0 where
  connects : ℕ → ℕ → Event
  receives : Packet → Event
  clocks : Event

one_mod : (l : ℕ) → 2 ≤ l → 1 % l ≡ 1
one_mod l h = mod-eq_of_lt h

module _ (e : Env) (self : ℕ) where
  open e use {Rest}

  unfoldable pub handle : Event → Noc → Rest → Option (Noc × Rest)
  handle (connects c elem) n rest = do (_, n') ← ideal_noc_connect n c elem; some (n', rest)
  handle (receives pkt) n rest = do (_, n') ← ideal_noc_receive n pkt; some (n', rest)
  handle clocks n rest = do (_, n', rest') ← ideal_noc_clock e self n rest; some (n', rest')

  unfoldable pub handle_all : List Event → Noc → Rest → Option (Noc × Rest)
  handle_all [] n rest = some (n, rest)
  handle_all (ev ∷ evs) n rest = do (n', rest') ← handle ev n rest; handle_all evs n' rest'

  -- The count stands at 0 and the latency is at least 2.
  abbrev pub IsStuck : Noc → Type 0
  IsStuck n = (n.counter ≡ 0) × (2 ≤ n.latency)

  clock-IsStuck :
      (n : Noc) (rest : Rest) → IsStuck n → ideal_noc_clock e self n rest ≡ some (ok, n, rest)
  unfolding ideal_noc_clock
  clock-IsStuck n rest h =
      let waits : not ((if n.latency == 0 then 0 else u64 (n.counter + 1) % n.latency) == 0)
          ≡ true =
        ground (arith, one_mod n.latency) in
      rw waits

  connect-IsStuck :
      (n : Noc) (c elem : ℕ) (out : Stat × Noc)
      → IsStuck n
      → ideal_noc_connect n c elem ≡ some out
      → IsStuck out.1
  unfolding ideal_noc_connect
  connect-IsStuck n c elem out h made = ground arith

  receive-IsStuck :
      (n : Noc) (pkt : Packet) (out : Stat × Noc)
      → IsStuck n
      → ideal_noc_receive n pkt ≡ some out
      → IsStuck out.1
  unfolding ideal_noc_receive
  receive-IsStuck n pkt out h made = ground arith

  handle-IsStuck :
      (ev : Event) (n : Noc) (rest : Rest) (out : Noc × Rest)
      → IsStuck n
      → handle ev n rest ≡ some out
      → IsStuck out.0 × (out.1 ≡ rest)
  unfolding handle
  handle-IsStuck (connects c elem) n rest out h made =
      let (o, ran, end) = >>=-eq-some (ideal_noc_connect n c elem) _ made in
      subst (λ (p : Noc × Rest). IsStuck p.0 × (p.1 ≡ rest)) (some_inj end)
        (connect-IsStuck n c elem o h ran, refl)
  handle-IsStuck (receives pkt) n rest out h made =
      let (o, ran, end) = >>=-eq-some (ideal_noc_receive n pkt) _ made in
      subst (λ (p : Noc × Rest). IsStuck p.0 × (p.1 ≡ rest)) (some_inj end)
        (receive-IsStuck n pkt o h ran, refl)
  handle-IsStuck clocks n rest out h made =
      subst (λ (p : Noc × Rest). IsStuck p.0 × (p.1 ≡ rest))
        (some_inj (rw (clock-IsStuck n rest h) at made)) (h, refl)

  handle_all-IsStuck :
      (evs : List Event) (n : Noc) (rest : Rest) (out : Noc × Rest)
      → IsStuck n
      → handle_all evs n rest ≡ some out
      → out.1 ≡ rest
  unfolding handle_all
  handle_all-IsStuck [] n rest out h made = ap (λ (p : Noc × Rest). p.1) (sym (some_inj made))
  handle_all-IsStuck (ev ∷ evs) n rest out h made =
      let (o, ran, more) = >>=-eq-some (handle ev n rest) _ made in
      let (stuck, same) = handle-IsStuck ev n rest o h ran in
      handle_all-IsStuck evs o.0 o.1 out stuck more ∙ same

  -- Whatever connections, packets and clocks a network gets that was made with a latency of two cycles or
  -- more, if none of them is a fault, it sends nothing: the other components are left as they
  -- were.
  pub handle_all-create :
      (elems latency : ℕ) (evs : List Event) (rest : Rest) (out : Noc × Rest)
      → 2 ≤ latency
      → handle_all evs (create_ideal_noc elems latency) rest ≡ some out
      → out.1 ≡ rest
  handle_all-create elems latency evs rest out h made =
      handle_all-IsStuck evs (create_ideal_noc elems latency) rest out
        (unfold create_ideal_noc in (refl, h)) made
