-- ===== src/Component.antt =====
-- include/gran/component.h and the result codes of include/gran/common.h.
-- A component is an address; `none` as a pointer is NULL. What the other components do when a
-- packet is sent to them is not known to the sender: it enters as an `Env`.
pub mod Answer
use gran.Prelude.{ℕ, Bool, true, false, Option, none, some, if◌then◌else◌}
use gran.Packet.{Packet}

pub data Stat : Type 0 where
  ok done ebus ebusy emem enomem eexists enosuch esize : Stat

abbrev pub Ptr : Type 0
Ptr = Option ℕ

-- The components around one component: their state, which of them have a `receive` callback, and
-- what that callback answers. `none` is a failed assertion in a callback. A callback does not call
-- back into the sender, so the sender's own state is no part of `Rest`.
pub record Env : Type 1 where
  pub Rest : Type 0
  pub has_receive : ℕ → Bool
  pub receive : (to from : ℕ) → Packet → Rest → Option (Stat × Rest)

abbrev pub is_ebusy : Stat → Bool
is_ebusy ebusy = true
is_ebusy _ = false

abbrev pub is_ok : Stat → Bool
is_ok ok = true
is_ok _ = false

module _ (e : Env) where
  open e use {Rest, has_receive, receive}

  -- `send`: the target must not be NULL.
  unfoldable pub send : ℕ → Ptr → Packet → Rest → Option (Stat × Rest)
  send from none pkt rest = none
  send from (some to) pkt rest =
      if has_receive to then receive to from pkt rest else some (enosuch, rest)
